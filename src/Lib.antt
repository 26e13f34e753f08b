-- ===== src/Lib.antt =====
-- KP4PRA TNC: models of the protocol code of a packet radio station, with proofs.
--
-- Parts, and the files that model them. Paths are those of the repository.
-- - src/rms/ax25.py: KISS framing (Ax25/Kiss.antt: kiss_encode, KissDecoder), callsigns in address
--   fields (Ax25/Call.antt: encode_call, decode_call), control bytes (Ax25/Control.antt), frames
--   (Ax25/Frame/Split.antt: split_frame, Ax25/Frame/Make.antt: make_frame). The proofs stand in the
--   RoundTrip modules below these files.
-- - src/rms/gateway.py: the link between a radio station and a CMS. Gateway/State.antt has the state
--   of Gateway with a trace of what it sends and reports, Gateway/Relay.antt the task cms_to_rf,
--   Gateway/Handle.antt the handler of received frames with _busy_with_other and
--   _start_new_session. It uses the frames of Ax25; Ax25/Kiss/Reading.antt has the loop that feeds
--   what is read to the decoder. Gateway/Accepting.antt has one I frame in a session,
--   Gateway/Delivery.antt a sequence of them, Gateway/Relaying.antt the relay during the waits,
--   Gateway/Window.antt the send window, Gateway/Sessions.antt how sessions begin, Gateway/Lost.antt a
--   send to the CMS that raises.
-- - src/web/aprs.py: callsigns and passcode (Aprs/Call.antt), message fields
--   (Aprs/Message/Field.antt: sanitize_text, format_message, parse_message), message numbers
--   (Aprs/MsgNo.antt), lines of APRS-IS (Aprs/Tnc2.antt).
-- - src/web/aprschat.py: ChatStore (Chat/Store.antt) and AprsChat (Chat/Session.antt), which uses the
--   message fields of Aprs. Chat/Index.antt has the invariant of the store, Chat/Retries.antt a round
--   of resend_due, Chat/Reach.antt sequences of operations, Chat/Incoming.antt a received message,
--   Chat/Exchange.antt a message and its ack.
-- - src/web/lzhuf.py: constants and tables (Lzhuf/Tables.antt), _BitWriter and _BitReader
--   (Lzhuf/Bits.antt), _encode_position and _decode_position (Lzhuf/Position.antt), _Huff
--   (Lzhuf/Huffman.antt), what _lzss_encode writes for a byte or a match (Lzhuf/Token.antt), its
--   search trees (Lzhuf/Encode.antt) and its main loop with compress (Lzhuf/Compress.antt),
--   _lzss_decode (Lzhuf/Decode.antt), crc16 and compute_checksum (Lzhuf/Crc.antt), decompress and the
--   envelope of compress (Lzhuf/Envelope.antt). Below Lzhuf/Huffman.antt, Shape.antt has the links
--   of the tree, Weights.antt and Updating.antt its weights, Depth.antt the length of a code. Below
--   Lzhuf/Encode.antt, Woven.antt has the invariant of the search trees; below Lzhuf/Compress.antt,
--   Sliding.antt has that of the main loop.
-- - src/web/b2f.py: client_sid and parse_sid (B2f/Sid.antt), build_proposals (B2f/Proposal.antt),
--   parse_fs (B2f/Answers.antt), frame_binary and unframe_binary (B2f/Frames.antt).
-- - src/aprs_clock.py: callsigns, time stamps and the circular difference (Clock/Time.antt), AGW
--   messages (Clock/Agw.antt), NtpLossGate (Clock/Gate.antt), _clock_values and AprsClockService
--   (Clock/Service.antt), which uses the frames of Ax25. The proofs stand in the modules below.
-- - src/vara_launcher.py: what is announced (Vara/Modem.antt, Vara/Announcer.antt) and Launcher
--   (Vara/Launcher.antt: command and handle, cut at the awaits). Vara/Launcher/Sessions.antt has the
--   step relation of any number of connections, Vara/Launcher/Handover.antt the end of a session
--   against the start of the next.
-- - src/tft/xara_feed.py: Conn over a socket in chunks (Feed/Socket.antt), _frame and read_frame
--   (Feed/Frame.antt), XaraState (Feed/State.antt).
-- - src/tft/saver.py: word_for and the movement of Centipede (Saver.antt).
-- - src/web/mailqueue.py: the queue (Mail/Queue.antt), with sequences of its operations in
--   Mail/Queue/Reach.antt. src/web/b2fsend.py: _run_b2f over an abstract connection (Mail/Talk.antt)
--   and send (Mail/Send.antt), which uses the queue, the proposals and the frames; the challenge_response
--   of src/rms/cms.py is in Mail/Challenge.antt.
-- - src/web/mailvalidate.py (Mail/Validate.antt) and src/web/mailbuilder.py (Mail/Build.antt), with
--   their composition in Mail/Build/Headers.antt.
-- - PyText.antt has what these files use of Python's str, Prelude.antt what all modules share, and
--   Tests/ runs at concrete inputs.
--
-- Correspondence. Bytes and texts are lists of native numbers. A coroutine of the gateway is cut at
-- its awaits: one step of the relay task is the code between two of them, and the handler takes the
-- effect of the relay during its own awaits as an argument (other), as the relay takes that of the
-- handler while it closes. Whether the CMS accepts a session and whether cms.send returns or raises
-- are arguments too. An exception is a value (Outcome, Result, none). A message object stands once
-- in the store; the lists of a thread hold its number. A transport accepts every field, and what it
-- is given is the list out. Times are whole numbers of one unit. What a service sees
-- of the world (clocks, the NTP state, the results of commands, random numbers, the login to the CMS)
-- is an argument of its steps. A regular expression is modelled by a test of what it matches; email-validator, textwrap
-- and the digest of hashlib.md5 are arguments.
--
-- Bounds. chunks_loop has one unit of fuel for each byte, and each round takes at least one;
-- decimal_loop has one more than its number, and each round leaves a tenth of it. chunk_frames and
-- unframe_loop have one unit for each byte, and each round that goes on takes at least one. update of
-- the saver has five: it starts at most four step times back. In the Huffman tree scan, update_loop,
-- climb and descend have one unit for each node, and each round goes on to a node of another number in
-- one direction. decode_loop has one for each byte that is asked for, and each round puts one out. The
-- searches of insert_node and delete_node have more than one unit for each insertion so far: no branch
-- of a tree is longer. encode_loop has one for each byte, and each round takes at least one. What is
-- proved of compress holds for at most 3867 bytes: up to there the Huffman tree is too light for a code
-- of more than 16 bits, at which encode_char would raise. Case and digits are
-- those of ASCII, white space that of code points below 256.
--
-- Not modelled: sockets and their reconnect loops, a write to Dire Wolf that raises, the Telnet proxy, the logs and status files, the
-- floating-point position beacon, drawing, the calls of systemctl and BlueZ, and the web application.
-- Of mail the way over RF is left out.
pub mod Prelude
pub mod PyText
pub mod Ax25
pub mod Gateway
pub mod Aprs
pub mod Chat
pub mod Lzhuf
pub mod B2f
pub mod Clock
pub mod Vara
pub mod Feed
pub mod Saver
pub mod Mail
mod Tests
