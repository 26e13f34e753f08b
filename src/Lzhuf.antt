-- ===== src/Lzhuf.antt =====
-- src/web/lzhuf.py: the constants and tables (Tables), the bits of a stream (Bits), the code of a
-- position (Position), the adaptive Huffman tree (Huffman), what is written for a byte or a match
-- (Token), the search trees (Encode), the decoder (Decode), the CRC (Crc), the envelope (Envelope), and
-- the encoder around these (Compress).
pub mod Tables
pub mod Bits
pub mod Position
pub mod Huffman
pub mod Token
pub mod Encode
pub mod Decode
pub mod Crc
pub mod Envelope
pub mod Compress
