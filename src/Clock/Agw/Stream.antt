-- ===== src/Clock/Agw/Stream.antt =====
-- AGW messages in a stream: each is read whole, and the stream stands at the next.
use kp4pra.Prelude.{==_iff}
use kp4pra.Prelude.{true}
use mathlib.Core.Path.{ap₂}
use kp4pra.Prelude.{false}
use kp4pra.Prelude.{
  ℕ, ◌/◌, ◌%◌, ◌≤◌, ◌<◌, ◌≡◌, refl, sym, ap, ◌∙◌, some, ◌∷◌, ◌++◌, Bytes, arith, length, take, drop,
  take-append, drop-append, length-append, append_assoc, ltb, ◌==◌, if◌then◌else◌,
}
use kp4pra.Clock.Agw.{
  call, le32, data_len, byte_at, parse_agw_message, got, refused, readexactly, read_body, read_data,
  parsed, read_agw_message, header_size, agw_max_data,
}

-- The header of a message as the protocol lays it out: the port, the kind, the PID, two callsign
-- fields of ten bytes, and the length.
abbrev pub agw_header : ℕ → ℕ → ℕ → Bytes → Bytes → ℕ → Bytes → Bytes
agw_header port kind pid from to n user =
    port
    ∷ 0
    ∷ 0
    ∷ 0
    ∷ kind
    ∷ 0
    ∷ pid
    ∷ 0
    ∷ (from ++ (to ++ (n % 256 ∷ n / 256 % 256 ∷ n / 65536 % 256 ∷ n / 16777216 % 256 ∷ user)))

readexactly-append :
    (n : ℕ) (s rest : Bytes) → length s ≡ n → readexactly n (s ++ rest) ≡ got s rest
unfolding readexactly
readexactly-append n s rest e =
    let enough : ltb (length (s ++ rest)) n ≡ false = ground (arith, length-append s rest) in
    rw enough (
      ap (λ k. got (take k (s ++ rest)) (drop k (s ++ rest))) (sym e)
      ∙ ap₂ got (take-append s rest) (drop-append s rest))

module _ (port kind pid n : ℕ) (from to user : Bytes) (from_ten : length from ≡ 10)
    (to_ten : length to ≡ 10) (user_four : length user ≡ 4) where
  abbrev tail : Bytes
  tail = n % 256 ∷ n / 256 % 256 ∷ n / 65536 % 256 ∷ n / 16777216 % 256 ∷ user

  length-agw_header : length (agw_header port kind pid from to n user) ≡ header_size
  length-agw_header = omega (arith, length-append from (to ++ tail), length-append to tail)

  from_field : take 10 (drop 8 (agw_header port kind pid from to n user)) ≡ from
  from_field =
      ap (λ k. take k (from ++ (to ++ tail))) (sym from_ten) ∙ take-append from (to ++ tail)

  to_field : take 10 (drop 18 (agw_header port kind pid from to n user)) ≡ to
  to_field =
      ap (λ k. take 10 (drop k (from ++ (to ++ tail)))) (sym from_ten)
      ∙ ap (take 10) (drop-append from (to ++ tail))
      ∙ ap (λ k. take k (to ++ tail)) (sym to_ten)
      ∙ take-append to tail

  tail_field : drop 28 (agw_header port kind pid from to n user) ≡ tail
  tail_field =
      let both : 20 ≡ length (from ++ to) = omega (arith, length-append from to) in
      ap (drop 20) (sym (append_assoc from to tail))
      ∙ ap (λ k. drop k ((from ++ to) ++ tail)) both
      ∙ drop-append (from ++ to) tail

  data_len-agw_header : n < 4294967296 → data_len (agw_header port kind pid from to n user) ≡ n
  unfolding data_len le32
  data_len-agw_header h = ap le32 tail_field ∙ omega arith

  parse_agw_message-agw_header :
      (payload : Bytes)
      → n ≡ length payload
      → n < 4294967296
      → parse_agw_message (agw_header port kind pid from to n user) payload
        ≡ some (record {
          port = port;
          kind = kind;
          pid = pid;
          call_from = call from;
          call_to = call to;
          payload = payload;
        })
  unfolding parse_agw_message byte_at
  parse_agw_message-agw_header payload e h =
      let whole : (length (agw_header port kind pid from to n user) == header_size) ≡ true =
        (==_iff _ _).1 length-agw_header in
      let fits : (data_len (agw_header port kind pid from to n user) == length payload) ≡ true =
        (==_iff _ _).1 (data_len-agw_header h ∙ e) in
      rw (whole, fits, from_field, to_field) refl

  -- A message of at most 4096 bytes is read whole from the stream, with its callsigns trimmed, and
  -- the stream stands behind it.
  pub read_agw_message-agw_header :
      (payload rest : Bytes)
      → n ≡ length payload
      → n ≤ agw_max_data
      → read_agw_message (agw_header port kind pid from to n user ++ (payload ++ rest))
        ≡ got
            (record {
              port = port;
              kind = kind;
              pid = pid;
              call_from = call from;
              call_to = call to;
              payload = payload;
            })
            rest
  unfolding read_agw_message read_body read_data parsed
  read_agw_message-agw_header payload rest e h =
      let header = agw_header port kind pid from to n user in
      let small : n < 4294967296 = omega arith in
      let allowed : ltb agw_max_data (data_len header) ≡ false =
        ground (arith, data_len-agw_header small) in
      ap read_body (readexactly-append header_size header (payload ++ rest) length-agw_header)
      ∙ ap
          (λ b.
            if b
            then refused
            else read_data header (readexactly (data_len header) (payload ++ rest)))
          allowed
      ∙ ap (read_data header) (
          ap (λ k. readexactly k (payload ++ rest)) (data_len-agw_header small)
          ∙ readexactly-append n payload rest (sym e))
      ∙ ap (λ o. parsed o rest) (parse_agw_message-agw_header payload e small)

  -- A header that announces more than 4096 bytes is refused before they are read.
  pub read_agw_message-refused :
      (rest : Bytes)
      → agw_max_data < n
      → n < 4294967296
      → read_agw_message (agw_header port kind pid from to n user ++ rest) ≡ refused
  unfolding read_agw_message read_body
  read_agw_message-refused rest h small =
      let header = agw_header port kind pid from to n user in
      let large : ltb agw_max_data (data_len header) ≡ true =
        ground (arith, data_len-agw_header small) in
      ap read_body (readexactly-append header_size header rest length-agw_header)
      ∙ ap (λ b. if b then refused else read_data header (readexactly (data_len header) rest)) large
