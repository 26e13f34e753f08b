-- ===== src/Ax25/Frame/RoundTrip.antt =====
-- A frame that `make_frame` builds from canonical callsigns is read back by `split_frame`.
use kp4pra.Ax25.Frame.Split.{read_control}
use kp4pra.Prelude.{is_nil-map}
use kp4pra.Prelude.{
  ℕ, ◌+◌, ◌%◌, ◌≤◌, ◌<◌, ◌≡◌, refl, ap, ◌∙◌, Bool, true, false, not, Option, none, some, List, [],
  ◌∷◌, ◌++◌, map, arith, append-nil, append_assoc, ltb, ◌==◌, if◌then◌else◌, Bytes, Text, All,
  length, length-append, length-map, is_nil, all_below, all_below_sound,
}
use kp4pra.PyText.{ljust}
use kp4pra.Ax25.Call.{decode_call, call_text, shifted, ssid_byte}
use kp4pra.Ax25.Call.RoundTrip.{
  IsCall, address, encode_call-call_text, decode_call-address, strip-call_text,
  length-call_text_pos,
}
use kp4pra.PyText.Laws.{length-ljust}
use kp4pra.Ax25.Frame.Split.{ok, err, read_addresses, has_pid, split_frame, too_many_addresses}
use kp4pra.Ax25.Frame.Make.{named, encode_digis, encode_pid, make_frame}

-- A callsign as its base and its SSID.
pub record Call : Type 0 where
  pub base : Text
  pub ssid : ℕ

abbrev pub text : Call → Text
text c = call_text c.base c.ssid

abbrev pub IsCanonical : Call → Type 0
IsCanonical c = IsCall c.base c.ssid

abbrev field : Call → Bool → Bool → Bytes
field c = address c.base c.ssid

last_bit_table :
    (last command : Bool)
    → all_below 16 (λ n. ssid_byte n last command % 2 == (if last then 1 else 0)) ≡ true
unfolding all_below ssid_byte
last_bit_table true true = refl
last_bit_table true false = refl
last_bit_table false true = refl
last_bit_table false false = refl

last_bit : (n : ℕ) (last command : Bool) → n < 16 → (ssid_byte n last command % 2 == 1) ≡ last
last_bit n true command h = ground (arith, all_below_sound 16 _ n (last_bit_table true command) h)
last_bit n false command h = ground (arith, all_below_sound 16 _ n (last_bit_table false command) h)

length-base : (c : Call) → IsCanonical c → length (map shifted (ljust 6 c.base)) ≡ 6
length-base c v = length-map shifted (ljust 6 c.base) ∙ length-ljust 6 c.base v.fits

-- One round of the loop, at six bytes and the seventh.
read_addresses_round :
    (addrs : List Text) (s : Bytes) (g : ℕ) (rest : Bytes)
    → length s ≡ 6
    → read_addresses addrs (s ++ g ∷ rest) ≡ (
        if g % 2 == 1
        then ok (addrs ++ decode_call s g ∷ [], rest)
        else if ltb 10 (length (addrs ++ decode_call s g ∷ []))
        then err too_many_addresses
        else read_addresses (addrs ++ decode_call s g ∷ []) rest)
unfolding read_addresses
read_addresses_round addrs (a ∷ b ∷ c ∷ d ∷ e ∷ f ∷ []) g rest h = refl
read_addresses_round addrs [] g rest h = absurd (omega arith)
read_addresses_round addrs (a ∷ []) g rest h = absurd (omega arith)
read_addresses_round addrs (a ∷ b ∷ []) g rest h = absurd (omega arith)
read_addresses_round addrs (a ∷ b ∷ c ∷ []) g rest h = absurd (omega arith)
read_addresses_round addrs (a ∷ b ∷ c ∷ d ∷ []) g rest h = absurd (omega arith)
read_addresses_round addrs (a ∷ b ∷ c ∷ d ∷ e ∷ []) g rest h = absurd (omega arith)
read_addresses_round addrs (a ∷ b ∷ c ∷ d ∷ e ∷ f ∷ g' ∷ s) g rest h = absurd (omega arith)

-- One field of a canonical callsign.
read_addresses-field :
    (addrs : List Text) (c : Call) (last command : Bool) (rest : Bytes)
    → IsCanonical c
    → (last ≡ false → length addrs ≤ 9)
    → read_addresses addrs (field c last command ++ rest) ≡ (
        if last
        then ok (addrs ++ text c ∷ [], rest)
        else read_addresses (addrs ++ text c ∷ []) rest)
read_addresses-field addrs c last command rest v h =
    ap (read_addresses addrs) (append_assoc (map shifted (ljust 6 c.base)) _ rest)
    ∙ read_addresses_round addrs (map shifted (ljust 6 c.base)) (ssid_byte c.ssid last command) rest
        (length-base c v)
    ∙ rw
        (decode_call-address c.base c.ssid last command v, last_bit c.ssid last command v.ssid_fits)
        (ground (arith, length-append addrs (text c ∷ [])))

-- The digipeater fields; the last one ends the address field.
digi_bytes : List Call → Bytes
digi_bytes [] = []
digi_bytes (c ∷ cs) = field c (is_nil cs) false ++ digi_bytes cs

encode_digis-digi_bytes :
    (cs : List Call) → All IsCanonical cs → encode_digis (map text cs) ≡ some (digi_bytes cs)
unfolding encode_digis digi_bytes
encode_digis-digi_bytes [] h = refl
encode_digis-digi_bytes (c ∷ cs) h = rw (
  encode_call-call_text c.base c.ssid (is_nil (map text cs)) false h.0,
  encode_digis-digi_bytes cs h.1,
  is_nil-map,
)

is_nil-call_text : (c : Call) → IsCanonical c → is_nil (text c) ≡ false
is_nil-call_text c v = nonempty (text c) (length-call_text_pos c.base c.ssid v.nonempty)
  where
    nonempty : (s : Text) → 1 ≤ length s → is_nil s ≡ false
    nonempty [] h = absurd (omega arith)
    nonempty (x ∷ s) h = refl

named-canonical : (cs : List Call) → All IsCanonical cs → named (map text cs) ≡ map text cs
unfolding named
named-canonical [] h = refl
named-canonical (c ∷ cs) h =
    rw (is_nil-call_text c h.0, strip-call_text c.base c.ssid h.0.chars, is_nil-call_text c h.0)
      (ap (◌∷◌ (text c)) (named-canonical cs h.1))

-- The loop reads the digipeaters to the last, and no further.
read_addresses-digi_bytes :
    (addrs : List Text) (c : Call) (cs : List Call) (rest : Bytes)
    → All IsCanonical (c ∷ cs)
    → length addrs + length (c ∷ cs) ≤ 11
    → read_addresses addrs (digi_bytes (c ∷ cs) ++ rest) ≡ ok (addrs ++ map text (c ∷ cs), rest)
unfolding digi_bytes
read_addresses-digi_bytes addrs c [] rest v h =
    ap (λ t. read_addresses addrs (t ++ rest)) (append-nil (field c true false))
    ∙ read_addresses-field addrs c true false rest v.0 (λ e. cc)
read_addresses-digi_bytes addrs c (c' ∷ cs) rest v h =
    ap (read_addresses addrs) (append_assoc (field c false false) (digi_bytes (c' ∷ cs)) rest)
    ∙ read_addresses-field addrs c false false (digi_bytes (c' ∷ cs) ++ rest) v.0 (λ e. omega arith)
    ∙ read_addresses-digi_bytes (addrs ++ text c ∷ []) c' cs rest v.1
        (omega (arith, length-append addrs (text c ∷ [])))
    ∙ ap (λ t. ok (t, rest)) (append_assoc addrs (text c ∷ []) (map text (c' ∷ cs)))

-- The bytes of a frame between canonical stations.
pub frame_bytes : Call → Call → ℕ → Bytes → Option ℕ → Bool → List Call → Bytes
frame_bytes dest src ctrl payload pid response digis =
    field dest false (not response)
    ++ (field src (is_nil digis) response
        ++ (digi_bytes digis ++ (ctrl ∷ (encode_pid pid ++ payload))))

pub make_frame-frame_bytes :
    (dest src : Call) (ctrl : ℕ) (payload : Bytes) (pid : Option ℕ) (response : Bool)
    (digis : List Call)
    → IsCanonical dest
    → IsCanonical src
    → All IsCanonical digis
    → make_frame (text dest) (text src) ctrl payload pid response (map text digis)
      ≡ some (frame_bytes dest src ctrl payload pid response digis)
unfolding make_frame frame_bytes
make_frame-frame_bytes dest src ctrl payload pid response digis vd vs vg = rw (
  named-canonical digis vg,
  is_nil-map,
  encode_call-call_text dest.base dest.ssid false (not response) vd,
  encode_call-call_text src.base src.ssid (is_nil digis) response vs,
  encode_digis-digi_bytes digis vg,
)

-- The whole address field.
read_addresses-frame_bytes :
    (dest src : Call) (digis : List Call) (response : Bool) (rest : Bytes)
    → IsCanonical dest
    → IsCanonical src
    → All IsCanonical digis
    → length digis ≤ 9
    → read_addresses [] (
        field dest false (not response)
        ++ (field src (is_nil digis) response ++ (digi_bytes digis ++ rest)))
      ≡ ok (text dest ∷ text src ∷ map text digis, rest)
unfolding digi_bytes
read_addresses-frame_bytes dest src [] response rest vd vs vg h =
    read_addresses-field [] dest false (not response) _ vd (λ e. omega arith)
    ∙ read_addresses-field (text dest ∷ []) src true response rest vs (λ e. cc)
read_addresses-frame_bytes dest src (c ∷ cs) response rest vd vs vg h =
    read_addresses-field [] dest false (not response) _ vd (λ e. omega arith)
    ∙ read_addresses-field (text dest ∷ []) src false response _ vs (λ e. omega arith)
    ∙ read_addresses-digi_bytes (text dest ∷ text src ∷ []) c cs rest vg (omega arith)

-- Whether a control byte is followed by a PID.
abbrev pub PidFits : ℕ → Option ℕ → Type 0
PidFits ctrl none = has_pid ctrl ≡ false
PidFits ctrl (some pid) = has_pid ctrl ≡ true

read_control-frame :
    (dest src : Text) (path : List Text) (ctrl : ℕ) (payload : Bytes) (pid : Option ℕ)
    → PidFits ctrl pid
    → read_control (dest ∷ src ∷ path) (ctrl ∷ (encode_pid pid ++ payload))
      ≡ ok (record {
        dest = dest;
        src = src;
        path = path;
        ctrl = ctrl;
        pid = pid;
        payload = payload;
      })
unfolding read_control encode_pid
read_control-frame dest src path ctrl payload none h = rw h
read_control-frame dest src path ctrl payload (some pid) h = rw h

length-frame_bytes :
    (dest src : Call) (ctrl : ℕ) (payload : Bytes) (pid : Option ℕ) (response : Bool)
    (digis : List Call)
    → IsCanonical dest
    → IsCanonical src
    → 15 ≤ length (frame_bytes dest src ctrl payload pid response digis)
unfolding frame_bytes
length-frame_bytes dest src ctrl payload pid response digis vd vs =
    omega (arith, length-append {0}, length-base dest vd, length-base src vs)

split_frame-read_control :
    (bytes : Bytes) (addrs : List Text) (rest : Bytes)
    → 15 ≤ length bytes
    → read_addresses [] bytes ≡ ok (addrs, rest)
    → split_frame bytes ≡ read_control addrs rest
unfolding split_frame
split_frame-read_control bytes addrs rest h e = rw e (ground arith)

-- Between canonical callsigns, with at most nine digipeaters and a PID exactly where the control
-- byte asks for one, `make_frame` succeeds and `split_frame` returns every field.
pub split_frame-make_frame :
    (dest src : Call) (ctrl : ℕ) (payload : Bytes) (pid : Option ℕ) (response : Bool)
    (digis : List Call)
    → IsCanonical dest
    → IsCanonical src
    → All IsCanonical digis
    → length digis ≤ 9
    → PidFits ctrl pid
    → (bytes : Bytes) × (make_frame
          (text dest)
          (text src)
          ctrl
          payload
          pid
          response
          (map text digis)
        ≡ some bytes)
      × (split_frame bytes
          ≡ ok (record {
            dest = text dest;
            src = text src;
            path = map text digis;
            ctrl = ctrl;
            pid = pid;
            payload = payload;
          }))
unfolding frame_bytes
split_frame-make_frame dest src ctrl payload pid response digis vd vs vg h p = (
  frame_bytes dest src ctrl payload pid response digis,
  make_frame-frame_bytes dest src ctrl payload pid response digis vd vs vg,
  split_frame-read_control _ _ _ (length-frame_bytes dest src ctrl payload pid response digis vd vs)
        (read_addresses-frame_bytes dest src digis response _ vd vs vg h)
      ∙ read_control-frame (text dest) (text src) (map text digis) ctrl payload pid p,
)
