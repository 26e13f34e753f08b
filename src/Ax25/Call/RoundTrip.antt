-- ===== src/Ax25/Call/RoundTrip.antt =====
-- A callsign in its canonical form survives the address field.
use kp4pra.PyText.Decimal.{length-decimal}
use kp4pra.Prelude.{length-append}
use kp4pra.PyText.Decimal.{int-decimal}
use mathlib.Core.Path.{ap₂}
use kp4pra.PyText.Decimal.{length-decimal_pos}
use kp4pra.Prelude.{
  ℕ, zero, suc, ◌-◌, ◌≤◌, ◌<◌, ◌≡◌, ◌≢◌, refl, ap, ◌∙◌, Bool, true, false, some, [], ◌∷◌, ◌++◌, map,
  arith, ◌==◌, if◌then◌else◌, Bool-cases, inl, inr, Bytes, Text, All, All-append, All-imp, length,
  take-of_le, replicate, all_below, all_below_sound, ==_iff, pos, low_nibble,
}
use kp4pra.PyText.{is_space, is_digit, is_upper, is_lower, upper, strip, partition, ljust}
use kp4pra.PyText.Decimal.{int, decimal, decimal-IsDigit, IsDigit}
use kp4pra.PyText.Laws.{
  IsSolid, IsCallChar, strip-All, strip-ljust, upper-All, partition-here, partition-absent,
}
use kp4pra.Ax25.Call.{
  call_parts, call_ssid, ssid_byte, shifted, halved, encode_call, byte_ssid, call_text, decode_call,
}

-- A base callsign of one to six characters `[A-Z0-9]` and an SSID of four bits.
pub record IsCall (base : Text) (ssid : ℕ) : Type 0 where
  pub chars : All IsCallChar base
  pub nonempty : 1 ≤ length base
  pub fits : length base ≤ 6
  pub ssid_fits : ssid < 16

-- What the laws of text ask of one character.
char-IsSolid : (c : ℕ) → IsCallChar c → IsSolid c
unfolding is_space is_upper is_digit
char-IsSolid c h = ground arith

char-not-lower : (c : ℕ) → IsCallChar c → is_lower c ≡ false
unfolding is_lower is_upper is_digit
char-not-lower c h = ground arith

char-ne-dash : (c : ℕ) → IsCallChar c → c ≢ b'-'
unfolding is_upper is_digit
char-ne-dash c h = ground arith

digit-IsCallChar : (c : ℕ) → IsDigit c → IsCallChar c
digit-IsCallChar c h = inr h

decimal-IsCallChar : (n : ℕ) → All IsCallChar (decimal n)
decimal-IsCallChar n = All-imp IsDigit IsCallChar digit-IsCallChar (decimal n) (decimal-IsDigit n)

-- The characters of a canonical callsign are call characters and a dash: no white space, no lower
-- case letter.
abbrev IsPlain : ℕ → Type 0
IsPlain c = IsSolid c × (is_lower c ≡ false)

char-IsPlain : (c : ℕ) → IsCallChar c → IsPlain c
char-IsPlain c h = (char-IsSolid c h, char-not-lower c h)

call_text-IsPlain :
    (base : Text) (ssid : ℕ) → All IsCallChar base → All IsPlain (call_text base ssid)
unfolding call_text is_space is_lower
call_text-IsPlain base ssid h = elim (Bool-cases (ssid == 0)) [
  | inl e ↦ rw e (All-imp IsCallChar IsPlain char-IsPlain base h)
  | inr n ↦ rw n (
      All-append IsPlain base (b'-' ∷ decimal ssid) (All-imp IsCallChar IsPlain char-IsPlain base h)
        (
          (refl, refl),
          All-imp IsCallChar IsPlain char-IsPlain (decimal ssid) (decimal-IsCallChar ssid),
        ))
]

pub strip-call_text :
    (base : Text) (ssid : ℕ)
    → All IsCallChar base
    → strip (call_text base ssid) ≡ call_text base ssid
strip-call_text base ssid h =
    strip-All (call_text base ssid)
      (All-imp IsPlain IsSolid (λ c p. p.0) _ (call_text-IsPlain base ssid h))

pub call_text-IsSolid :
    (base : Text) (ssid : ℕ) → All IsCallChar base → All IsSolid (call_text base ssid)
call_text-IsSolid base ssid h =
    All-imp IsPlain IsSolid (λ c p. p.0) _ (call_text-IsPlain base ssid h)

pub length-call_text :
    (base : Text) (ssid : ℕ) → length base ≤ 6 → ssid < 16 → length (call_text base ssid) ≤ 9
unfolding call_text
length-call_text base ssid h k =
    ground (arith, length-append base (b'-' ∷ decimal ssid), length-decimal 1 ssid (omega arith))

pub length-call_text_pos :
    (base : Text) (ssid : ℕ) → 1 ≤ length base → 1 ≤ length (call_text base ssid)
unfolding call_text
length-call_text_pos base ssid h = ground (arith, length-append base (b'-' ∷ decimal ssid))

pub upper-call_text :
    (base : Text) (ssid : ℕ)
    → All IsCallChar base
    → upper (call_text base ssid) ≡ call_text base ssid
upper-call_text base ssid h =
    upper-All (call_text base ssid)
      (All-imp IsPlain (λ c. is_lower c ≡ false) (λ c p. p.1) _ (call_text-IsPlain base ssid h))

-- A canonical callsign is in upper case and has no white space round it.
pub strip-upper-call_text :
    (base : Text) (ssid : ℕ)
    → All IsCallChar base
    → strip (upper (call_text base ssid)) ≡ call_text base ssid
strip-upper-call_text base ssid h =
    let plain = call_text-IsPlain base ssid h in
    ap strip (
      upper-All (call_text base ssid)
        (All-imp IsPlain (λ c. is_lower c ≡ false) (λ c p. p.1) _ plain))
    ∙ strip-All (call_text base ssid) (All-imp IsPlain IsSolid (λ c p. p.0) _ plain)

ssid_text : ℕ → Text
ssid_text n = if n == 0 then [] else decimal n

partition-call_text :
    (base : Text) (ssid : ℕ)
    → All IsCallChar base
    → partition b'-' (call_text base ssid) ≡ (base, ssid_text ssid)
unfolding call_text ssid_text
partition-call_text base ssid h =
    let no_dash = All-imp IsCallChar (λ c. c ≢ b'-') char-ne-dash base h in
    ground
      (arith, partition-absent b'-' base no_dash, partition-here b'-' base (decimal ssid) no_dash)

call_parts-call_text :
    (base : Text) (ssid : ℕ)
    → All IsCallChar base
    → call_parts (call_text base ssid) ≡ (base, ssid_text ssid)
unfolding call_parts ssid_text
call_parts-call_text base ssid h =
    rw (strip-upper-call_text base ssid h) (partition-call_text base ssid h)

-- `int(str(n))` is `n`, for all SSIDs.
call_ssid-decimal : (n : ℕ) → call_ssid (decimal n) ≡ some (pos n)
call_ssid-decimal n = nonempty (decimal n) (length-decimal_pos n) ∙ int-decimal n
  where
    nonempty : (s : Text) → 1 ≤ length s → call_ssid s ≡ int s
    nonempty [] h = absurd (omega arith)
    nonempty (c ∷ s) h = unfold call_ssid in refl

call_ssid-ssid_text : (n : ℕ) → call_ssid (ssid_text n) ≡ some (pos n)
unfolding ssid_text
call_ssid-ssid_text n = elim (Bool-cases (n == 0)) [
  | inl e ↦ rw e (unfold call_ssid in ground arith)
  | inr ne ↦ rw ne (call_ssid-decimal n)
]

byte_ssid_table :
    (last command : Bool) → all_below 16 (λ n. byte_ssid (ssid_byte n last command) == n) ≡ true
unfolding all_below ssid_byte
byte_ssid_table true true = refl
byte_ssid_table true false = refl
byte_ssid_table false true = refl
byte_ssid_table false false = refl

byte_ssid-ssid_byte :
    (n : ℕ) (last command : Bool) → n < 16 → byte_ssid (ssid_byte n last command) ≡ n
byte_ssid-ssid_byte n last command h =
    (==_iff _ n).0 (all_below_sound 16 _ n (byte_ssid_table last command) h)

char_small : (c : ℕ) → IsCallChar c → c < 128
unfolding is_upper is_digit
char_small c h = ground arith

halved-shifted : (s : Text) → All (λ c. c < 128) s → map halved (map shifted s) ≡ s
halved-shifted [] h = refl
halved-shifted (c ∷ s) h = ap₂ ◌∷◌ (omega arith) (halved-shifted s h.1)

All-ljust : (n : ℕ) (s : Text) → All IsCallChar s → All (λ c. c < 128) (ljust n s)
unfolding ljust
All-ljust n s h =
    All-append (λ c. c < 128) s _ (All-imp IsCallChar (λ c. c < 128) char_small s h)
      (blanks (n - length s))
  where
    blanks : (m : ℕ) → All (λ c. c < 128) (replicate m b' ')
    blanks zero = tt
    blanks (suc m) = (omega arith, blanks m)

-- The seven bytes of a canonical callsign's address.
abbrev pub address : Text → ℕ → Bool → Bool → Bytes
address base ssid last command = map shifted (ljust 6 base) ++ ssid_byte ssid last command ∷ []

low_nibble-pos : (n : ℕ) → n < 16 → low_nibble (pos n) ≡ n
unfolding low_nibble
low_nibble-pos n h = omega arith

-- A canonical callsign is accepted.
pub encode_call-call_text :
    (base : Text) (ssid : ℕ) (last command : Bool)
    → IsCall base ssid
    → encode_call (call_text base ssid) last command ≡ some (address base ssid last command)
unfolding encode_call
encode_call-call_text base ssid last command v =
    rw (call_parts-call_text base ssid v.chars, call_ssid-ssid_text, take-of_le 6 base v.fits)
      (ap (λ (n : ℕ). some (address_of n)) (low_nibble-pos ssid v.ssid_fits))
  where
    address_of : ℕ → Bytes
    address_of n = map shifted (ljust 6 base) ++ ssid_byte n last command ∷ []

-- Its address decodes to the callsign.
pub decode_call-address :
    (base : Text) (ssid : ℕ) (last command : Bool)
    → IsCall base ssid
    → decode_call (map shifted (ljust 6 base)) (ssid_byte ssid last command) ≡ call_text base ssid
unfolding decode_call
decode_call-address base ssid last command v = rw (
  halved-shifted (ljust 6 base) (All-ljust 6 base v.chars),
  byte_ssid-ssid_byte ssid last command v.ssid_fits,
  strip-ljust 6 base (All-imp IsCallChar IsSolid char-IsSolid base v.chars),
)
