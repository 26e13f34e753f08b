-- ===== src/Lzhuf/Position/Stream.antt =====
-- A position is written as its bits, and a reader of the bytes has their bits ahead.
use mathlib.Core.Path.{subst}
use kp4pra.Prelude.{◌&&◌}
use kp4pra.Prelude.{
  ℕ, ◌*◌, ◌/◌, ◌%◌, ◌<◌, ◌≡◌, refl, ap, ◌∙◌, true, false, Bool, Option, none, some, List, ◌++◌,
  Bytes, arith, get_elem?, all_below, all_below_sound, append_assoc,
}
use kp4pra.Prelude.Maybe.{◌>>=◌}
use kp4pra.Lzhuf.Tables.{p_len, p_code}
use kp4pra.Lzhuf.Bits.{BitWriter, new_reader, put_code}
use kp4pra.Lzhuf.Bits.Reading.{IsReady, bytes_bits}
use kp4pra.Lzhuf.Bits.Writing.{IsWritten, code_bits, put_code-IsWritten}
use kp4pra.Lzhuf.Position.{encode_position}
use kp4pra.Lzhuf.Position.RoundTrip.{or_zero, position_bits}

is_some : Option ℕ → Bool
is_some none = false
is_some (some x) = true

is_some_lem : (o : Option ℕ) → is_some o ≡ true → o ≡ some (or_zero o)
unfolding is_some
is_some_lem none e = absurd (cc e)
is_some_lem (some x) e = refl

rows_table : all_below 64 (λ i. is_some (get_elem? p_len i) && is_some (get_elem? p_code i)) ≡ true
unfolding all_below is_some p_len p_code
rows_table = refl

rows : (i : ℕ) → i < 64 → (is_some (get_elem? p_len i) && is_some (get_elem? p_code i)) ≡ true
rows i h =
    all_below_sound 64 (λ j. is_some (get_elem? p_len j) && is_some (get_elem? p_code j)) i
      rows_table h

both : (a b : Bool) → (a && b) ≡ true → (a ≡ true) × (b ≡ true)
both true true e = (refl, refl)
both true false e = absurd (cc e)
both false b e = absurd (cc e)

pub encode_position-IsWritten :
    (pos : ℕ) (w : BitWriter) (bits : List Bool)
    → pos < 4096
    → IsWritten w bits
    → (w' : BitWriter) × (encode_position pos w ≡ some w')
      × IsWritten w' (bits ++ position_bits pos)
unfolding encode_position position_bits
encode_position-IsWritten pos w bits h v =
    let row : pos / 64 < 64 = omega arith in
    let (has_len, has_code) =
      both (is_some (get_elem? p_len (pos / 64))) (is_some (get_elem? p_code (pos / 64)))
        (rows (pos / 64) row) in
    let len = or_zero (get_elem? p_len (pos / 64)) in
    let code = or_zero (get_elem? p_code (pos / 64)) * 256 % 0x10000 in
    let low = pos % 64 * 0x400 % 0x10000 in
    (
      put_code 6 low (put_code len code w),
      ap
            (λ o. o >>= λ l. get_elem? p_code (pos / 64) >>= λ c.
              some (put_code 6 low (put_code l (c * 256 % 0x10000) w)))
            (is_some_lem (get_elem? p_len (pos / 64)) has_len)
          ∙ ap (λ o. o >>= λ c. some (put_code 6 low (put_code len (c * 256 % 0x10000) w)))
              (is_some_lem (get_elem? p_code (pos / 64)) has_code),
      subst (IsWritten (put_code 6 low (put_code len code w)))
          (append_assoc bits (code_bits len code) (code_bits 6 low))
          (put_code-IsWritten 6 low (put_code len code w) (bits ++ code_bits len code)
            (put_code-IsWritten len code w bits v)),
    )

pub new_reader-IsReady : (s : Bytes) → IsReady (new_reader s) (bytes_bits s)
new_reader-IsReady s = record { left = 0; masked = refl; coming = refl }
