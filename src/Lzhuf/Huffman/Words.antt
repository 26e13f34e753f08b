-- ===== src/Lzhuf/Huffman/Words.antt =====
-- The code of up to 16 bits, justified to the left, holds these bits.
use kp4pra.Prelude.{all_below, ◌^◌}
use kp4pra.Prelude.{
  ℕ, suc, ◌+◌, ◌-◌, ◌*◌, ◌%◌, ◌≤◌, ◌<◌, ◌≡◌, refl, ap, ◌∙◌, Bool, true, false, some, List, [], ◌∷◌,
  ◌++◌, arith, length, leb, ◌==◌, all_below_sound,
}
use mathlib.Core.Path.{subst}
use native.Mathlib.Nat.{pow-succ', pow-suc, mul-le-mul_right}
use kp4pra.Lzhuf.Bits.{put_code, bit_value, top_bit, BitWriter}
use kp4pra.Lzhuf.Bits.Writing.{IsWritten, code_bits, put_code-IsWritten, power_pos}
use kp4pra.Lzhuf.Huffman.{code_of, put_bits}

zero-add' : (x : ℕ) → 0 * 2 + x ≡ x
zero-add' x = omega arith

code_of_lem :
    (bits : List Bool) (code : ℕ) → code_of code bits ≡ code * 2 ^ length bits + code_of 0 bits
unfolding code_of
code_of_lem [] code = omega arith
code_of_lem (b ∷ bits) code =
    let power : 2 ^ length (b ∷ bits) ≡ 2 * 2 ^ length bits = pow-succ' 2 (length bits) in
    let first : code_of 0 (b ∷ bits) ≡ bit_value b * 2 ^ length bits + code_of 0 bits =
      ap (λ x. code_of x bits) (zero-add' (bit_value b)) ∙ code_of_lem bits (bit_value b) in
    code_of_lem bits (code * 2 + bit_value b) ∙ rw (power, first) (omega arith)

code_of-lt : (bits : List Bool) → code_of 0 bits < 2 ^ length bits
unfolding code_of
code_of-lt [] = omega arith
code_of-lt (true ∷ bits) =
    omega (arith, code_of_lem bits 1, code_of-lt bits, pow-suc 2 (length bits))
code_of-lt (false ∷ bits) =
    omega (arith, code_of_lem bits 0, code_of-lt bits, pow-suc 2 (length bits))

halves_table : all_below 16 (λ a. 2 ^ a * 2 ^ (15 - a) == 0x8000) ≡ true
unfolding all_below
halves_table = refl

halves : (a s : ℕ) → a + s ≡ 15 → 2 ^ a * 2 ^ s ≡ 0x8000
halves a s e =
    let e' : s ≡ 15 - a = omega arith in
    rw e' (
      ground (
        arith,
        all_below_sound 16 (λ a. 2 ^ a * 2 ^ (15 - a) == 0x8000) a halves_table (omega arith),
      ))

-- The product that is left when the first bit is gone is below `0x8000`.
rest_small : (bits : List Bool) (s : ℕ) → length bits + s ≡ 15 → code_of 0 bits * 2 ^ s < 0x8000
rest_small bits s e =
    omega (arith, mul-le-mul_right (2 ^ s) (code_of-lt bits), halves (length bits) s e, power_pos s)

pub code_bits-code_of :
    (bits : List Bool) (s : ℕ)
    → length bits + s ≡ 16
    → code_bits (length bits) (code_of 0 bits * 2 ^ s % 0x10000) ≡ bits
unfolding code_of
code_bits-code_of [] s e = refl
code_bits-code_of (true ∷ bits) s e =
    let small = rest_small bits s (omega arith) in
    let double : 2 ^ suc s ≡ 2 * 2 ^ s = omega (arith, pow-suc 2 s) in
    let top : code_of 1 bits * 2 ^ s ≡ 0x8000 + code_of 0 bits * 2 ^ s = omega (
      arith,
      code_of_lem bits 1,
      halves (length bits) s (omega arith),
      ap (λ x. x * 2 ^ s) (code_of_lem bits 1),
    ) in
    let here : top_bit (code_of 1 bits * 2 ^ s % 0x10000) ≡ true = ground (arith, top, small) in
    let next : code_of 1 bits * 2 ^ s % 0x10000 * 2 % 0x10000
        ≡ code_of 0 bits * 2 ^ suc s % 0x10000 =
      rw (top, double) (omega (arith, small)) in
    rw here (
      ap (◌∷◌ true)
        (ap (code_bits (length bits)) next ∙ code_bits-code_of bits (suc s) (omega arith)))
code_bits-code_of (false ∷ bits) s e =
    let small = rest_small bits s (omega arith) in
    let double : 2 ^ suc s ≡ 2 * 2 ^ s = omega (arith, pow-suc 2 s) in
    let here : top_bit (code_of 0 bits * 2 ^ s % 0x10000) ≡ false = ground (arith, small) in
    let next : code_of 0 bits * 2 ^ s % 0x10000 * 2 % 0x10000
        ≡ code_of 0 bits * 2 ^ suc s % 0x10000 =
      rw double (omega (arith, small)) in
    rw here (
      ap (◌∷◌ false)
        (ap (code_bits (length bits)) next ∙ code_bits-code_of bits (suc s) (omega arith)))

pub put_bits-IsWritten :
    (bits : List Bool) (w : BitWriter) (so_far : List Bool)
    → length bits ≤ 16
    → IsWritten w so_far
    → (w' : BitWriter) × (put_bits bits w ≡ some w') × IsWritten w' (so_far ++ bits)
unfolding put_bits
put_bits-IsWritten bits w so_far p v =
    let fits : leb (length bits) 16 ≡ true = ground arith in
    let w' : BitWriter =
      put_code (length bits) (code_of 0 bits * 2 ^ (16 - length bits) % 0x10000) w in
    rw fits (
      w',
      refl,
      subst (λ b. IsWritten w' (so_far ++ b))
          (code_bits-code_of bits (16 - length bits) (omega arith))
          (put_code-IsWritten (length bits) (code_of 0 bits * 2 ^ (16 - length bits) % 0x10000) w
            so_far v),
    )
