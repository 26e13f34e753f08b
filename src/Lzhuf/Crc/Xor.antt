-- ===== src/Lzhuf/Crc/Xor.antt =====
-- Exclusive or, digit by digit, and what can be undone.
use kp4pra.Prelude.{
  ℕ, zero, suc, ◌+◌, ◌*◌, ◌/◌, ◌%◌, ◌≤◌, ◌<◌, ◌≡◌, inl, inr, refl, sym, ap, ◌∙◌, Bool-cases, arith,
  ◌==◌, bit_xor,
}
use kp4pra.Prelude.{◌^◌}
use native.Mathlib.Nat.{pow-succ'}
use Prim.Native.Nat.{digits, differ, bit_xor-bitwise}

-- Exclusive or with `n` digits to go.
abbrev xor_within : ℕ → ℕ → ℕ → ℕ
xor_within n a b = digits (λ x. x) differ n a b

one_more : (a b n : ℕ) → a ≤ n → xor_within (suc n) a b ≡ xor_within n a b
one_more zero b zero h = refl
one_more zero b (suc n) h = refl
one_more (suc a) b zero h = absurd (omega arith)
one_more (suc a) b (suc n) h =
    ap (λ d. d * 2 + differ (suc a % 2) (b % 2)) (one_more (suc a / 2) (b / 2) n (omega arith))

-- As many digits as the first number says are enough.
xor_within_lem : (n a b : ℕ) → a ≤ n → xor_within n a b ≡ bit_xor a b
xor_within_lem zero a b h = let none' : a ≡ 0 = omega arith in rw none' (sym (bit_xor-bitwise 0 b))
xor_within_lem (suc n) a b h = elim (Bool-cases (a == suc n)) [
  | inl last ↦ let e : a ≡ suc n = ground arith in rw e (sym (bit_xor-bitwise (suc n) b))
  | inr less ↦ one_more a b n (ground arith) ∙ xor_within_lem n a b (ground arith)
]

pub bit_xor_step : (a b : ℕ) → bit_xor a b ≡ bit_xor (a / 2) (b / 2) * 2 + differ (a % 2) (b % 2)
bit_xor_step zero b =
    let first : bit_xor 0 b ≡ b = bit_xor-bitwise 0 b in
    let half : bit_xor 0 (b / 2) ≡ b / 2 = bit_xor-bitwise 0 (b / 2) in
    let digit : differ 0 (b % 2) ≡ b % 2 = refl in omega (arith, first, half, digit)
bit_xor_step (suc a) b =
    bit_xor-bitwise (suc a) b
    ∙ ap (λ d. d * 2 + differ (suc a % 2) (b % 2))
        (xor_within_lem a (suc a / 2) (b / 2) (omega arith))

differ_digits : (x y : ℕ) → x < 2 → y < 2 → differ x y ≡ (x + y) % 2
differ_digits zero y p q = omega arith
differ_digits (suc zero) zero p q = refl
differ_digits (suc zero) (suc zero) p q = refl
differ_digits (suc zero) (suc (suc y)) p q = absurd (omega arith)
differ_digits (suc (suc x)) y p q = absurd (omega arith)

-- The lowest digit is the sum of the lowest digits, without the carry.
pub bit_xor_sum : (a b : ℕ) → bit_xor a b ≡ bit_xor (a / 2) (b / 2) * 2 + (a % 2 + b % 2) % 2
bit_xor_sum a b =
    omega (arith, bit_xor_step a b, differ_digits (a % 2) (b % 2) (omega arith) (omega arith))

cancel_right_fuel : (n a a' b : ℕ) → a ≤ n → a' ≤ n → bit_xor a b ≡ bit_xor a' b → a ≡ a'
cancel_right_fuel zero a a' b p q e = omega arith
cancel_right_fuel (suc n) a a' b p q e =
    let first = bit_xor_sum a b in
    let second = bit_xor_sum a' b in
    let rest : bit_xor (a / 2) (b / 2) ≡ bit_xor (a' / 2) (b / 2) =
      omega (arith, e, first, second) in
    omega (
      arith,
      e,
      first,
      second,
      cancel_right_fuel n (a / 2) (a' / 2) (b / 2) (omega arith) (omega arith) rest,
    )

pub cancel_right : (a a' b : ℕ) → bit_xor a b ≡ bit_xor a' b → a ≡ a'
cancel_right a a' b e = cancel_right_fuel (a + a') a a' b (omega arith) (omega arith) e

cancel_left_fuel : (n a b b' : ℕ) → b ≤ n → b' ≤ n → bit_xor a b ≡ bit_xor a b' → b ≡ b'
cancel_left_fuel zero a b b' p q e = omega arith
cancel_left_fuel (suc n) a b b' p q e =
    let first = bit_xor_sum a b in
    let second = bit_xor_sum a b' in
    let rest : bit_xor (a / 2) (b / 2) ≡ bit_xor (a / 2) (b' / 2) =
      omega (arith, e, first, second) in
    omega (
      arith,
      e,
      first,
      second,
      cancel_left_fuel n (a / 2) (b / 2) (b' / 2) (omega arith) (omega arith) rest,
    )

pub cancel_left : (a b b' : ℕ) → bit_xor a b ≡ bit_xor a b' → b ≡ b'
cancel_left a b b' e = cancel_left_fuel (b + b') a b b' (omega arith) (omega arith) e

-- An even operand leaves the other one's lowest digit.
pub peel :
    (a a' t t' : ℕ)
    → bit_xor (2 * a) t ≡ bit_xor (2 * a') t'
    → (t % 2 ≡ t' % 2) × (bit_xor a (t / 2) ≡ bit_xor a' (t' / 2))
peel a a' t t' e =
    let half : 2 * a / 2 ≡ a = omega arith in
    let half' : 2 * a' / 2 ≡ a' = omega arith in
    let first : bit_xor (2 * a) t ≡ bit_xor a (t / 2) * 2 + t % 2 =
      bit_xor_sum (2 * a) t ∙ rw half (omega arith) in
    let second : bit_xor (2 * a') t' ≡ bit_xor a' (t' / 2) * 2 + t' % 2 =
      bit_xor_sum (2 * a') t' ∙ rw half' (omega arith) in
    omega (arith, e, first, second)

-- A number stays within the digits of both operands.
pub bit_xor-lt : (k a b : ℕ) → a < 2 ^ k → b < 2 ^ k → bit_xor a b < 2 ^ k
bit_xor-lt zero a b p q =
    let a' : a ≡ 0 = omega arith in let b' : b ≡ 0 = omega arith in rw (a', b') (omega arith)
bit_xor-lt (suc k) a b p q =
    let double : 2 ^ suc k ≡ 2 * 2 ^ k = pow-succ' 2 k in
    omega (
      arith,
      bit_xor_sum a b,
      double,
      bit_xor-lt k (a / 2) (b / 2) (omega (arith, double)) (omega (arith, double)),
    )
