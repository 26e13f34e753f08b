-- ===== src/PyText/Decimal.antt =====
-- `str(n)` for a number, and `int(s)`.
use kp4pra.Prelude.{append-nil}
use kp4pra.Prelude.{sym}
use kp4pra.Prelude.{All-imp}
use kp4pra.PyText.Laws.{IsSolid, strip-All}
use kp4pra.PyText.{is_space}
use mathlib.Core.Option
use native.Mathlib.Nat.{pow-suc}
use kp4pra.Prelude.{
  ℕ, zero, suc, ◌+◌, ◌-◌, ◌*◌, ◌/◌, ◌%◌, ◌^◌, ◌≤◌, ◌<◌, ◌≡◌, Bool, true, false, ◌&&◌, ◌||◌, Option,
  none, some, [], ◌∷◌, ◌++◌, arith, ltb, ◌==◌, if◌then◌else◌, length, length-append, Text, ℤ, pos,
  neg, All, All-append, append_assoc, ap, ◌∙◌, Bool-cases, inl, inr,
}
use kp4pra.PyText.{is_digit, strip}

decimal_loop : ℕ → ℕ → Text
decimal_loop zero n = []
decimal_loop (suc f) n =
    let high = decimal_loop f (n / 10) in
    if ltb n 10 then (b'0' + n) ∷ [] else high ++ (b'0' + n % 10) ∷ []

-- `str(n)`; each round leaves a tenth of the number, so `n + 1` rounds are enough.
unfoldable pub decimal : ℕ → Text
unfolding decimal_loop
decimal n = decimal_loop (suc n) n

-- The digits of `int(s)`: single underscores may stand between them. The flag says whether the
-- last character was a digit.
unfoldable pub int_digits : Bool → ℕ → Text → Option ℕ
unfolding is_digit
int_digits seen acc [] = if seen then some acc else none
int_digits seen acc (c ∷ s) =
    if is_digit c || (seen && c == b'_')
    then int_digits (is_digit c) (if is_digit c then acc * 10 + (c - b'0') else acc) s
    else none

int_signed : Text → Option ℤ
int_signed [] = none
int_signed (c ∷ s) =
    if c == b'+'
    then Option.map pos (int_digits false 0 s)
    else if c == b'-'
    then Option.map neg (int_digits false 0 s)
    else Option.map pos (int_digits false 0 (c ∷ s))

-- `int(s)`; `none` is its `ValueError`.
unfoldable pub int : Text → Option ℤ
unfolding int_signed int_digits
int s = int_signed (strip s)

abbrev pub IsDigit : ℕ → Type 0
IsDigit c = is_digit c ≡ true

IsDigit-add : (n : ℕ) → n < 10 → IsDigit (b'0' + n)
unfolding is_digit
IsDigit-add n h = ground arith

-- An invariant of the loop, at enough fuel: induction on the fuel.
int_digits-decimal_loop :
    (f n : ℕ) (seen : Bool) (rest : Text)
    → n < f
    → int_digits seen 0 (decimal_loop f n ++ rest) ≡ int_digits true n rest
unfolding decimal_loop
int_digits-decimal_loop zero n seen rest h = absurd (omega arith)
int_digits-decimal_loop (suc f) n seen rest h = elim (Bool-cases (ltb n 10)) [
  | inl small ↦ rw small (unfold int_digits in ground (arith, IsDigit-add n))
  | inr large ↦ rw large (
      ap (int_digits seen 0) (append_assoc (decimal_loop f (n / 10)) _ rest)
      ∙ int_digits-decimal_loop f (n / 10) seen ((b'0' + n % 10) ∷ rest) (ground arith)
      ∙ (unfold int_digits in ground (arith, IsDigit-add (n % 10))))
]

pub int_digits-decimal :
    (n : ℕ) (seen : Bool) (rest : Text)
    → int_digits seen 0 (decimal n ++ rest) ≡ int_digits true n rest
unfolding decimal
int_digits-decimal n seen rest = int_digits-decimal_loop (suc n) n seen rest (omega arith)

decimal_loop-IsDigit : (f n : ℕ) → All IsDigit (decimal_loop f n)
unfolding decimal_loop
decimal_loop-IsDigit zero n = tt
decimal_loop-IsDigit (suc f) n = elim (Bool-cases (ltb n 10)) [
  | inl small ↦ rw small (IsDigit-add n (ground arith), tt)
  | inr large ↦ rw large (
      All-append IsDigit (decimal_loop f (n / 10)) _ (decimal_loop-IsDigit f (n / 10))
        (IsDigit-add (n % 10) (omega arith), tt))
]

pub decimal-IsDigit : (n : ℕ) → All IsDigit (decimal n)
unfolding decimal
decimal-IsDigit n = decimal_loop-IsDigit (suc n) n

length-decimal_loop : (k f n : ℕ) → n < 10 ^ suc k → length (decimal_loop f n) ≤ suc k
unfolding decimal_loop
length-decimal_loop k zero n h = omega arith
length-decimal_loop zero (suc f) n h = elim (Bool-cases (ltb n 10)) [
  | inl small ↦ rw small (omega arith)
  | inr large ↦ absurd (ground arith)
]
length-decimal_loop (suc k) (suc f) n h = elim (Bool-cases (ltb n 10)) [
  | inl small ↦ rw small (omega arith)
  | inr large ↦
      rw (large, length-append)
        (omega (arith, length-decimal_loop k f (n / 10) (omega (arith, pow-suc 10 (suc k)))))
]

-- A number below 10 ^ k has at most k digits, for k above 0.
pub length-decimal : (k n : ℕ) → n < 10 ^ suc k → length (decimal n) ≤ suc k
unfolding decimal
length-decimal k n h = length-decimal_loop k (suc n) n h

pub length-decimal_pos : (n : ℕ) → 1 ≤ length (decimal n)
unfolding decimal decimal_loop
length-decimal_pos n =
    ground (arith, length-append (decimal_loop n (n / 10)) ((b'0' + n % 10) ∷ []))

digit-IsSolid : (c : ℕ) → IsDigit c → IsSolid c
unfolding is_digit is_space
digit-IsSolid c h = ground arith

int_signed-digits :
    (s : Text) → All IsDigit s → 1 ≤ length s → int_signed s ≡ Option.map pos (int_digits false 0 s)
unfolding int_signed is_digit
int_signed-digits [] h l = absurd (omega arith)
int_signed-digits (c ∷ s) h l = ground arith

-- `int(str(n)) == n`
pub int-decimal : (n : ℕ) → int (decimal n) ≡ some (pos n)
unfolding int
int-decimal n =
    ap int_signed
      (strip-All (decimal n) (All-imp IsDigit IsSolid digit-IsSolid _ (decimal-IsDigit n)))
    ∙ int_signed-digits (decimal n) (decimal-IsDigit n) (length-decimal_pos n)
    ∙ ap (Option.map pos)
        (ap (int_digits false 0) (sym (append-nil (decimal n))) ∙ int_digits-decimal n false [])
