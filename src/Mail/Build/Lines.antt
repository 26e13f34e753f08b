-- ===== src/Mail/Build/Lines.antt =====
-- Texts without line ends, under the operations that make the headers.
use kp4pra.Prelude.{
  ℕ, ◌≡◌, inl, inr, refl, sym, Bool, true, false, not, ◌&&◌, Bool-cases, [], ◌∷◌, Text, codes,
  arith, take, ◌==◌, if◌then◌else◌, text_eq, All,
}
use mathlib.Core.Path.{subst}
use mathlib.Core.List.{reverse}
use kp4pra.Prelude.{All-append}
use kp4pra.PyText.{strip, lstrip, rstrip, is_space, upper, to_upper, is_lower, contains, partition}
use kp4pra.PyText.Laws.{All-reverse}
use kp4pra.PyText.{is_digit}
use kp4pra.Mail.Send.{base_callsign}
use kp4pra.Mail.Validate.{all_pass, newlines, keep, on_one_line}
use kp4pra.Mail.Build.{winlink_addr}

-- A character that ends no line.
abbrev pub NoBreak : ℕ → Type 0
NoBreak c = ((c == 10) ≡ false) × ((c == 13) ≡ false)

pub All-lstrip : (P : ℕ → Type 0) (s : Text) → All P s → All P (lstrip s)
unfolding lstrip
All-lstrip P [] h = tt
All-lstrip P (c ∷ s) h = elim (Bool-cases (is_space c)) [
  | inl e ↦ rw e (All-lstrip P s h.1)
  | inr e ↦ rw e h
]

pub All-strip : (P : ℕ → Type 0) (s : Text) → All P s → All P (strip s)
unfolding strip rstrip
All-strip P s h =
    All-reverse P (lstrip (reverse (lstrip s)))
      (All-lstrip P (reverse (lstrip s)) (All-reverse P (lstrip s) (All-lstrip P s h)))

pub All-partition : (P : ℕ → Type 0) (d : ℕ) (s : Text) → All P s → All P (partition d s).0
unfolding partition
All-partition P d [] h = tt
All-partition P d (c ∷ s) h = elim (Bool-cases (c == d)) [
  | inl e ↦ rw e tt
  | inr e ↦ rw e (h.0, All-partition P d s h.1)
]

pub to_upper-NoBreak : (c : ℕ) → NoBreak c → NoBreak (to_upper c)
unfolding to_upper is_lower
to_upper-NoBreak c (h, k) = (ground (arith, h, k), ground (arith, h, k))

pub upper-NoBreak : (s : Text) → All NoBreak s → All NoBreak (upper s)
unfolding upper
upper-NoBreak [] h = tt
upper-NoBreak (c ∷ s) h = (to_upper-NoBreak c h.0, upper-NoBreak s h.1)

pub base_callsign-NoBreak : (s : Text) → All NoBreak s → All NoBreak (base_callsign s)
unfolding base_callsign
base_callsign-NoBreak s h =
    All-partition NoBreak b'-' (strip (upper s)) (All-strip NoBreak (upper s) (upper-NoBreak s h))

-- Texts that are written out pass by evaluation.
pub evaluated :
    (s : Text) → all_pass (λ (c : ℕ). not (c == 10) && not (c == 13)) s ≡ true → All NoBreak s
unfolding all_pass
evaluated [] h = tt
evaluated (c ∷ s) h = ((ground (arith, h), ground (arith, h)), evaluated s (ground (arith, h)))

pub smtp : All NoBreak (codes "SMTP:")
unfolding all_pass
smtp = evaluated (codes "SMTP:") refl

pub winlink_addr-NoBreak : (s : Text) → All NoBreak s → All NoBreak (winlink_addr s)
unfolding winlink_addr
winlink_addr-NoBreak s h =
    elim (Bool-cases
      (contains b'@' (strip s) && not (text_eq (take 5 (upper (strip s))) (codes "SMTP:")))) [
        | inl e ↦ rw e (All-append NoBreak (codes "SMTP:") (strip s) smtp (All-strip NoBreak s h))
        | inr e ↦ rw e (All-strip NoBreak s h)
      ]

pub NoCr : ℕ → Type 0
NoCr c = (c == 13) ≡ false

pub newlines-NoCr : (b : Bool) (s : Text) → All NoCr (newlines b s)
unfolding newlines NoCr
newlines-NoCr b [] = tt
newlines-NoCr b (c ∷ s) = elim (Bool-cases (c == 13)) [
  | inl e ↦ rw e (refl, newlines-NoCr true s)
  | inr e ↦ elim (Bool-cases (c == 10 && b)) [
    | inl f ↦ rw (e, f) (newlines-NoCr false s)
    | inr f ↦ rw (e, f) (e, newlines-NoCr false s)
  ]
]

pub All-keep : (P : ℕ → Type 0) (test : ℕ → Bool) (s : Text) → All P s → All P (keep test s)
unfolding keep
All-keep P test [] h = tt
All-keep P test (c ∷ s) h = elim (Bool-cases (test c)) [
  | inl e ↦ rw e (h.0, All-keep P test s h.1)
  | inr e ↦ rw e (All-keep P test s h.1)
]

pub joined-NoBreak : (c : ℕ) → NoCr c → NoBreak (if c == 10 then b' ' else c)
unfolding NoCr
joined-NoBreak c h = elim (Bool-cases (c == 10)) [
  | inl e ↦ rw e (refl, refl)
  | inr e ↦ subst (λ b. NoBreak (if b then b' ' else c)) (sym e) (e, h)
]

pub on_one_line-NoBreak : (s : Text) → All NoCr s → All NoBreak (on_one_line s)
unfolding on_one_line
on_one_line-NoBreak [] h = tt
on_one_line-NoBreak (c ∷ s) h = (joined-NoBreak c h.0, on_one_line-NoBreak s h.1)

pub IsDigit-NoBreak : (c : ℕ) → is_digit c ≡ true → NoBreak c
unfolding is_digit
IsDigit-NoBreak c h = (ground (arith, h), ground (arith, h))

-- What is free of line ends has no CR.
pub NoBreak-NoCr : (c : ℕ) → NoBreak c → NoCr c
unfolding NoCr
NoBreak-NoCr c h = h.1
