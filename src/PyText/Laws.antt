-- ===== src/PyText/Laws.antt =====
-- Laws of the text operations.
use kp4pra.Prelude.{◌⊎◌}
use mathlib.Core.List.{reverse, reverse-append, reverse-reverse, reverse-cons}
use kp4pra.Prelude.{
  ℕ, zero, suc, ◌-◌, ◌≤◌, ◌≡◌, ◌≢◌, refl, sym, ap, ◌∙◌, true, false, [], ◌∷◌, ◌++◌, arith,
  append-nil, length, length-append, replicate, length-replicate, Text, All, All-append,
}
use kp4pra.PyText.{
  is_space, is_digit, is_upper, is_lower, to_upper, upper, lstrip, rstrip, strip, ljust, partition,
  contains, rpartition,
}

abbrev pub IsSolid : ℕ → Type 0
IsSolid c = is_space c ≡ false

-- A character of a callsign: `[A-Z0-9]`.
abbrev pub IsCallChar : ℕ → Type 0
IsCallChar c = (is_upper c ≡ true) ⊎ (is_digit c ≡ true)

pub All-reverse : (P : ℕ → Type 0) (s : Text) → All P s → All P (reverse s)
All-reverse P [] h = tt
All-reverse P (c ∷ s) h =
    rw reverse-cons (All-append P (reverse s) (c ∷ []) (All-reverse P s h.1) (h.0, tt))

lstrip-All : (s : Text) → All IsSolid s → lstrip s ≡ s
unfolding lstrip
lstrip-All [] h = refl
lstrip-All (c ∷ s) h = rw h.0

lstrip-replicate : (n : ℕ) (s : Text) → lstrip (replicate n b' ' ++ s) ≡ lstrip s
unfolding lstrip is_space
lstrip-replicate zero s = refl
lstrip-replicate (suc n) s = lstrip-replicate n s

replicate-concat : (n : ℕ) (c : ℕ) → replicate n c ++ c ∷ [] ≡ c ∷ replicate n c
replicate-concat zero c = refl
replicate-concat (suc n) c = ap (◌∷◌ c) (replicate-concat n c)

reverse-replicate : (n : ℕ) (c : ℕ) → reverse (replicate n c) ≡ replicate n c
reverse-replicate zero c = refl
reverse-replicate (suc n) c =
    reverse-cons c (replicate n c)
    ∙ ap (λ t. t ++ c ∷ []) (reverse-replicate n c)
    ∙ replicate-concat n c

rstrip-pad : (n : ℕ) (s : Text) → All IsSolid s → rstrip (s ++ replicate n b' ') ≡ s
unfolding rstrip
rstrip-pad n s h =
    rw (reverse-append, reverse-replicate, lstrip-replicate)
      (ap reverse (lstrip-All (reverse s) (All-reverse IsSolid s h)) ∙ reverse-reverse s)

lstrip-blank : (n : ℕ) → lstrip (replicate n b' ') ≡ []
unfolding lstrip is_space
lstrip-blank zero = refl
lstrip-blank (suc n) = lstrip-blank n

lstrip-pad : (n : ℕ) (s : Text) → All IsSolid s → rstrip (lstrip (s ++ replicate n b' ')) ≡ s
lstrip-pad n [] h = rw lstrip-blank (unfold rstrip lstrip in refl)
lstrip-pad n (c ∷ s) h = unfold lstrip in rw (h.0) (rstrip-pad n (c ∷ s) h)

-- Padding a text that has no white space and stripping it again gives the text.
pub strip-pad : (n : ℕ) (s : Text) → All IsSolid s → strip (s ++ replicate n b' ') ≡ s
unfolding strip
strip-pad n s h = lstrip-pad n s h

pub strip-All : (s : Text) → All IsSolid s → strip s ≡ s
strip-All s h = ap strip (sym (append-nil s)) ∙ strip-pad 0 s h

pub strip-ljust : (n : ℕ) (s : Text) → All IsSolid s → strip (ljust n s) ≡ s
unfolding ljust
strip-ljust n s h = strip-pad (n - length s) s h

pub length-ljust : (n : ℕ) (s : Text) → length s ≤ n → length (ljust n s) ≡ n
unfolding ljust
length-ljust n s h = omega (
  arith,
  length-append s (replicate (n - length s) b' '),
  length-replicate {A = ℕ} (n - length s) b' ',
)

pub upper-All : (s : Text) → All (λ c. is_lower c ≡ false) s → upper s ≡ s
unfolding upper to_upper
upper-All [] h = refl
upper-All (c ∷ s) h = rw h.0 (ap (◌∷◌ c) (upper-All s h.1))

pub partition-here : (c : ℕ) (s t : Text) → All (λ x. x ≢ c) s → partition c (s ++ c ∷ t) ≡ (s, t)
unfolding partition
partition-here c [] t h = ground arith
partition-here c (x ∷ s) t h = ground (arith, partition-here c s t h.1)

pub partition-absent : (c : ℕ) (s : Text) → All (λ x. x ≢ c) s → partition c s ≡ (s, [])
unfolding partition
partition-absent c [] h = refl
partition-absent c (x ∷ s) h = ground (arith, partition-absent c s h.1)

pub contains-absent : (c : ℕ) (s : Text) → All (λ x. x ≢ c) s → contains c s ≡ false
unfolding contains
contains-absent c [] h = refl
contains-absent c (x ∷ s) h = ground (arith, contains-absent c s h.1)

pub contains-middle : (c : ℕ) (s t : Text) → contains c (s ++ c ∷ t) ≡ true
unfolding contains
contains-middle c [] t = ground arith
contains-middle c (x ∷ s) t = ground (arith, contains-middle c s t)

-- The last `c` is the one behind which there is none.
pub rpartition-last : (c : ℕ) (s t : Text) → All (λ x. x ≢ c) t → rpartition c (s ++ c ∷ t) ≡ (s, t)
unfolding rpartition
rpartition-last c [] t h = ground (arith, contains-absent c t h)
rpartition-last c (x ∷ s) t h = ground (arith, contains-middle c s t, rpartition-last c s t h)
