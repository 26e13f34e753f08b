-- ===== src/Lzhuf/Bits/Writing.antt =====
-- What a writer has written, as bits, and that `flush` keeps them.
use mathlib.Core.Path.{subst}
use kp4pra.Prelude.{==_iff}
use native.Mathlib.Nat.{pow-suc}
use kp4pra.Prelude.{
  ℕ, zero, suc, ◌+◌, ◌-◌, ◌*◌, ◌/◌, ◌%◌, ◌^◌, ◌<◌, ◌≤◌, ◌≡◌, refl, sym, ap, ◌∙◌, inl, inr, Bool,
  true, false, ◌&&◌, List, [], ◌∷◌, ◌++◌, Bytes, arith, ltb, ◌==◌, if◌then◌else◌, bit_or, take,
  drop, all_below, all_below_sound, append-nil, append_assoc, Bool-cases, take-append-drop,
}
use kp4pra.Lzhuf.Bits.{BitWriter, put_bit, put_code, flush, top_bit, new_writer}
use kp4pra.Lzhuf.Bits.Reading.{bits_from, bytes_bits}

-- `k` is the number of free bits but one.
pub record IsWritten (w : BitWriter) (bits : List Bool) : Type 0 where
  pub free : ℕ
  pub within : free < 8
  pub masked : w.mask ≡ 2 ^ free
  pub small : w.buf < 256
  pub unused : w.buf % 2 ^ (free + 1) ≡ 0
  pub so_far : bits ≡ bytes_bits w.out ++ take (7 - free) (bits_from 8 w.buf)

pub new_writer-IsWritten : IsWritten new_writer []
unfolding bytes_bits
new_writer-IsWritten = record {
  free = 7;
  within = omega arith;
  masked = refl;
  small = omega arith;
  unused = refl;
  so_far = refl;
}

-- A test for equal bits.
bits_eq : List Bool → List Bool → Bool
bits_eq [] [] = true
bits_eq (true ∷ a) (true ∷ b) = bits_eq a b
bits_eq (false ∷ a) (false ∷ b) = bits_eq a b
bits_eq _ _ = false

bits_eq_sound : (a b : List Bool) → bits_eq a b ≡ true → a ≡ b
unfolding bits_eq
bits_eq_sound [] [] e = refl
bits_eq_sound [] (y ∷ b) e = absurd (cc e)
bits_eq_sound (true ∷ a) [] e = absurd (cc e)
bits_eq_sound (false ∷ a) [] e = absurd (cc e)
bits_eq_sound (true ∷ a) (true ∷ b) e = ap (◌∷◌ true) (bits_eq_sound a b e)
bits_eq_sound (true ∷ a) (false ∷ b) e = absurd (cc e)
bits_eq_sound (false ∷ a) (true ∷ b) e = absurd (cc e)
bits_eq_sound (false ∷ a) (false ∷ b) e = ap (◌∷◌ false) (bits_eq_sound a b e)

-- The buffer with one more bit at place `k`.
abbrev with_bit : Bool → ℕ → ℕ → ℕ
with_bit bit k buf = if bit then bit_or buf (2 ^ k) else buf

abbrev bit_test : Bool → ℕ → ℕ → Bool
bit_test bit k buf =
    if buf % 2 ^ (k + 1) == 0
    then ltb (with_bit bit k buf) 256
      && (with_bit bit k buf % 2 ^ k == 0
          && bits_eq (take (8 - k) (bits_from 8 (with_bit bit k buf)))
              (take (7 - k) (bits_from 8 buf) ++ bit ∷ []))
    else true

one_table : all_below 8 (λ k. all_below 256 (bit_test true k)) ≡ true
unfolding all_below bits_eq
one_table = refl

zero_table : all_below 8 (λ k. all_below 256 (bit_test false k)) ≡ true
unfolding all_below bits_eq
zero_table = refl

bit_table : (bit : Bool) (k buf : ℕ) → k < 8 → buf < 256 → bit_test bit k buf ≡ true
bit_table true k buf h l =
    all_below_sound 256 (bit_test true k) buf
      (all_below_sound 8 (λ j. all_below 256 (bit_test true j)) k one_table h) l
bit_table false k buf h l =
    all_below_sound 256 (bit_test false k) buf
      (all_below_sound 8 (λ j. all_below 256 (bit_test false j)) k zero_table h) l

passed :
    (c x y z : Bool)
    → c ≡ true
    → (if c then x && (y && z) else true) ≡ true
    → (x ≡ true) × (y ≡ true) × (z ≡ true)
passed true true true true e h = (refl, refl, refl)
passed true false y z e h = absurd (cc h)
passed true true false z e h = absurd (cc h)
passed true true true false e h = absurd (cc h)
passed false x y z e h = absurd (cc e)

-- The table, read as a lemma.
with_bit_lem :
    (bit : Bool) (k buf : ℕ)
    → k < 8
    → buf < 256
    → buf % 2 ^ (k + 1) ≡ 0
    → (with_bit bit k buf < 256)
      × (with_bit bit k buf % 2 ^ k ≡ 0)
      × (take (8 - k) (bits_from 8 (with_bit bit k buf))
          ≡ take (7 - k) (bits_from 8 buf) ++ bit ∷ [])
with_bit_lem bit k buf h l u =
    let (small, even, same) =
      passed (buf % 2 ^ (k + 1) == 0) (ltb (with_bit bit k buf) 256)
        (with_bit bit k buf % 2 ^ k == 0)
        (bits_eq (take (8 - k) (bits_from 8 (with_bit bit k buf)))
          (take (7 - k) (bits_from 8 buf) ++ bit ∷ []))
        ((==_iff (buf % 2 ^ (k + 1)) 0).1 u) (bit_table bit k buf h l) in
    (ground (arith, small), (==_iff (with_bit bit k buf % 2 ^ k) 0).0 even, bits_eq_sound _ _ same)

bytes_bits-append : (a b : Bytes) → bytes_bits (a ++ b) ≡ bytes_bits a ++ bytes_bits b
unfolding bytes_bits
bytes_bits-append [] b = refl
bytes_bits-append (x ∷ a) b =
    ap (◌++◌ (bits_from 8 x)) (bytes_bits-append a b)
    ∙ sym (append_assoc (bits_from 8 x) (bytes_bits a) (bytes_bits b))

bytes_bits-last : (a : Bytes) (x : ℕ) → bytes_bits (a ++ x ∷ []) ≡ bytes_bits a ++ bits_from 8 x
unfolding bytes_bits
bytes_bits-last a x = bytes_bits-append a (x ∷ [])

pub power_pos : (k : ℕ) → 1 ≤ 2 ^ k
power_pos zero = omega arith
power_pos (suc k) = omega (arith, power_pos k, pow-suc 2 k)

power_half : (k : ℕ) → 2 ^ suc k / 2 ≡ 2 ^ k
power_half k = omega (arith, pow-suc 2 k)

put_bit_at :
    (bit : Bool) (k : ℕ) (out : Bytes) (buf : ℕ)
    → k < 8
    → buf < 256
    → buf % 2 ^ (k + 1) ≡ 0
    → IsWritten
        (put_bit bit (record { out = out; buf = buf; mask = 2 ^ k }))
        ((bytes_bits out ++ take (7 - k) (bits_from 8 buf)) ++ bit ∷ [])
unfolding put_bit bytes_bits
put_bit_at bit zero out buf h l u =
    let (small, even, same) = with_bit_lem bit 0 buf h l u in
    record {
      free = 7;
      within = omega arith;
      masked = refl;
      small = omega arith;
      unused = refl;
      so_far =
          append_assoc (bytes_bits out) (take 7 (bits_from 8 buf)) (bit ∷ [])
          ∙ ap (◌++◌ (bytes_bits out)) (sym same)
          ∙ sym (bytes_bits-last out (with_bit bit 0 buf))
          ∙ sym (append-nil (bytes_bits (out ++ with_bit bit 0 buf ∷ [])));
    }
put_bit_at bit (suc k) out buf h l u =
    let (small, even, same) = with_bit_lem bit (suc k) buf h l u in
    let busy : (2 ^ suc k / 2 == 0) ≡ false = ground (arith, power_half k, power_pos k) in
    let next : suc k ≡ k + 1 = omega arith in
    let left : 8 - suc k ≡ 7 - k = omega arith in
    rw busy (record {
      free = k;
      within = omega arith;
      masked = power_half k;
      small = small;
      unused = subst (λ n. with_bit bit (suc k) buf % 2 ^ n ≡ 0) next even;
      so_far =
          append_assoc (bytes_bits out) (take (7 - suc k) (bits_from 8 buf)) (bit ∷ [])
          ∙ ap (◌++◌ (bytes_bits out)) (sym same)
          ∙ ap (λ n. bytes_bits out ++ take n (bits_from 8 (with_bit bit (suc k) buf))) left;
    })

pub put_bit-IsWritten :
    (bit : Bool) (w : BitWriter) (bits : List Bool)
    → IsWritten w bits
    → IsWritten (put_bit bit w) (bits ++ bit ∷ [])
put_bit-IsWritten bit w bits v =
    subst (λ m. IsWritten (put_bit bit (record w { mask = m })) (bits ++ bit ∷ [])) (sym v.masked)
      (subst (λ b. IsWritten (put_bit bit (record w { mask = 2 ^ v.free })) (b ++ bit ∷ []))
        (sym v.so_far) (put_bit_at bit v.free w.out w.buf v.within v.small v.unused))

-- The bits that `put_code` writes: the upper ones of the code, from the top.
abbrev pub code_bits : ℕ → ℕ → List Bool
code_bits zero code = []
code_bits (suc n) code = top_bit code ∷ code_bits n (code * 2 % 0x10000)

pub put_code-IsWritten :
    (n code : ℕ) (w : BitWriter) (bits : List Bool)
    → IsWritten w bits
    → IsWritten (put_code n code w) (bits ++ code_bits n code)
unfolding put_code
put_code-IsWritten zero code w bits v = subst (IsWritten w) (sym (append-nil bits)) v
put_code-IsWritten (suc n) code w bits v =
    subst (IsWritten (put_code n (code * 2 % 0x10000) (put_bit (top_bit code) w)))
      (append_assoc bits (top_bit code ∷ []) (code_bits n (code * 2 % 0x10000)))
      (put_code-IsWritten n (code * 2 % 0x10000) (put_bit (top_bit code) w)
        (bits ++ top_bit code ∷ []) (put_bit-IsWritten (top_bit code) w bits v))

full_table : all_below 8 (λ k. if 2 ^ k == 0x80 then k == 7 else true) ≡ true
unfolding all_below
full_table = refl

all_free : (k : ℕ) → k < 8 → 2 ^ k ≡ 0x80 → k ≡ 7
all_free k h e =
    ground (arith, all_below_sound 8 (λ j. if 2 ^ j == 0x80 then j == 7 else true) k full_table h)

-- A flushed stream begins with all that has been written.
pub flush-IsWritten :
    (w : BitWriter) (bits : List Bool)
    → IsWritten w bits
    → (pad : List Bool) × (bytes_bits (flush w).out ≡ bits ++ pad)
unfolding flush
flush-IsWritten w bits v = elim (Bool-cases (w.mask == 0x80)) [
  | inl whole ↦ rw whole (
    [],
    sym (
        append-nil bits
        ∙ v.so_far
        ∙ ap (λ k. bytes_bits w.out ++ take (7 - k) (bits_from 8 w.buf))
            (all_free v.free v.within (sym v.masked ∙ (==_iff w.mask 0x80).0 whole))
        ∙ append-nil (bytes_bits w.out)),
  )
  | inr part ↦ rw part (
    drop (7 - v.free) (bits_from 8 w.buf),
    bytes_bits-last w.out w.buf
        ∙ ap (◌++◌ (bytes_bits w.out)) (sym (take-append-drop (7 - v.free) (bits_from 8 w.buf)))
        ∙ sym (
            append_assoc (bytes_bits w.out) (take (7 - v.free) (bits_from 8 w.buf))
              (drop (7 - v.free) (bits_from 8 w.buf)))
        ∙ ap (λ b. b ++ drop (7 - v.free) (bits_from 8 w.buf)) (sym v.so_far),
  )
]
