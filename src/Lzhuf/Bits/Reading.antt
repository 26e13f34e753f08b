-- ===== src/Lzhuf/Bits/Reading.antt =====
-- A reader hands out the bits of its bytes, the most significant bit of each first.
use mathlib.Core.Path.{subst}
use kp4pra.Prelude.{◌⊎◌}
use native.Mathlib.Nat.{pow-suc}
use kp4pra.Prelude.{
  ℕ, zero, suc, ◌+◌, ◌*◌, ◌/◌, ◌^◌, ◌≤◌, ◌≡◌, refl, sym, ap, ◌∙◌, inl, inr, Bool, true, false, not,
  Option, none, some, List, [], ◌∷◌, ◌++◌, Bytes, arith, ◌==◌, bit_and, get_elem?, drop,
}
use kp4pra.Lzhuf.Bits.{BitReader, get_bit, take_bit, load, get_bits, bit_value}

-- The lowest `k` bits of a byte, from the top.
abbrev pub bits_from : ℕ → ℕ → List Bool
bits_from zero b = []
bits_from (suc k) b = not (bit_and b (2 ^ k) == 0) ∷ bits_from k b

unfoldable pub bytes_bits : Bytes → List Bool
bytes_bits [] = []
bytes_bits (b ∷ s) = bits_from 8 b ++ bytes_bits s

-- The mask while `k` bits of the buffer are left.
abbrev pub mask_of : ℕ → ℕ
mask_of zero = 0
mask_of (suc k) = 2 ^ k

-- The bits that are still to come.
pub record IsReady (r : BitReader) (bits : List Bool) : Type 0 where
  pub left : ℕ
  pub masked : r.mask ≡ mask_of left
  pub coming : bits ≡ bits_from left r.buf ++ bytes_bits (drop r.pos r.data_bytes)

mask_half : (k : ℕ) → 2 ^ k / 2 ≡ mask_of k
mask_half zero = refl
mask_half (suc k) = omega (arith, pow-suc 2 k)

mask_pos : (k : ℕ) → 1 ≤ 2 ^ k
mask_pos zero = omega arith
mask_pos (suc k) = omega (arith, mask_pos k, pow-suc 2 k)

-- What one bit of a stream gives.
abbrev Gives : BitReader × Bool → Bool → List Bool → Type 0
Gives p b bs = (p.1 ≡ b) × IsReady p.0 bs

head_of : (b c : Bool) (bs cs : List Bool) → b ∷ bs ≡ c ∷ cs → (c ≡ b) × (bs ≡ cs)
head_of b c bs cs e = (cc e, cc e)

take_bit-Gives :
    (k : ℕ) (r : BitReader) (b : Bool) (bs : List Bool)
    → r.mask ≡ 2 ^ k
    → b ∷ bs ≡ bits_from (suc k) r.buf ++ bytes_bits (drop r.pos r.data_bytes)
    → Gives (take_bit r) b bs
take_bit-Gives k r b bs m e =
    let (same, rest) = head_of b _ bs _ e in
    (
      ap (λ x. not (bit_and r.buf x == 0)) m ∙ same,
      record { left = k; masked = ap (λ x. x / 2) m ∙ mask_half k; coming = rest },
    )

get_elem?-drop :
    (s : Bytes) (n b : ℕ) (t : Bytes)
    → drop n s ≡ b ∷ t
    → (get_elem? s n ≡ some b) × (drop (suc n) s ≡ t)
get_elem?-drop [] zero b t e = absurd (cc e)
get_elem?-drop [] (suc n) b t e = absurd (cc e)
get_elem?-drop (x ∷ s) zero b t e = (cc e, cc e)
get_elem?-drop (x ∷ s) (suc n) b t e = get_elem?-drop s n b t e

drop-cases : (s : Bytes) → (s ≡ []) ⊎ ((b : ℕ) × (t : Bytes) × (s ≡ b ∷ t))
drop-cases [] = inl refl
drop-cases (b ∷ t) = inr (b, t, refl)

next_pos : (n : ℕ) (s : Bytes) → drop (n + 1) s ≡ drop (suc n) s
next_pos n s = let e : n + 1 ≡ suc n = omega arith in ap (λ k. drop k s) e

-- The buffer is empty: a byte is loaded first.
loaded-Gives :
    (r : BitReader) (b : Bool) (bs : List Bool)
    → r.mask ≡ 0
    → b ∷ bs ≡ bytes_bits (drop r.pos r.data_bytes)
    → Gives (take_bit (load (get_elem? r.data_bytes r.pos) r)) b bs
unfolding bytes_bits load
loaded-Gives r b bs m e = elim (drop-cases (drop r.pos r.data_bytes)) [
  | inl empty ↦ absurd (cc (e ∙ ap bytes_bits empty))
  | inr (x, t, more) ↦
      let (found, rest) = get_elem?-drop r.data_bytes r.pos x t more in
      rw found (
        take_bit-Gives 7 (record r { buf = x; pos = r.pos + 1; mask = 0x80 }) b bs refl
          (e
            ∙ ap bytes_bits more
            ∙ ap (λ u. bits_from 8 x ++ bytes_bits u) (sym (next_pos r.pos r.data_bytes ∙ rest))))
]

ready-Gives :
    (k : ℕ) (r : BitReader) (b : Bool) (bs : List Bool)
    → r.mask ≡ mask_of k
    → b ∷ bs ≡ bits_from k r.buf ++ bytes_bits (drop r.pos r.data_bytes)
    → Gives (get_bit r) b bs
unfolding get_bit
ready-Gives zero r b bs m e =
    let empty : (r.mask == 0) ≡ true = ground (arith, m) in rw empty (loaded-Gives r b bs m e)
ready-Gives (suc k) r b bs m e =
    let busy : (r.mask == 0) ≡ false = ground (arith, mask_pos k, m) in
    rw busy (take_bit-Gives k r b bs m e)

pub get_bit-Gives :
    (r : BitReader) (b : Bool) (bs : List Bool) → IsReady r (b ∷ bs) → Gives (get_bit r) b bs
get_bit-Gives r b bs v = ready-Gives v.left r b bs v.masked v.coming

-- `n` bits as a number, behind `val`; `none` if there are fewer.
abbrev pub take_value : ℕ → ℕ → List Bool → Option (List Bool × ℕ)
take_value zero val bits = some (bits, val)
take_value (suc n) val [] = none
take_value (suc n) val (b ∷ bits) = take_value n (val * 2 + bit_value b) bits

pub get_bits-IsReady :
    (n val : ℕ) (r : BitReader) (bits rest : List Bool) (x : ℕ)
    → IsReady r bits
    → take_value n val bits ≡ some (rest, x)
    → ((get_bits n val r).1 ≡ x) × IsReady (get_bits n val r).0 rest
unfolding get_bits
get_bits-IsReady zero val r bits rest x v e = (cc e, subst (IsReady r) (cc e) v)
get_bits-IsReady (suc n) val r [] rest x v e = absurd (cc e)
get_bits-IsReady (suc n) val r (b ∷ bits) rest x v e =
    let (same, next) = get_bit-Gives r b bits v in
    subst
      (λ c.
        let p = get_bits n (val * 2 + bit_value c) (get_bit r).0 in (p.1 ≡ x) × IsReady p.0 rest)
      (sym same) (get_bits-IsReady n (val * 2 + bit_value b) (get_bit r).0 bits rest x next e)
