-- ===== src/Lzhuf/Huffman/Codes.antt =====
-- The path of a leaf to the root is read back from the root to the leaf.
use mathlib.Core.Path.{subst}
use kp4pra.Prelude.{
  ℕ, zero, suc, ◌+◌, ◌-◌, ◌%◌, ◌≤◌, ◌<◌, ◌≡◌, inl, inr, refl, ap, ◌∙◌, append_assoc, Bool, true,
  false, Bool-cases, List, [], ◌∷◌, ◌++◌, arith, length, ltb, ◌==◌,
}
use mathlib.Core.List.{reverse, reverse-cons}
use kp4pra.Lzhuf.Tables.{char_count, tree_size, root}
use kp4pra.Lzhuf.Bits.{BitReader, get_bit, bit_value}
use kp4pra.Lzhuf.Bits.Reading.{IsReady, get_bit-Gives}
use kp4pra.Lzhuf.Huffman.{Array, Huff, climb, descend}
use kp4pra.Lzhuf.Huffman.Shape.{Links}

-- The descent has come from the root to the son of `k` with `g` rounds left.
record Reached (h : Huff) (f g k : ℕ) (r : BitReader) (rest : List Bool) : Type 0 where
  reader : BitReader
  ready : IsReady reader rest
  same : descend f h.son (h.son root) r ≡ descend g h.son (h.son k) reader

step-Reached :
    (h : Huff) (f g k : ℕ) (r : BitReader) (rest : List Bool)
    → Links h
    → k < root
    → Reached h f (suc g) (h.prnt k) r ((k % 2 == 1) ∷ rest)
    → Reached h f g k r rest
unfolding descend
step-Reached h f g k r rest v p t =
    let (low, under) = v.parent k (omega arith, omega arith) in
    let (bit, ready) = get_bit-Gives t.reader (k % 2 == 1) rest t.ready in
    let inner : ltb (h.son (h.prnt k)) tree_size ≡ true = ground (arith, under) in
    let place : h.son (h.prnt k) + bit_value (get_bit t.reader).1 ≡ k =
      rw bit (ground (arith, under)) in
    record {
      reader = (get_bit t.reader).0;
      ready = ready;
      same = t.same ∙ rw inner (ap (λ x. descend g h.son (h.son x) (get_bit t.reader).0) place);
    }

climb_stop : (n k : ℕ) (prnt : Array) → (k == root) ≡ true → climb (suc n) prnt k ≡ []
unfolding climb
climb_stop n k prnt e = rw e

climb_go :
    (n k : ℕ) (prnt : Array)
    → (k == root) ≡ false
    → climb (suc n) prnt k ≡ (k % 2 == 1) ∷ climb n prnt (prnt k)
unfolding climb
climb_go n k prnt e = rw e

climb-Reached :
    (h : Huff)
    → Links h
    → (n k f g : ℕ) (r : BitReader) (rest : List Bool) → k ≤ root
    → root ≤ k + n
    → f ≡ length (climb n h.prnt k) + g
    → IsReady r (reverse (climb n h.prnt k) ++ rest)
    → Reached h f g k r rest
unfolding climb
climb-Reached h v zero k f g r rest p q e t =
    let a : k ≡ root = omega arith in
    let b : f ≡ g = omega (arith, e) in record { reader = r; ready = t; same = rw (a, b) }
climb-Reached h v (suc n) k f g r rest p q e t = elim (Bool-cases (k == root)) [
  | inl done ↦
      let a : k ≡ root = ground arith in
      let stop = climb_stop n k h.prnt done in
      let b : f ≡ g = omega (arith, e, ap length stop) in
      record {
        reader = r;
        ready = subst (λ x. IsReady r (reverse x ++ rest)) stop t;
        same = rw (a, b) (refl);
      }
  | inr more ↦
      let go = climb_go n k h.prnt more in
      let bits : List Bool = climb n h.prnt (h.prnt k) in
      let bit : Bool = k % 2 == 1 in
      let below : k < root = ground arith in
      step-Reached h f g k r rest v below (
        climb-Reached h v n (h.prnt k) f (suc g) r (bit ∷ rest)
          (v.parent k (omega arith, omega arith)).0 (omega (arith, v.up k below))
          (omega (arith, e, ap length go))
          (subst (IsReady r)
            (ap (λ x. reverse x ++ rest) go
              ∙ ap (λ x. x ++ rest) (reverse-cons bit bits)
              ∙ append_assoc (reverse bits) (bit ∷ []) rest)
            t))
]

leaf_reached : (h : Huff) (g c : ℕ) (r : BitReader) → tree_size ≤ c → descend g h.son c r ≡ (r, c)
unfolding descend
leaf_reached h zero c r p = refl
leaf_reached h (suc g) c r p = let out : ltb c tree_size ≡ false = ground arith in rw out

length-climb : (h : Huff) → Links h → (n k : ℕ) → k ≤ root → length (climb n h.prnt k) ≤ root - k
unfolding climb
length-climb h v zero k p = omega arith
length-climb h v (suc n) k p = elim (Bool-cases (k == root)) [
  | inl done ↦ rw done (omega arith)
  | inr more ↦
      let below : k < root = ground arith in
      rw more (
        omega (
          arith,
          v.up k below,
          length-climb h v n (h.prnt k) (v.parent k (omega arith, omega arith)).0,
        ))
]

-- The bits of the character `c`.
abbrev pub char_bits : Huff → ℕ → List Bool
char_bits h c = reverse (climb tree_size h.prnt (h.prnt (c + tree_size)))

pub descend-char_bits :
    (h : Huff) (c : ℕ) (r : BitReader) (rest : List Bool)
    → Links h
    → c < char_count
    → IsReady r (char_bits h c ++ rest)
    → (r' : BitReader) × IsReady r' rest
      × (descend tree_size h.son (h.son root) r ≡ (r', c + tree_size))
descend-char_bits h c r rest v p t =
    let k : ℕ = h.prnt (c + tree_size) in
    let (low, same) = v.parent (c + tree_size) (omega arith, omega arith) in
    let short = length-climb h v tree_size k low in
    let g : ℕ = tree_size - length (climb tree_size h.prnt k) in
    let at =
      climb-Reached h v tree_size k tree_size g r rest low (omega arith) (omega (arith, short)) t in
    let leaf : h.son k ≡ c + tree_size = ground (arith, same) in
    (
      at.reader,
      at.ready,
      at.same
          ∙ ap (λ x. descend g h.son x at.reader) leaf
          ∙ leaf_reached h g (c + tree_size) at.reader (omega arith),
    )
