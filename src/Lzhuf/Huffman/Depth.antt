-- ===== src/Lzhuf/Huffman/Depth.antt =====
-- A long code needs a heavy tree: the weights on a path to the root grow like Fibonacci's numbers.
use kp4pra.Prelude.{ℕ, zero, suc, ◌+◌, ◌≤◌, ◌<◌, inl, inr, Bool-cases, arith, length, leb, ◌==◌}
use kp4pra.Lzhuf.Tables.{root}
use kp4pra.Lzhuf.Huffman.{Huff, climb}
use kp4pra.Lzhuf.Huffman.Shape.{base}
use kp4pra.Lzhuf.Huffman.Weights.{Tree, freq_mono}

-- The least weight after `m` steps up from a node of weight `a`, whose parent has weight `b`.
growth : ℕ → ℕ → ℕ → ℕ
growth zero a b = a
growth (suc m) a b = growth m b (a + b)

growth_above : (m a b : ℕ) → a ≤ b → a ≤ growth m a b
unfolding growth
growth_above zero a b p = omega arith
growth_above (suc m) a b p = omega (arith, growth_above m b (a + b))

growth_mono : (m j a b : ℕ) → a ≤ b → m ≤ j → growth m a b ≤ growth j a b
unfolding growth
growth_mono zero j a b p q = growth_above j a b p
growth_mono (suc m) zero a b p q = absurd (omega arith)
growth_mono (suc m) (suc j) a b p q = growth_mono m j b (a + b) (omega arith) (omega arith)

module _ {h : Huff} {n : ℕ} (v : Tree h n) where
  -- The brother of the parent is no lighter than the node.
  grand :
      (x : ℕ)
      → x < root
      → h.prnt x < root
      → h.freq x + h.freq (h.prnt x) ≤ h.freq (h.prnt (h.prnt x))
  grand x p q =
      let y : ℕ = h.prnt x in
      let (low, same) = v.links.parent y (omega arith, omega arith) in
      ground (
        arith,
        v.sums (h.prnt y) low,
        same,
        v.links.up x p,
        freq_mono v x (base y),
        freq_mono v x (base y + 1),
      )

  parent_weight : (x : ℕ) → x < root → 2 ≤ h.freq (h.prnt x)
  parent_weight x p =
      let (low, same) = v.links.parent x (omega arith, omega arith) in
      ground (arith, v.sums (h.prnt x) low, same, v.pos (base x), v.pos (base x + 1))

  growth-climb :
      (f k a b : ℕ)
      → k ≤ root
      → a ≤ h.freq k
      → (k < root → b ≤ h.freq (h.prnt k))
      → growth (length (climb f h.prnt k)) a b ≤ n
  unfolding growth climb
  growth-climb zero k a b p q r = omega (arith, v.total, freq_mono v k root p)
  growth-climb (suc f) k a b p q r = elim (Bool-cases (k == root)) [
    | inl done ↦ rw done (omega (arith, v.total, freq_mono v k root p))
    | inr more ↦
        let below : k < root = ground arith in
        rw more (
          growth-climb f (h.prnt k) b (a + b) (v.links.parent k (omega arith, omega arith)).0
            (r below) (λ s. omega (arith, grand k below s, r below)))
  ]

  -- A tree that is lighter than 4181 has no code of more than 16 bits.
  pub length-climb-le : (f k : ℕ) → k ≤ root → n < 4181 → length (climb f h.prnt k) ≤ 16
  unfolding growth
  length-climb-le f k p q = elim (Bool-cases (leb (length (climb f h.prnt k)) 16)) [
    | inl short ↦ ground arith
    | inr long ↦
        let big = growth-climb f k 1 2 p (v.pos k p) (parent_weight k) in
        let least : 4181 ≤ growth (length (climb f h.prnt k)) 1 2 =
          growth_mono 17 (length (climb f h.prnt k)) 1 2 (omega arith) (ground arith) in
        absurd (omega (arith, big, least))
  ]
