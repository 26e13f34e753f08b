-- ===== src/Lzhuf/Huffman/Weights.antt =====
-- The weights of the tree: sorted, and each the sum of its sons', through one round of `update`.
use kp4pra.Lzhuf.Huffman.{raise}
use kp4pra.Lzhuf.Huffman.Shape.{exchange-Links}
use kp4pra.Lzhuf.Huffman.Shape.{Links-freq, exchanged_son}
use kp4pra.Lzhuf.Huffman.{exchange}
use kp4pra.Lzhuf.Huffman.Shape.{Links-freq, turned}
use kp4pra.Lzhuf.Huffman.{set}
use kp4pra.Lzhuf.Huffman.Shape.{Links-freq, base}
use mathlib.Core.Path.{subst}
use kp4pra.Prelude.{
  refl, ℕ, zero, suc, ◌+◌, ◌-◌, ◌≤◌, ◌<◌, ◌≡◌, ◌≢◌, inl, inr, ap, Bool-cases, arith, ltb, ◌==◌,
  if◌then◌else◌,
}
use kp4pra.Lzhuf.Tables.{tree_size, root}
use kp4pra.Lzhuf.Huffman.{Array, Huff, scan}
use kp4pra.Lzhuf.Huffman.Shape.{Links-freq, Links}

-- The node `c` lacks one of the sum of its sons, none if `c` is no node; `n` is the weight of the
-- root when all is done.
pub record Balanced (h : Huff) (c n : ℕ) : Type 0 where
  pub links : Links h
  pub sorted : (k : ℕ) → k < root → h.freq k ≤ h.freq (k + 1)
  pub pos : (k : ℕ) → k ≤ root → 1 ≤ h.freq k
  pub last : h.freq tree_size ≡ 0xFFFF
  pub sums :
      (k : ℕ)
      → k ≤ root
      → h.son k < tree_size
      → h.freq (h.son k) + h.freq (h.son k + 1) ≡ h.freq k + (if k == c then 1 else 0)
  pub total : h.freq root + (if c == tree_size then 0 else 1) ≡ n
  pub bounded : n < 0xFFFF

-- What the search for a place gives.
record Found (freq : Array) (k l m r : ℕ) : Type 0 where
  behind : l < r
  within : r ≤ m
  enough : k ≤ freq r
  less : freq (r - 1) < k

scan-Found :
    (f : ℕ) (freq : Array) (k l m : ℕ)
    → freq l < k
    → k ≤ freq m
    → l < m
    → m ≤ l + 1 + f
    → Found freq k l m (scan f freq k (l + 1))
unfolding scan
scan-Found zero freq k l m p q r s =
    let e : m ≡ l + 1 = omega arith in
    let same : l + 1 - 1 ≡ l = omega arith in
    record {
      behind = omega arith;
      within = omega arith;
      enough = rw e at q;
      less = ground (arith, ap freq same);
    }
scan-Found (suc f) freq k l m p q r s =
    let same : l + 1 - 1 ≡ l = omega arith in
    elim (Bool-cases (ltb (freq (l + 1)) k)) [
      | inl on ↦ rw on (
          let d : (l + 1 ≢ m) = λ e. ground (arith, ap freq e) in
          let v = scan-Found f freq k (l + 1) m (ground arith) q (omega arith) (omega arith) in
          record {
            behind = omega (arith, v.behind);
            within = v.within;
            enough = v.enough;
            less = v.less;
          })
      | inr off ↦ rw off (record {
        behind = omega arith;
        within = omega arith;
        enough = ground arith;
        less = ground (arith, ap freq same);
      })
    ]

module _ {h : Huff} {c n : ℕ} (v : Balanced h c n) where
  climbing : (d k : ℕ) → k + d ≤ root → h.freq k ≤ h.freq (k + d)
  climbing zero k p = ground arith
  climbing (suc d) k p =
      let e : k + suc d ≡ k + d + 1 = omega arith in
      rw e (omega (arith, climbing d k (omega arith), v.sorted (k + d) (omega arith)))

  pub freq_mono : (j k : ℕ) → j ≤ k → k ≤ root → h.freq j ≤ h.freq k
  freq_mono j k p q =
      let e : k ≡ j + (k - j) = omega arith in rw e (climbing (k - j) j (omega arith))

  -- A lighter node has a smaller number.
  pub lighter : (j k : ℕ) → h.freq j < h.freq k → j ≤ root → j < k
  lighter j k p q = elim (Bool-cases (ltb j k)) [
    | inl yes' ↦ ground arith
    | inr no' ↦ absurd (ground (arith, freq_mono k j (ground arith) q))
  ]

-- The node above `l`; none above the root.
abbrev pub upper : Huff → ℕ → ℕ
upper g l = if g.prnt l == 0 then tree_size else g.prnt l

-- The pair below `k` has the node `l` exactly if `k` is above `l`.
above :
    (g : Huff)
    → Links g
    → (k l : ℕ) → k ≤ root
    → l ≤ root
    → g.son k < tree_size
    → (if g.son k == l then 1 else 0) + (if g.son k + 1 == l then 1 else 0)
      ≡ (if k == upper g l then 1 else 0)
above g v k l p q s = elim (Bool-cases (l == root)) [
  | inl e ↦
      let e' : l ≡ root = ground arith in
      let top : g.prnt l ≡ 0 = rw e' v.top in rw top (ground (arith, v.pair k p, v.child k p))
  | inr e ↦ ground (arith, v.pair k p, v.child k p, v.parent l (ground arith, ground arith), v.up l)
]

module _ {h : Huff} {c n : ℕ} (v : Balanced h c n) (p : c ≤ root) where
  heavier : (x : ℕ) → x < root → h.prnt x ≢ c → h.freq x + 1 ≤ h.freq (h.prnt x)
  heavier x q d =
      let (low, same) = v.links.parent x (omega arith, omega arith) in
      ground (arith, v.sums (h.prnt x) low, same, v.pos (base x), v.pos (base x + 1))

  module _ (g : Huff) (l : ℕ) (w : Links g) (q : l ≤ root) (same : h.freq l ≡ h.freq c)
      (next : h.freq c + 1 ≤ h.freq (l + 1))
      (weight : (j : ℕ) → g.freq j ≡ set h.freq l (h.freq c + 1) j)
      (sons : (k : ℕ) → g.son k ≡ h.son (turned c l k)) where
    lifted_sums :
        (k : ℕ)
        → k ≤ root
        → g.son k < tree_size
        → g.freq (g.son k) + g.freq (g.son k + 1) ≡ g.freq k + (if k == upper g l then 1 else 0)
    lifted_sums k r s =
        let k' : ℕ = turned c l k in
        let old : h.freq (g.son k) + h.freq (g.son k + 1) ≡ h.freq k' + (if k' == c then 1 else 0) =
          rw (sons k) (v.sums k' (ground arith) (ground (arith, sons k))) in
        ground (arith, old, above g w k l r q s, weight k, weight (g.son k), weight (g.son k + 1))

    lifted-Balanced : Balanced g (upper g l) n
    lifted-Balanced = record {
      links = w;
      sorted = λ k r. ground (arith, weight k, weight (k + 1), v.sorted k r);
      pos = λ k r. ground (arith, weight k, v.pos k r);
      last = ground (arith, weight tree_size, v.last);
      sums = lifted_sums;
      total = ground (arith, weight root, v.total, w.top, w.up l, w.parent l);
      bounded = v.bounded;
    }

  -- The round at `c` ends at a node `l` that `c` has changed places with, or at `c` itself.
  pub record Raised (r : Huff × ℕ) : Type 0 where
    pub balanced : Balanced r.0 (upper r.0 r.1) n
    pub from : c ≤ r.1
    pub inside : r.1 ≤ root

  own_heavier : c < root → h.freq c + 1 ≤ h.freq (h.prnt c)
  own_heavier q = ground (arith, heavier c q, v.links.up c q)

  slack : h.freq c + 1 ≤ h.freq tree_size
  slack = ground (arith, v.total, v.bounded, v.last, freq_mono v c root p (omega arith))

  -- The nodes below one as heavy as `c` come before `c`.
  below : (l : ℕ) → c < l → l ≤ root → h.freq l ≡ h.freq c → h.son l < tree_size → h.son l + 1 < c
  below l q r same s =
      let (even, low, back) = v.links.pair l r s in
      lighter v (h.son l + 1) c (ground (arith, v.sums l r s, v.pos (h.son l) (omega arith), same))
        (omega arith)

  stayed-Raised :
      h.freq c + 1 ≤ h.freq (c + 1) → Raised (record h { freq = set h.freq c (h.freq c + 1) }, c)
  stayed-Raised q = record {
    balanced =
        lifted-Balanced (record h { freq = set h.freq c (h.freq c + 1) }) c
          (Links-freq (set h.freq c (h.freq c + 1)) v.links) p refl q (λ j. refl)
          (λ k. ground arith);
    from = omega arith;
    inside = p;
  }

  moved-Raised :
      (l : ℕ)
      → c < l
      → l ≤ root
      → h.freq l < h.freq c + 1
      → h.freq c + 1 ≤ h.freq (l + 1)
      → Raised (exchange c l (h.freq c + 1) (record h { freq = set h.freq c (h.freq c + 1) }), l)
  unfolding exchange
  moved-Raised l q r s t =
      let g : Huff = record h { freq = set h.freq c (h.freq c + 1) } in
      let same : h.freq l ≡ h.freq c = omega (arith, freq_mono v c l (omega arith) r) in
      record {
        balanced =
            lifted-Balanced (exchange c l (h.freq c + 1) g) l
              (exchange-Links g (Links-freq g.freq v.links) c l q r (below l q r same)
                (lighter v l (h.prnt c) (omega (arith, own_heavier, same)) r) (h.freq c + 1))
              r same t (λ j. ground (arith, same))
              (exchanged_son g (Links-freq g.freq v.links) c l q r (h.freq c + 1));
        from = omega arith;
        inside = r;
      }

  pub raise-Raised : Raised (raise c h)
  unfolding raise
  raise-Raised =
      let k : ℕ = h.freq c + 1 in
      let a : Array = set h.freq c k in
      elim (Bool-cases (ltb (a (c + 1)) k)) [
        | inl on ↦
            let d : c ≢ root = λ e. ground (arith, slack, ap h.freq e) in
            let e : c + 1 + 1 ≡ c + 2 = omega arith in
            let s : Found a k (c + 1) tree_size (scan tree_size a k (c + 2)) =
              subst (λ i. Found a k (c + 1) tree_size (scan tree_size a k i)) e
                (scan-Found tree_size a k (c + 1) tree_size (ground arith) (ground (arith, slack))
                  (omega arith) (omega arith)) in
            let m : ℕ = scan tree_size a k (c + 2) in
            let e2 : m - 1 + 1 ≡ m = omega (arith, s.behind) in
            rw on (
              moved-Raised (m - 1) (omega (arith, s.behind)) (omega (arith, s.within))
                (ground (arith, s.less, s.behind))
                (ground (arith, s.enough, s.behind, ap h.freq e2)))
        | inr off ↦ rw off (stayed-Raised (ground arith))
      ]

-- A balanced tree of weight `n`.
abbrev pub Tree : Huff → ℕ → Type 0
Tree h n = Balanced h tree_size n
