-- ===== src/Lzhuf/Huffman/Shape.antt =====
-- The shape of the tree: how parents and sons agree, and that an exchange of two nodes keeps it.
use kp4pra.Lzhuf.Huffman.{sym}
use kp4pra.Lzhuf.Huffman.{ap}
use kp4pra.Prelude.{◌∙◌}
use kp4pra.Prelude.{ℕ, ◌+◌, ◌-◌, ◌%◌, ◌≤◌, ◌<◌, ◌≡◌, ◌≢◌, arith, ltb, ◌==◌, if◌then◌else◌}
use kp4pra.Lzhuf.Tables.{char_count, tree_size, root}
use kp4pra.Lzhuf.Huffman.{Array, Huff, adopt, exchange}

-- The first node of the pair of a node; a leaf stands alone.
abbrev pub base : ℕ → ℕ
base x = if ltb x tree_size then x - x % 2 else x

-- `x` is a node or a leaf other than the root.
abbrev pub IsBelow : ℕ → Type 0
IsBelow x = (x < tree_size + char_count) × (x ≢ root)

-- Parents and sons agree, and a parent has a larger number than its sons.
pub record Links (h : Huff) : Type 0 where
  pub parent : (x : ℕ) → IsBelow x → (h.prnt x ≤ root) × (h.son (h.prnt x) ≡ base x)
  pub child : (k : ℕ) → k ≤ root → IsBelow (h.son k) × (h.prnt (h.son k) ≡ k)
  pub pair :
      (k : ℕ)
      → k ≤ root
      → h.son k < tree_size
      → (h.son k % 2 ≡ 0) × (h.son k < root) × (h.prnt (h.son k + 1) ≡ k)
  pub up : (x : ℕ) → x < root → x < h.prnt x
  pub top : h.prnt root ≡ 0

pub Links-freq : {h : Huff} (a : Array) → Links h → Links (record h { freq = a })
Links-freq a v = record {
  parent = v.parent;
  child = v.child;
  pair = v.pair;
  up = v.up;
  top = v.top;
}

-- `c` and `l` exchanged.
abbrev pub turned : ℕ → ℕ → ℕ → ℕ
turned c l k = if k == c then l else if k == l then c else k

pub turned-turned : (c l k : ℕ) → turned c l (turned c l k) ≡ k
turned-turned c l k = ground arith

turned-root : (c l k : ℕ) → c ≤ root → l ≤ root → k ≤ root → turned c l k ≤ root
turned-root c l k p q r = ground arith

module _ (h : Huff) (v : Links h) (c l : ℕ) (small : c < l) (inside : l ≤ root) where
  pub exchanged_son : (f k : ℕ) → (exchange c l f h).son k ≡ h.son (turned c l k)
  unfolding exchange
  exchanged_son f k = ground arith

  pub exchanged_prnt : (f x : ℕ) → IsBelow x → (exchange c l f h).prnt x ≡ turned c l (h.prnt x)
  unfolding exchange adopt
  exchanged_prnt f x b = ground (
    arith,
    v.parent x b,
    v.child c (omega arith),
    v.child l inside,
    v.pair c (omega arith),
    v.pair l inside,
  )

  -- The nodes below `l` are below `c` too, and `l` is below the parent of `c`.
  module _ (under : h.son l < tree_size → h.son l + 1 < c) (over : l < h.prnt c) where
    exchanged_up : (f x : ℕ) → x < root → x < (exchange c l f h).prnt x
    exchanged_up f x p =
        rw (exchanged_prnt f x (omega arith, omega arith))
          (ground (arith, v.up x, v.parent x (omega arith, omega arith)))

    exchanged_child : (f k : ℕ) → k ≤ root → (exchange c l f h).prnt ((exchange c l f h).son k) ≡ k
    exchanged_child f k p =
        let q : turned c l k ≤ root = turned-root c l k (omega arith) inside p in
        rw (exchanged_son f k) (
          exchanged_prnt f (h.son (turned c l k)) (v.child (turned c l k) q).0
          ∙ ap (turned c l) (v.child (turned c l k) q).1
          ∙ turned-turned c l k)

    exchanged_top : (f : ℕ) → (exchange c l f h).prnt root ≡ 0
    unfolding exchange adopt
    exchanged_top f = ground (
      arith,
      v.top,
      v.child c (omega arith),
      v.child l inside,
      v.pair c (omega arith),
      v.pair l inside,
    )

    exchanged_pair :
        (f k : ℕ)
        → k ≤ root
        → (exchange c l f h).son k < tree_size
        → (exchange c l f h).prnt ((exchange c l f h).son k + 1) ≡ k
    exchanged_pair f k p small_son =
        let q : turned c l k ≤ root = turned-root c l k (omega arith) inside p in
        let inner : h.son (turned c l k) < tree_size = rw (sym (exchanged_son f k)) small_son in
        let (even, low, back) = v.pair (turned c l k) q inner in
        rw (exchanged_son f k) (
          exchanged_prnt f (h.son (turned c l k) + 1) (omega arith, omega arith)
          ∙ ap (turned c l) back
          ∙ turned-turned c l k)

    pub exchange-Links : (f : ℕ) → Links (exchange c l f h)
    exchange-Links f = record {
      parent = λ x b.
          let (low, same) = v.parent x b in
          rw (exchanged_prnt f x b) (
            turned-root c l (h.prnt x) (omega arith) inside low,
            exchanged_son f (turned c l (h.prnt x))
                ∙ ap h.son (turned-turned c l (h.prnt x))
                ∙ same,
          );
      child = λ k p. (
        rw (exchanged_son f k)
            (v.child (turned c l k) (turned-root c l k (omega arith) inside p)).0,
        exchanged_child f k p,
      );
      pair = λ k p s.
          let q : turned c l k ≤ root = turned-root c l k (omega arith) inside p in
          let inner : h.son (turned c l k) < tree_size = rw (sym (exchanged_son f k)) s in
          let (even, low, back) = v.pair (turned c l k) q inner in
          (rw (exchanged_son f k) even, rw (exchanged_son f k) low, exchanged_pair f k p s);
      up = exchanged_up f;
      top = exchanged_top f;
    }
