-- ===== src/Lzhuf/Huffman/Starting.antt =====
-- The tree that `_start` builds is balanced, with weight 1 at each leaf.
use kp4pra.Prelude.{
  ℕ, zero, suc, ◌+◌, ◌-◌, ◌*◌, ◌/◌, ◌≤◌, ◌<◌, ◌≡◌, ◌≢◌, inl, inr, refl, sym, ap, ◌∙◌, Bool-cases,
  arith, ltb, ◌==◌, if◌then◌else◌,
}
use kp4pra.Lzhuf.Tables.{char_count, tree_size, root}
use kp4pra.Lzhuf.Huffman.{Huff, set, start_leaves, start_node, start_nodes, start}
use kp4pra.Lzhuf.Huffman.Shape.{Links}
use kp4pra.Lzhuf.Huffman.Weights.{Tree}

root_weight : start.freq root ≡ 314
unfolding start start_nodes start_leaves
root_weight = refl

-- After `n` rounds of the first loop.
record Planted (n : ℕ) (h : Huff) : Type 0 where
  freq_leaf : (i : ℕ) → i < n → h.freq i ≡ 1
  son_leaf : (i : ℕ) → i < n → h.son i ≡ i + tree_size
  prnt_leaf : (i : ℕ) → i < n → h.prnt (i + tree_size) ≡ i

start_leaves-Planted : (n : ℕ) → Planted n (start_leaves n)
unfolding start_leaves
start_leaves-Planted zero = record {
  freq_leaf = λ i p. absurd (omega arith);
  son_leaf = λ i p. absurd (omega arith);
  prnt_leaf = λ i p. absurd (omega arith);
}
start_leaves-Planted (suc n) =
    let v = start_leaves-Planted n in
    record {
      freq_leaf = λ i p. ground (arith, v.freq_leaf i);
      son_leaf = λ i p. ground (arith, v.son_leaf i);
      prnt_leaf = λ i p. ground (arith, v.prnt_leaf i);
    }

-- After `n` rounds of the second loop.
record Built (n : ℕ) (h : Huff) : Type 0 where
  leaves : Planted char_count h
  weights : (j : ℕ) → j < n → h.freq (char_count + j) ≡ h.freq (2 * j) + h.freq (2 * j + 1)
  sorted : (k : ℕ) → k + 1 < char_count + n → h.freq k ≤ h.freq (k + 1)
  pos : (k : ℕ) → k < char_count + n → 1 ≤ h.freq k
  son_node : (j : ℕ) → j < n → h.son (char_count + j) ≡ 2 * j
  prnt_node : (x : ℕ) → x < 2 * n → h.prnt x ≡ char_count + x / 2

module _ (n : ℕ) (h : Huff) (small : n < char_count - 1) (v : Built n h) where
  grown : (k : ℕ) → k < char_count + n → (start_node n h).freq k ≡ h.freq k
  grown k p = ground arith

  new_weight : (start_node n h).freq (char_count + n) ≡ h.freq (2 * n) + h.freq (2 * n + 1)
  new_weight = ground arith

  -- The sum of the next two is no smaller than the last sum.
  last_sorted : (k : ℕ) → k + 1 ≡ char_count + n → h.freq k ≤ h.freq (2 * n) + h.freq (2 * n + 1)
  last_sorted k e = elim (Bool-cases (n == 0)) [
    | inl first ↦ ground (arith, v.leaves.freq_leaf k, v.leaves.freq_leaf 0, v.leaves.freq_leaf 1)
    | inr later ↦
        let m : ℕ = n - 1 in
        let here : k ≡ char_count + m = ground arith in
        let after : 2 * n ≡ 2 * m + 1 + 1 = ground arith in
        let sum = v.weights m (ground arith) in
        rw (here, after)
          (omega (
            arith,
            sum,
            v.sorted (2 * m) (ground arith),
            v.sorted (2 * m + 1) (ground arith),
            v.sorted (2 * m + 1 + 1) (ground arith),
          ))
  ]

  start_node-Built : Built (suc n) (start_node n h)
  start_node-Built = record {
    leaves = record {
      freq_leaf = λ i p. ground (arith, v.leaves.freq_leaf i);
      son_leaf = λ i p. ground (arith, v.leaves.son_leaf i);
      prnt_leaf = λ i p. ground (arith, v.leaves.prnt_leaf i);
    };
    weights = λ j p. ground (arith, v.weights j);
    sorted = λ k p. ground (arith, last_sorted k, v.sorted k);
    pos = λ k p. ground (arith, v.pos k, v.pos (2 * n));
    son_node = λ j p. ground (arith, v.son_node j);
    prnt_node = λ x p. ground (arith, v.prnt_node x);
  }

start_nodes-Built : (n : ℕ) → n < char_count → Built n (start_nodes n)
unfolding start_nodes
start_nodes-Built zero p =
    let v = start_leaves-Planted char_count in
    record {
      leaves = v;
      weights = λ j q. absurd (omega arith);
      sorted = λ k q. omega (arith, v.freq_leaf k (omega arith), v.freq_leaf (k + 1) (omega arith));
      pos = λ k q. omega (arith, v.freq_leaf k (omega arith));
      son_node = λ j q. absurd (omega arith);
      prnt_node = λ x q. absurd (omega arith);
    }
start_nodes-Built (suc n) p =
    start_node-Built n (start_nodes n) (omega arith) (start_nodes-Built n (omega arith))

module _ (h : Huff) (v : Built (char_count - 1) h) where
  son_of :
      (k : ℕ)
      → k ≤ root
      → h.son k ≡ (if ltb k char_count then k + tree_size else 2 * (k - char_count))
  son_of k p = elim (Bool-cases (ltb k char_count)) [
    | inl leaf ↦ rw leaf (v.leaves.son_leaf k (ground arith))
    | inr node ↦
        let e : char_count + (k - char_count) ≡ k = ground arith in
        rw node (ap h.son (sym e) ∙ v.son_node (k - char_count) (ground arith))
  ]

  prnt_of :
      (x : ℕ)
      → x < tree_size + char_count
      → x ≢ root
      → h.prnt x ≡ (if ltb x tree_size then char_count + x / 2 else x - tree_size)
  prnt_of x p q = elim (Bool-cases (ltb x tree_size)) [
    | inl node ↦ rw node (v.prnt_node x (ground arith))
    | inr leaf ↦
        let e : x - tree_size + tree_size ≡ x = ground arith in
        rw leaf (ap h.prnt (sym e) ∙ v.leaves.prnt_leaf (x - tree_size) (ground arith))
  ]

  rooted : Huff
  rooted = record h { freq = set h.freq tree_size 0xFFFF; prnt = set h.prnt root 0 }

  rooted-Links : Links rooted
  unfolding rooted
  rooted-Links = record {
    parent = λ x b. ground (arith, prnt_of x, son_of (h.prnt x));
    child = λ k p. ground (arith, son_of k, prnt_of (h.son k));
    pair = λ k p s. ground (arith, son_of k, prnt_of (h.son k + 1));
    up = λ x p. ground (arith, prnt_of x);
    top = refl;
  }

  weight_of :
      (k : ℕ) → k ≤ root → h.son k < tree_size → h.freq (h.son k) + h.freq (h.son k + 1) ≡ h.freq k
  weight_of k p s =
      let e : char_count + (k - char_count) ≡ k = ground (arith, son_of k) in
      let e2 : h.son k ≡ 2 * (k - char_count) = ground (arith, son_of k) in
      rw e2 (sym (v.weights (k - char_count) (omega arith)) ∙ ap h.freq e)

  rooted-Tree : h.freq root ≡ 314 → Tree rooted 314
  unfolding rooted
  rooted-Tree e = record {
    links = rooted-Links;
    sorted = λ k p. ground (arith, v.sorted k);
    pos = λ k p. ground (arith, v.pos k);
    last = refl;
    sums = λ k p s. ground (arith, weight_of k p s, rooted-Links.pair k p s);
    total = ground (arith, e);
    bounded = omega arith;
  }

pub start-Tree : Tree start char_count
unfolding start rooted
start-Tree =
    rooted-Tree (start_nodes (char_count - 1)) (start_nodes-Built (char_count - 1) (omega arith))
      root_weight
