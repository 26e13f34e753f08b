-- ===== src/Lzhuf/Huffman/Updating.antt =====
-- `update` keeps the tree balanced, and adds one to its weight.
use mathlib.Core.Path.{subst}
use kp4pra.Prelude.{
  ℕ, zero, suc, ◌+◌, ◌≤◌, ◌<◌, ◌≡◌, ◌≢◌, inl, inr, ap, false, Bool-cases, arith, ◌==◌,
  if◌then◌else◌,
}
use kp4pra.Lzhuf.Tables.{char_count, tree_size, root, max_freq}
use kp4pra.Lzhuf.Huffman.{Huff, raise, update_loop, update}
use kp4pra.Lzhuf.Huffman.Weights.{Balanced, Tree, raise-Raised}

-- The rounds of `update` from `c` on.
update_loop-Tree :
    (f c : ℕ) (h : Huff) (n : ℕ)
    → Balanced h c n
    → c ≤ root
    → root < c + f
    → Tree (update_loop f c h) n
unfolding update_loop
update_loop-Tree zero c h n v p q = absurd (omega arith)
update_loop-Tree (suc f) c h n v p q =
    let r = raise-Raised v p in
    let g : Huff = (raise c h).0 in
    let l : ℕ = (raise c h).1 in
    elim (Bool-cases (g.prnt l == 0)) [
      | inl on ↦ rw on (subst (λ b. Balanced g (if b then tree_size else g.prnt l) n) on r.balanced)
      | inr off ↦
          let d : l ≢ root = λ e. ground (arith, r.balanced.links.top, ap g.prnt e) in
          rw off (
            update_loop-Tree f (g.prnt l) g n
              (subst (λ b. Balanced g (if b then tree_size else g.prnt l) n) off r.balanced)
              (r.balanced.links.parent l (omega (arith, r.inside), d)).0
              (ground (arith, r.from, r.inside, d, r.balanced.links.up l)))
    ]

leaf_missing :
    (h : Huff) (n c : ℕ)
    → Tree h n
    → n + 1 < 0xFFFF
    → tree_size ≤ h.son c
    → c ≤ root
    → Balanced h c (n + 1)
leaf_missing h n c v p q r = record {
  links = v.links;
  sorted = v.sorted;
  pos = v.pos;
  last = v.last;
  sums = λ k s t. ground (arith, v.sums k s t, ap h.son);
  total = ground (arith, v.total);
  bounded = p;
}

-- In a tree of weight below 32768 (at which `_reconst` would come in), `update` for a character keeps
-- the tree balanced, and its weight grows by one. A tree is balanced if parents and sons agree and a
-- parent has a larger number than its sons, if the weights are at least 1 and grow with the number of
-- the node, if the weight of a node is the sum of its sons', and if the entry behind the root is
-- 65535, which is more than the weight of the root.
pub update-Tree :
    (h : Huff) (n c : ℕ) → Tree h n → n < max_freq → c < char_count → Tree (update c h) (n + 1)
unfolding update
update-Tree h n c v p q =
    let (low, same) = v.links.parent (c + tree_size) (omega arith, omega arith) in
    let few : (h.freq root == max_freq) ≡ false = ground (arith, v.total) in
    rw few (
      update_loop-Tree tree_size (h.prnt (c + tree_size)) h (n + 1)
        (leaf_missing h n (h.prnt (c + tree_size)) v (omega arith) (ground (arith, same)) low) low
        (omega arith))
