-- ===== src/Lzhuf/Encode/Woven.antt =====
-- The search trees: sons and fathers agree, all nodes of a tree begin with its byte, and ranks, which
-- the program does not keep, show that there are no cycles.
use kp4pra.Prelude.{refl}
use kp4pra.Lzhuf.Encode.{false}
use kp4pra.Prelude.{
  ℕ, ◌+◌, ◌-◌, ◌≤◌, ◌<◌, ◌≡◌, ◌≢◌, ◌⊎◌, ap, Bool, true, not, ◌&&◌, arith, ltb, ◌==◌, if◌then◌else◌,
}
use kp4pra.Lzhuf.Tables.{ring_size}
use kp4pra.Lzhuf.Huffman.{Array, set}
use kp4pra.Lzhuf.Encode.{Dict, nil, attach}

-- A place of the ring that is in a tree, or the root of one.
abbrev pub is_node : Dict → ℕ → Bool
is_node d p =
    if ltb p ring_size then not (d.dad p == nil) else ltb ring_size p && ltb p (ring_size + 257)

-- The byte of a tree's root, or that of a place.
abbrev pub key : Dict → ℕ → ℕ
key d p = if ltb p ring_size then d.text_buf p else p - ring_size - 1

pub record Woven (d : Dict) (rank : Array) (b : ℕ) : Type 0 where
  pub father :
      (x : ℕ)
      → x < ring_size
      → d.dad x ≢ nil
      → (is_node d (d.dad x) ≡ true)
        × ((d.rson (d.dad x) ≡ x) ⊎ ((d.dad x < ring_size) × (d.lson (d.dad x) ≡ x)))
        × (rank (d.dad x) < rank x)
        × (rank x ≤ b)
        × (key d (d.dad x) ≡ d.text_buf x)
  pub right :
      (p : ℕ)
      → is_node d p ≡ true
      → d.rson p ≢ nil
      → (d.rson p < ring_size) × (d.dad (d.rson p) ≡ p)
  pub left :
      (p : ℕ)
      → p < ring_size
      → d.dad p ≢ nil
      → d.lson p ≢ nil
      → (d.lson p < ring_size) × (d.dad (d.lson p) ≡ p) × (d.lson p ≢ d.rson p)
  pub base : (x : ℕ) → ring_size ≤ x → rank x ≡ 0

module _ {d : Dict} {rank : Array} {b : ℕ} (v : Woven d rank b) where
  module _ (p r : ℕ) (node : is_node d p ≡ true) (inside : r < ring_size) (free : d.dad r ≡ nil)
      (bare : (d.rson r ≡ nil) × (d.lson r ≡ nil)) (same : key d p ≡ d.text_buf r)
      (low : rank p ≤ b) where
    not_self : r ≢ p
    not_self e = ground (arith, ap d.dad e)

    pub attach_right-Woven :
        d.rson p ≡ nil → Woven (attach true p r d) (set rank r (rank p + 1)) (b + 1)
    unfolding attach
    attach_right-Woven e = record {
      base = λ x q. ground (arith, v.base x, inside);
      father = λ x q f. ground (arith, v.father x q, not_self);
      right = λ x q f. ground (arith, v.right x, not_self);
      left = λ x q f g. ground (arith, v.left x q, not_self);
    }

    pub attach_left-Woven :
        p < ring_size
        → d.lson p ≡ nil
        → Woven (attach false p r d) (set rank r (rank p + 1)) (b + 1)
    unfolding attach
    attach_left-Woven l e = record {
      base = λ x q. ground (arith, v.base x, inside);
      father = λ x q f. ground (arith, v.father x q, not_self, e, l);
      right = λ x q f. ground (arith, v.right x, not_self);
      left = λ x q f g. ground (arith, v.left x q, v.right p, not_self);
    }

-- Before anything is inserted.
pub empty-Woven :
    (d : Dict) (b : ℕ)
    → ((x : ℕ) → x < ring_size → d.dad x ≡ nil)
    → ((x : ℕ) → ring_size < x → d.rson x ≡ nil)
    → Woven d (λ x. 0) b
empty-Woven d b free bare = record {
  father = λ x l f. absurd (f (free x l));
  right = λ x n f. ground (arith, free x, bare x);
  left = λ x l f g. absurd (f (free x l));
  base = λ x l. refl;
}
