-- ===== src/Lzhuf/Encode/Joined.antt =====
-- A place with at most one son leaves its tree.
use kp4pra.Prelude.{◌∙◌}
use kp4pra.Lzhuf.Encode.{inr}
use kp4pra.Lzhuf.Encode.{inl}
use kp4pra.Lzhuf.Encode.{Bool-cases}
use kp4pra.Lzhuf.Encode.Woven.{key}
use kp4pra.Prelude.{◌≤◌}
use kp4pra.Lzhuf.Encode.{true}
use kp4pra.Lzhuf.Encode.Woven.{is_node}
use kp4pra.Prelude.{ℕ, ◌<◌, ◌≡◌, ◌≢◌, ◌⊎◌, ap, arith, ◌==◌, if◌then◌else◌}
use kp4pra.Lzhuf.Tables.{ring_size}
use kp4pra.Lzhuf.Huffman.{Array}
use kp4pra.Lzhuf.Encode.{Dict, nil, join}
use kp4pra.Lzhuf.Encode.Woven.{Woven}

module _ {d : Dict} {rank : Array} {b : ℕ} (v : Woven d rank b) (p q : ℕ) (here : p < ring_size)
    (linked : d.dad p ≢ nil)
    (only : ((d.rson p ≡ nil) × (q ≡ d.lson p)) ⊎ ((d.lson p ≡ nil) × (q ≡ d.rson p))) where
  not_own : d.dad p ≢ p
  not_own e = ground (arith, v.father p here linked, ap d.dad e, ap rank e)

  son : q ≢ nil → (q < ring_size) × (d.dad q ≡ p)
  son e = ground (arith, v.left p here linked, v.right p, only)

  not_self : q ≢ p
  not_self e = ground (arith, not_own, son, ap d.dad e)

  pub joined_dad_at :
      (x : ℕ) → (join p q d).dad x ≡ (if x == p then nil else if x == q then d.dad p else d.dad x)
  unfolding join
  joined_dad_at x = ground arith

  pub joined_sons_at :
      (x : ℕ)
      → ((join p q d).rson x
          ≡ (if x == d.dad p then (if d.rson (d.dad p) == p then q else d.rson x) else d.rson x))
        × ((join p q d).lson x
            ≡ (if x == d.dad p then (if d.rson (d.dad p) == p then d.lson x else q) else d.lson x))
  unfolding join
  joined_sons_at x = ground (arith, not_self)

  -- The father of a place that is left.
  pub joined_father :
      (x : ℕ)
      → x < ring_size
      → (join p q d).dad x ≢ nil
      → ((join p q d).dad x ≡ (if x == q then d.dad p else d.dad x))
        × (x ≢ p)
        × (d.dad x ≢ nil)
        × ((join p q d).dad x ≢ p)
  joined_father x l f =
      ground (arith, joined_dad_at x, son, only, not_own, v.father x l, ap d.rson, ap d.lson)

  father_p :
      (is_node d (d.dad p) ≡ true)
      × ((d.rson (d.dad p) ≡ p) ⊎ ((d.dad p < ring_size) × (d.lson (d.dad p) ≡ p)))
      × (rank (d.dad p) < rank p)
      × (rank p ≤ b)
      × (key d (d.dad p) ≡ d.text_buf p)
  father_p = v.father p here linked

  -- No cycle of two.
  not_below : q ≢ nil → d.dad p ≢ q
  not_below f e =
      let s = son f in ground (arith, father_p, v.father q s.0, s, ap d.dad e, ap rank e, here)

  joined_node : (z : ℕ) → is_node d z ≡ true → z ≢ p → is_node (join p q d) z ≡ true
  joined_node z n f = ground (arith, joined_dad_at z, father_p, linked)

  kept_node : (z : ℕ) → is_node (join p q d) z ≡ true → (is_node d z ≡ true) × (z ≢ p)
  kept_node z n = ground (arith, joined_dad_at z, son, here, linked)

  joined_key : (z x : ℕ) → key d z ≡ d.text_buf x → key (join p q d) z ≡ (join p q d).text_buf x
  unfolding join
  joined_key z x e = e

  joined_at_q :
      q ≢ nil
      → (is_node (join p q d) (d.dad p) ≡ true)
        × (((join p q d).rson (d.dad p) ≡ q)
            ⊎ ((d.dad p < ring_size) × ((join p q d).lson (d.dad p) ≡ q)))
        × (rank (d.dad p) < rank q)
        × (rank q ≤ b)
        × (key d (d.dad p) ≡ d.text_buf q)
  joined_at_q f =
      let s = son f in
      (
        joined_node (d.dad p) father_p.0 not_own,
        ground (arith, joined_sons_at (d.dad p), father_p),
        ground (arith, father_p, v.father q s.0, s, ap rank s.1, here),
        ground (arith, v.father q s.0, s, here),
        ground (arith, father_p, v.father q s.0, s, ap d.text_buf s.1, here),
      )

  joined_at_x :
      (x : ℕ)
      → x < ring_size
      → d.dad x ≢ nil
      → x ≢ p
      → d.dad x ≢ p
      → (is_node (join p q d) (d.dad x) ≡ true)
        × (((join p q d).rson (d.dad x) ≡ x)
            ⊎ ((d.dad x < ring_size) × ((join p q d).lson (d.dad x) ≡ x)))
  joined_at_x x l f g h = (
    joined_node (d.dad x) (v.father x l f).0 h,
    ground (arith, joined_sons_at (d.dad x), father_p, v.father x l f, ap d.rson, ap d.lson),
  )

  joined_right :
      (x : ℕ)
      → is_node (join p q d) x ≡ true
      → (join p q d).rson x ≢ nil
      → ((join p q d).rson x < ring_size) × ((join p q d).dad ((join p q d).rson x) ≡ x)
  joined_right x n f =
      let (node, away) = kept_node x n in
      ground (
        arith,
        joined_sons_at x,
        joined_dad_at ((join p q d).rson x),
        son,
        v.right x node,
        father_p,
        ap d.dad,
      )

  joined_left :
      (x : ℕ)
      → x < ring_size
      → (join p q d).dad x ≢ nil
      → (join p q d).lson x ≢ nil
      → ((join p q d).lson x < ring_size)
        × ((join p q d).dad ((join p q d).lson x) ≡ x)
        × ((join p q d).lson x ≢ (join p q d).rson x)
  joined_left x l f g =
      let (to, away, old, notp) = joined_father x l f in
      ground (
        arith,
        joined_sons_at x,
        joined_dad_at ((join p q d).lson x),
        son,
        v.left x l old,
        v.right x,
        father_p,
        ap d.dad,
      )

  pub join-Woven : Woven (join p q d) rank b
  join-Woven = record {
    base = v.base;
    father = λ x l f.
        let (to, away, old, notp) = joined_father x l f in
        elim (Bool-cases (x == q)) [
          | inl e ↦
              let e' : x ≡ q = ground arith in
              let at : (join p q d).dad x ≡ d.dad p = ground (arith, to) in
              let (node, side, up, low, byte) = joined_at_q (λ z. ground arith) in
              rw at (rw e' (node, side, up, low, joined_key (d.dad p) q byte))
          | inr e ↦
              let at : (join p q d).dad x ≡ d.dad x = ground (arith, to) in
              let (node, side) = joined_at_x x l old away (λ z. notp (at ∙ z)) in
              let (node', side', up, low, byte) = v.father x l old in
              rw at (node, side, up, low, joined_key (d.dad x) x byte)
        ];
    right = joined_right;
    left = joined_left;
  }
