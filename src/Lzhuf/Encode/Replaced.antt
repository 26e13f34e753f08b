-- ===== src/Lzhuf/Encode/Replaced.antt =====
-- A new place takes that of an equal one in its tree.
use kp4pra.Prelude.{◌∙◌}
use kp4pra.Lzhuf.Huffman.Shape.{turned-turned}
use kp4pra.Lzhuf.Encode.Renamed.{IsNaming, renamed-Woven}
use kp4pra.Lzhuf.Encode.{true}
use kp4pra.Lzhuf.Encode.Woven.{is_node}
use kp4pra.Prelude.{ℕ, ◌<◌, ◌≡◌, ◌≢◌, ◌⊎◌, inl, inr, ap, Bool-cases, arith, ◌==◌, if◌then◌else◌}
use kp4pra.Lzhuf.Tables.{ring_size}
use kp4pra.Lzhuf.Huffman.{Array}
use kp4pra.Lzhuf.Huffman.Shape.{turned}
use kp4pra.Lzhuf.Encode.{Dict, nil, replace}
use kp4pra.Lzhuf.Encode.Woven.{Woven}

module _ {d : Dict} {rank : Array} {b : ℕ} (v : Woven d rank b) (p r : ℕ) (here : p < ring_size)
    (linked : d.dad p ≢ nil) (inside : r < ring_size) (free : d.dad r ≡ nil)
    (same : d.text_buf p ≡ d.text_buf r) where
  other : r ≢ p
  other e = ground (arith, ap d.dad e)

  -- No father is his own son.
  not_own : d.dad p ≢ p
  not_own e = ground (arith, v.father p here linked, ap d.dad e, ap rank e)

  not_free : d.dad p ≢ r
  not_free e = ground (arith, v.father p here linked, ap d.dad e, inside, free)

  pub replaced_dad_at :
      (x : ℕ)
      → (replace p r d).dad x ≡ (
          if x == p
          then nil
          else if x == d.rson p
          then r
          else if x == d.lson p
          then r
          else if x == r
          then d.dad p
          else d.dad x)
  unfolding replace
  replaced_dad_at x = ground (arith, other)

  -- The sons of `p`, and who has him for a father.
  fathers : (x : ℕ) → x < ring_size → d.dad x ≡ p → (x ≡ d.rson p) ⊎ (x ≡ d.lson p)
  fathers x q e = ground (arith, v.father x q, ap d.rson e, ap d.lson e)

  not_father : (x : ℕ) → x < ring_size → d.dad x ≢ r
  not_father x q e = ground (arith, v.father x q, ap d.dad e, inside, free)

  right_son : d.rson p ≢ nil → (d.rson p < ring_size) × (d.dad (d.rson p) ≡ p)
  right_son = v.right p (ground (arith, here, linked))

  replaced_dads :
      (x : ℕ) → x < ring_size → (replace p r d).dad x ≡ turned p r (d.dad (turned p r x))
  replaced_dads x q = rw (replaced_dad_at x) (elim (Bool-cases (x == p)) [
    | inl e ↦ let e' : x ≡ p = ground arith in rw e' (ground (arith, free, other, inside))
    | inr e ↦ elim (Bool-cases (x == r)) [
      | inl g ↦
          let g' : x ≡ r = ground arith in
          rw g' (
            ground (arith, other, not_own, not_free, right_son, v.left p here linked, inside, free))
      | inr g ↦ ground (arith, fathers x q, not_father x q, right_son, v.left p here linked)
    ]
  ])

  left_son :
      d.lson p ≢ nil → (d.lson p < ring_size) × (d.dad (d.lson p) ≡ p) × (d.lson p ≢ d.rson p)
  left_son = v.left p here linked

  strange : (d.rson p ≢ p) × (d.lson p ≢ p) × (d.rson p ≢ r) × (d.lson p ≢ r)
  strange = (
    λ e. ground (arith, right_son, not_own, ap d.dad e),
    λ e. ground (arith, left_son, not_own, ap d.dad e),
    λ e. ground (arith, right_son, ap d.dad e, free, inside),
    λ e. ground (arith, left_son, ap d.dad e, free, inside),
  )

  pub replaced_sons_at :
      (x : ℕ)
      → ((replace p r d).rson x ≡ (
          if x == d.dad p
          then (if d.rson (d.dad p) == p then r else d.rson x)
          else if x == r
          then d.rson p
          else d.rson x))
        × ((replace p r d).lson x ≡ (
            if x == d.dad p
            then (if d.rson (d.dad p) == p then d.lson x else r)
            else if x == r
            then d.lson p
            else d.lson x))
  unfolding replace
  replaced_sons_at x = ground (arith, other, strange, not_free)

  -- A node of the new trees was one, if it is not the new place.
  was_node : (x : ℕ) → is_node (replace p r d) x ≡ true → x ≢ r → (is_node d x ≡ true) × (x ≢ p)
  was_node x q f = ground (arith, replaced_dad_at x, right_son, left_son, linked, here)

  replaced_rights :
      (x : ℕ)
      → is_node (replace p r d) x ≡ true
      → (replace p r d).rson x ≡ turned p r (d.rson (turned p r x))
  replaced_rights x q = rw (replaced_sons_at x).0 (elim (Bool-cases (x == r)) [
    | inl g ↦ let g' : x ≡ r = ground arith in rw g' (ground (arith, strange, not_free, other))
    | inr g ↦
        let (node, away) = was_node x q (ground arith) in
        let home = v.right x node in
        let not_new : d.rson x ≢ r = λ e. ground (arith, home, ap d.dad e, free, inside) in
        ground (arith, home, not_new, away, ap d.dad)
  ])

  replaced_lefts :
      (x : ℕ)
      → x < ring_size
      → (replace p r d).dad x ≢ nil
      → (replace p r d).lson x ≡ turned p r (d.lson (turned p r x))
  replaced_lefts x l q = rw (replaced_sons_at x).1 (elim (Bool-cases (x == r)) [
    | inl g ↦ let g' : x ≡ r = ground arith in rw g' (ground (arith, strange, not_free, other))
    | inr g ↦
        let (node, away) = was_node x (ground arith) (ground arith) in
        let home = v.left x l (ground arith) in
        let not_new : d.lson x ≢ r = λ e. ground (arith, home, ap d.dad e, free, inside) in
        let father = v.father p here linked in ground (arith, home, not_new, away, ap d.dad, father)
  ])

  replaced_text : (replace p r d).text_buf ≡ d.text_buf
  unfolding replace
  replaced_text = λ i. d.text_buf

  replaced-IsNaming : IsNaming d (replace p r d) (turned p r)
  replaced-IsNaming = record {
    self = turned-turned p r;
    inside = λ x q. ground (arith, here, inside);
    outside = λ x q. ground (arith, here, inside);
    texts = λ x q. ap (λ t. t (turned p r x)) replaced_text ∙ ground (arith, same);
    dads = replaced_dads;
    rights = replaced_rights;
    lefts = replaced_lefts;
  }

  pub replace-Woven : Woven (replace p r d) (λ x. rank (turned p r x)) b
  replace-Woven = renamed-Woven v replaced-IsNaming

  pub replace_placed : (replace p r d).dad r ≢ nil
  replace_placed f = linked (ground (arith, replaced_dad_at r, right_son, left_son, here, strange))

  pub replace_links :
      (x : ℕ) → x < ring_size → (replace p r d).dad x ≢ nil → (d.dad x ≢ nil) ⊎ (x ≡ r)
  replace_links x l f = elim (Bool-cases (x == r)) [
    | inl e ↦ inr (ground arith)
    | inr e ↦ inl (λ g. f (ground (arith, replaced_dad_at x, right_son, left_son, linked, here, g)))
  ]
