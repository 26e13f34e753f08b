-- ===== src/Lzhuf/Encode/Deleted.antt =====
-- A place with two sons leaves its tree: the last one of its left tree takes its place.
use kp4pra.Prelude.{ℕ, ◌<◌, ◌≡◌, ◌≢◌, inl, refl, sym, ap, ◌∙◌, true, arith, ◌==◌, if◌then◌else◌}
use kp4pra.Lzhuf.Tables.{ring_size}
use kp4pra.Lzhuf.Huffman.{Array}
use kp4pra.Lzhuf.Huffman.Shape.{turned}
use kp4pra.Lzhuf.Encode.{Dict, nil, join, take_right, pull_up, replace}
use kp4pra.Lzhuf.Encode.Woven.{is_node, Woven}
use kp4pra.Lzhuf.Encode.Renamed.{renamed-Woven}
use kp4pra.Lzhuf.Encode.Replaced.{replaced_dad_at, replaced_sons_at, replace-Woven}
use kp4pra.Lzhuf.Encode.Joined.{joined_dad_at, joined_sons_at, join-Woven}

-- Two states that agree where it matters.
record Agrees (d e : Dict) : Type 0 where
  texts : (x : ℕ) → x < ring_size → e.text_buf x ≡ d.text_buf x
  dads : (x : ℕ) → x < ring_size → e.dad x ≡ d.dad x
  rights : (x : ℕ) → is_node e x ≡ true → e.rson x ≡ d.rson x
  lefts : (x : ℕ) → x < ring_size → e.dad x ≢ nil → e.lson x ≡ d.lson x

Agrees-Woven : {d e : Dict} {rank : Array} {b : ℕ} → Woven d rank b → Agrees d e → Woven e rank b
Agrees-Woven v a = renamed-Woven {name = λ x. x} v (record {
  self = λ x. refl;
  inside = λ x q. q;
  outside = λ x q. refl;
  texts = a.texts;
  dads = a.dads;
  rights = a.rights;
  lefts = a.lefts;
})

module _ {d : Dict} {rank : Array} {b : ℕ} (v : Woven d rank b) (p q : ℕ) (here : p < ring_size)
    (linked : d.dad p ≢ nil) (there : q < ring_size) (hung : d.dad q ≢ nil) (last : d.rson q ≡ nil)
    (same : d.text_buf q ≡ d.text_buf p) (apart : q ≢ p) (lower : d.dad p ≢ q)
    (right_full : d.rson p ≢ nil) (sideways : d.rson p ≢ q) where
  -- The place `q` alone, and then in the place of `p`.
  lifted : Dict
  lifted = join q (d.lson q) d

  lifted-Woven : Woven lifted rank b
  unfolding lifted
  lifted-Woven = join-Woven v q (d.lson q) there hung (inl (last, refl))

  lifted_dad_at :
      (x : ℕ) → lifted.dad x ≡ (if x == q then nil else if x == d.lson q then d.dad q else d.dad x)
  unfolding lifted
  lifted_dad_at = joined_dad_at v q (d.lson q) there hung (inl (last, refl))

  lifted_sons_at :
      (x : ℕ)
      → (lifted.rson x ≡ (
          if x == d.dad q
          then (if d.rson (d.dad q) == q then d.lson q else d.rson x)
          else d.rson x))
        × (lifted.lson x ≡ (
            if x == d.dad q
            then (if d.rson (d.dad q) == q then d.lson x else d.lson q)
            else d.lson x))
  unfolding lifted
  lifted_sons_at = joined_sons_at v q (d.lson q) there hung (inl (last, refl))

  lifted_text : lifted.text_buf ≡ d.text_buf
  unfolding lifted join
  lifted_text = λ i. d.text_buf

  left_of_q : d.lson q ≢ nil → (d.lson q < ring_size) × (d.dad (d.lson q) ≡ q)
  left_of_q f = ground (arith, v.left q there hung f)

  not_p : d.lson q ≢ p
  not_p e = ground (arith, left_of_q, lower, ap d.dad e, here)

  linked' : lifted.dad p ≢ nil
  linked' e = ground (arith, lifted_dad_at p, linked, apart, not_p)

  free' : lifted.dad q ≡ nil
  free' = ground (arith, lifted_dad_at q)

  placed : Dict
  placed = replace p q lifted

  placed-Woven : Woven placed (λ x. rank (turned p q x)) b
  unfolding placed lifted join
  placed-Woven = replace-Woven lifted-Woven p q here linked' there free' (sym same)

  same' : lifted.text_buf p ≡ lifted.text_buf q
  unfolding lifted join
  same' = sym same

  placed_dad_at :
      (x : ℕ)
      → placed.dad x ≡ (
          if x == p
          then nil
          else if x == lifted.rson p
          then q
          else if x == lifted.lson p
          then q
          else if x == q
          then lifted.dad p
          else lifted.dad x)
  unfolding placed
  placed_dad_at = replaced_dad_at lifted-Woven p q here linked' there free' same'

  placed_sons_at :
      (x : ℕ)
      → (placed.rson x ≡ (
          if x == lifted.dad p
          then (if lifted.rson (lifted.dad p) == p then q else lifted.rson x)
          else if x == q
          then lifted.rson p
          else lifted.rson x))
        × (placed.lson x ≡ (
            if x == lifted.dad p
            then (if lifted.rson (lifted.dad p) == p then lifted.lson x else q)
            else if x == q
            then lifted.lson p
            else lifted.lson x))
  unfolding placed
  placed_sons_at = replaced_sons_at lifted-Woven p q here linked' there free' same'

  placed_text : placed.text_buf ≡ d.text_buf
  unfolding placed lifted join replace
  placed_text = λ i. d.text_buf

  own_father : (d.dad p ≢ p) × (d.dad q ≢ q)
  own_father = (
    λ e. ground (arith, v.father p here linked, ap rank e),
    λ e. ground (arith, v.father q there hung, ap rank e),
  )

  right_of_p : (d.rson p < ring_size) × (d.dad (d.rson p) ≡ p)
  right_of_p = v.right p (ground (arith, here, linked)) right_full

  not_right : (d.rson p ≢ q) × (d.rson p ≢ p) × (d.lson q ≢ q) × (d.lson q ≢ d.rson p)
  not_right = (
    sideways,
    λ e. ground (arith, right_of_p, own_father, ap d.dad e),
    λ e. ground (arith, left_of_q, own_father, ap d.dad e, there),
    λ e. ground (arith, left_of_q, right_of_p, apart, ap d.dad e),
  )

  -- The father of the father is another one.
  old_father : lifted.dad p ≡ d.dad p
  old_father = ground (arith, lifted_dad_at p, apart, not_p)

  -- A state with these arrays is woven.
  given-Woven :
      (e : Dict)
      → e.text_buf ≡ d.text_buf
      → ((x : ℕ) → x < ring_size → e.dad x ≡ placed.dad x)
      → ((x : ℕ) → x ≢ p → (e.rson x ≡ placed.rson x) × (e.lson x ≡ placed.lson x))
      → Woven e (λ x. rank (turned p q x)) b
  given-Woven e text_same dads sons = Agrees-Woven placed-Woven (record {
    texts = λ x l. ap (λ t. t x) (text_same ∙ sym placed_text);
    dads = dads;
    rights =
        λ x n. (sons x (λ f. ground (arith, n, ap e.dad f, dads p here, placed_dad_at p, here))).0;
    lefts = λ x l f.
        (sons x (λ g. ground (arith, f, ap e.dad g, dads p here, placed_dad_at p, here))).1;
  })

  -- What is in a tree afterwards was in one before.
  placed_links : (x : ℕ) → x < ring_size → placed.dad x ≢ nil → (d.dad x ≢ nil) × (x ≢ p)
  placed_links x l f = ground (
    arith,
    placed_dad_at x,
    lifted_dad_at x,
    lifted_sons_at p,
    left_of_q,
    right_of_p,
    hung,
    v.left p here linked,
    here,
    there,
  )

  -- `q` is the left son itself.
  module _ (son : d.lson p ≡ q) (above : d.dad q ≡ p) where
    near_dads : (x : ℕ) → x < ring_size → (join p q (take_right p q d)).dad x ≡ placed.dad x
    unfolding join take_right
    near_dads x l = ground (
      arith,
      placed_dad_at x,
      lifted_dad_at x,
      lifted_sons_at p,
      old_father,
      not_right,
      apart,
      own_father,
      son,
      above,
      left_of_q,
      ap d.dad,
    )

    near_sons :
        (x : ℕ)
        → x ≢ p
        → ((join p q (take_right p q d)).rson x ≡ placed.rson x)
          × ((join p q (take_right p q d)).lson x ≡ placed.lson x)
    unfolding join take_right
    near_sons x f = ground (
      arith,
      placed_sons_at x,
      lifted_sons_at x,
      lifted_sons_at p,
      lifted_sons_at (d.dad p),
      old_father,
      not_right,
      apart,
      own_father,
      son,
      above,
      lower,
    )

    pub near_text : (join p q (take_right p q d)).text_buf ≡ d.text_buf
    unfolding join take_right
    near_text = λ i. d.text_buf

    pub near-Woven : Woven (join p q (take_right p q d)) (λ x. rank (turned p q x)) b
    near-Woven = given-Woven (join p q (take_right p q d)) near_text near_dads near_sons

    pub near_links :
        (x : ℕ)
        → x < ring_size
        → (join p q (take_right p q d)).dad x ≢ nil
        → (d.dad x ≢ nil) × (x ≢ p)
    near_links x l f = placed_links x l (λ g. f (near_dads x l ∙ g))

  -- `q` lies deeper, on the right of its father.
  module _ (far : d.lson p ≢ q) (above : d.dad q ≢ p) (side : d.rson (d.dad q) ≡ q)
      (not_up : d.dad p ≢ d.dad q) (left_full : d.lson p ≢ nil) where
    left_of_p : (d.lson p < ring_size) × (d.dad (d.lson p) ≡ p) × (d.lson p ≢ d.rson p)
    left_of_p = v.left p here linked left_full

    not_left : (d.lson p ≢ p) × (d.lson q ≢ d.lson p)
    not_left = (
      λ e. ground (arith, left_of_p, own_father, ap d.dad e),
      λ e. ground (arith, left_of_p, left_of_q, apart, ap d.dad e),
    )

    far_dad_at :
        (x : ℕ)
        → (join p q (take_right p q (pull_up p q d))).dad x ≡ (
            if x == p
            then nil
            else if x == q
            then d.dad p
            else if x == d.rson p
            then q
            else if x == d.lson p
            then q
            else if x == d.lson q
            then d.dad q
            else d.dad x)
    unfolding join take_right pull_up
    far_dad_at x = ground (arith, not_right, not_left, not_p, apart, above, far)

    far_sons_at :
        (x : ℕ)
        → ((join p q (take_right p q (pull_up p q d))).rson x ≡ (
            if x == d.dad p
            then (if d.rson (d.dad p) == p then q else d.rson x)
            else if x == q
            then d.rson p
            else if x == d.dad q
            then d.lson q
            else d.rson x))
          × ((join p q (take_right p q (pull_up p q d))).lson x ≡ (
              if x == d.dad p
              then (if d.rson (d.dad p) == p then d.lson x else q)
              else if x == q
              then d.lson p
              else d.lson x))
    unfolding join take_right pull_up
    far_sons_at x = ground (arith, not_right, not_left, not_p, apart, above, far, lower, not_up)

    far_dads :
        (x : ℕ) → x < ring_size → (join p q (take_right p q (pull_up p q d))).dad x ≡ placed.dad x
    far_dads x l = ground (
      arith,
      far_dad_at x,
      placed_dad_at x,
      lifted_dad_at x,
      lifted_sons_at p,
      old_father,
      not_right,
      not_left,
      apart,
      own_father,
      above,
      far,
    )

    far_sons :
        (x : ℕ)
        → x ≢ p
        → ((join p q (take_right p q (pull_up p q d))).rson x ≡ placed.rson x)
          × ((join p q (take_right p q (pull_up p q d))).lson x ≡ placed.lson x)
    far_sons x f = ground (
      arith,
      far_sons_at x,
      placed_sons_at x,
      lifted_sons_at x,
      lifted_sons_at p,
      lifted_sons_at (d.dad p),
      old_father,
      not_right,
      apart,
      own_father,
      side,
      above,
      lower,
      not_up,
    )

    pub far_text : (join p q (take_right p q (pull_up p q d))).text_buf ≡ d.text_buf
    unfolding join take_right pull_up
    far_text = λ i. d.text_buf

    pub far-Woven : Woven (join p q (take_right p q (pull_up p q d))) (λ x. rank (turned p q x)) b
    far-Woven = given-Woven (join p q (take_right p q (pull_up p q d))) far_text far_dads far_sons

    pub far_links :
        (x : ℕ)
        → x < ring_size
        → (join p q (take_right p q (pull_up p q d))).dad x ≢ nil
        → (d.dad x ≢ nil) × (x ≢ p)
    far_links x l f = placed_links x l (λ g. f (far_dads x l ∙ g))
