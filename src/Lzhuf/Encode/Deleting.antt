-- ===== src/Lzhuf/Encode/Deleting.antt =====
-- `delete_node` comes to an end, and takes one place out of the trees.
use kp4pra.Prelude.{
  ℕ, zero, suc, ◌+◌, ◌≤◌, ◌<◌, ◌≡◌, ◌≢◌, ◌⊎◌, inl, inr, refl, sym, ap, ◌∙◌, Bool-cases, some, arith,
  ◌==◌,
}
use kp4pra.Lzhuf.Tables.{ring_size}
use kp4pra.Lzhuf.Huffman.{Array}
use kp4pra.Lzhuf.Huffman.Shape.{turned}
use kp4pra.Lzhuf.Encode.{Dict, nil, join, take_right, pull_up, rightmost, delete_node}
use kp4pra.Lzhuf.Encode.Woven.{key, Woven}
use kp4pra.Lzhuf.Encode.Joined.{joined_father, join-Woven}
use kp4pra.Lzhuf.Encode.Deleted.{near-Woven, far-Woven, near_links, far_links, near_text, far_text}

-- The right end of the tree at `q`.
record RightEnd (d : Dict) (rank : Array) (q q' : ℕ) : Type 0 where
  inside : q' < ring_size
  hung : d.dad q' ≢ nil
  last : d.rson q' ≡ nil
  same : d.text_buf q' ≡ d.text_buf q
  below : rank q ≤ rank q'
  here : (q' ≡ q) ⊎ ((d.rson (d.dad q') ≡ q') × (rank q ≤ rank (d.dad q')))

rightmost-RightEnd :
    {d : Dict} {rank : Array} {b : ℕ}
    → Woven d rank b
    → (f q : ℕ) → q < ring_size
    → d.dad q ≢ nil
    → b < rank q + f
    → (q' : ℕ) × (rightmost f d.rson q ≡ some q') × RightEnd d rank q q'
unfolding rightmost
rightmost-RightEnd v zero q l g k = absurd (omega (arith, (v.father q l g).3))
rightmost-RightEnd {d} {rank} v (suc f) q l g k = elim (Bool-cases (d.rson q == nil)) [
  | inl end ↦ (
    q,
    rw end refl,
    record {
      inside = l;
      hung = g;
      last = ground arith;
      same = refl;
      below = omega arith;
      here = inl refl;
    },
  )
  | inr on ↦
      let q1 : ℕ = d.rson q in
      let (small, home) = v.right q (ground arith) (ground arith) in
      let hung1 : d.dad q1 ≢ nil = λ e. ground (arith, home, e, l) in
      let (node, side, up, low, byte) = v.father q1 small hung1 in
      let up' : rank q < rank q1 = rw home at up in
      let (q', found, end) = rightmost-RightEnd v f q1 small hung1 (omega (arith, up')) in
      (
        q',
        rw on found,
        record {
          inside = end.inside;
          hung = end.hung;
          last = end.last;
          same = end.same ∙ ground (arith, byte, ap (key d) home);
          below = omega (arith, end.below, up');
          here = inr (elim end.here [
            | inl e ↦
                let up1 : d.dad q' ≡ q = ap d.dad e ∙ home in
                (ap d.rson up1 ∙ sym e, omega (arith, ap rank up1))
            | inr s ↦ (s.0, omega (arith, s.1, up'))
          ]);
        },
      )
]

-- The trees without the place `p`.
pub record Deleted (d : Dict) (b p : ℕ) (e : Dict) : Type 0 where
  pub rank : Array
  pub woven : Woven e rank b
  pub text : e.text_buf ≡ d.text_buf
  pub links : (x : ℕ) → x < ring_size → e.dad x ≢ nil → (d.dad x ≢ nil) × (x ≢ p)

join_text : (p q : ℕ) (d : Dict) → (join p q d).text_buf ≡ d.text_buf
unfolding join
join_text p q d = λ i. d.text_buf

module _ {d : Dict} {rank : Array} {b : ℕ} (v : Woven d rank b) (p : ℕ) (here : p < ring_size) where
  joined-Deleted :
      (q : ℕ)
      → d.dad p ≢ nil
      → ((d.rson p ≡ nil) × (q ≡ d.lson p)) ⊎ ((d.lson p ≡ nil) × (q ≡ d.rson p))
      → Deleted d b p (join p q d)
  joined-Deleted q linked only = record {
    rank = rank;
    woven = join-Woven v p q here linked only;
    text = join_text p q d;
    links = λ x l f.
        let (to, away, old, no') = joined_father v p q here linked only x l f in (old, away);
  }

  module _ (linked : d.dad p ≢ nil) (right_full : d.rson p ≢ nil) (left_full : d.lson p ≢ nil) where
    left_son : (d.lson p < ring_size) × (d.dad (d.lson p) ≡ p) × (d.lson p ≢ d.rson p)
    left_son = v.left p here linked left_full

    right_son : (d.rson p < ring_size) × (d.dad (d.rson p) ≡ p)
    right_son = v.right p (ground (arith, here, linked)) right_full

    left_hung : d.dad (d.lson p) ≢ nil
    left_hung e = ground (arith, left_son, e, here)

    left_facts :
        (rank p < rank (d.lson p))
        × (d.text_buf (d.lson p) ≡ d.text_buf p)
        × (rank (d.dad p) < rank p)
    left_facts =
        let f = v.father (d.lson p) left_son.0 left_hung in
        (
          ground (arith, f, ap rank left_son.1),
          ground (arith, f, ap (key d) left_son.1, here),
          (v.father p here linked).2,
        )

    near-Deleted :
        d.rson (d.lson p) ≡ nil → Deleted d b p (join p (d.lson p) (take_right p (d.lson p) d))
    near-Deleted last =
        let q : ℕ = d.lson p in
        let apart : q ≢ p = λ e. ground (arith, left_facts, ap rank e) in
        let lower : d.dad p ≢ q = λ e. ground (arith, left_facts, ap rank e) in
        let sideways : d.rson p ≢ q = λ e. left_son.2 (sym e) in
        record {
          rank = λ x. rank (turned p q x);
          woven =
              near-Woven v p q here linked left_son.0 left_hung last left_facts.1 apart lower
                right_full sideways refl left_son.1;
          text =
              near_text v p q here linked left_son.0 left_hung last left_facts.1 apart lower
                right_full sideways refl left_son.1;
          links =
              near_links v p q here linked left_son.0 left_hung last left_facts.1 apart lower
                right_full sideways refl left_son.1;
        }

    far-Deleted :
        d.rson (d.lson p) ≢ nil
        → (q : ℕ) → RightEnd d rank (d.lson p) q
        → Deleted d b p (join p q (take_right p q (pull_up p q d)))
    far-Deleted more q e =
        let far : d.lson p ≢ q = λ f. more (ap d.rson f ∙ e.last) in
        let deep : (d.rson (d.dad q) ≡ q) × (rank (d.lson p) ≤ rank (d.dad q)) = elim e.here [
          | inl f ↦ absurd (far (sym f))
          | inr f ↦ f
        ] in
        let apart : q ≢ p = λ f. ground (arith, left_facts, e.below, ap rank f) in
        let lower : d.dad p ≢ q = λ f. ground (arith, left_facts, e.below, ap rank f) in
        let above : d.dad q ≢ p = λ f. ground (arith, left_facts, deep.1, ap rank f) in
        let not_up : d.dad p ≢ d.dad q = λ f. ground (arith, left_facts, deep.1, ap rank f) in
        let sideways : d.rson p ≢ q = λ f. above (sym (ap d.dad f) ∙ right_son.1) in
        let same : d.text_buf q ≡ d.text_buf p = e.same ∙ left_facts.1 in
        record {
          rank = λ x. rank (turned p q x);
          woven =
              far-Woven v p q here linked e.inside e.hung e.last same apart lower right_full
                sideways far above deep.0 not_up left_full;
          text =
              far_text v p q here linked e.inside e.hung e.last same apart lower right_full sideways
                far above deep.0 not_up left_full;
          links =
              far_links v p q here linked e.inside e.hung e.last same apart lower right_full
                sideways far above deep.0 not_up left_full;
        }

  -- In woven trees whose ranks are at most `b`, more than `b` rounds are enough to delete a place of the
  -- ring. The trees are woven again, with ranks up to `b`, the text is the same, the place is in no
  -- tree, and no other place has come into one. Trees are woven if a son's father has him for a son, a
  -- son is in the ring and has his father, the two sons differ, all places of a tree hold the byte that
  -- its root stands for, and ranks that are 0 at the roots grow from father to son.
  pub delete_node-Deleted :
      (f : ℕ) → b < f → (e : Dict) × (delete_node f p d ≡ some e) × Deleted d b p e
  unfolding delete_node
  delete_node-Deleted f k = elim (Bool-cases (d.dad p == nil)) [
    | inl free ↦ (
      d,
      rw free refl,
      record {
        rank = rank;
        woven = v;
        text = refl;
        links = λ x l g. (g, λ h. ground (arith, free, g, ap d.dad h));
      },
    )
    | inr hung ↦ elim (Bool-cases (d.rson p == nil)) [
      | inl bare ↦ (
        join p (d.lson p) d,
        rw hung (rw bare refl),
        joined-Deleted (d.lson p) (ground arith) (inl (ground arith, refl)),
      )
      | inr right ↦ elim (Bool-cases (d.lson p == nil)) [
        | inl bare ↦ (
          join p (d.rson p) d,
          rw hung (rw right (rw bare refl)),
          joined-Deleted (d.rson p) (ground arith) (inr (ground arith, refl)),
        )
        | inr left ↦ elim (Bool-cases (d.rson (d.lson p) == nil)) [
          | inl near ↦ (
            join p (d.lson p) (take_right p (d.lson p) d),
            rw hung (rw right (rw left (rw near refl))),
            near-Deleted (ground arith) (ground arith) (ground arith) (ground arith),
          )
          | inr far ↦
              let linked : d.dad p ≢ nil = ground arith in
              let right_full : d.rson p ≢ nil = ground arith in
              let left_full : d.lson p ≢ nil = ground arith in
              let (q, found, end) =
                rightmost-RightEnd v f (d.lson p) (left_son linked right_full left_full).0
                  (left_hung linked right_full left_full) (omega arith) in
              (
                join p q (take_right p q (pull_up p q d)),
                rw hung (rw right (rw left (rw far (rw found refl)))),
                far-Deleted linked right_full left_full (ground arith) q end,
              )
        ]
      ]
    ]
  ]
