-- ===== src/Lzhuf/Encode/Inserting.antt =====
-- `insert_node` comes to an end, puts one place into the trees, and the match it finds is one.
use kp4pra.Lzhuf.Encode.Replaced.{replace_placed}
use kp4pra.Prelude.{
  ℕ, zero, suc, ◌+◌, ◌-◌, ◌≤◌, ◌<◌, ◌≡◌, ◌≢◌, ◌⊎◌, inl, inr, refl, sym, ap, ◌∙◌, Bool, true, false,
  ◌&&◌, Bool-cases, some, arith, ltb, leb, ◌==◌, if◌then◌else◌,
}
use kp4pra.Lzhuf.Huffman.{set}
use kp4pra.Lzhuf.Encode.{insert_node}
use kp4pra.Lzhuf.Encode.{leb}
use kp4pra.Lzhuf.Encode.{ap}
use kp4pra.Lzhuf.Encode.{sym}
use kp4pra.Lzhuf.Encode.{some}
use kp4pra.Lzhuf.Huffman.Shape.{turned}
use kp4pra.Lzhuf.Encode.{replace, insert_loop}
use kp4pra.Lzhuf.Encode.Replaced.{replace-Woven, replace_links}
use kp4pra.Lzhuf.Huffman.{set}
use kp4pra.Lzhuf.Encode.{attach}
use kp4pra.Lzhuf.Encode.Woven.{key, attach_right-Woven, attach_left-Woven}
use kp4pra.Lzhuf.Encode.Woven.{attach_left-Woven, key}
use kp4pra.Lzhuf.Encode.{false}
use kp4pra.Lzhuf.Encode.Woven.{attach_right-Woven}
use kp4pra.Lzhuf.Encode.{set, true}
use kp4pra.Lzhuf.Encode.Woven.{is_node}
use kp4pra.Lzhuf.Encode.{Bool, attach}
use kp4pra.Lzhuf.Tables.{ring_size, max_match}
use kp4pra.Lzhuf.Huffman.{Array}
use kp4pra.Lzhuf.Encode.{Dict, nil, compare_from, distance}
use kp4pra.Lzhuf.Encode.Woven.{Woven}
use kp4pra.Lzhuf.Encode.Matching.{Matched, compare_from-Compared, note_match_lem, better_Matched}

-- The trees with the place `r`.
pub record Inserted (d : Dict) (b r : ℕ) (e : Dict) : Type 0 where
  pub rank : Array
  pub woven : Woven e rank (b + 1)
  pub placed : e.dad r ≢ nil
  pub text : e.text_buf ≡ d.text_buf
  pub links : (x : ℕ) → x < ring_size → e.dad x ≢ nil → (d.dad x ≢ nil) ⊎ (x ≡ r)
  pub matched : Matched d r e.match_position e.match_length

more-Woven : {d : Dict} {rank : Array} {b : ℕ} → Woven d rank b → Woven d rank (b + 1)
more-Woven v = record {
  base = v.base;
  father = λ x l f.
      let (node, side, up, low, byte) = v.father x l f in
      (node, side, up, omega (arith, low), byte);
  right = v.right;
  left = v.left;
}

other_match-Woven :
    {d : Dict} {rank : Array} {b : ℕ} (m l : ℕ)
    → Woven d rank b
    → Woven (record d { match_position = m; match_length = l }) rank b
other_match-Woven m l v = record {
  base = v.base;
  father = v.father;
  right = v.right;
  left = v.left;
}

-- What the loop relies on at the node `p`.
record Descends (d : Dict) (rank : Array) (b : ℕ) (right : Bool) (p r : ℕ) : Type 0 where
  woven : Woven d rank b
  node : is_node d p ≡ true
  inner : right ≡ false → p < ring_size
  same : key d p ≡ d.text_buf r
  inside : r < ring_size
  free : d.dad r ≡ nil
  bare : (d.rson r ≡ nil) × (d.lson r ≡ nil)
  low : rank p ≤ b
  matched : Matched d r d.match_position d.match_length

attached-Inserted :
    (d : Dict) (rank : Array) (b : ℕ) (right : Bool) (p r : ℕ)
    → Descends d rank b right p r
    → (if right then d.rson p else d.lson p) ≡ nil
    → Inserted d b r (attach right p r d)
unfolding attach
attached-Inserted d rank b true p r v e = record {
  rank = set rank r (rank p + 1);
  woven = attach_right-Woven v.woven p r v.node v.inside v.free v.bare v.same v.low e;
  placed = λ f. ground (arith, v.node);
  text = refl;
  links = λ x l f. ground arith;
  matched = v.matched;
}
attached-Inserted d rank b false p r v e = record {
  rank = set rank r (rank p + 1);
  woven = attach_left-Woven v.woven p r v.node v.inside v.free v.bare v.same v.low (v.inner refl) e;
  placed = λ f. ground (arith, v.node);
  text = refl;
  links = λ x l f. ground arith;
  matched = v.matched;
}

-- The son of a node.
child_of :
    (d : Dict) (rank : Array) (b : ℕ) (right : Bool) (p r q : ℕ)
    → Descends d rank b right p r
    → q ≡ (if right then d.rson p else d.lson p)
    → q ≢ nil
    → (q < ring_size) × (d.dad q ≡ p)
child_of d rank b true p r q v e f = ground (arith, v.woven.right p v.node, e)
child_of d rank b false p r q v e f =
    ground (arith, v.woven.left p (v.inner refl), v.node, v.inner refl, e)

replace_text :
    (p r : ℕ) (d : Dict)
    → ((replace p r d).text_buf ≡ d.text_buf)
      × ((replace p r d).match_position ≡ d.match_position)
      × ((replace p r d).match_length ≡ d.match_length)
unfolding replace
replace_text p r d = (refl, refl, refl)

replaced-Inserted :
    (d : Dict) (rank : Array) (b q r m l : ℕ)
    → Woven d rank b
    → q < ring_size
    → d.dad q ≢ nil
    → d.text_buf q ≡ d.text_buf r
    → r < ring_size
    → d.dad r ≡ nil
    → Matched d r m l
    → Inserted d b r (replace q r (record d { match_position = m; match_length = l }))
replaced-Inserted d rank b q r m l v small hung same inside free w =
    let e : Dict = record d { match_position = m; match_length = l } in
    let v' = other_match-Woven m l v in
    record {
      rank = λ x. rank (turned q r x);
      woven = more-Woven (replace-Woven v' q r small hung inside free same);
      placed = replace_placed v' q r small hung inside free same;
      text = (replace_text q r e).0;
      links = replace_links v' q r small hung inside free same;
      matched = rw ((replace_text q r e).1, (replace_text q r e).2) w;
    }

again-Inserted :
    (d : Dict) (b r m l : ℕ) (e : Dict)
    → Inserted (record d { match_position = m; match_length = l }) b r e
    → Inserted d b r e
again-Inserted d b r m l e v = record {
  rank = v.rank;
  woven = v.woven;
  placed = v.placed;
  text = v.text;
  links = v.links;
  matched = record { short = v.matched.short; found = v.matched.found };
}

insert_loop-Inserted :
    (f : ℕ) (right : Bool) (p r : ℕ) (d : Dict) (rank : Array) (b : ℕ)
    → Descends d rank b right p r
    → b < rank p + f
    → (e : Dict) × (insert_loop f right p r d ≡ some e) × Inserted d b r e
unfolding insert_loop
insert_loop-Inserted zero right p r d rank b v k = absurd (omega (arith, v.low))
insert_loop-Inserted (suc f) right p r d rank b v k =
    let q : ℕ = if right then d.rson p else d.lson p in
    let i : ℕ = (compare_from (max_match - 1) d.text_buf r q 1).0 in
    let right' : Bool = (compare_from (max_match - 1) d.text_buf r q 1).1 in
    elim (Bool-cases (q == nil)) [
      | inl end ↦
          (attach right p r d, rw end refl, attached-Inserted d rank b right p r v (ground arith))
      | inr on ↦
          let (small, home) = child_of d rank b right p r q v refl (ground arith) in
          let hung : d.dad q ≢ nil = λ e. ground (arith, home, e, v.node) in
          let (node, side, up, low, byte) = v.woven.father q small hung in
          let same : d.text_buf q ≡ d.text_buf r = sym byte ∙ ap (key d) home ∙ v.same in
          let other : q ≢ r = λ e. ground (arith, hung, ap d.dad e, v.free) in
          let (m, l, noted, kind) = note_match_lem i (distance r q) d in
          let match' =
            better_Matched d r q m l i v.matched small hung other (sym same)
              (compare_from-Compared (max_match - 1) d.text_buf r q 1) kind in
          elim (Bool-cases (ltb d.match_length i && leb max_match i)) [
            | inl full ↦ (
              replace q r (record d { match_position = m; match_length = l }),
              rw on (rw full (ap (λ e. some (replace q r e)) noted)),
              replaced-Inserted d rank b q r m l v.woven small hung same v.inside v.free match',
            )
            | inr more ↦
                let (e, made, w) =
                  insert_loop-Inserted f right' q r
                    (record d { match_position = m; match_length = l }) rank b
                    (record {
                      woven = other_match-Woven m l v.woven;
                      node = ground (arith, small, hung);
                      inner = λ g. small;
                      same = ground (arith, small, same);
                      inside = v.inside;
                      free = v.free;
                      bare = v.bare;
                      low = low;
                      matched = record { short = match'.short; found = match'.found };
                    })
                    (ground (arith, up, ap rank home)) in
                (
                  e,
                  rw on (rw more (ap (insert_loop f right' q r) noted ∙ made)),
                  again-Inserted d b r m l e w,
                )
          ]
    ]

cleared-Woven :
    (d : Dict) (rank : Array) (b r : ℕ)
    → Woven d rank b
    → r < ring_size
    → d.dad r ≡ nil
    → Woven (record d { lson = set d.lson r nil; rson = set d.rson r nil; match_length = 0 }) rank b
cleared-Woven d rank b r v inside free = record {
  base = v.base;
  father = λ x l f. ground (arith, v.father x l f, ap d.dad);
  right = λ x n f. ground (arith, v.right x);
  left = λ x l f g. ground (arith, v.left x l f);
}

-- In woven trees whose ranks are at most `b`, more than `b` rounds are enough to insert a place `r` of
-- the ring that is in no tree and holds a byte. The trees are woven again, with ranks up to `b + 1`,
-- `r` is in one, the text is the same, and no other place has come into a tree. The match that is noted is at most
-- 60 long, and if it is longer than 2 there is another place, in a tree before, at the distance that
-- is noted, from which as many bytes are the same as from `r`. Trees are woven if a son's father has
-- him for a son, a son is in the ring and has his father, the two sons differ, all places of a tree
-- hold the byte that its root stands for, and ranks that are 0 at the roots grow from father to son.
pub insert_node-Inserted :
    (f r : ℕ) (d : Dict) (rank : Array) (b : ℕ)
    → Woven d rank b
    → r < ring_size
    → d.dad r ≡ nil
    → d.text_buf r < 256
    → b < f
    → (e : Dict) × (insert_node f r d ≡ some e) × Inserted d b r e
unfolding insert_node
insert_node-Inserted f r d rank b v inside free small k =
    let d' : Dict = record d {
      lson = set d.lson r nil;
      rson = set d.rson r nil;
      match_length = 0;
    } in
    let p : ℕ = ring_size + 1 + d.text_buf r in
    let (e, made, w) =
      insert_loop-Inserted f true p r d' rank b
        (record {
          woven = cleared-Woven d rank b r v inside free;
          node = ground (arith, small);
          inner = λ g. absurd (cc g);
          same = ground arith;
          inside = inside;
          free = free;
          bare = (ground arith, ground arith);
          low = omega (arith, v.base p (omega arith));
          matched = record { short = omega arith; found = λ g. absurd (omega arith) };
        })
        (omega arith) in
    (
      e,
      made,
      record {
        rank = w.rank;
        woven = w.woven;
        placed = w.placed;
        text = w.text;
        links = w.links;
        matched = record { short = w.matched.short; found = w.matched.found };
      },
    )
