-- ===== src/Lzhuf/Encode/Renamed.antt =====
-- Places that change their names: the trees stay as they are.
use kp4pra.Prelude.{ℕ, ◌≤◌, ◌<◌, ◌≡◌, ◌≢◌, inl, inr, sym, ap, ◌∙◌, true, Bool-cases, arith, ltb}
use kp4pra.Lzhuf.Tables.{ring_size}
use kp4pra.Lzhuf.Huffman.{Array}
use kp4pra.Lzhuf.Encode.{Dict, nil}
use kp4pra.Lzhuf.Encode.Woven.{is_node, key, Woven}

-- `name` changes places of the ring with one another.
pub record IsNaming (d e : Dict) (name : ℕ → ℕ) : Type 0 where
  pub self : (x : ℕ) → name (name x) ≡ x
  pub inside : (x : ℕ) → x < ring_size → name x < ring_size
  pub outside : (x : ℕ) → ring_size ≤ x → name x ≡ x
  pub texts : (x : ℕ) → x < ring_size → e.text_buf (name x) ≡ d.text_buf x
  pub dads : (x : ℕ) → x < ring_size → e.dad x ≡ name (d.dad (name x))
  pub rights : (x : ℕ) → is_node e x ≡ true → e.rson x ≡ name (d.rson (name x))
  pub lefts : (x : ℕ) → x < ring_size → e.dad x ≢ nil → e.lson x ≡ name (d.lson (name x))

module _ {d e : Dict} {rank name : Array} {b : ℕ} (v : Woven d rank b) (n : IsNaming d e name) where
  named_node : (z : ℕ) → is_node d z ≡ true → is_node e (name z) ≡ true
  named_node z q = elim (Bool-cases (ltb z ring_size)) [
    | inl small ↦
        let back = n.self z in
        let dad = n.dads (name z) (n.inside z (ground arith)) in
        let there : e.dad (name z) ≡ name (d.dad z) = dad ∙ ap (λ x. name (d.dad x)) back in
        let not_nil : name (d.dad z) ≢ nil =
          λ f. ground (arith, sym (n.self (d.dad z)) ∙ ap name f ∙ n.outside nil (omega arith)) in
        ground (arith, n.inside z, there, not_nil)
    | inr large ↦ ground (arith, n.outside z)
  ]

  old_node : (x : ℕ) → is_node e x ≡ true → is_node d (name x) ≡ true
  old_node x q = elim (Bool-cases (ltb x ring_size)) [
    | inl small ↦
        let not_nil : d.dad (name x) ≢ nil =
          λ f. ground (arith, n.dads x, ap name f ∙ n.outside nil (omega arith)) in
        ground (arith, n.inside x, not_nil)
    | inr large ↦ ground (arith, n.outside x)
  ]

  named_key : (z : ℕ) → is_node d z ≡ true → key e (name z) ≡ key d z
  named_key z q = ground (arith, n.inside z, n.outside z, n.texts z)

  pub renamed-Woven : Woven e (λ x. rank (name x)) b
  renamed-Woven = record {
    base = λ x q. ap rank (n.outside x q) ∙ v.base x q;
    father = λ x q f.
        let y : ℕ = name x in
        let small : y < ring_size = n.inside x q in
        let z : ℕ = d.dad y in
        let to : e.dad x ≡ name z = n.dads x q in
        let linked : z ≢ nil = λ g. f (to ∙ ap name g ∙ n.outside nil (omega arith)) in
        let (node, son, up, low, byte) = v.father y small linked in
        let node' = named_node z node in
        let back = n.self z in
        let right' : e.rson (name z) ≡ name (d.rson z) =
          n.rights (name z) node' ∙ ap (λ u. name (d.rson u)) back in
        let left' : z < ring_size → e.lson (name z) ≡ name (d.lson z) = λ l.
          n.lefts (name z) (n.inside z l) (ground (arith, node', n.inside z))
          ∙ ap (λ u. name (d.lson u)) back in
        let again : name y ≡ x = n.self x in
        rw to (
          node',
          elim son [
            | inl s ↦ inl (right' ∙ ap name s ∙ again)
            | inr s ↦ inr (n.inside z s.0, left' s.0 ∙ ap name s.1 ∙ again)
          ],
          rw back up,
          low,
          named_key z node ∙ byte ∙ sym (n.texts y small) ∙ ap e.text_buf again,
        );
    right = λ x q f.
        let y : ℕ = name x in
        let node = old_node x q in
        let to : e.rson x ≡ name (d.rson y) = n.rights x q in
        let some' : d.rson y ≢ nil = λ g. f (to ∙ ap name g ∙ n.outside nil (omega arith)) in
        let (small, home) = v.right y node some' in
        rw to (
          n.inside (d.rson y) small,
          n.dads (name (d.rson y)) (n.inside (d.rson y) small)
              ∙ ap (λ u. name (d.dad u)) (n.self (d.rson y))
              ∙ ap name home
              ∙ n.self x,
        );
    left = λ x q f g.
        let y : ℕ = name x in
        let linked : d.dad y ≢ nil =
          λ g'. f (n.dads x q ∙ ap name g' ∙ n.outside nil (omega arith)) in
        let to : e.lson x ≡ name (d.lson y) = n.lefts x q f in
        let across : e.rson x ≡ name (d.rson y) = n.rights x (ground arith) in
        let some' : d.lson y ≢ nil = λ g'. g (to ∙ ap name g' ∙ n.outside nil (omega arith)) in
        let (small, home, apart) = v.left y (n.inside x q) linked some' in
        rw (to, across)
          (
            n.inside (d.lson y) small,
            n.dads (name (d.lson y)) (n.inside (d.lson y) small)
                ∙ ap (λ u. name (d.dad u)) (n.self (d.lson y))
                ∙ ap name home
                ∙ n.self x,
            λ h. apart (sym (n.self (d.lson y)) ∙ ap name h ∙ n.self (d.rson y)),
          );
  }
