-- ===== src/Lzhuf/Compress/Sliding.antt =====
-- One byte further: the ring, the trees and the best match are kept.
use kp4pra.Prelude.{
  ℕ, ◌+◌, ◌-◌, ◌%◌, ◌≤◌, ◌<◌, ◌≡◌, ◌≢◌, ◌⊎◌, inl, inr, refl, sym, ap, ◌∙◌, Bool-cases, some, [],
  ◌∷◌, ◌++◌, Bytes, arith, length, length-append, ◌==◌, All,
}
use kp4pra.Prelude.Maybe.{◌>>=◌}
use kp4pra.Lzhuf.Compress.{Coder, slide_in}
use kp4pra.Lzhuf.Encode.Inserting.{insert_node-Inserted}
use kp4pra.Lzhuf.Encode.{Dict, nil, distance, insert_node, delete_node}
use mathlib.Core.Path.{subst}
use kp4pra.Lzhuf.Tables.{threshold}
use kp4pra.Lzhuf.Encode.Deleting.{delete_node-Deleted}
use kp4pra.Lzhuf.Encode.Woven.{Woven}
use kp4pra.Lzhuf.Encode.{Dict, nil, distance, delete_node}
use mathlib.Core.Path.{subst}
use kp4pra.Lzhuf.Tables.{ring_size, max_match, threshold}
use kp4pra.Lzhuf.Huffman.{Array}
use kp4pra.Lzhuf.Encode.{Dict, nil, distance, delete_node}
use kp4pra.Lzhuf.Encode.Woven.{Woven}
use kp4pra.Lzhuf.Encode.Deleting.{delete_node-Deleted}
use kp4pra.Lzhuf.Compress.{write_byte}
use kp4pra.Lzhuf.Compress.Copies.{Rings}
use kp4pra.Lzhuf.Compress.Ring.{moved-Rings, written-Rings}

-- The best match so far is one with a place behind `r` in the ring.
pub record Best (d : Dict) (r : ℕ) : Type 0 where
  pub short : d.match_length ≤ max_match
  pub found :
      threshold < d.match_length
      → (q : ℕ) × (q < ring_size)
        × ((r + ring_size - q) % ring_size ≤ ring_size - max_match)
        × (q ≢ r)
        × (d.match_position ≡ distance r q)
        × ((j : ℕ) → j < d.match_length → d.text_buf (r + j) ≡ d.text_buf (q + j))

-- The trees hold places behind `r` and `r` itself, and what is in the ring are bytes.
pub record Searches (d : Dict) (r b : ℕ) : Type 0 where
  pub rank : Array
  pub woven : Woven d rank b
  pub window :
      (x : ℕ)
      → x < ring_size
      → d.dad x ≢ nil
      → (r + ring_size - x) % ring_size ≤ ring_size - max_match
  pub bytes : (i : ℕ) → i < ring_size → d.text_buf i < 256

module _ {f b r s : ℕ} {d : Dict} (v : Searches d r b) (inside : r < ring_size)
    (place : s ≡ (r + max_match) % ring_size) (fuel : b + 1 < f) where
  -- The oldest place leaves the trees, and the window is one place further.
  pub removed :
      (e : Dict) × (delete_node f s d ≡ some e)
      × Searches e ((r + 1) % ring_size) b
      × (e.text_buf ≡ d.text_buf)
      × (e.dad ((r + 1) % ring_size) ≡ nil)
      × (e.dad s ≡ nil)
  removed =
      let (e, made, w) = delete_node-Deleted v.woven s (omega arith) f (omega arith) in
      let near =
        λ (x : ℕ) (l : x < ring_size) (g : e.dad x ≢ nil). v.window x l (w.links x l g).0 in
      (
        e,
        made,
        record {
          rank = w.rank;
          woven = w.woven;
          window = λ x l g.
              let away = (w.links x l g).1 in omega (arith, near x l g, away, place, inside);
          bytes = λ i l. subst (λ t. t i < 256) (sym w.text) (v.bytes i l);
        },
        w.text,
        elim (Bool-cases (e.dad ((r + 1) % ring_size) == nil)) [
          | inl free ↦ ground arith
          | inr hung ↦
              absurd
                (omega (arith, near ((r + 1) % ring_size) (omega arith) (ground arith), inside))
        ],
        elim (Bool-cases (e.dad s == nil)) [
          | inl free ↦ ground arith
          | inr hung ↦ absurd ((w.links s (omega arith) (ground arith)).1 refl)
        ],
      )

retexted-Woven :
    (d : Dict) (rank t : Array) (b : ℕ)
    → Woven d rank b
    → ((x : ℕ) → x < ring_size → d.dad x ≢ nil → t x ≡ d.text_buf x)
    → Woven (record d { text_buf = t }) rank b
retexted-Woven d rank t b v h = record {
  base = v.base;
  father = λ x l f.
      let (node, side, up, low, byte) = v.father x l f in
      (node, side, up, low, ground (arith, node, h x l f, h (d.dad x), byte));
  right = v.right;
  left = v.left;
}

-- A byte is written where no tree has a place.
written-Searches :
    (d : Dict) (r b s c : ℕ)
    → Searches d r b
    → d.dad s ≡ nil
    → c < 256
    → Searches (record d { text_buf = write_byte s c d.text_buf }) r b
written-Searches d r b s c v free small = record {
  rank = v.rank;
  woven =
      retexted-Woven d v.rank (write_byte s c d.text_buf) b v.woven
        (λ x l f. let away : x ≢ s = λ e. f (ap d.dad e ∙ free) in ground (arith, away));
  window = v.window;
  bytes = λ i l. ground (arith, v.bytes i l);
}

pub entered :
    (d : Dict) (f r b : ℕ)
    → Searches d r b
    → r < ring_size
    → d.dad r ≡ nil
    → b < f
    → (e : Dict) × (insert_node f r d ≡ some e)
      × Searches e r (b + 1)
      × Best e r
      × (e.text_buf ≡ d.text_buf)
entered d f r b v inside free k =
    let (e, made, w) =
      insert_node-Inserted f r d v.rank b v.woven inside free (v.bytes r inside) k in
    (
      e,
      made,
      record {
        rank = w.rank;
        woven = w.woven;
        window = λ x l g. elim (w.links x l g) [
          | inl old ↦ v.window x l old
          | inr new ↦ rw new (omega arith)
        ];
        bytes = λ i l. subst (λ t. t i < 256) (sym w.text) (v.bytes i l);
      },
      record {
        short = w.matched.short;
        found = λ g.
            let (q, low, hung, other, at, equal) = w.matched.found g in
            (
              q,
              low,
              v.window q low hung,
              other,
              at,
              λ j l. subst (λ t. t (r + j) ≡ t (q + j)) (sym w.text) (equal j l),
            );
      },
      w.text,
    )

-- What the encoder keeps: `behind` is done, its last byte first, and `ahead` is in the ring.
pub record Sliding (f : ℕ) (z : Coder) (behind ahead : Bytes) : Type 0 where
  pub rings : Rings z.dict.text_buf z.r behind ahead
  pub place : z.s ≡ (z.r + max_match) % ring_size
  pub counted : z.length ≡ length ahead
  pub whole : (z.src ≡ []) ⊎ (length ahead ≡ max_match)
  pub b : ℕ
  pub searches : Searches z.dict z.r b
  pub fuel : b + (length ahead + length z.src) < f
  pub src_bytes : All (λ c. c < 256) z.src
  pub best : 1 ≤ length ahead → Best z.dict z.r

pub slide_in-Sliding :
    (f c a : ℕ) (z : Coder) (behind ahead src : Bytes)
    → Sliding f (record z { src = c ∷ src }) behind (a ∷ ahead)
    → (z' : Coder) × (slide_in f c (record z { src = src }) ≡ some z')
      × Sliding f z' (a ∷ behind) (ahead ++ c ∷ [])
      × (z'.src ≡ src)
      × (z'.huff ≡ z.huff)
      × (z'.bw ≡ z.bw)
unfolding slide_in
slide_in-Sliding f c a z behind ahead src v =
    let r' : ℕ = (z.r + 1) % ring_size in
    let full : length ahead ≡ max_match - 1 = elim v.whole [
      | inl empty ↦ absurd (cc empty)
      | inr all ↦ omega (arith, all)
    ] in
    let (d1, cut, v1, text1, free1, free_s) =
      removed {f = f} v.searches v.rings.inside v.place (omega (arith, v.fuel)) in
    let t : Array = write_byte z.s c d1.text_buf in
    let v2 = written-Searches d1 r' v.b z.s c v1 free_s v.src_bytes.0 in
    let (d3, put, v3, best3, text3) =
      entered (record d1 { text_buf = t }) f r' v.b v2 (omega arith) free1
        (omega (arith, v.fuel)) in
    let there : z.s ≡ (r' + (max_match - 1)) % ring_size = omega (arith, v.place, v.rings.inside) in
    let rings1 : Rings d1.text_buf r' (a ∷ behind) ahead =
      subst (λ u. Rings u r' (a ∷ behind) ahead) (sym text1) (moved-Rings v.rings) in
    let size : length (ahead ++ c ∷ []) ≡ max_match =
      omega (arith, length-append ahead (c ∷ []), full) in
    let z' : Coder = record z { dict = d3; s = (z.s + 1) % ring_size; r = r'; src = src } in
    (
      z',
      ap
            (λ o. o >>= λ d.
              insert_node f r' (record d { text_buf = write_byte z.s c d.text_buf }) >>= λ e.
              some (record z { dict = e; s = (z.s + 1) % ring_size; r = r'; src = src }))
            cut
          ∙ ap
              (λ o. o >>= λ e.
                some (record z { dict = e; s = (z.s + 1) % ring_size; r = r'; src = src }))
              put,
      record {
        rings =
            subst (λ u. Rings u r' (a ∷ behind) (ahead ++ c ∷ [])) (sym text3)
              (written-Rings z.s c rings1 full there);
        place = omega (arith, v.place, v.rings.inside);
        counted = omega (arith, v.counted, size, full);
        whole = inr size;
        b = v.b + 1;
        searches = v3;
        fuel = omega (arith, v.fuel, size, full);
        src_bytes = v.src_bytes.1;
        best = λ l. best3;
      },
      refl,
      refl,
      refl,
    )
