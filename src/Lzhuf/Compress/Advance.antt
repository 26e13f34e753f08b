-- ===== src/Lzhuf/Compress/Advance.antt =====
-- The inner loops of the encoder take the bytes of one token from the ring.
use kp4pra.Lzhuf.Compress.Ring.{moved-Rings}
use kp4pra.Prelude.{zero, suc, take, drop, append_assoc, ◌++◌, inl, inr, ◌≤◌}
use kp4pra.Lzhuf.Compress.Sliding.{slide_in-Sliding}
use kp4pra.Lzhuf.Compress.Copies.{pushed}
use kp4pra.Lzhuf.Compress.{Coder, slide, advance}
use kp4pra.Prelude.{
  ℕ, zero, suc, ◌+◌, ◌-◌, ◌%◌, ◌≤◌, ◌≡◌, inl, inr, refl, sym, ap, ◌∙◌, append_assoc, true, false,
  Bool-cases, some, [], ◌∷◌, ◌++◌, Bytes, arith, length, take, drop, ◌==◌, if◌then◌else◌,
}
use mathlib.Core.Path.{subst}
use kp4pra.Prelude.Maybe.{◌>>=◌}
use kp4pra.Lzhuf.Tables.{ring_size}
use kp4pra.Lzhuf.Encode.{Dict, insert_node, delete_node}
use kp4pra.Lzhuf.Compress.{Coder, slide_out, slide, advance}
use kp4pra.Lzhuf.Compress.Copies.{Rings, pushed}
use kp4pra.Lzhuf.Compress.Sliding.{removed, entered, Sliding, slide_in-Sliding}

last_out :
    (f : ℕ) (z : Coder) (d : Dict) (k : ℕ)
    → delete_node f z.s z.dict ≡ some d
    → (z.length - 1 == 0) ≡ true
    → slide_out f z
      ≡ some (record z {
        dict = d;
        s = (z.s + 1) % ring_size;
        r = (z.r + 1) % ring_size;
        length = z.length - 1;
      })
unfolding slide_out
last_out f z d k cut e =
    ap
      (λ o. o >>= λ d.
        (if z.length - 1 == 0 then some d else insert_node f ((z.r + 1) % ring_size) d) >>= λ e.
        some (record z {
          dict = e;
          s = (z.s + 1) % ring_size;
          r = (z.r + 1) % ring_size;
          length = z.length - 1;
        }))
      cut
    ∙ ap
        (λ b. (if b then some d else insert_node f ((z.r + 1) % ring_size) d) >>= λ e.
          some (record z {
            dict = e;
            s = (z.s + 1) % ring_size;
            r = (z.r + 1) % ring_size;
            length = z.length - 1;
          }))
        e

other_out :
    (f : ℕ) (z : Coder) (d e : Dict)
    → delete_node f z.s z.dict ≡ some d
    → (z.length - 1 == 0) ≡ false
    → insert_node f ((z.r + 1) % ring_size) d ≡ some e
    → slide_out f z
      ≡ some (record z {
        dict = e;
        s = (z.s + 1) % ring_size;
        r = (z.r + 1) % ring_size;
        length = z.length - 1;
      })
unfolding slide_out
other_out f z d e cut off put =
    ap
      (λ o. o >>= λ d.
        (if z.length - 1 == 0 then some d else insert_node f ((z.r + 1) % ring_size) d) >>= λ e.
        some (record z {
          dict = e;
          s = (z.s + 1) % ring_size;
          r = (z.r + 1) % ring_size;
          length = z.length - 1;
        }))
      cut
    ∙ ap
        (λ b. (if b then some d else insert_node f ((z.r + 1) % ring_size) d) >>= λ e.
          some (record z {
            dict = e;
            s = (z.s + 1) % ring_size;
            r = (z.r + 1) % ring_size;
            length = z.length - 1;
          }))
        off
    ∙ ap
        (λ o. o >>= λ e. some (record z {
          dict = e;
          s = (z.s + 1) % ring_size;
          r = (z.r + 1) % ring_size;
          length = z.length - 1;
        }))
        put

slide_out-Sliding :
    (f a : ℕ) (z : Coder) (behind ahead : Bytes)
    → z.src ≡ []
    → Sliding f z behind (a ∷ ahead)
    → (z' : Coder) × (slide_out f z ≡ some z')
      × Sliding f z' (a ∷ behind) ahead
      × (z'.src ≡ [])
      × (z'.huff ≡ z.huff)
      × (z'.bw ≡ z.bw)
slide_out-Sliding f a z behind ahead none' v =
    let r' : ℕ = (z.r + 1) % ring_size in
    let empty : length z.src ≡ 0 = ap length none' in
    let (d1, cut, v1, text1, free1, free_s) =
      removed {f = f} v.searches v.rings.inside v.place (omega (arith, v.fuel)) in
    let rings1 : Rings d1.text_buf r' (a ∷ behind) ahead =
      subst (λ u. Rings u r' (a ∷ behind) ahead) (sym text1) (moved-Rings v.rings) in
    let less : z.length - 1 ≡ length ahead = omega (arith, v.counted) in
    elim (Bool-cases (z.length - 1 == 0)) [
      | inl end ↦ (
        record z { dict = d1; s = (z.s + 1) % ring_size; r = r'; length = z.length - 1 },
        last_out f z d1 0 cut end,
        record {
          rings = rings1;
          place = omega (arith, v.place, v.rings.inside);
          counted = less;
          whole = inl none';
          b = v.b;
          searches = v1;
          fuel = omega (arith, v.fuel);
          src_bytes = v.src_bytes;
          best = λ l. absurd (ground (arith, less, l, end));
        },
        none',
        refl,
        refl,
      )
      | inr on ↦
          let (d3, put, v3, best3, text3) =
            entered d1 f r' v.b v1 (omega arith) free1 (omega (arith, v.fuel)) in
          (
            record z { dict = d3; s = (z.s + 1) % ring_size; r = r'; length = z.length - 1 },
            other_out f z d1 d3 cut on put,
            record {
              rings = subst (λ u. Rings u r' (a ∷ behind) ahead) (sym text3) rings1;
              place = omega (arith, v.place, v.rings.inside);
              counted = less;
              whole = inl none';
              b = v.b + 1;
              searches = v3;
              fuel = omega (arith, v.fuel);
              src_bytes = v.src_bytes;
              best = λ l. best3;
            },
            none',
            refl,
            refl,
          )
    ]

-- One byte of either loop: the bytes ahead and those of the source are the same row of bytes.
record Slid (f : ℕ) (z z' : Coder) (a : ℕ) (behind rest : Bytes) : Type 0 where
  ahead : Bytes
  sliding : Sliding f z' (a ∷ behind) ahead
  row : ahead ++ z'.src ≡ rest
  same : (z'.huff ≡ z.huff) × (z'.bw ≡ z.bw)

slide-Slid :
    (f a : ℕ) (src : Bytes) (z : Coder) (behind ahead : Bytes)
    → Sliding f (record z { src = src }) behind (a ∷ ahead)
    → (z' : Coder) × (slide f src (record z { src = src }) ≡ some z')
      × Slid f z z' a behind (ahead ++ src)
unfolding slide
slide-Slid f a [] z behind ahead v =
    let (z', made, w, empty, h, bw) =
      slide_out-Sliding f a (record z { src = [] }) behind ahead refl v in
    (z', made, record { ahead = ahead; sliding = w; row = ap (◌++◌ ahead) empty; same = (h, bw) })
slide-Slid f a (c ∷ src) z behind ahead v =
    let (z', made, w, rest, h, bw) = slide_in-Sliding f c a z behind ahead src v in
    (
      z',
      made,
      record {
        ahead = ahead ++ c ∷ [];
        sliding = w;
        row = ap (◌++◌ (ahead ++ c ∷ [])) rest ∙ append_assoc ahead (c ∷ []) src;
        same = (h, bw);
      },
    )

-- `k` bytes of the row are done.
pub record Advanced (f : ℕ) (z z' : Coder) (k : ℕ) (behind row : Bytes) : Type 0 where
  pub ahead : Bytes
  pub sliding : Sliding f z' (pushed (take k row) behind) ahead
  pub left : ahead ++ z'.src ≡ drop k row
  pub same : (z'.huff ≡ z.huff) × (z'.bw ≡ z.bw)

-- While bytes are left, some of them are ahead.
ahead_full :
    (f : ℕ) (z : Coder) (behind ahead : Bytes) (b : ℕ) (row : Bytes)
    → Sliding f z behind ahead
    → ahead ++ z.src ≡ b ∷ row
    → (rest : Bytes) × (ahead ≡ b ∷ rest) × (rest ++ z.src ≡ row)
ahead_full f z behind [] b row v e =
    absurd (elim v.whole [ inl empty ↦ cc (sym empty ∙ e) | inr all ↦ omega (arith, all) ])
ahead_full f z behind (x ∷ rest) b row v e = (rest, cc e, cc e)

pub advance-Advanced :
    (k f : ℕ) (z : Coder) (behind ahead row : Bytes)
    → Sliding f z behind ahead
    → ahead ++ z.src ≡ row
    → k ≤ length row
    → (z' : Coder) × (advance k f z ≡ some z') × Advanced f z z' k behind row
unfolding advance
advance-Advanced zero f z behind ahead row v e p =
    (z, refl, record { ahead = ahead; sliding = v; left = e; same = (refl, refl) })
advance-Advanced (suc k) f z behind ahead [] v e p = absurd (omega arith)
advance-Advanced (suc k) f z behind ahead (b ∷ row) v e p =
    let (rest, now, later) = ahead_full f z behind ahead b row v e in
    let (z1, step, w) = slide-Slid f b z.src z behind rest (subst (Sliding f z behind) now v) in
    let (z2, steps, u) =
      advance-Advanced k f z1 (b ∷ behind) w.ahead row w.sliding (w.row ∙ later) (omega arith) in
    (
      z2,
      ap (λ o. o >>= advance k f) step ∙ steps,
      record {
        ahead = u.ahead;
        sliding = u.sliding;
        left = u.left;
        same = (u.same.0 ∙ w.same.0, u.same.1 ∙ w.same.1);
      },
    )
