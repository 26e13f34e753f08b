-- ===== src/Lzhuf/Compress/Begin.antt =====
-- What the encoder begins with: the first bytes in the ring, and blanks in the trees.
use kp4pra.Prelude.Maybe.{◌>>=◌}
use kp4pra.Prelude.{drop, take-append-drop, length-append, ◌++◌, some, [], ◌∷◌}
use kp4pra.Lzhuf.Huffman.{start}
use kp4pra.Lzhuf.Bits.{new_writer}
use kp4pra.Lzhuf.Compress.Sliding.{Searches, entered, Sliding}
use kp4pra.Lzhuf.Compress.{Coder, first_coder}
use kp4pra.Prelude.{length-take}
use kp4pra.Prelude.{
  ℕ, zero, suc, ◌+◌, ◌-◌, ◌%◌, ◌≤◌, ◌<◌, ◌≡◌, ◌≢◌, ◌⊎◌, inl, inr, refl, sym, ap, ◌∙◌, Bool-cases,
  some, [], ◌∷◌, Bytes, arith, length, take, ltb, ◌==◌, if◌then◌else◌, All,
}
use mathlib.Core.Path.{subst}
use kp4pra.Prelude.{All-take}
use kp4pra.Prelude.Maybe.{◌>>=◌}
use kp4pra.Lzhuf.Tables.{ring_size, max_match}
use kp4pra.Lzhuf.Huffman.{Array, set}
use kp4pra.Lzhuf.Encode.{Dict, nil, insert_node}
use kp4pra.Lzhuf.Encode.Woven.{Woven, empty-Woven}
use kp4pra.Lzhuf.Encode.Inserting.{insert_node-Inserted}
use kp4pra.Lzhuf.Compress.{load_from, first_dict, insert_before}
use kp4pra.Lzhuf.Compress.Copies.{Rings, nth}

load-out :
    (s : Bytes) (i j : ℕ) (t : Array) → (j < i) ⊎ (i + length s ≤ j) → load_from i s t j ≡ t j
unfolding load_from
load-out [] i j t h = refl
load-out (c ∷ s) i j t h =
    load-out s (i + 1) j (set t i c)
      (elim h [ inl one ↦ inl (omega arith) | inr two ↦ inr (omega arith) ])
    ∙ ground arith

load-in : (s : Bytes) (i k : ℕ) (t : Array) → k < length s → load_from i s t (i + k) ≡ nth s k
unfolding load_from
load-in [] i k t p = absurd (omega arith)
load-in (c ∷ s) i zero t p =
    load-out s (i + 1) (i + 0) (set t i c) (inl (omega arith)) ∙ ground arith
load-in (c ∷ s) i (suc k) t p =
    let e : i + suc k ≡ i + 1 + k = omega arith in
    rw e (load-in s (i + 1) k (set t i c) (omega arith))

nth-byte : (s : Bytes) (k : ℕ) → All (λ c. c < 256) s → nth s k < 256
nth-byte [] k p = omega arith
nth-byte (c ∷ s) zero p = p.0
nth-byte (c ∷ s) (suc k) p = nth-byte s k p.1

first_text_out :
    (src : Bytes) (j : ℕ)
    → (j < ring_size - max_match) ⊎ (ring_size ≤ j)
    → (first_dict src).text_buf j ≡ (if ltb j (ring_size - max_match) then 0x20 else 0)
unfolding first_dict
first_text_out src j h =
    load-out (take max_match src) (ring_size - max_match) j
      (λ i. if ltb i (ring_size - max_match) then 0x20 else 0)
      (elim h [ inl one ↦ inl one | inr two ↦ inr (omega (arith, two, length-take max_match src)) ])

first_text_in :
    (src : Bytes) (k : ℕ)
    → k < length (take max_match src)
    → (first_dict src).text_buf (ring_size - max_match + k) ≡ nth (take max_match src) k
unfolding first_dict
first_text_in src k p =
    load-in (take max_match src) (ring_size - max_match) k
      (λ i. if ltb i (ring_size - max_match) then 0x20 else 0) p

first-Rings :
    (src : Bytes) → Rings (first_dict src).text_buf (ring_size - max_match) [] (take max_match src)
first-Rings src = record {
  inside = omega arith;
  fits = length-take max_match src;
  past = λ i l.
      let e : (ring_size - max_match + (ring_size - 1) - i) % ring_size
          ≡ ring_size - max_match - 1 - i =
        omega arith in
      rw e (first_text_out src (ring_size - max_match - 1 - i) (inl (omega arith)) ∙ ground arith);
  future = λ j l.
      let e : (ring_size - max_match + j) % ring_size ≡ ring_size - max_match + j =
        omega (arith, length-take max_match src) in
      rw e (first_text_in src j l);
  mirror = λ i l h. absurd (elim h [
    | inl one ↦ omega (arith, one, length-take max_match src)
    | inr two ↦ omega (arith, two.0)
  ]);
}

unloaded :
    (s : Bytes) (i j : ℕ) (t : Array) → t j < 256 → All (λ c. c < 256) s → load_from i s t j < 256
unfolding load_from
unloaded [] i j t p q = p
unloaded (c ∷ s) i j t p q = unloaded s (i + 1) j (set t i c) (ground (arith, p, q.0)) q.1

first_text-byte : (src : Bytes) (i : ℕ) → All (λ c. c < 256) src → (first_dict src).text_buf i < 256
unfolding first_dict
first_text-byte src i p =
    unloaded (take max_match src) (ring_size - max_match) i
      (λ i. if ltb i (ring_size - max_match) then 0x20 else 0) (ground arith)
      (All-take (λ c. c < 256) max_match src p)

first-Woven : (src : Bytes) (b : ℕ) → Woven (first_dict src) (λ x. 0) b
unfolding first_dict
first-Woven src b = empty-Woven (first_dict src) b (λ x l. ground arith) (λ x l. ground arith)

first_dad : (src : Bytes) (x : ℕ) → x < ring_size → (first_dict src).dad x ≡ nil
unfolding first_dict
first_dad src x l = ground arith

-- The `n` places before the first byte are in the trees.
record Begun (src : Bytes) (n : ℕ) (d : Dict) : Type 0 where
  rank : Array
  b : ℕ
  counted : b ≡ n
  woven : Woven d rank b
  linked :
      (x : ℕ)
      → x < ring_size
      → d.dad x ≢ nil
      → (ring_size - max_match ≤ x + n) × (x < ring_size - max_match)
  text : d.text_buf ≡ (first_dict src).text_buf

insert_before-Begun :
    (n f : ℕ) (src : Bytes)
    → All (λ c. c < 256) src
    → n ≤ max_match
    → n < f
    → (d : Dict) × (insert_before n f (ring_size - max_match) (first_dict src) ≡ some d)
      × Begun src n d
unfolding insert_before
insert_before-Begun zero f src p q k = (
  first_dict src,
  refl,
  record {
    rank = λ x. 0;
    b = 0;
    counted = refl;
    woven = first-Woven src 0;
    linked = λ x l g. absurd (g (first_dad src x l));
    text = refl;
  },
)
insert_before-Begun (suc n) f src p q k =
    let (d, made, v) = insert_before-Begun n f src p (omega arith) (omega arith) in
    let r : ℕ = ring_size - max_match - suc n in
    let free : d.dad r ≡ nil = elim (Bool-cases (d.dad r == nil)) [
      | inl free ↦ ground arith
      | inr hung ↦ absurd (omega (arith, v.linked r (omega arith) (ground arith)))
    ] in
    let (e, put, w) =
      insert_node-Inserted f r d v.rank v.b v.woven (omega arith) free
        (subst (λ t. t r < 256) (sym v.text) (first_text-byte src r p))
        (omega (arith, v.counted)) in
    (
      e,
      ap (λ o. o >>= insert_node f r) made ∙ put,
      record {
        rank = w.rank;
        b = v.b + 1;
        counted = omega (arith, v.counted);
        woven = w.woven;
        linked = λ x l g. elim (w.links x l g) [
          | inl old ↦ omega (arith, v.linked x l old)
          | inr new ↦ rw new (omega arith)
        ];
        text = w.text ∙ v.text;
      },
    )

-- The ring is full, or the source is read.
read_all : (src : Bytes) (n : ℕ) → (drop n src ≡ []) ⊎ (length (take n src) ≡ n)
read_all src zero = inr refl
read_all [] (suc n) = inl refl
read_all (c ∷ src) (suc n) = elim (read_all src n) [
  | inl e ↦ inl e
  | inr e ↦ inr (omega (arith, e))
]

All-drop : (n : ℕ) (src : Bytes) → All (λ c. c < 256) src → All (λ c. c < 256) (drop n src)
All-drop zero src p = p
All-drop (suc n) [] p = p
All-drop (suc n) (c ∷ src) p = All-drop n src p.1

pub first_coder-Sliding :
    (f : ℕ) (src : Bytes)
    → All (λ c. c < 256) src
    → max_match + 1 + length src < f
    → (z : Coder) × (first_coder f src ≡ some z)
      × Sliding f z [] (take max_match src)
      × (take max_match src ++ z.src ≡ src)
      × (z.huff ≡ start)
      × (z.bw ≡ new_writer)
unfolding first_coder
first_coder-Sliding f src p k =
    let r : ℕ = ring_size - max_match in
    let (d, made, v) = insert_before-Begun max_match f src p (omega arith) (omega arith) in
    let free : d.dad r ≡ nil = elim (Bool-cases (d.dad r == nil)) [
      | inl free ↦ ground arith
      | inr hung ↦ absurd (omega (arith, v.linked r (omega arith) (ground arith)))
    ] in
    let before : Searches d r v.b = record {
      rank = v.rank;
      woven = v.woven;
      window = λ x l g. omega (arith, v.linked x l g);
      bytes = λ i l. subst (λ t. t i < 256) (sym v.text) (first_text-byte src i p);
    } in
    let (e, put, after, best, text) =
      entered d f r v.b before (omega arith) free (omega (arith, v.counted)) in
    let row = take-append-drop max_match src in
    let z : Coder = record {
      dict = e;
      s = 0;
      r = r;
      length = length (take max_match src);
      src = drop max_match src;
      huff = start;
      bw = new_writer;
    } in
    (
      z,
      ap
            (λ o. o >>= λ d. insert_node f r d >>= λ e. some (record {
              dict = e;
              s = 0;
              r = r;
              length = length (take max_match src);
              src = drop max_match src;
              huff = start;
              bw = new_writer;
            }))
            made
          ∙ ap
              (λ o. o >>= λ e. some (record {
                dict = e;
                s = 0;
                r = r;
                length = length (take max_match src);
                src = drop max_match src;
                huff = start;
                bw = new_writer;
              }))
              put,
      record {
        rings =
            subst (λ t. Rings t r [] (take max_match src)) (sym (text ∙ v.text)) (first-Rings src);
        place = omega arith;
        counted = refl;
        whole = read_all src max_match;
        b = v.b + 1;
        searches = after;
        fuel = omega (
          arith,
          k,
          v.counted,
          ap length row,
          length-append (take max_match src) (drop max_match src),
        );
        src_bytes = All-drop max_match src p;
        best = λ l. best;
      },
      row,
      refl,
      refl,
    )
