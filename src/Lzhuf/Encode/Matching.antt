-- ===== src/Lzhuf/Encode/Matching.antt =====
-- What the comparison of two places gives, and what is noted of it.
use kp4pra.Prelude.{
  ℕ, zero, suc, ◌+◌, ◌-◌, ◌≤◌, ◌<◌, ◌≡◌, ◌≢◌, ◌⊎◌, inl, inr, refl, ◌&&◌, Bool-cases, arith, ltb,
  ◌==◌,
}
use kp4pra.Lzhuf.Tables.{ring_size, max_match, threshold}
use kp4pra.Lzhuf.Huffman.{Array}
use kp4pra.Lzhuf.Encode.{Dict, nil, compare_from, distance, note_match}

-- A match of length `l` at distance `m` from `r`: a place of the trees where the text is the same.
pub record Matched (d : Dict) (r m l : ℕ) : Type 0 where
  pub short : l ≤ max_match
  pub found :
      threshold < l
      → (q : ℕ) × (q < ring_size)
        × (d.dad q ≢ nil)
        × (q ≢ r)
        × (m ≡ distance r q)
        × ((j : ℕ) → j < l → d.text_buf (r + j) ≡ d.text_buf (q + j))

-- How far the comparison has gone.
pub record Compared (text : Array) (r p i : ℕ) (f n : ℕ) : Type 0 where
  within : n ≤ i + f
  equal : (j : ℕ) → i ≤ j → j < n → text (r + j) ≡ text (p + j)

pub compare_from-Compared :
    (f : ℕ) (text : Array) (r p i : ℕ) → Compared text r p i f (compare_from f text r p i).0
unfolding compare_from
compare_from-Compared zero text r p i = record {
  within = omega arith;
  equal = λ j h k. absurd (omega arith);
}
compare_from-Compared (suc f) text r p i = elim (Bool-cases (text (r + i) == text (p + i))) [
  | inl on ↦
      let v = compare_from-Compared f text r p (i + 1) in
      rw on (record {
        within = omega (arith, v.within);
        equal = λ j h k. elim (Bool-cases (j == i)) [
          | inl e ↦ let e' : j ≡ i = ground arith in rw e' (ground arith)
          | inr e ↦ v.equal j (ground arith) k
        ];
      })
  | inr off ↦ rw off (record { within = omega arith; equal = λ j h k. absurd (omega arith) })
]

-- What is noted of a match.
pub note_match_lem :
    (i c : ℕ) (d : Dict)
    → (m : ℕ) × (l : ℕ) × (note_match i c d ≡ record d { match_position = m; match_length = l })
      × (((m ≡ d.match_position) × (l ≡ d.match_length)) ⊎ ((threshold < i) × (m ≡ c) × (l ≡ i)))
unfolding note_match
note_match_lem i c d = elim (Bool-cases (ltb threshold i)) [
  | inl long ↦ elim (Bool-cases (ltb d.match_length i)) [
    | inl better ↦ (c, i, rw long (rw better refl), inr (ground arith, refl, refl))
    | inr worse ↦ elim (Bool-cases (i == d.match_length && ltb c d.match_position)) [
      | inl nearer ↦ (
        c,
        d.match_length,
        rw long (rw worse (rw nearer refl)),
        inr (ground arith, refl, ground arith),
      )
      | inr no' ↦
          (d.match_position, d.match_length, rw long (rw worse (rw no' refl)), inl (refl, refl))
    ]
  ]
  | inr short ↦ (d.match_position, d.match_length, rw short refl, inl (refl, refl))
]

-- The best match with what the comparison with `q` adds.
pub better_Matched :
    (d : Dict) (r q m l i : ℕ)
    → Matched d r d.match_position d.match_length
    → q < ring_size
    → d.dad q ≢ nil
    → q ≢ r
    → d.text_buf r ≡ d.text_buf q
    → Compared d.text_buf r q 1 (max_match - 1) i
    → ((m ≡ d.match_position) × (l ≡ d.match_length))
      ⊎ ((threshold < i) × (m ≡ distance r q) × (l ≡ i))
    → Matched d r m l
better_Matched d r q m l i v small hung other same c (inl e) = rw (e.0, e.1) v
better_Matched d r q m l i v small hung other same c (inr e) = record {
  short = omega (arith, e.2, c.within);
  found = λ f. (q, small, hung, other, e.1, equal_all);
}
  where
    first : d.text_buf (r + 0) ≡ d.text_buf (q + 0)
    first = let a : r + 0 ≡ r = omega arith in let b : q + 0 ≡ q = omega arith in rw (a, b) same

    equal_all : (j : ℕ) → j < l → d.text_buf (r + j) ≡ d.text_buf (q + j)
    equal_all zero f = first
    equal_all (suc j) f = c.equal (suc j) (omega arith) (omega (arith, e.2, f))
