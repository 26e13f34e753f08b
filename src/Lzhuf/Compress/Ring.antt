-- ===== src/Lzhuf/Compress/Ring.antt =====
-- The ring when it is one byte further, and when a byte is written.
use kp4pra.Prelude.{
  ℕ, zero, suc, ◌+◌, ◌-◌, ◌%◌, ◌≤◌, ◌<◌, ◌≡◌, ◌⊎◌, inl, inr, refl, ap, ◌∙◌, false, Bool-cases, [],
  ◌∷◌, ◌++◌, Bytes, arith, length, length-append, ◌==◌, if◌then◌else◌,
}
use kp4pra.Lzhuf.Tables.{ring_size, max_match}
use kp4pra.Lzhuf.Huffman.{Array}
use kp4pra.Lzhuf.Decode.History.{back}
use kp4pra.Lzhuf.Compress.{write_byte}
use kp4pra.Lzhuf.Compress.Copies.{Rings, nth}

nth-last :
    (s : Bytes) (c j : ℕ)
    → j < length (s ++ c ∷ [])
    → nth (s ++ c ∷ []) j ≡ (if j == length s then c else nth s j)
nth-last [] c zero l = refl
nth-last [] c (suc j) l = absurd (omega arith)
nth-last (b ∷ s) c zero l = let e : (0 == suc (length s)) ≡ false = ground arith in rw e refl
nth-last (b ∷ s) c (suc j) l = nth-last s c j (omega arith) ∙ ground arith

moved_bound :
    (r n i : ℕ)
    → r < ring_size
    → i < max_match - 1
    → n ≤ max_match - 1
    → (i + ring_size < (r + 1) % ring_size + n)
      ⊎ (((r + 1) % ring_size < ring_size - max_match) × (i < (r + 1) % ring_size + n))
    → (i + ring_size < r + suc n) ⊎ ((r < ring_size - max_match) × (i < r + suc n))
moved_bound r n i p l q (inl one) = inl (omega arith)
moved_bound r n i p l q (inr two) = elim (Bool-cases (r == ring_size - 1)) [
  | inl last ↦ inl (ground (arith, two))
  | inr other ↦ inr (ground (arith, two), ground (arith, two))
]

module _ {text : Array} {r : ℕ} {behind : Bytes} where
  moved_past :
      {a : ℕ} {ahead : Bytes}
      → Rings text r behind (a ∷ ahead)
      → (i : ℕ) → i < ring_size - max_match
      → text (((r + 1) % ring_size + (ring_size - 1) - i) % ring_size) ≡ back (a ∷ behind) i
  moved_past v zero l =
      let e : ((r + 1) % ring_size + (ring_size - 1) - 0) % ring_size ≡ (r + 0) % ring_size =
        ground (arith, v.inside) in
      ap text e ∙ v.future 0 (omega arith)
  moved_past v (suc i) l =
      let e : ((r + 1) % ring_size + (ring_size - 1) - suc i) % ring_size
          ≡ (r + (ring_size - 1) - i) % ring_size =
        ground (arith, v.inside) in
      ap text e ∙ v.past i (omega arith)

  pub moved-Rings :
      {a : ℕ} {ahead : Bytes}
      → Rings text r behind (a ∷ ahead)
      → Rings text ((r + 1) % ring_size) (a ∷ behind) ahead
  moved-Rings {ahead} v = record {
    inside = omega arith;
    fits = omega (arith, v.fits);
    past = moved_past v;
    future = λ j l.
        let e : ((r + 1) % ring_size + j) % ring_size ≡ (r + suc j) % ring_size =
          ground (arith, v.inside) in
        ap text e ∙ v.future (suc j) (omega arith);
    mirror =
        λ i l h. v.mirror i l (moved_bound r (length ahead) i v.inside l (omega (arith, v.fits)) h);
  }

  written_mirror :
      {ahead : Bytes} (s c : ℕ)
      → Rings text r behind ahead
      → length ahead ≡ max_match - 1
      → s ≡ (r + (max_match - 1)) % ring_size
      → (i : ℕ) → i < max_match - 1
      → (i + ring_size < r + length ahead + 1)
        ⊎ ((r < ring_size - max_match) × (i < r + length ahead + 1))
      → write_byte s c text (i + ring_size) ≡ write_byte s c text i
  written_mirror {ahead} s c v p e i l h = elim (Bool-cases (i == s)) [
    | inl here ↦ ground arith
    | inr away ↦
        let old : text (i + ring_size) ≡ text i = v.mirror i l (elim h [
          | inl one ↦ inl (ground (arith, v.inside))
          | inr two ↦ inr (two.0, ground (arith, v.inside))
        ]) in
        ground (arith, old, v.inside)
  ]

  -- The byte `s` places on takes the place of the oldest one.
  pub written-Rings :
      {ahead : Bytes} (s c : ℕ)
      → Rings text r behind ahead
      → length ahead ≡ max_match - 1
      → s ≡ (r + (max_match - 1)) % ring_size
      → Rings (write_byte s c text) r behind (ahead ++ c ∷ [])
  written-Rings {ahead} s c v p e = record {
    inside = v.inside;
    fits = omega (arith, length-append ahead (c ∷ []));
    past = λ i l. ground (arith, v.inside, v.past i l);
    future = λ j l.
        let top : j < length ahead + 1 = omega (arith, length-append ahead (c ∷ [])) in
        ground (arith, v.inside, v.future j, nth-last ahead c j l);
    mirror = λ i l h. written_mirror s c v p e i l (elim h [
      | inl one ↦ inl (omega (arith, one, length-append ahead (c ∷ [])))
      | inr two ↦ inr (two.0, omega (arith, two.1, length-append ahead (c ∷ [])))
    ]);
  }
