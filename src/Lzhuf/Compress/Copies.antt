-- ===== src/Lzhuf/Compress/Copies.antt =====
-- A match that the search finds stands for the bytes that it replaces.
use kp4pra.Prelude.{◌⊎◌, inl, inr}
use kp4pra.Lzhuf.Huffman.{Array}
use kp4pra.Lzhuf.Encode.{distance}
use kp4pra.Lzhuf.Tables.{ring_size, max_match}
use kp4pra.Prelude.{true, false, inl, inr, Bool-cases, ◌==◌, sym, refl, ◌%◌, ◌+◌}
use kp4pra.Prelude.{
  ℕ, zero, suc, ◌+◌, ◌-◌, ◌%◌, ◌≤◌, ◌<◌, ◌≡◌, ◌≢◌, inl, inr, refl, sym, ap, ◌∙◌, true, false,
  Bool-cases, [], ◌∷◌, Bytes, arith, length, take, ltb, ◌==◌, if◌then◌else◌,
}
use kp4pra.Lzhuf.Tables.{ring_size, max_match}
use kp4pra.Lzhuf.Decode.History.{back, copied}

-- The byte at a place of a list, 0 behind its end.
abbrev pub nth : Bytes → ℕ → ℕ
nth [] i = 0
nth (b ∷ s) zero = b
nth (b ∷ s) (suc i) = nth s i

-- The bytes `s` one after the other on top of a text whose last byte is first.
abbrev pub pushed : Bytes → Bytes → Bytes
pushed [] text = text
pushed (b ∷ s) text = pushed s (b ∷ text)

back_above :
    (b : ℕ) (text : Bytes) (i j : ℕ)
    → i ≢ j
    → j ≤ i
    → back (b ∷ text) (i - j) ≡ back text (i - suc j)
back_above b text i j d p = let e : i - j ≡ suc (i - suc j) = omega arith in ap (back (b ∷ text)) e

nth_above : (b : ℕ) (s : Bytes) (i j : ℕ) → i < j → nth (b ∷ s) (j - i) ≡ nth s (j - 1 - i)
nth_above b s i j p = let e : j - i ≡ suc (j - 1 - i) = omega arith in ap (nth (b ∷ s)) e

one_on_top :
    (b : ℕ) (s text : Bytes) (i j : ℕ)
    → (if ltb i j then nth s (j - 1 - i) else back (b ∷ text) (i - j))
      ≡ (if ltb i (suc j) then nth (b ∷ s) (suc j - 1 - i) else back text (i - suc j))
one_on_top b s text i j =
    let less : suc j - 1 - i ≡ j - i = omega arith in
    rw less (elim (Bool-cases (ltb i j)) [
      | inl before ↦
          let still : ltb i (suc j) ≡ true = ground arith in
          rw before (rw still (sym (nth_above b s i j (ground arith))))
      | inr later ↦ elim (Bool-cases (i == j)) [
        | inl here ↦
            let e : i ≡ j = ground arith in
            let same : i - j ≡ 0 = omega arith in
            let same' : j - i ≡ 0 = omega arith in
            let still : ltb i (suc j) ≡ true = ground arith in
            rw later (rw still (rw (same, same') refl))
        | inr above ↦
            let gone : ltb i (suc j) ≡ false = ground arith in
            rw later (rw gone (back_above b text i j (ground arith) (ground arith)))
      ]
    ])

-- What stands `i` places back when `j` bytes of `s` are on top.
back-pushed :
    (s text : Bytes) (j i : ℕ)
    → j ≤ length s
    → back (pushed (take j s) text) i ≡ (if ltb i j then nth s (j - 1 - i) else back text (i - j))
back-pushed s text zero i p = let e : i - 0 ≡ i = omega arith in rw e (ground arith)
back-pushed [] text (suc j) i p = absurd (omega arith)
back-pushed (b ∷ s) text (suc j) i p =
    back-pushed s (b ∷ text) j i (omega arith) ∙ one_on_top b s text i j

-- `k` bytes copied are the `k` bytes of `s`, if each of them stands `m` places back when it is its turn.
pub copied-pushed :
    (k m : ℕ) (s text : Bytes)
    → k ≤ length s
    → ((j : ℕ) → j < k → back (pushed (take j s) text) m ≡ nth s j)
    → copied k m text ≡ pushed (take k s) text
copied-pushed zero m s text p h = refl
copied-pushed (suc k) m [] text p h = absurd (omega arith)
copied-pushed (suc k) m (b ∷ s) text p h =
    ap (λ x. copied k m (x ∷ text)) (h 0 (omega arith))
    ∙ copied-pushed k m s (b ∷ text) (omega arith) (λ j q. h (suc j) (omega arith))

-- The ring with the text behind `r` and the bytes ahead of it.
pub record Rings (text : Array) (r : ℕ) (behind ahead : Bytes) : Type 0 where
  pub inside : r < ring_size
  pub fits : length ahead ≤ max_match
  pub past :
      (i : ℕ)
      → i < ring_size - max_match
      → text ((r + (ring_size - 1) - i) % ring_size) ≡ back behind i
  pub future : (j : ℕ) → j < length ahead → text ((r + j) % ring_size) ≡ nth ahead j
  pub mirror :
      (i : ℕ)
      → i < max_match - 1
      → (i + ring_size < r + length ahead) ⊎ ((r < ring_size - max_match) × (i < r + length ahead))
      → text (i + ring_size) ≡ text i

module _ {text : Array} {r : ℕ} {behind ahead : Bytes} (v : Rings text r behind ahead) where
  -- The places behind the ring that are read hold what the ring holds.
  wrapped :
      (x : ℕ)
      → x < ring_size + (max_match - 1)
      → (x < ring_size)
        ⊎ ((x < r + length ahead)
            ⊎ ((r < ring_size - max_match) × (x < ring_size + r + length ahead)))
      → text x ≡ text (x % ring_size)
  wrapped x l h = elim (Bool-cases (ltb x ring_size)) [
    | inl low ↦ let e : x % ring_size ≡ x = ground arith in rw e refl
    | inr high ↦
        let e : x ≡ x - ring_size + ring_size = ground arith in
        let e' : x % ring_size ≡ x - ring_size = ground arith in
        ap text e
        ∙ v.mirror (x - ring_size) (ground arith) (elim h [
          | inl out ↦ absurd (ground arith)
          | inr (inl one) ↦ inl (omega arith)
          | inr (inr two) ↦ inr (two.0, ground arith)
        ])
        ∙ ap text (sym e')
  ]

  pub future_at : (j : ℕ) → j < length ahead → text (r + j) ≡ nth ahead j
  future_at j l =
      wrapped (r + j) (omega (arith, v.inside, v.fits)) (inr (inl (omega arith))) ∙ v.future j l

  module _ (q m k : ℕ) (low : q < ring_size)
      (near : (r + ring_size - q) % ring_size ≤ ring_size - max_match) (other : q ≢ r)
      (at : m ≡ distance r q) (enough : k ≤ length ahead)
      (equal : (j : ℕ) → j < k → text (r + j) ≡ text (q + j)) where
    reached :
        (j : ℕ)
        → j < k
        → (q + j < ring_size)
          ⊎ ((q + j < r + length ahead)
              ⊎ ((r < ring_size - max_match) × (q + j < ring_size + r + length ahead)))
    reached j l = elim (Bool-cases (ltb q r)) [
      | inl before ↦ inr (inl (ground arith))
      | inr after ↦ inr (inr (ground (arith, v.inside), ground arith))
    ]

    turn_now : (j : ℕ) → j < k → back (pushed (take j ahead) behind) m ≡ nth ahead j
    turn_now j l =
        let there : text ((q + j) % ring_size) ≡ nth ahead j =
          sym (wrapped (q + j) (omega (arith, v.fits)) (reached j l))
          ∙ sym (equal j l)
          ∙ future_at j (omega arith) in
        back-pushed ahead behind j m (omega arith) ∙ elim (Bool-cases (ltb m j)) [
          | inl over ↦
              let e : (r + (j - 1 - m)) % ring_size ≡ (q + j) % ring_size =
                ground (arith, v.inside) in
              rw over (sym (v.future (j - 1 - m) (ground arith)) ∙ ap text e ∙ there)
          | inr under ↦
              let e : (r + (ring_size - 1) - (m - j)) % ring_size ≡ (q + j) % ring_size =
                ground (arith, v.inside) in
              rw under (sym (v.past (m - j) (ground arith)) ∙ ap text e ∙ there)
        ]

    pub copied-ahead : copied k m behind ≡ pushed (take k ahead) behind
    copied-ahead = copied-pushed k m ahead behind enough turn_now
