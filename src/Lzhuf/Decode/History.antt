-- ===== src/Lzhuf/Decode/History.antt =====
-- The ring holds the last 2048 bytes, the newest before `r`.
use kp4pra.Prelude.{
  ℕ, zero, suc, ◌+◌, ◌-◌, ◌%◌, ◌≤◌, ◌<◌, ◌≡◌, inl, inr, refl, sym, ap, ◌∙◌, Bool-cases, [], ◌∷◌,
  ◌++◌, Bytes, arith, length, ltb, leb, if◌then◌else◌,
}
use mathlib.Core.Path.{subst}
use mathlib.Core.List.{reverse, reverse-cons}
use kp4pra.Lzhuf.Tables.{ring_size, max_match}
use kp4pra.Lzhuf.Decode.{Ring, first_ring, put_byte, copy_loop, place_of}

-- The byte `i` places behind the newest one: first of the text so far, which is given with its last
-- byte first, then of the blanks and zeros that the ring begins with.
abbrev pub back : Bytes → ℕ → ℕ
back [] i = if ltb i (ring_size - max_match) then 0x20 else 0
back (b ∷ text) zero = b
back (b ∷ text) (suc i) = back text i

-- `k` bytes more, each the one that is `i` places behind.
abbrev pub copied : ℕ → ℕ → Bytes → Bytes
copied zero i text = text
copied (suc k) i text = copied k i (back text i ∷ text)

pub record Holds (s : Ring) (text : Bytes) : Type 0 where
  pub inside : s.r < ring_size
  pub held :
      (i : ℕ) → i < ring_size → s.text ((s.r + (ring_size - 1) - i) % ring_size) ≡ back text i
  pub written : s.out ≡ reverse text
  pub counted : s.count ≡ length text

pub first_ring-Holds : Holds first_ring []
first_ring-Holds = record {
  inside = omega arith;
  held = λ i p. ground arith;
  written = refl;
  counted = refl;
}

put_byte_held :
    (s : Ring) (text : Bytes) (b : ℕ)
    → Holds s text
    → (i : ℕ) → i < ring_size
    → (put_byte b s).text (((put_byte b s).r + (ring_size - 1) - i) % ring_size) ≡ back (b ∷ text) i
put_byte_held s text b v zero p = ground (arith, v.inside)
put_byte_held s text b v (suc i) p = ground (arith, v.inside, v.held i (omega arith))

pub put_byte-Holds :
    (s : Ring) (text : Bytes) (b : ℕ) → Holds s text → Holds (put_byte b s) (b ∷ text)
put_byte-Holds s text b v = record {
  inside = omega arith;
  held = put_byte_held s text b v;
  written = ap (λ x. x ++ b ∷ []) v.written ∙ sym (reverse-cons b text);
  counted = omega (arith, v.counted);
}

pub copy_loop-Holds :
    (k n i pos : ℕ) (s : Ring) (text : Bytes)
    → i < ring_size
    → pos ≡ place_of s.r i
    → s.count + k ≤ n
    → Holds s text
    → Holds (copy_loop k n pos s) (copied k i text)
unfolding copy_loop
copy_loop-Holds zero n i pos s text p e q v = v
copy_loop-Holds (suc k) n i pos s text p e q v =
    let found : s.text pos ≡ back text i = ground (arith, v.held i p) in
    let s' : Ring = put_byte (s.text pos) s in
    let v' : Holds s' (back text i ∷ text) =
      subst (λ b. Holds s' (b ∷ text)) found (put_byte-Holds s text (s.text pos) v) in
    elim (Bool-cases (leb n (s.count + 1))) [
      | inl full ↦ let none' : k ≡ 0 = ground arith in rw full (rw none' v')
      | inr more ↦ rw more (
          copy_loop-Holds k n i ((pos + 1) % ring_size) s' (back text i ∷ text) p
            (ground (arith, v.inside, e)) (ground arith) v')
    ]
