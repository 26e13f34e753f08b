-- ===== src/Feed/Socket.antt =====
-- src/tft/xara_feed.py: `Conn`. The socket is the list of what its next calls of recv give; behind the
-- end of the list, and at an empty chunk, it is closed.
use kp4pra.Prelude.{drop-within}
use kp4pra.Prelude.{take-within}
use kp4pra.Prelude.{inl}
use kp4pra.Prelude.{Bool-cases, drop-append}
use kp4pra.Prelude.{sym, take-append}
use mathlib.Core.Path.{subst}
use kp4pra.Prelude.{◌∙◌}
use kp4pra.Prelude.{ap, length-append}
use kp4pra.Prelude.{if◌then◌else◌}
use kp4pra.Prelude.{
  ℕ, inl, inr, sym, ap, ◌∙◌, append_assoc, Bool-cases, length-append, take-append, drop-append, ◌≤◌,
  ◌≡◌, refl, false, Option, none, some, List, [], ◌∷◌, ◌++◌, Bytes, arith, length, take, drop, ltb,
  is_nil,
}

pub record Conn : Type 0 where
  pub buf : Bytes
  pub chunks : List Bytes

-- `none` is the ConnectionError.
unfoldable pub read_exact_from : ℕ → Bytes → List Bytes → Option (Bytes × Conn)
read_exact_from n buf [] =
    if ltb (length buf) n then none else some (take n buf, record { buf = drop n buf; chunks = [] })
read_exact_from n buf (c ∷ cs) =
    let more = if is_nil c then none else read_exact_from n (buf ++ c) cs in
    if ltb (length buf) n
    then more
    else some (take n buf, record { buf = drop n buf; chunks = c ∷ cs })

unfoldable pub read_exact : ℕ → Conn → Option (Bytes × Conn)
read_exact n c = read_exact_from n c.buf c.chunks

-- All bytes that are still to come.
abbrev pub joined : List Bytes → Bytes
joined [] = []
joined (c ∷ cs) = c ++ joined cs

abbrev pub stream : Conn → Bytes
stream c = c.buf ++ joined c.chunks

-- The socket is open for as long as the list says.
abbrev pub IsFed : List Bytes → Type 0
IsFed [] = Unit
IsFed (c ∷ cs) = (is_nil c ≡ false) × IsFed cs

-- What a read of the stream gives, however it is cut into chunks.
pub data Reads (s rest : Bytes) : Option (Bytes × Conn) → Type 0 where
  reads : (c : Conn) → stream c ≡ rest → IsFed c.chunks → Reads s rest (some (s, c))

-- What is in the buffer already is enough.
Reads-buffered :
    (n : ℕ) (buf : Bytes) (cs : List Bytes)
    → IsFed cs
    → n ≤ length buf
    → Reads
        (take n (buf ++ joined cs))
        (drop n (buf ++ joined cs))
        (some (take n buf, record { buf = drop n buf; chunks = cs }))
Reads-buffered n buf cs fed h =
    rw (take-within n buf (joined cs) h, drop-within n buf (joined cs) h)
      (reads (record { buf = drop n buf; chunks = cs }) refl fed)

read_exact_from-Reads :
    (n : ℕ) (buf : Bytes) (cs : List Bytes)
    → IsFed cs
    → n ≤ length (buf ++ joined cs)
    → Reads (take n (buf ++ joined cs)) (drop n (buf ++ joined cs)) (read_exact_from n buf cs)
unfolding read_exact_from
read_exact_from-Reads n buf [] fed h =
    let enough : n ≤ length buf = omega (arith, length-append buf []) in
    let there : ltb (length buf) n ≡ false = ground arith in
    subst (Reads (take n (buf ++ [])) (drop n (buf ++ []))) (sym (rw there refl))
      (Reads-buffered n buf [] fed enough)
read_exact_from-Reads n buf (c ∷ cs) fed h = elim (Bool-cases (ltb (length buf) n)) [
  | inl short ↦
      rw (short, fed.0)
        (subst (λ s. Reads (take n s) (drop n s) (read_exact_from n (buf ++ c) cs))
          (append_assoc buf c (joined cs))
          (read_exact_from-Reads n (buf ++ c) cs fed.1
            (omega (arith, h, ap (length {0}) (append_assoc buf c (joined cs))))))
  | inr there ↦ rw there (Reads-buffered n buf (c ∷ cs) fed (ground arith))
]

-- A read of bytes that are to come gives them, wherever the chunks are cut.
pub read_exact-Reads :
    (s rest : Bytes) (c : Conn)
    → stream c ≡ s ++ rest
    → IsFed c.chunks
    → Reads s rest (read_exact (length s) c)
unfolding read_exact
read_exact-Reads s rest c e fed =
    let enough : length s ≤ length (stream c) =
      omega (arith, ap (length {0}) e, length-append s rest) in
    let r = read_exact_from-Reads (length s) c.buf c.chunks fed enough in
    let head = ap (take (length s)) e ∙ take-append s rest in
    let tail = ap (drop (length s)) e ∙ drop-append s rest in
    subst (λ a. Reads a rest (read_exact_from (length s) c.buf c.chunks)) head
      (subst (λ b. Reads (take (length s) (stream c)) b (read_exact_from (length s) c.buf c.chunks))
        tail r)
