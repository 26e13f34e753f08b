-- ===== src/Saver/Updates.antt =====
-- Which way the saver turns, and how many steps an update takes.
use kp4pra.Prelude.{
  ℕ, zero, suc, ◌+◌, ◌-◌, ◌*◌, ◌≤◌, ◌<◌, ◌≡◌, ◌≢◌, ◌⊎◌, inl, inr, refl, sym, ap, ◌∙◌, true, false,
  Bool-cases, List, [], ◌∷◌, arith, ltb, leb, if◌then◌else◌,
}
use mathlib.Core.Path.{subst}
use kp4pra.Saver.{
  all_but_last, Dir, east, south, west, north, swapped, swapped_back, Cell, moved, Centipede, is_in,
  body_of, options, free_of, free_or_all, choose, step_from, crawl, step_time, catch_up, update,
}

abbrev pub opposite : Dir → Dir
opposite east = west
opposite south = north
opposite west = east
opposite north = south

-- A direction of the list.
abbrev pub OneOf : Dir → List Dir → Type 0
OneOf d [] = true ≡ false
OneOf d (e ∷ es) = (d ≡ e) ⊎ OneOf d es

choose-OneOf : (k : ℕ) (d e : Dir) (es : List Dir) → OneOf (choose k d (e ∷ es)) (e ∷ es)
unfolding choose
choose-OneOf zero d e es = inl refl
choose-OneOf (suc k) d e [] = inl refl
choose-OneOf (suc k) d e (f ∷ es) = inr (choose-OneOf k e f es)

-- What the test has let through.
free_of-OneOf :
    (body : List Cell) (head : Cell) (ds : List Dir) (d : Dir)
    → OneOf d (free_of body head ds)
    → OneOf d ds × (is_in (moved d head) body ≡ false)
unfolding free_of
free_of-OneOf body head [] d h = absurd (cc)
free_of-OneOf body head (e ∷ ds) d h = elim (Bool-cases (is_in (moved e head) body)) [
  | inl bad ↦
      let more = free_of-OneOf body head ds d (
        subst (λ b. OneOf d (if b then free_of body head ds else e ∷ free_of body head ds)) bad
          h) in
      (inr more.0, more.1)
  | inr good ↦
      let first =
        subst (λ b. OneOf d (if b then free_of body head ds else e ∷ free_of body head ds)) good
          h in
      elim first [
        | inl same ↦ (inl same, subst (λ f. is_in (moved f head) body ≡ false) (sym same) good)
        | inr later ↦ let more = free_of-OneOf body head ds d later in (inr more.0, more.1)
      ]
]

OneOf-options : (d e : Dir) → OneOf e (options d) → e ≢ opposite d
OneOf-options east e h q = ground (arith, h, q)
OneOf-options south e h q = ground (arith, h, q)
OneOf-options west e h q = ground (arith, h, q)
OneOf-options north e h q = ground (arith, h, q)

free_of-nil :
    (body : List Cell) (head : Cell) (ds : List Dir)
    → free_of body head ds ≡ []
    → (d : Dir) → OneOf d ds
    → is_in (moved d head) body ≡ true
unfolding free_of
free_of-nil body head [] e d h = absurd (cc)
free_of-nil body head (f ∷ ds) e d h = elim (Bool-cases (is_in (moved f head) body)) [
  | inl bad ↦
      let rest =
        subst (λ b. (if b then free_of body head ds else f ∷ free_of body head ds) ≡ []) bad e in
      elim h [
        | inl same ↦ ap (λ d. is_in (moved d head) body) same ∙ bad
        | inr later ↦ free_of-nil body head ds rest d later
      ]
  | inr good ↦
      let taken =
        subst (λ b. (if b then free_of body head ds else f ∷ free_of body head ds) ≡ []) good e in
      absurd (cc)
]

chosen :
    (pick : ℕ) (d : Dir) (body : List Cell) (head : Cell) (free : List Dir)
    → free_of body head (options d) ≡ free
    → OneOf (choose pick d (free_or_all free (options d))) (options d)
      × (((e : Dir) → OneOf e (options d) → is_in (moved e head) body ≡ true)
          ⊎ (is_in (moved (choose pick d (free_or_all free (options d))) head) body ≡ false))
unfolding free_or_all
chosen pick d body head [] q = (
  choose-OneOf pick d d (swapped d ∷ swapped_back d ∷ []),
  inl (free_of-nil body head (options d) q),
)
chosen pick d body head (e ∷ es) q =
    let c =
      free_of-OneOf body head (options d) (choose pick d (e ∷ es))
        (subst (OneOf (choose pick d (e ∷ es))) (sym q) (choose-OneOf pick d e es)) in
    (c.0, inr c.1)

-- A step never goes straight back, and the new head is on none of the body's cells, the tail's
-- excepted, which moves away, unless straight on and both turns would all go there.
pub crawl-avoids :
    (pick : ℕ) (c : Centipede) (head : Cell) (tail : List Cell)
    → c.cells ≡ head ∷ tail
    → ((crawl pick c).cells ≡ moved (crawl pick c).dir head ∷ all_but_last (head ∷ tail))
      × ((crawl pick c).dir ≢ opposite c.dir)
      × (((d : Dir) → OneOf d (options c.dir) → is_in (moved d head) (body_of (head ∷ tail)) ≡ true)
          ⊎ (is_in (moved (crawl pick c).dir head) (body_of (head ∷ tail)) ≡ false))
unfolding crawl step_from
crawl-avoids pick c head tail e =
    let body = body_of (head ∷ tail) in
    let (legal, clear) = chosen pick c.dir body head (free_of body head (options c.dir)) refl in
    rw e (refl, OneOf-options c.dir _ legal, clear)

-- The clock of the saver within one step of the time.
catch_up-near :
    (f now : ℕ) (picks : ℕ → ℕ) (c : Centipede)
    → c.t_step ≤ now
    → now < c.t_step + f * step_time
    → ((catch_up f now picks c).t_step ≤ now) × (now < (catch_up f now picks c).t_step + step_time)
unfolding catch_up
catch_up-near zero now picks c h k = absurd (omega arith)
catch_up-near (suc f) now picks c h k = elim (Bool-cases (leb (c.t_step + step_time) now)) [
  | inl due ↦ rw due (
      catch_up-near f now picks (record (crawl (picks f) c) { t_step = c.t_step + step_time })
        (ground arith) (omega arith))
  | inr done ↦ rw done (h, ground arith)
]

-- The loop of `update` ends by its own test, however long the saver was not drawn, unless the clock
-- went back: the time of the last step is then at most one step time ago.
pub update-near :
    (now : ℕ) (picks : ℕ → ℕ) (c : Centipede)
    → c.t_step ≤ now
    → ((update now picks c).t_step ≤ now) × (now < (update now picks c).t_step + step_time)
unfolding update
update-near now picks c h = elim (Bool-cases (ltb (c.t_step + 4 * step_time) now)) [
  | inl behind ↦ rw behind (
      catch_up-near 5 now picks (record c { t_step = now - step_time }) (ground arith)
        (ground arith))
  | inr near ↦ rw near (catch_up-near 5 now picks c h (ground arith))
]
