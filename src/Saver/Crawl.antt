-- ===== src/Saver/Crawl.antt =====
-- How the saver crawls: its body stays together, on the screen, and out of its own way.
use kp4pra.Prelude.{negsuc, pos}
use kp4pra.Prelude.{
  ℕ, zero, suc, ◌+◌, ◌%◌, ◌<◌, ◌≡◌, refl, sym, ap, ◌∙◌, true, false, List, [], ◌∷◌, Text, arith,
  length, All,
}
use mathlib.Core.Path.{ap₂, subst}
use kp4pra.Saver.{
  Dir, east, south, west, north, vec, Cell, grid, moved, Centipede, behind, trail, new_centipede,
  word_for, all_but_last, body_of, options, free_of, free_or_all, choose, step_from, crawl, delta,
}

abbrev pub InGrid : Cell → Type 0
InGrid (x, y) = (x < grid) × (y < grid)

-- `a` is one cell on from `b`.
abbrev pub Follows : Cell → Cell → Type 0
Follows a b = (d : Dir) × (a ≡ moved d b)

abbrev pub IsChain : List Cell → Type 0
IsChain [] = Unit
IsChain (a ∷ []) = Unit
IsChain (a ∷ b ∷ cs) = Follows a b × IsChain (b ∷ cs)

pub record IsSnake (c : Centipede) : Type 0 where
  pub whole : length c.cells ≡ length c.word
  pub inside : All InGrid c.cells
  pub chain : IsChain c.cells

moved-InGrid : (d : Dir) (c : Cell) → InGrid (moved d c)
unfolding moved
moved-InGrid east (x, y) = omega arith
moved-InGrid south (x, y) = omega arith
moved-InGrid west (x, y) = omega arith
moved-InGrid north (x, y) = omega arith

behind-InGrid : (d : Dir) (c : Cell) → InGrid (behind d c)
unfolding behind
behind-InGrid east c = moved-InGrid west c
behind-InGrid south c = moved-InGrid north c
behind-InGrid west c = moved-InGrid east c
behind-InGrid north c = moved-InGrid south c

Follows-behind : (d : Dir) (c : Cell) → InGrid c → c ≡ moved d (behind d c)
unfolding behind moved
Follows-behind east (x, y) (h, k) = ap₂ (λ a b. (a, b)) (omega arith) (omega arith)
Follows-behind south (x, y) (h, k) = ap₂ (λ a b. (a, b)) (omega arith) (omega arith)
Follows-behind west (x, y) (h, k) = ap₂ (λ a b. (a, b)) (omega arith) (omega arith)
Follows-behind north (x, y) (h, k) = ap₂ (λ a b. (a, b)) (omega arith) (omega arith)

trail-good :
    (d : Dir) (n : ℕ) (c : Cell)
    → InGrid c
    → (length (trail d n c) ≡ n) × All InGrid (trail d n c) × IsChain (trail d n c)
unfolding trail
trail-good d zero c h = (refl, tt, tt)
trail-good d (suc zero) c h = (refl, (h, tt), tt)
trail-good d (suc (suc n)) c h =
    let (l, g, f) = trail-good d (suc n) (behind d c) (behind-InGrid d c) in
    (ap suc l, (h, g), ((d, Follows-behind d c h), f))

-- A new saver is one.
pub new_centipede-IsSnake :
    (call : Text) (d : Dir) (head : Cell) (now : ℕ)
    → InGrid head
    → IsSnake (new_centipede call d head now)
unfolding new_centipede
new_centipede-IsSnake call d head now h =
    let (l, g, f) = trail-good d (length (word_for call)) head h in
    record { whole = l; inside = g; chain = f }

length-all_but_last :
    (x : Cell) (xs : List Cell) → suc (length (all_but_last (x ∷ xs))) ≡ length (x ∷ xs)
length-all_but_last x [] = refl
length-all_but_last x (y ∷ xs) = ap suc (length-all_but_last y xs)

All-all_but_last : (xs : List Cell) → All InGrid xs → All InGrid (all_but_last xs)
All-all_but_last [] h = tt
All-all_but_last (x ∷ []) h = tt
All-all_but_last (x ∷ y ∷ xs) h = (h.0, All-all_but_last (y ∷ xs) h.1)

advance-IsChain :
    (x y : Cell) (ys : List Cell)
    → Follows x y
    → IsChain (y ∷ ys)
    → IsChain (x ∷ all_but_last (y ∷ ys))
advance-IsChain x y [] f h = tt
advance-IsChain x y (z ∷ ys) f h = (f, advance-IsChain y z ys h.0 h.1)

step_from-IsSnake :
    (pick : ℕ) (c : Centipede) (cells : List Cell)
    → c.cells ≡ cells
    → IsSnake c
    → IsSnake (step_from pick c cells)
unfolding step_from
step_from-IsSnake pick c [] e v = v
step_from-IsSnake pick c (head ∷ tail) e v =
    let d =
      choose pick c.dir
        (free_or_all (free_of (body_of (head ∷ tail)) head (options c.dir)) (options c.dir)) in
    record {
      whole = length-all_but_last head tail ∙ (sym (ap (length {0}) e) ∙ v.whole);
      inside =
          (moved-InGrid d head, All-all_but_last (head ∷ tail) (subst (All InGrid) e v.inside));
      chain = advance-IsChain (moved d head) head tail (d, refl) (subst IsChain e v.chain);
    }

pub crawl-IsSnake : (pick : ℕ) (c : Centipede) → IsSnake c → IsSnake (crawl pick c)
unfolding crawl
crawl-IsSnake pick c v = step_from-IsSnake pick c c.cells refl v

-- One step for each number.
abbrev pub crawls : List ℕ → Centipede → Centipede
crawls [] c = c
crawls (pick ∷ picks) c = crawls picks (crawl pick c)

crawls-from : (picks : List ℕ) (c : Centipede) → IsSnake c → IsSnake (crawls picks c)
crawls-from [] c v = v
crawls-from (pick ∷ picks) c v = crawls-from picks (crawl pick c) (crawl-IsSnake pick c v)

-- Wherever the saver starts on the grid and whatever the random numbers say, after any number of steps
-- it has one segment for each letter, all of them on the grid, and each is one cell on from the one
-- behind it.
pub crawls-IsSnake :
    (call : Text) (d : Dir) (head : Cell) (now : ℕ) (picks : List ℕ)
    → InGrid head
    → IsSnake (crawls picks (new_centipede call d head now))
crawls-IsSnake call d head now picks h =
    crawls-from picks _ (new_centipede-IsSnake call d head now h)

-- From each old position to the new one it is one cell in one direction, also over the edge.
abbrev pub IsMoved : List Cell → List Cell → Type 0
IsMoved [] [] = Unit
IsMoved ((px, py) ∷ ps) ((cx, cy) ∷ cs) =
    ((d : Dir) × (delta px cx ≡ (vec d).0) × (delta py cy ≡ (vec d).1)) × IsMoved ps cs
IsMoved _ _ = true ≡ false

delta-same : (x : ℕ) → x < grid → delta x (x % grid) ≡ pos 0
unfolding delta
delta-same x h = ground arith

delta-up : (x : ℕ) → x < grid → delta x ((x + 1) % grid) ≡ pos 1
unfolding delta
delta-up x h = ground arith

delta-down : (x : ℕ) → x < grid → delta x ((x + 7) % grid) ≡ negsuc 0
unfolding delta
delta-down x h = ground arith

delta-moved :
    (d : Dir) (x y : ℕ)
    → InGrid (x, y)
    → (delta x (moved d (x, y)).0 ≡ (vec d).0) × (delta y (moved d (x, y)).1 ≡ (vec d).1)
unfolding moved
delta-moved east x y (h, k) = (delta-up x h, delta-same y k)
delta-moved south x y (h, k) = (delta-same x h, delta-up y k)
delta-moved west x y (h, k) = (delta-down x h, delta-same y k)
delta-moved north x y (h, k) = (delta-same x h, delta-down y k)

advance-IsMoved :
    (x y : Cell) (ys : List Cell)
    → Follows x y
    → IsChain (y ∷ ys)
    → All InGrid (y ∷ ys)
    → IsMoved (y ∷ ys) (x ∷ all_but_last (y ∷ ys))
advance-IsMoved (a, b) (p, q) [] (d, e) h g =
    let m = delta-moved d p q g.0 in
    ((d, ap (λ c. delta p c.0) e ∙ m.0, ap (λ c. delta q c.1) e ∙ m.1), tt)
advance-IsMoved (a, b) (p, q) (z ∷ ys) (d, e) h g =
    let m = delta-moved d p q g.0 in
    (
      (d, ap (λ c. delta p c.0) e ∙ m.0, ap (λ c. delta q c.1) e ∙ m.1),
      advance-IsMoved (p, q) z ys h.0 h.1 g.1,
    )

step_from-IsMoved :
    (pick : ℕ) (c : Centipede) (cells : List Cell)
    → IsChain cells
    → All InGrid cells
    → 0 < length cells
    → IsMoved (step_from pick c cells).prev (step_from pick c cells).cells
unfolding step_from
step_from-IsMoved pick c [] f g h = absurd (omega arith)
step_from-IsMoved pick c (head ∷ tail) f g h =
    let d =
      choose pick c.dir
        (free_or_all (free_of (body_of (head ∷ tail)) head (options c.dir)) (options c.dir)) in
    advance-IsMoved (moved d head) head tail (d, refl) f g

-- In a step every segment moves by exactly one cell in one direction, as the drawing takes the
-- difference of the positions, also where it goes over the edge of the screen.
pub crawl-IsMoved :
    (pick : ℕ) (c : Centipede)
    → IsSnake c
    → 0 < length c.cells
    → IsMoved (crawl pick c).prev (crawl pick c).cells
unfolding crawl
crawl-IsMoved pick c v h = step_from-IsMoved pick c c.cells v.chain v.inside h
