-- ===== src/Saver.antt =====
-- src/tft/saver.py: `word_for` and the movement of `Centipede`. Times are whole milliseconds. Where
-- the random number makes the loop over the free directions stop is an argument.
pub mod Crawl
pub mod Updates
use kp4pra.Prelude.{
  ℤ, pos, negsuc, sub_ℕ, ℕ, zero, suc, ◌+◌, ◌-◌, ◌*◌, ◌/◌, ◌%◌, ◌≤◌, ◌<◌, ◌≡◌, ◌≢◌, ◌⊎◌, inl, inr,
  refl, sym, ap, ◌∙◌, append_assoc, append-nil, Bool, true, false, not, ◌&&◌, ◌||◌, Bool-cases,
  Option, none, some, List, [], ◌∷◌, ◌++◌, Bytes, Text, codes, arith, length, take, drop,
  length-append, take-append, drop-append, ltb, leb, ◌==◌, if◌then◌else◌, is_nil, text_eq,
  get_elem?, bit_and, bit_or, bit_xor, ==_iff, all_below_sound, map, All,
}
use kp4pra.PyText.{strip, upper, partition}

abbrev pub grid : ℕ
grid = 8

-- `call` is empty where it is None.
unfoldable pub word_for : Text → Text
word_for call =
    let base = take (grid - 1) (upper (strip (partition b'-' call).0)) in
    if is_nil base then codes "KP4PRA" else base

-- `DIRS`: (1, 0), (0, 1), (-1, 0) and (0, -1).
pub data Dir : Type 0 where
  east south west north : Dir

abbrev pub vec : Dir → ℤ × ℤ
vec east = (pos 1, pos 0)
vec south = (pos 0, pos 1)
vec west = (negsuc 0, pos 0)
vec north = (pos 0, negsuc 0)

-- (dy, dx), one of the two turns.
abbrev pub swapped : Dir → Dir
swapped east = south
swapped south = east
swapped west = north
swapped north = west

-- (-dy, -dx), the other.
abbrev pub swapped_back : Dir → Dir
swapped_back east = north
swapped_back south = west
swapped_back west = south
swapped_back north = east

abbrev pub Cell : Type 0
Cell = ℕ × ℕ

-- One cell on in a direction, on the wrapping grid.
unfoldable pub moved : Dir → Cell → Cell
moved east (x, y) = ((x + 1) % grid, y % grid)
moved south (x, y) = (x % grid, (y + 1) % grid)
moved west (x, y) = ((x + 7) % grid, y % grid)
moved north (x, y) = (x % grid, (y + 7) % grid)

pub record Centipede : Type 0 where
  pub word : Text
  pub dir : Dir
  pub cells : List Cell
  pub prev : List Cell
  pub t_step : ℕ

-- `n` cells from `c` on, each behind the one before: taking `dx` away is going `-dx`.
unfoldable pub behind : Dir → Cell → Cell
behind east c = moved west c
behind south c = moved north c
behind west c = moved east c
behind north c = moved south c

unfoldable pub trail : Dir → ℕ → Cell → List Cell
trail d zero c = []
trail d (suc n) c = c ∷ trail d n (behind d c)

-- The random direction and the random cell of the head are arguments.
unfoldable pub new_centipede : Text → Dir → Cell → ℕ → Centipede
new_centipede call d head now =
    let word = word_for call in
    let cells = trail d (length word) head in
    record { word = word; dir = d; cells = cells; prev = cells; t_step = now }

unfoldable pub cell_eq : Cell → Cell → Bool
cell_eq (a, b) (c, d) = a == c && b == d

unfoldable pub is_in : Cell → List Cell → Bool
is_in c [] = false
is_in c (d ∷ ds) = cell_eq c d || is_in c ds

-- `cells[:-1]`
abbrev pub all_but_last {ℓ} : {A : Type ℓ} → List A → List A
all_but_last [] = []
all_but_last (x ∷ []) = []
all_but_last (x ∷ y ∷ xs) = x ∷ all_but_last (y ∷ xs)

-- `cells[1:-1]`
abbrev pub body_of : List Cell → List Cell
body_of cells = all_but_last (drop 1 cells)

abbrev pub options : Dir → List Dir
options d = d ∷ swapped d ∷ swapped_back d ∷ []

unfoldable pub free_of : List Cell → Cell → List Dir → List Dir
free_of body head [] = []
free_of body head (d ∷ ds) =
    let more = free_of body head ds in if is_in (moved d head) body then more else d ∷ more

-- `[...] or options`
unfoldable pub free_or_all : List Dir → List Dir → List Dir
free_or_all [] all = all
free_or_all (d ∷ ds) all = d ∷ ds

-- The direction at which the loop stops, or the last one.
unfoldable pub choose : ℕ → Dir → List Dir → Dir
choose k d [] = d
choose zero d (e ∷ es) = e
choose (suc k) d (e ∷ es) = choose k e es

unfoldable pub step_from : ℕ → Centipede → List Cell → Centipede
step_from pick c [] = c
step_from pick c (head ∷ tail) =
    let free = free_or_all (free_of (body_of (head ∷ tail)) head (options c.dir)) (options c.dir) in
    let d = choose pick c.dir free in
    record c { dir = d; prev = head ∷ tail; cells = moved d head ∷ all_but_last (head ∷ tail) }

unfoldable pub crawl : ℕ → Centipede → Centipede
crawl pick c = step_from pick c c.cells

abbrev pub step_time : ℕ
step_time = 250

-- The loop of `update`; `picks` has one number for each round.
unfoldable pub catch_up : ℕ → ℕ → (ℕ → ℕ) → Centipede → Centipede
catch_up zero now picks c = c
catch_up (suc f) now picks c =
    let one = crawl (picks f) c in
    let more = catch_up f now picks (record one { t_step = c.t_step + step_time }) in
    if leb (c.t_step + step_time) now then more else c

-- A saver that fell behind starts one step back; so four rounds are enough, and the fifth unit of fuel
-- is for the test that ends the loop.
unfoldable pub update : ℕ → (ℕ → ℕ) → Centipede → Centipede
update now picks c =
    catch_up 5 now picks
      (if ltb (c.t_step + 4 * step_time) now then record c { t_step = now - step_time } else c)

-- `_delta`
unfoldable pub delta : ℕ → ℕ → ℤ
delta a b =
    if ltb (a + 1) b
    then sub_ℕ b (a + grid)
    else if ltb (b + 1) a
    then sub_ℕ (b + grid) a
    else sub_ℕ b a
