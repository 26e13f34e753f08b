-- ===== src/PyText.antt =====
-- What the sources use of Python's `str`: `upper`, `strip`, `ljust`, `partition`, `rpartition`,
-- `str(n)` and `int(s)`, over lists of code points. Case and digits are those of ASCII; white space
-- is that of `str.isspace` below 256.
pub mod Decimal
pub mod Laws
pub mod Lines
use kp4pra.Prelude.{
  ℕ, zero, suc, ◌+◌, ◌-◌, ◌*◌, ◌/◌, ◌%◌, ◌≤◌, ◌<◌, ◌≡◌, refl, Bool, true, false, not, ◌&&◌, ◌||◌,
  Option, none, some, List, [], ◌∷◌, ◌++◌, map, arith, leb, ltb, ◌==◌, if◌then◌else◌, length,
  replicate, Text,
}
use mathlib.Core.List.{reverse}

unfoldable pub is_space : ℕ → Bool
is_space c = (leb 9 c && leb c 13) || (leb 28 c && leb c 32) || c == 133 || c == 160

unfoldable pub is_digit : ℕ → Bool
is_digit c = leb b'0' c && leb c b'9'

unfoldable pub is_upper : ℕ → Bool
is_upper c = leb b'A' c && leb c b'Z'

unfoldable pub is_lower : ℕ → Bool
is_lower c = leb b'a' c && leb c b'z'

-- `[A-Za-z0-9]`
unfoldable pub is_alnum : ℕ → Bool
unfolding is_digit is_upper is_lower
is_alnum c = is_upper c || is_lower c || is_digit c

unfoldable pub to_upper : ℕ → ℕ
unfolding is_lower
to_upper c = if is_lower c then c - 32 else c

unfoldable pub upper : Text → Text
upper = map to_upper

unfoldable pub lstrip : Text → Text
lstrip [] = []
lstrip (c ∷ s) = if is_space c then lstrip s else c ∷ s

unfoldable pub rstrip : Text → Text
rstrip s = reverse (lstrip (reverse s))

unfoldable pub strip : Text → Text
strip s = rstrip (lstrip s)

-- `s.ljust(n)`
unfoldable pub ljust : ℕ → Text → Text
ljust n s = s ++ replicate (n - length s) b' '

-- `s.partition(c)` without its middle part: what stands before the first `c`, and behind it; the
-- second is empty where there is no `c`.
unfoldable pub partition : ℕ → Text → Text × Text
partition c [] = ([], [])
partition c (x ∷ s) =
    if x == c then ([], s) else let (before, after) = partition c s in (x ∷ before, after)

unfoldable pub contains : ℕ → Text → Bool
contains c [] = false
contains c (x ∷ s) = x == c || contains c s

-- `s.rpartition(c)` for a text that holds `c`: what stands before its last `c`, and behind it.
unfoldable pub rpartition : ℕ → Text → Text × Text
rpartition c [] = ([], [])
rpartition c (x ∷ s) =
    let (before, after) = rpartition c s in
    if contains c s then (x ∷ before, after) else if x == c then ([], s) else (x ∷ before, after)
