-- ===== src/PyText/Lines.antt =====
-- `s.splitlines()`, and its last line.
use kp4pra.Prelude.{ℕ, Bool, ◌||◌, List, [], ◌∷◌, Text, ◌==◌, leb, ◌&&◌, if◌then◌else◌}

-- The characters that end a line, below 256.
unfoldable pub is_break : ℕ → Bool
is_break c = (leb 10 c && leb c 13) || ((leb 28 c && leb c 30) || c == 133)

-- The line that is open gets one more character at its head.
unfoldable pub push_line : ℕ → List Text → List Text
push_line c [] = (c ∷ []) ∷ []
push_line c (l ∷ ls) = (c ∷ l) ∷ ls

-- `\r\n` is one break; a break at the end opens no further line.
unfoldable pub splitlines : Text → List Text
splitlines [] = []
splitlines (c ∷ []) = if is_break c then [] ∷ [] else (c ∷ []) ∷ []
splitlines (c ∷ d ∷ s) =
    let after_both = splitlines s in
    let after_one = splitlines (d ∷ s) in
    if c == b'\r' && d == b'\n'
    then [] ∷ after_both
    else if is_break c
    then [] ∷ after_one
    else push_line c after_one

-- `s.splitlines()[-1]`, for a text that is not empty.
unfoldable pub last_of : List Text → Text
last_of [] = []
last_of (l ∷ []) = l
last_of (l ∷ m ∷ ls) = last_of (m ∷ ls)

abbrev pub last_line : Text → Text
last_line s = last_of (splitlines s)
