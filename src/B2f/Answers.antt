-- ===== src/B2f/Answers.antt =====
-- src/web/b2f.py: `parse_fs`.
use kp4pra.Prelude.{
  ℕ, Bool, ◌||◌, List, [], map, drop, take, Text, ◌==◌, if◌then◌else◌, text_eq, codes,
}
use kp4pra.PyText.{strip, upper, to_upper}

pub data Disposition : Type 0 where
  send skip hold resume unknown : Disposition

-- The body of the loop, for a character in upper case.
unfoldable pub disposition : ℕ → Disposition
disposition u =
    if u == b'Y'
    then send
    else if u == b'N' || (u == b'L' || u == b'R')
    then skip
    else if u == b'H' || u == b'='
    then hold
    else if u == b'!'
    then resume
    else unknown

abbrev pub dispositions : Text → List Disposition
dispositions = map (λ c. disposition (to_upper c))

-- `line.upper().startswith("FS")`
abbrev pub is_answer : Text → Bool
is_answer line = text_eq (take 2 (upper line)) (codes "FS")

unfoldable pub parse_fs : Text → List Disposition
parse_fs text =
    let line = strip text in if is_answer line then dispositions (strip (drop 2 line)) else []
