-- ===== src/Lzhuf/Encode.antt =====
-- src/web/lzhuf.py: the search trees of `_lzss_encode`. `none` is the end of the fuel.
pub mod Woven
pub mod Renamed
pub mod Replaced
pub mod Joined
pub mod Deleted
pub mod Deleting
pub mod Matching
pub mod Inserting
use kp4pra.Prelude.{
  ℕ, zero, suc, ◌+◌, ◌-◌, ◌*◌, ◌/◌, ◌%◌, ◌≤◌, ◌<◌, ◌≡◌, ◌≢◌, ◌⊎◌, inl, inr, refl, sym, ap, ◌∙◌,
  append_assoc, append-nil, Bool, true, false, not, ◌&&◌, ◌||◌, Bool-cases, Option, none, some,
  List, [], ◌∷◌, ◌++◌, Bytes, Text, codes, arith, length, take, drop, length-append, take-append,
  drop-append, ltb, leb, ◌==◌, if◌then◌else◌, is_nil, text_eq, get_elem?, bit_and, bit_or, bit_xor,
  ==_iff, all_below_sound, map, All,
}
use kp4pra.Prelude.Maybe.{◌>>=◌}
use kp4pra.Lzhuf.Tables.{ring_size, max_match, threshold}
use kp4pra.Lzhuf.Bits.{BitWriter, new_writer, flush}
use kp4pra.Lzhuf.Huffman.{Array, set, Huff, start}
use kp4pra.Lzhuf.Token.{Token, literal, copy, put_token}

-- `NIL`
abbrev pub nil : ℕ
nil = ring_size

-- `text_buf`, the three arrays of the search trees, and the last match.
pub record Dict : Type 0 where
  pub text_buf : Array
  pub lson : Array
  pub rson : Array
  pub dad : Array
  pub match_position : ℕ
  pub match_length : ℕ

-- The loop over `i`: where the texts at `r` and `p` differ, up to `F`, and whether `cmp >= 0` there.
unfoldable pub compare_from : ℕ → Array → ℕ → ℕ → ℕ → ℕ × Bool
compare_from zero text r p i = (i, true)
compare_from (suc f) text r p i =
    let more = compare_from f text r p (i + 1) in
    if text (r + i) == text (p + i) then more else (i, leb (text (p + i)) (text (r + i)))

-- `((r - p) & (N - 1)) - 1`, for another place `p` in the ring.
abbrev pub distance : ℕ → ℕ → ℕ
distance r p = (r + ring_size - p) % ring_size - 1

-- What a match of length `i` at distance `c` does to the best one.
unfoldable pub note_match : ℕ → ℕ → Dict → Dict
note_match i c d =
    if ltb threshold i
    then if ltb d.match_length i
      then record d { match_position = c; match_length = i }
      else if i == d.match_length && ltb c d.match_position
      then record d { match_position = c }
      else d
    else d

unfoldable pub attach : Bool → ℕ → ℕ → Dict → Dict
attach right p r d =
    if right
    then record d { rson = set d.rson p r; dad = set d.dad r p }
    else record d { lson = set d.lson p r; dad = set d.dad r p }

-- `p` gets the place below `up` that `old` had.
abbrev pub hang : ℕ → ℕ → ℕ → Dict → Dict
hang up old p d =
    let right = d.rson up == old in
    record d {
      lson = if right then d.lson else set d.lson up p;
      rson = if right then set d.rson up p else d.rson;
    }

-- The end of `insert_node`: `r` takes the place of `p`.
unfoldable pub replace : ℕ → ℕ → Dict → Dict
replace p r d =
    let lson = set d.lson r (d.lson p) in
    let rson = set d.rson r (d.rson p) in
    let dad = set (set (set d.dad r (d.dad p)) (lson p) r) (rson p) r in
    let e = hang (dad p) p r (record d { lson = lson; rson = rson; dad = dad }) in
    record e { dad = set e.dad p nil }

-- The loop of `insert_node`, for which `right` is `cmp >= 0`.
unfoldable pub insert_loop : ℕ → Bool → ℕ → ℕ → Dict → Option Dict
insert_loop zero right p r d = none
insert_loop (suc f) right p r d =
    let q = if right then d.rson p else d.lson p in
    let (i, right') = compare_from (max_match - 1) d.text_buf r q 1 in
    let e = note_match i (distance r q) d in
    let more = insert_loop f right' q r e in
    if q == nil
    then some (attach right p r d)
    else if ltb d.match_length i && leb max_match i
    then some (replace q r e)
    else more

unfoldable pub insert_node : ℕ → ℕ → Dict → Option Dict
insert_node f r d =
    insert_loop f true (ring_size + 1 + d.text_buf r) r
      (record d { lson = set d.lson r nil; rson = set d.rson r nil; match_length = 0 })

-- `while rson[q] != NIL: q = rson[q]`
unfoldable pub rightmost : ℕ → Array → ℕ → Option ℕ
rightmost zero rson q = none
rightmost (suc f) rson q =
    let more = rightmost f rson (rson q) in if rson q == nil then some q else more

-- `q` leaves the right end of the tree below `p`, and takes over what `p` has on the left.
unfoldable pub pull_up : ℕ → ℕ → Dict → Dict
pull_up p q d =
    let rson = set d.rson (d.dad q) (d.lson q) in
    let dad = set d.dad (d.lson q) (d.dad q) in
    let lson = set d.lson q (d.lson p) in
    record d { lson = lson; rson = rson; dad = set dad (lson p) q }

-- `q` takes over what `p` has on the right.
unfoldable pub take_right : ℕ → ℕ → Dict → Dict
take_right p q d =
    let rson = set d.rson q (d.rson p) in record d { rson = rson; dad = set d.dad (rson p) q }

-- The end of `delete_node`: `q` takes the place of `p`.
unfoldable pub join : ℕ → ℕ → Dict → Dict
join p q d =
    let dad = set d.dad q (d.dad p) in
    let e = hang (dad p) p q (record d { dad = dad }) in record e { dad = set e.dad p nil }

unfoldable pub delete_node : ℕ → ℕ → Dict → Option Dict
delete_node f p d =
    if d.dad p == nil
    then some d
    else if d.rson p == nil
    then some (join p (d.lson p) d)
    else if d.lson p == nil
    then some (join p (d.rson p) d)
    else if d.rson (d.lson p) == nil
    then some (join p (d.lson p) (take_right p (d.lson p) d))
    else do q ← rightmost f d.rson (d.lson p); some (join p q (take_right p q (pull_up p q d)))
