-- ===== src/Lzhuf/Huffman.antt =====
-- src/web/lzhuf.py: `_Huff`, the adaptive Huffman tree, and the codes of its characters.
pub mod Shape
pub mod Weights
pub mod Updating
pub mod Codes
pub mod Depth
pub mod Words
pub mod Starting
pub mod Coding
use kp4pra.Prelude.{
  ℕ, zero, suc, ◌+◌, ◌-◌, ◌*◌, ◌/◌, ◌%◌, ◌≤◌, ◌<◌, ◌≡◌, ◌≢◌, ◌⊎◌, inl, inr, refl, sym, ap, ◌∙◌,
  append_assoc, append-nil, Bool, true, false, not, ◌&&◌, ◌||◌, Bool-cases, Option, none, some,
  List, [], ◌∷◌, ◌++◌, Bytes, Text, codes, arith, length, take, drop, length-append, take-append,
  drop-append, ltb, leb, ◌==◌, if◌then◌else◌, is_nil, text_eq, get_elem?, bit_and, bit_or, bit_xor,
  ==_iff, all_below_sound, map, All,
}
use mathlib.Core.List.{reverse}
use kp4pra.Prelude.{◌^◌}
use kp4pra.Prelude.Maybe.{◌>>=◌}
use kp4pra.Lzhuf.Tables.{char_count, tree_size, root, max_freq}
use kp4pra.Lzhuf.Bits.{BitWriter, put_code, BitReader, get_bit, bit_value}

-- An array is a function of its index: `Tree` keeps every index that is used within its size.
abbrev pub Array : Type 0
Array = ℕ → ℕ

-- `a[i] = v`
abbrev pub set : Array → ℕ → ℕ → Array
set a i v = λ (j : ℕ). if j == i then v else a j

pub record Huff : Type 0 where
  pub freq : Array
  pub prnt : Array
  pub son : Array

-- One round of the first loop of `_start`.
abbrev pub start_leaf : ℕ → Huff → Huff
start_leaf i h = record {
  freq = set h.freq i 1;
  prnt = set h.prnt (i + tree_size) i;
  son = set h.son i (i + tree_size);
}

unfoldable pub start_leaves : ℕ → Huff
start_leaves zero = record { freq = λ i. 0; prnt = λ i. 0; son = λ i. 0 }
start_leaves (suc n) = start_leaf n (start_leaves n)

-- One round of the second loop, at which `i` is `2 * n` and `j` is `N_CHAR + n`.
abbrev pub start_node : ℕ → Huff → Huff
start_node n h = record {
  freq = set h.freq (char_count + n) (h.freq (2 * n) + h.freq (2 * n + 1));
  prnt = set (set h.prnt (2 * n + 1) (char_count + n)) (2 * n) (char_count + n);
  son = set h.son (char_count + n) (2 * n);
}

unfoldable pub start_nodes : ℕ → Huff
start_nodes zero = start_leaves char_count
start_nodes (suc n) = start_node n (start_nodes n)

unfoldable pub start : Huff
start =
    let h = start_nodes (char_count - 1) in
    record h { freq = set h.freq tree_size 0xFFFF; prnt = set h.prnt root 0 }

-- The first loop of `_reconst`: the tables, and `j`.
unfoldable pub collect : ℕ → Huff → Huff × ℕ
collect zero h = (h, 0)
collect (suc i) h =
    let (g, j) = collect i h in
    if leb tree_size (g.son i)
    then (record g { freq = set g.freq j ((g.freq i + 1) / 2); son = set g.son j (g.son i) }, j + 1)
    else (g, j)

-- `k` behind the search: `while f < freq[k]: k -= 1`, then `k += 1`, from `k` below the argument.
unfoldable pub place : ℕ → Array → ℕ → ℕ
place f freq zero = zero
place f freq (suc k) = let lower = place f freq k in if ltb f (freq k) then lower else suc k

-- `for m in range(j, k, -1): a[m] = a[m - 1]`, for `j` rounds more than `k`.
unfoldable pub shift_up : ℕ → ℕ → Array → Array
shift_up zero k a = a
shift_up (suc n) k a = shift_up n k (set a (k + n + 1) (a (k + n)))

-- One round of the second loop.
unfoldable pub rebuild_node : ℕ → Huff → Huff
rebuild_node n h =
    let j = char_count + n in
    let f = h.freq (2 * n) + h.freq (2 * n + 1) in
    let freq = set h.freq j f in
    let k = place f freq j in
    record h {
      freq = set (shift_up (j - k) k freq) k f;
      son = set (shift_up (j - k) k h.son) k (2 * n);
    }

unfoldable pub rebuild : ℕ → Huff → Huff
rebuild zero h = h
rebuild (suc n) h = rebuild_node n (rebuild n h)

-- The third loop.
unfoldable pub reparent : ℕ → Huff → Huff
reparent zero h = h
reparent (suc i) h =
    let g = reparent i h in
    let k = g.son i in
    let up = set g.prnt k i in record g { prnt = if leb tree_size k then up else set up (k + 1) i }

unfoldable pub reconst : Huff → Huff
reconst h = reparent tree_size (rebuild (char_count - 1) (collect tree_size h).0)

-- `while k > freq[l]: l += 1`; the entry at `T` is larger than every `k`.
unfoldable pub scan : ℕ → Array → ℕ → ℕ → ℕ
scan zero freq k l = l
scan (suc f) freq k l = let more = scan f freq k (l + 1) in if ltb (freq l) k then more else l

-- `self.prnt[i] = l`, and `self.prnt[i + 1] = l` if `i` is a node.
unfoldable pub adopt : ℕ → ℕ → Array → Array
adopt i l prnt = let up = set prnt i l in if ltb i tree_size then set up (i + 1) l else up

-- The nodes `c` and `l` change places.
unfoldable pub exchange : ℕ → ℕ → ℕ → Huff → Huff
exchange c l k h = record {
  freq = set (set h.freq c (h.freq l)) l k;
  prnt = adopt (h.son l) c (adopt (h.son c) l h.prnt);
  son = set (set h.son l (h.son c)) c (h.son l);
}

-- The loop's body up to `c = self.prnt[c]`.
unfoldable pub raise : ℕ → Huff → Huff × ℕ
raise c h =
    let k = h.freq c + 1 in
    let g = record h { freq = set h.freq c k } in
    let l = scan tree_size g.freq k (c + 2) - 1 in
    if ltb (g.freq (c + 1)) k then (exchange c l k g, l) else (g, c)

unfoldable pub update_loop : ℕ → ℕ → Huff → Huff
update_loop zero c h = h
update_loop (suc f) c h =
    let (g, l) = raise c h in
    let more = update_loop f (g.prnt l) g in if g.prnt l == 0 then g else more

-- Every round leads to a larger node.
unfoldable pub update : ℕ → Huff → Huff
update c h =
    let g = if h.freq root == max_freq then reconst h else h in
    update_loop tree_size (g.prnt (c + tree_size)) g

-- The bits from a node up to the root.
unfoldable pub climb : ℕ → Array → ℕ → List Bool
climb zero prnt k = []
climb (suc f) prnt k =
    let more = (k % 2 == 1) ∷ climb f prnt (prnt k) in if k == root then [] else more

-- `code = (code << 1) | b`
unfoldable pub code_of : ℕ → List Bool → ℕ
code_of code [] = code
code_of code (b ∷ bits) = code_of (code * 2 + bit_value b) bits

-- The shift by a negative number raises ValueError: `none`.
unfoldable pub put_bits : List Bool → BitWriter → Option BitWriter
put_bits bits w =
    let length = length bits in
    if leb length 16
    then some (put_code length (code_of 0 bits * 2 ^ (16 - length) % 0x10000) w)
    else none

unfoldable pub encode_char : ℕ → Huff → BitWriter → Option (Huff × BitWriter)
encode_char c h w = do
  w' ← put_bits (reverse (climb tree_size h.prnt (h.prnt (c + tree_size)))) w
  some (update c h, w')

-- `while c < T`
unfoldable pub descend : ℕ → Array → ℕ → BitReader → BitReader × ℕ
descend zero son c r = (r, c)
descend (suc f) son c r =
    let (r', bit) = get_bit r in
    let more = descend f son (son (c + bit_value bit)) r' in
    if ltb c tree_size then more else (r, c)

unfoldable pub decode_char : Huff → BitReader → Huff × BitReader × ℕ
decode_char h r =
    let (r', c) = descend tree_size h.son (h.son root) r in
    (update (c - tree_size) h, r', c - tree_size)
