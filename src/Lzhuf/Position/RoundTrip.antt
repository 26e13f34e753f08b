-- ===== src/Lzhuf/Position/RoundTrip.antt =====
-- The code of a position, over plain lists of bits: what a reader makes of it, for every position.
use mathlib.Core.Option
use kp4pra.Lzhuf.Position.{read_rest}
use mathlib.Core.Path.{subst}
use kp4pra.Prelude.{==_iff}
use kp4pra.Prelude.{
  ℕ, zero, suc, ◌+◌, ◌-◌, ◌*◌, ◌/◌, ◌%◌, ◌<◌, ◌≡◌, refl, sym, ap, ◌∙◌, Bool, true, false, Option,
  none, some, List, [], ◌∷◌, ◌++◌, ◌==◌, get_elem?, bit_or, all_below, all_below_sound,
}
use kp4pra.Lzhuf.Tables.{p_len, p_code, d_code, d_len}
use kp4pra.Lzhuf.Bits.{BitReader, get_bit, get_byte, get_bits, bit_value}
use kp4pra.Lzhuf.Bits.Writing.{code_bits}
use kp4pra.Lzhuf.Bits.Reading.{IsReady, take_value, get_bits-IsReady, get_bit-Gives}
use kp4pra.Lzhuf.Position.{read_low, decode_position}

abbrev pub or_zero : Option ℕ → ℕ
or_zero none = 0
or_zero (some x) = x

unfoldable pub position_bits : ℕ → List Bool
position_bits pos =
    code_bits (or_zero (get_elem? p_len (pos / 64)))
      (or_zero (get_elem? p_code (pos / 64)) * 256 % 0x10000)
    ++ code_bits 6 (pos % 64 * 0x400 % 0x10000)

-- `read_low` over a list of bits.
abbrev take_low : ℕ → ℕ → List Bool → Option (List Bool × ℕ)
take_low zero i bits = some (bits, i)
take_low (suc j) i [] = none
take_low (suc j) i (b ∷ bits) = take_low j ((i * 2 + bit_value b) % 0x10000) bits

join_value : ℕ → Option (List Bool × ℕ) → Option (List Bool × ℕ)
join_value high = Option.map (λ p. (p.0, bit_or (high * 64) (p.1 % 64)))

take_rest : Option ℕ → Option ℕ → ℕ → List Bool → Option (List Bool × ℕ)
take_rest (some high) (some length) i bits = join_value high (take_low (length - 2) i bits)
take_rest _ _ i bits = none

take_behind : Option (List Bool × ℕ) → Option (List Bool × ℕ)
take_behind none = none
take_behind (some (rest, i)) =
    take_rest (get_elem? d_code (i % 256)) (get_elem? d_len (i % 256)) (i % 256) rest

-- `decode_position` over a list of bits.
pub take_position : List Bool → Option (List Bool × ℕ)
take_position bits = take_behind (take_value 8 0 bits)

abbrev is_exactly : ℕ → Option (List Bool × ℕ) → Bool
is_exactly pos (some ([], x)) = x == pos
is_exactly pos _ = false

position_table : all_below 4096 (λ pos. is_exactly pos (take_position (position_bits pos))) ≡ true
unfolding all_below take_position position_bits p_len p_code d_code d_len take_behind take_rest
    join_value
position_table = refl

is_exactly_sound :
    (pos : ℕ) (o : Option (List Bool × ℕ)) → is_exactly pos o ≡ true → o ≡ some ([], pos)
is_exactly_sound pos none e = absurd (cc e)
is_exactly_sound pos (some ([], x)) e = ap (λ y. some ([], y)) ((==_iff x pos).0 e)
is_exactly_sound pos (some (b ∷ bs, x)) e = absurd (cc e)

take_value-append :
    (n val : ℕ) (bits more rest : List Bool) (x : ℕ)
    → take_value n val bits ≡ some (rest, x)
    → take_value n val (bits ++ more) ≡ some (rest ++ more, x)
take_value-append zero val bits more rest x e = ap (Option.map (λ p. (p.0 ++ more, p.1))) e
take_value-append (suc n) val [] more rest x e = absurd (cc e)
take_value-append (suc n) val (b ∷ bits) more rest x e =
    take_value-append n (val * 2 + bit_value b) bits more rest x e

take_low-append :
    (j i : ℕ) (bits more rest : List Bool) (x : ℕ)
    → take_low j i bits ≡ some (rest, x)
    → take_low j i (bits ++ more) ≡ some (rest ++ more, x)
take_low-append zero i bits more rest x e = ap (Option.map (λ p. (p.0 ++ more, p.1))) e
take_low-append (suc j) i [] more rest x e = absurd (cc e)
take_low-append (suc j) i (b ∷ bits) more rest x e =
    take_low-append j ((i * 2 + bit_value b) % 0x10000) bits more rest x e

read_low-IsReady :
    (j i : ℕ) (r : BitReader) (bits rest : List Bool) (x : ℕ)
    → IsReady r bits
    → take_low j i bits ≡ some (rest, x)
    → ((read_low j i r).1 ≡ x) × IsReady (read_low j i r).0 rest
unfolding read_low
read_low-IsReady zero i r bits rest x v e = (cc e, subst (IsReady r) (cc e) v)
read_low-IsReady (suc j) i r [] rest x v e = absurd (cc e)
read_low-IsReady (suc j) i r (b ∷ bits) rest x v e =
    let (same, next) = get_bit-Gives r b bits v in
    subst
      (λ c.
        let p = read_low j ((i * 2 + bit_value c) % 0x10000) (get_bit r).0 in
        (p.1 ≡ x) × IsReady p.0 rest)
      (sym same)
      (read_low-IsReady j ((i * 2 + bit_value b) % 0x10000) (get_bit r).0 bits rest x next e)

-- The position as `join_low` makes it.
joined :
    (high : ℕ) (o : Option (List Bool × ℕ)) (rest : List Bool) (x : ℕ)
    → join_value high o ≡ some (rest, x)
    → (low : ℕ) × (o ≡ some (rest, low)) × (bit_or (high * 64) (low % 64) ≡ x)
unfolding join_value
joined high none rest x e = absurd (cc e)
joined high (some (rest', low)) rest x e = (low, cc e, cc e)

read_rest-IsReady :
    (high len : Option ℕ) (i : ℕ) (r : BitReader) (bits rest : List Bool) (x : ℕ)
    → IsReady r bits
    → take_rest high len i bits ≡ some (rest, x)
    → (r' : BitReader) × (read_rest high len i r ≡ some (r', x)) × IsReady r' rest
unfolding read_rest take_rest
read_rest-IsReady none len i r bits rest x v e = absurd (cc e)
read_rest-IsReady (some high) none i r bits rest x v e = absurd (cc e)
read_rest-IsReady (some high) (some len) i r bits rest x v e =
    let (low, found, same) = joined high (take_low (len - 2) i bits) rest x e in
    let (value, ready) = read_low-IsReady (len - 2) i r bits rest low v found in
    (
      (read_low (len - 2) i r).0,
      ap (λ y. some ((read_low (len - 2) i r).0, y))
          (ap (λ l. bit_or (high * 64) (l % 64)) value ∙ same),
      ready,
    )

-- The decoder over a reader does what the one over a list of bits does.
decode_position-IsReady :
    (r : BitReader) (bits rest : List Bool) (x : ℕ)
    → IsReady r bits
    → take_position bits ≡ some (rest, x)
    → (r' : BitReader) × (decode_position r ≡ some (r', x)) × IsReady r' rest
unfolding decode_position take_position get_byte take_behind
decode_position-IsReady r bits rest x v e = go (take_value 8 0 bits) refl e
  where
    go :
        (o : Option (List Bool × ℕ))
        → take_value 8 0 bits ≡ o
        → take_behind o ≡ some (rest, x)
        → (r' : BitReader) × (decode_position r ≡ some (r', x)) × IsReady r' rest
    go none found e' = absurd (cc e')
    go (some (bits', i)) found e' =
        let (same, ready) = get_bits-IsReady 8 0 r bits bits' i v found in
        subst
          (λ y.
            (r' : BitReader) × (read_rest (get_elem? d_code (y % 256)) (get_elem? d_len (y % 256))
                (y % 256) (get_bits 8 0 r).0
              ≡ some (r', x))
            × IsReady r' rest)
          (sym same)
          (read_rest-IsReady (get_elem? d_code (i % 256)) (get_elem? d_len (i % 256)) (i % 256)
            (get_bits 8 0 r).0 bits' rest x ready e')

take_rest-append :
    (high len : Option ℕ) (i : ℕ) (bits more rest : List Bool) (x : ℕ)
    → take_rest high len i bits ≡ some (rest, x)
    → take_rest high len i (bits ++ more) ≡ some (rest ++ more, x)
unfolding take_rest join_value
take_rest-append none len i bits more rest x e = absurd (cc e)
take_rest-append (some high) none i bits more rest x e = absurd (cc e)
take_rest-append (some high) (some len) i bits more rest x e =
    let (low, found, same) = joined high (take_low (len - 2) i bits) rest x e in
    ap (join_value high) (take_low-append (len - 2) i bits more rest low found)
    ∙ ap (λ y. some (rest ++ more, y)) same

take_position-append :
    (bits more rest : List Bool) (x : ℕ)
    → take_position bits ≡ some (rest, x)
    → take_position (bits ++ more) ≡ some (rest ++ more, x)
unfolding take_position take_behind
take_position-append bits more rest x e = go (take_value 8 0 bits) refl e
  where
    go :
        (o : Option (List Bool × ℕ))
        → take_value 8 0 bits ≡ o
        → take_behind o ≡ some (rest, x)
        → take_position (bits ++ more) ≡ some (rest ++ more, x)
    go none found e' = absurd (cc e')
    go (some (bits', i)) found e' =
        ap take_behind (take_value-append 8 0 bits more bits' i found)
        ∙ take_rest-append (get_elem? d_code (i % 256)) (get_elem? d_len (i % 256)) (i % 256) bits'
            more rest x e'

-- Every position of twelve bits is read back from its code, and what follows is left to read.
pub decode_position-position_bits :
    (pos : ℕ) (r : BitReader) (rest : List Bool)
    → pos < 4096
    → IsReady r (position_bits pos ++ rest)
    → (r' : BitReader) × (decode_position r ≡ some (r', pos)) × IsReady r' rest
decode_position-position_bits pos r rest h v =
    decode_position-IsReady r (position_bits pos ++ rest) rest pos v (
      take_position-append (position_bits pos) rest [] pos (
        is_exactly_sound pos _ (
          all_below_sound 4096 (λ p. is_exactly p (take_position (position_bits p))) pos
            position_table h)))
