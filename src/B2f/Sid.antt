-- ===== src/B2f/Sid.antt =====
-- src/web/b2f.py: `client_sid` and `parse_sid`.
use kp4pra.Prelude.{
  ◌≡◌, refl, Bool, Option, none, some, [], ◌∷◌, ◌++◌, Text, codes, ◌==◌, if◌then◌else◌, is_nil,
}
use kp4pra.PyText.{strip, upper, contains, rpartition}

-- What the configuration says under webmail.delivery.sid; empty where it says nothing.
pub record SidSettings : Type 0 where
  pub client_name : Text
  pub capabilities : Text
  pub version : Text

unfoldable pub or_default : Text → Text → Text
or_default s d = if is_nil s then d else s

unfoldable pub sid_line : Text → Text → Text → Text
sid_line name version caps = b'[' ∷ (name ++ (b'-' ∷ (version ++ (b'-' ∷ (caps ++ b']' ∷ [])))))

unfoldable pub client_sid : Text → SidSettings → Text
client_sid version x =
    sid_line (strip (or_default x.client_name (codes "KP4PRA")))
      (or_default (strip x.version) version) (strip (or_default x.capabilities (codes "B2FHM$")))

pub record SidInfo : Type 0 where
  pub raw : Text
  pub name : Text
  pub version : Text
  pub caps : Text
  pub fbb : Bool
  pub b2 : Bool
  pub checksum : Bool

unfoldable pub sid_info : Text → Text → Text → Text → SidInfo
sid_info raw name version caps = record {
  raw = raw;
  name = name;
  version = version;
  caps = caps;
  fbb = contains b'F' (upper caps);
  b2 = contains b'2' (upper caps);
  checksum = contains b'$' caps;
}

-- `inner.rsplit("-", 2)`: three parts with two dashes, else the first of those that there are.
unfoldable pub split_parts : Text → Text → SidInfo
split_parts raw inner =
    let (before, caps) = rpartition b'-' inner in
    let (name, version) = rpartition b'-' before in
    if contains b'-' before
    then sid_info raw name version caps
    else if contains b'-' inner
    then sid_info raw before [] []
    else sid_info raw inner [] []

-- `line[1:-1]` of a line behind its first character, if it ends in `]`.
unfoldable pub before_bracket : Text → Option Text
before_bracket [] = none
before_bracket (c ∷ []) = if c == b']' then some [] else none
before_bracket (c ∷ d ∷ s) = elim (before_bracket (d ∷ s)) [ none ↦ none | some t ↦ some (c ∷ t) ]

unfoldable pub parse_inner : Text → Option Text → SidInfo
parse_inner raw none = sid_info raw [] [] []
parse_inner raw (some inner) = split_parts raw inner

unfoldable pub parse_stripped : Text → SidInfo
parse_stripped [] = sid_info [] [] [] []
parse_stripped (c ∷ s) =
    if c == b'[' then parse_inner (c ∷ s) (before_bracket s) else sid_info (c ∷ s) [] [] []

unfoldable pub parse_sid : Text → SidInfo
parse_sid line = parse_stripped (strip line)

before_bracket-last : (s : Text) → before_bracket (s ++ b']' ∷ []) ≡ some s
unfolding before_bracket
before_bracket-last [] = refl
before_bracket-last (c ∷ []) = refl
before_bracket-last (c ∷ d ∷ s) = rw (before_bracket-last (d ∷ s)) refl
