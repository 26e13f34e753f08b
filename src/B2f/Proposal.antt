-- ===== src/B2f/Proposal.antt =====
-- src/web/b2f.py: `proposal_checksum` and `build_proposals`; src/web/mailbuilder.py: `proposal_line`.
use kp4pra.Prelude.{
  ℕ, ◌+◌, ◌-◌, ◌*◌, ◌/◌, ◌%◌, ◌≡◌, refl, List, [], ◌∷◌, ◌++◌, Bytes, Text, codes, arith, ltb, leb,
  if◌then◌else◌, map,
}
use kp4pra.Prelude.{sum}
use kp4pra.PyText.Decimal.{decimal}
use kp4pra.B2f.Frames.{checksum_of}

-- What the proposals need of a message, and its compressed size.
pub record Item : Type 0 where
  pub mid : Text
  pub size : ℕ
  pub compressed_size : ℕ

unfoldable pub proposal_line : Item → Text
proposal_line m =
    codes "FC EM "
    ++ (m.mid ++ (b' ' ∷ (decimal m.size ++ (b' ' ∷ (decimal m.compressed_size ++ codes " 0")))))

-- `"\r".join(lines) + "\r"`
unfoldable pub join_lines : List Text → Text
join_lines [] = 13 ∷ []
join_lines (l ∷ []) = l ++ 13 ∷ []
join_lines (l ∷ m ∷ ls) = l ++ 13 ∷ join_lines (m ∷ ls)

abbrev pub hex_digit : ℕ → ℕ
hex_digit d = if ltb d 10 then b'0' + d else b'A' + (d - 10)

-- `%02X` of a byte.
unfoldable pub hex2 : ℕ → Text
hex2 n = hex_digit (n / 16) ∷ hex_digit (n % 16) ∷ []

pub record Proposals : Type 0 where
  pub lines : List Text
  pub block : Bytes
  pub checksum : ℕ
  pub text : Text

unfoldable pub build_proposals : List Item → Proposals
build_proposals items =
    let lines = map proposal_line items in
    let block = join_lines lines in
    record {
      lines = lines;
      block = block;
      checksum = checksum_of block;
      text = block ++ (codes "F> " ++ (hex2 (checksum_of block) ++ 13 ∷ []));
    }

-- `int(s, 16)` of one digit in upper case.
abbrev pub digit_value : ℕ → ℕ
digit_value c = if leb b'A' c then c - b'A' + 10 else c - b'0'

-- A receiver that adds up the bytes of the block and the number that stands in the two digits behind
-- `F> ` gets 0 modulo 256, and these two digits end the text, in front of its CR.
pub build_proposals-checks :
    (items : List Item)
    → (a : ℕ) × (b : ℕ) × ((build_proposals items).text
        ≡ (build_proposals items).block ++ (codes "F> " ++ a ∷ b ∷ 13 ∷ []))
      × ((sum (build_proposals items).block + (digit_value a * 16 + digit_value b)) % 256 ≡ 0)
unfolding build_proposals hex2 checksum_of
build_proposals-checks items = (_, _, refl, ground arith)
