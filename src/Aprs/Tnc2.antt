-- ===== src/Aprs/Tnc2.antt =====
-- src/web/aprs.py: the lines of APRS-IS, `aprsis_login`, `tnc2_line` and `parse_tnc2`.
pub mod RoundTrip
use kp4pra.Prelude.{
  ℕ, Bool, true, false, not, ◌&&◌, ◌||◌, Option, none, some, List, [], ◌∷◌, ◌++◌, Text, ◌==◌,
  if◌then◌else◌, codes, is_nil,
}
use kp4pra.PyText.{strip, upper, partition, contains}
use kp4pra.PyText.Decimal.{decimal}
use kp4pra.Aprs.Call.{normalize_call, passcode}

-- `" filter %s" % filt`, for a filter that is given and not empty.
filter_part : Option Text → Text
filter_part none = []
filter_part (some []) = []
filter_part (some (c ∷ f)) = codes " filter " ++ c ∷ f

unfoldable pub aprsis_login : Text → Text → Text → Option Text → Text
unfolding filter_part
aprsis_login callsign appname version filt =
    codes "user "
    ++ (normalize_call callsign
        ++ (codes " pass "
            ++ (decimal (passcode callsign)
                ++ (codes " vers " ++ (appname ++ (b' ' ∷ (version ++ filter_part filt)))))))

-- The loop over the path.
unfoldable pub path_text : List Text → Text
path_text [] = []
path_text (p ∷ ps) = b',' ∷ (p ++ path_text ps)

unfoldable pub tnc2_line : Text → Text → Text → List Text → Text
tnc2_line source dest info path =
    normalize_call source ++ (b'>' ∷ (normalize_call dest ++ (path_text path ++ (b':' ∷ info))))

-- `.rstrip("\r\n")`
unfoldable pub rstrip_crlf : Text → Text
rstrip_crlf [] = []
rstrip_crlf (c ∷ s) =
    let rest = rstrip_crlf s in if is_nil rest && (c == b'\r' || c == b'\n') then [] else c ∷ rest

-- `s.split(c)`
unfoldable pub cons_head : ℕ → List Text → List Text
cons_head x [] = (x ∷ []) ∷ []
cons_head x (p ∷ ps) = (x ∷ p) ∷ ps

unfoldable pub split : ℕ → Text → List Text
unfolding cons_head
split c [] = [] ∷ []
split c (x ∷ s) = let rest = split c s in if x == c then [] ∷ rest else cons_head x rest

-- `[p for p in ... if p]`
unfoldable pub nonempty : List Text → List Text
nonempty [] = []
nonempty (p ∷ ps) = if is_nil p then nonempty ps else p ∷ nonempty ps

pub record Tnc2 : Type 0 where
  pub source : Text
  pub dest : Text
  pub path : List Text
  pub info : Text

-- `_TNC2_RE`, group by group: the source ends at the first `>`, the header at the first colon behind
-- it, the destination at the first comma of the header. A comma wants something behind it.
unfoldable pub match_tnc2 : Text → Option Tnc2
match_tnc2 line =
    let (source, after) = partition b'>' line in
    let (header, info) = partition b':' after in
    let (dest, path) = partition b',' header in
    if is_nil source
      || (not (contains b'>' line)
          || (not (contains b':' after) || (is_nil dest || (contains b',' header && is_nil path))))
    then none
    else some (record {
      source = upper (strip source);
      dest = upper (strip dest);
      path = nonempty (split b',' path);
      info = info;
    })

-- The first line of a server is a comment.
unfoldable pub parse_tnc2 : Text → Option Tnc2
parse_tnc2 [] = none
parse_tnc2 (c ∷ line) = if c == b'#' then none else match_tnc2 (rstrip_crlf (c ∷ line))
