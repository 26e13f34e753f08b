-- ===== src/Aprs/Tnc2/RoundTrip.antt =====
-- What `parse_tnc2` reads from the lines that `tnc2_line` writes.
use kp4pra.Ax25.Call.RoundTrip.{length-call_text_pos}
use mathlib.Core.Path.{ap₂}
use kp4pra.Prelude.{append-nil}
use kp4pra.Prelude.{
  ℕ, ◌≤◌, ◌≡◌, ◌≢◌, refl, sym, ap, ◌∙◌, ◌&&◌, append-nil, inl, inr, false, some, List, [], ◌∷◌,
  ◌++◌, Text, arith, ◌==◌, length, is_nil, Bool-cases, All, All-append, All-imp, append_assoc,
}
use kp4pra.PyText.{is_digit, is_upper, partition, contains, upper, strip}
use kp4pra.PyText.Laws.{
  IsCallChar, partition-here, partition-absent, contains-middle, contains-absent,
}
use kp4pra.PyText.Decimal.{decimal, decimal-IsDigit, IsDigit}
use kp4pra.Ax25.Call.{call_text}
use kp4pra.Ax25.Frame.RoundTrip.{Call, text, IsCanonical}
use kp4pra.Aprs.Call.{normalize_call}
use kp4pra.Aprs.Message.RoundTrip.{normalize_call-text}
use kp4pra.Aprs.Tnc2.{
  tnc2_line, path_text, parse_tnc2, match_tnc2, rstrip_crlf, split, cons_head, nonempty,
}

-- An element of a path: not empty, without comma and colon.
pub record IsStop (p : Text) : Type 0 where
  pub no_comma : All (λ c. c ≢ b',') p
  pub no_colon : All (λ c. c ≢ b':') p
  pub some_text : 1 ≤ length p

text-All :
    (P : ℕ → Type 0) (c : Call)
    → IsCanonical c
    → ((x : ℕ) → IsCallChar x → P x)
    → P b'-'
    → All P (text c)
unfolding call_text
text-All P c v char dash = elim (Bool-cases (c.ssid == 0)) [
  | inl e ↦ rw e (All-imp IsCallChar P char c.base v.chars)
  | inr e ↦ rw e (
      All-append P c.base (b'-' ∷ decimal c.ssid) (All-imp IsCallChar P char c.base v.chars)
        (dash, All-imp IsDigit P (λ x h. char x (inr h)) (decimal c.ssid) (decimal-IsDigit c.ssid)))
]

char-ne : (d x : ℕ) → is_upper d ≡ false → is_digit d ≡ false → IsCallChar x → x ≢ d
char-ne d x u n (inl h) e = ground (arith, ap is_upper e)
char-ne d x u n (inr h) e = ground (arith, ap is_digit e)

text-without :
    (d : ℕ) (c : Call)
    → IsCanonical c
    → is_upper d ≡ false
    → is_digit d ≡ false
    → d ≢ b'-'
    → All (λ x. x ≢ d) (text c)
text-without d c v u n dash =
    text-All (λ x. x ≢ d) c v (λ x h. char-ne d x u n h) (λ e. dash (sym e))

path-no_colon : (ps : List Text) → All IsStop ps → All (λ c. c ≢ b':') (path_text ps)
unfolding path_text
path-no_colon [] h = tt
path-no_colon (p ∷ ps) h =
    (omega arith, All-append (λ c. c ≢ b':') p (path_text ps) (h.0).no_colon (path-no_colon ps h.1))

-- A text that ends in no line break, and is not empty.
record IsKept (s : Text) : Type 0 where
  stays : rstrip_crlf s ≡ s
  not_nil : is_nil s ≡ false

IsKept-cons : (c : ℕ) (s : Text) → IsKept s → IsKept (c ∷ s)
unfolding rstrip_crlf
IsKept-cons c s v = record { stays = rw (v.stays, v.not_nil) refl; not_nil = refl }

IsKept-append : (s t : Text) → IsKept t → IsKept (s ++ t)
IsKept-append [] t v = v
IsKept-append (c ∷ s) t v = IsKept-cons c (s ++ t) (IsKept-append s t v)

IsKept-info : (info : Text) → rstrip_crlf info ≡ info → IsKept (b':' ∷ info)
unfolding rstrip_crlf
IsKept-info info h = record { stays = rw h (ground arith); not_nil = refl }

split-last : (p : Text) → All (λ c. c ≢ b',') p → split b',' p ≡ p ∷ []
unfolding split cons_head
split-last [] h = refl
split-last (x ∷ p) h = ground (arith, h.0, split-last p h.1)

split-next : (p s : Text) → All (λ c. c ≢ b',') p → split b',' (p ++ b',' ∷ s) ≡ p ∷ split b',' s
unfolding split cons_head
split-next [] s h = ground arith
split-next (x ∷ p) s h = ground (arith, h.0, split-next p s h.1)

nonempty-cons : (p : Text) (ps : List Text) → 1 ≤ length p → nonempty (p ∷ ps) ≡ p ∷ nonempty ps
unfolding nonempty
nonempty-cons [] ps h = absurd (omega arith)
nonempty-cons (x ∷ p) ps h = refl

nonempty-nil : nonempty [] ≡ []
unfolding nonempty
nonempty-nil = refl

-- The text behind the first comma of a path.
split-path :
    (p : Text) (ps : List Text)
    → IsStop p
    → All IsStop ps
    → nonempty (split b',' (p ++ path_text ps)) ≡ p ∷ ps
unfolding path_text
split-path p [] v h =
    rw (append-nil, split-last p v.no_comma)
      (nonempty-cons p [] v.some_text ∙ ap (◌∷◌ p) nonempty-nil)
split-path p (q ∷ ps) v h =
    rw
      (
        split-next p (q ++ path_text ps) v.no_comma,
        nonempty-cons p (split b',' (q ++ path_text ps)) v.some_text,
      )
      (ap (◌∷◌ p) (split-path q ps h.0 h.1))

-- The path without its first comma.
abbrev path_tail : List Text → Text
path_tail [] = []
path_tail (p ∷ ps) = p ++ path_text ps

is_nil-append : (p s : Text) → 1 ≤ length p → is_nil (p ++ s) ≡ false
is_nil-append [] s h = absurd (omega arith)
is_nil-append (c ∷ p) s h = refl

partition-header :
    (dest : Text) (ps : List Text)
    → All (λ c. c ≢ b',') dest
    → partition b',' (dest ++ path_text ps) ≡ (dest, path_tail ps)
unfolding path_text
partition-header dest [] h = rw append-nil (partition-absent b',' dest h)
partition-header dest (p ∷ ps) h = partition-here b',' dest (p ++ path_text ps) h

no_bare_comma :
    (dest : Text) (ps : List Text)
    → All (λ c. c ≢ b',') dest
    → All IsStop ps
    → (contains b',' (dest ++ path_text ps) && is_nil (path_tail ps)) ≡ false
unfolding path_text
no_bare_comma dest [] h v = rw (append-nil, contains-absent b',' dest h) refl
no_bare_comma dest (p ∷ ps) h v =
    rw
      (
        contains-middle b',' dest (p ++ path_text ps),
        is_nil-append p (path_text ps) (v.0).some_text,
      )
      refl

nonempty-path : (ps : List Text) → All IsStop ps → nonempty (split b',' (path_tail ps)) ≡ ps
nonempty-path [] h = unfold split nonempty in refl
nonempty-path (p ∷ ps) h = split-path p ps h.0 h.1

is_nil-pos : (s : Text) → 1 ≤ length s → is_nil s ≡ false
is_nil-pos [] h = absurd (omega arith)
is_nil-pos (c ∷ s) h = refl

-- The part of the line behind the source.
match_tnc2-parts :
    (source dest info : Text) (ps : List Text)
    → All (λ c. c ≢ b'>') source
    → All (λ c. c ≢ b':') (dest ++ path_text ps)
    → All (λ c. c ≢ b',') dest
    → 1 ≤ length source
    → 1 ≤ length dest
    → All IsStop ps
    → match_tnc2 (source ++ (b'>' ∷ ((dest ++ path_text ps) ++ (b':' ∷ info))))
      ≡ some (record {
        source = upper (strip source);
        dest = upper (strip dest);
        path = ps;
        info = info;
      })
unfolding match_tnc2
match_tnc2-parts source dest info ps hs hd hc ls ld v =
    rw
      (
        partition-here b'>' source ((dest ++ path_text ps) ++ (b':' ∷ info)) hs,
        contains-middle b'>' source ((dest ++ path_text ps) ++ (b':' ∷ info)),
        partition-here b':' (dest ++ path_text ps) info hd,
        contains-middle b':' (dest ++ path_text ps) info,
        partition-header dest ps hc,
        no_bare_comma dest ps hc v,
        nonempty-path ps v,
      )
      (ground (arith, is_nil-pos source ls, is_nil-pos dest ld))

parse_tnc2-start :
    (s t : Text)
    → All (λ c. c ≢ b'#') s
    → 1 ≤ length s
    → parse_tnc2 (s ++ t) ≡ match_tnc2 (rstrip_crlf (s ++ t))
unfolding parse_tnc2
parse_tnc2-start [] t h l = absurd (omega arith)
parse_tnc2-start (c ∷ s) t h l = ground (arith, h.0)

length-text_pos : (c : Call) → IsCanonical c → 1 ≤ length (text c)
length-text_pos c v = length-call_text_pos c.base c.ssid v.nonempty

-- A line between canonical callsigns, with path elements that are not empty and hold no comma and no
-- colon, and with an information field that does not end in a line break, is read back whole.
pub parse_tnc2-tnc2_line :
    (source dest : Call) (info : Text) (path : List Text)
    → IsCanonical source
    → IsCanonical dest
    → All IsStop path
    → rstrip_crlf info ≡ info
    → parse_tnc2 (tnc2_line (text source) (text dest) info path)
      ≡ some (record { source = text source; dest = text dest; path = path; info = info })
unfolding tnc2_line is_upper is_digit upper normalize_call
parse_tnc2-tnc2_line source dest info path vs vd vp vi =
    let rest = text dest ++ (path_text path ++ (b':' ∷ info)) in
    rw (normalize_call-text source vs, normalize_call-text dest vd)
      (parse_tnc2-start (text source) (b'>' ∷ rest)
          (text-without b'#' source vs refl refl (omega arith)) (length-text_pos source vs)
        ∙ ap match_tnc2 (
            (IsKept-append (text source) (b'>' ∷ rest) (
              IsKept-cons b'>' rest (
                IsKept-append (text dest) _
                  (IsKept-append (path_text path) _ (IsKept-info info vi))))).stays)
        ∙ ap (λ t. match_tnc2 (text source ++ (b'>' ∷ t)))
            (sym (append_assoc (text dest) (path_text path) (b':' ∷ info)))
        ∙ match_tnc2-parts (text source) (text dest) info path
            (text-without b'>' source vs refl refl (omega arith))
            (All-append (λ c. c ≢ b':') (text dest) (path_text path)
              (text-without b':' dest vd refl refl (omega arith)) (path-no_colon path vp))
            (text-without b',' dest vd refl refl (omega arith)) (length-text_pos source vs)
            (length-text_pos dest vd) vp
        ∙ ap₂ (λ a b. some (record { source = a; dest = b; path = path; info = info }))
            (normalize_call-text source vs) (normalize_call-text dest vd))
