-- ===== src/Mail/Talk.antt =====
-- src/web/b2fsend.py: `_read_until`, `_run_b2f` and `_connect_and_run`. The CMS is what the reads of the
-- socket give, an empty one where it closes and no more where the time runs out, and how many sends
-- succeed before the connection breaks. The digest of hashlib.md5 is an argument; the transcript is
-- left out.
use kp4pra.Prelude.Maybe.{◌>>=◌}
use kp4pra.Mail.Challenge.{challenge_response, encode_ascii}
use kp4pra.Prelude.{
  ℕ, zero, suc, Bool, true, false, not, ◌&&◌, ◌||◌, Option, none, some, List, [], ◌∷◌, ◌++◌, Bytes,
  Text, codes, length, take, drop, leb, ◌==◌, if◌then◌else◌, is_nil, text_eq,
}
use kp4pra.PyText.{strip, upper, contains}
use kp4pra.B2f.Answers.{Disposition, send, parse_fs}
use kp4pra.B2f.Sid.{SidInfo, parse_sid}
use kp4pra.B2f.Proposal.{Item, build_proposals}
use kp4pra.B2f.Frames.{frame_binary}

pub record Cms : Type 0 where
  pub replies : List Bytes
  pub sends_left : ℕ
  pub sent : List Bytes

-- `not_ascii` is a UnicodeEncodeError.
pub data Failure : Type 0 where
  timed_out closed broken not_ascii : Failure

pub data Io {ℓ} (A : Type ℓ) : Type ℓ where
  did : A → Cms → Io A
  failed : Failure → Cms → Io A

unfoldable pub then_do {ℓ κ} : {A : Type ℓ} → {B : Type κ} → Io A → (A → Cms → Io B) → Io B
then_do (did a c) k = k a c
then_do (failed f c) k = failed f c

abbrev pub cap : ℕ
cap = 8192

unfoldable pub is_done : ℕ → Bytes → Bool
is_done needle buf = contains needle buf || leb cap (length buf)

-- The loop of `_read_until` over the reads.
unfoldable pub read_loop : ℕ → Bytes → List Bytes → ℕ → List Bytes → Io Bytes
read_loop needle buf [] left sent =
    let c : Cms = record { replies = []; sends_left = left; sent = sent } in
    if is_done needle buf then did buf c else failed timed_out c
read_loop needle buf (r ∷ rs) left sent =
    let c : Cms = record { replies = r ∷ rs; sends_left = left; sent = sent } in
    let more = if is_nil r then failed closed c else read_loop needle (buf ++ r) rs left sent in
    if is_done needle buf then did buf c else more

unfoldable pub read_until : ℕ → Cms → Io Bytes
read_until needle c = read_loop needle [] c.replies c.sends_left c.sent

unfoldable pub send_left : ℕ → Bytes → Cms → Io (Unit {0})
send_left zero s c = failed broken c
send_left (suc n) s c = did tt (record c { sends_left = n; sent = c.sent ++ s ∷ [] })

unfoldable pub send_bytes : Bytes → Cms → Io (Unit {0})
send_bytes s c = send_left c.sends_left s c

-- `try: await cms.send(...)`, `except Exception: pass`
unfoldable pub cms_of {ℓ} : {A : Type ℓ} → Io A → Cms
cms_of (did a c) = c
cms_of (failed f c) = c

unfoldable pub say_fq : Cms → Cms
say_fq c = cms_of (send_bytes (codes "FQ\r") c)

-- `bytes.split`
unfoldable pub split_at : ℕ → Bytes → List Bytes
split_at d [] = [] ∷ []
split_at d (c ∷ s) = elim (split_at d s) [
  | [] ↦ (c ∷ []) ∷ []
  | w ∷ ws ↦ if c == d then [] ∷ w ∷ ws else (c ∷ w) ∷ ws
]

-- `bytes.strip()`, whose white space is that of ASCII.
unfoldable pub is_byte_space : ℕ → Bool
is_byte_space c = c == 32 || (leb 9 c && leb c 13)

unfoldable pub lstrip_bytes : Bytes → Bytes
lstrip_bytes [] = []
lstrip_bytes (c ∷ s) = let rest = lstrip_bytes s in if is_byte_space c then rest else c ∷ s

unfoldable pub rstrip_bytes : Bytes → Bytes
rstrip_bytes [] = []
rstrip_bytes (c ∷ s) =
    let rest = rstrip_bytes s in if is_nil rest && is_byte_space c then [] else c ∷ rest

unfoldable pub strip_bytes : Bytes → Bytes
strip_bytes s = rstrip_bytes (lstrip_bytes s)

-- What the loop over the lines of the banner finds: the last SID, and the last challenge.
pub record Banner : Type 0 where
  pub sid : Option SidInfo
  pub challenge : Text

unfoldable pub read_line : Bytes → Banner → Banner
read_line l b =
    if text_eq (take 1 l) (codes "[") && contains b']' l
    then record b { sid = some (parse_sid l) }
    else if text_eq (take 4 l) (codes ";PQ:")
    then record b { challenge = strip (drop 4 l) }
    else b

unfoldable pub read_banner : List Bytes → Banner → Banner
read_banner [] b = b
read_banner (l ∷ ls) b = read_banner ls (read_line (strip_bytes l) b)

abbrev pub banner_of : Bytes → Banner
banner_of s = read_banner (split_at 13 s) (record { sid = none; challenge = [] })

-- The first line that starts with FS, stripped; empty if there is none.
unfoldable pub find_fs : List Bytes → Text
find_fs [] = []
find_fs (l ∷ ls) =
    let line = strip_bytes l in
    let later = find_fs ls in if text_eq (take 2 (upper line)) (codes "FS") then line else later

-- `dispositions[:1] == ["send"]`
unfoldable pub starts_with_send : List Disposition → Bool
starts_with_send (send ∷ _) = true
starts_with_send _ = false

pub record Message : Type 0 where
  pub item : Item
  pub subject : Text
  pub compressed : Bytes

-- The line that answers a challenge, if there was one.
unfoldable pub answer_line : (md5 : Bytes → Bytes) → Text → Text → Option Text
answer_line md5 password [] = some []
answer_line md5 password (c ∷ cs) = do
  response ← challenge_response md5 (c ∷ cs) password
  some (codes ";PR: " ++ (response ++ 13 ∷ []))

unfoldable pub opening : (md5 : Bytes → Bytes) → Text → Text → Message → Banner → Option Bytes
opening md5 password our_sid m b = do
  answer ← answer_line md5 password b.challenge
  encode_ascii (our_sid ++ (13 ∷ (answer ++ (build_proposals (m.item ∷ [])).text)))

-- `none` is what could not be encoded.
unfoldable pub send_encoded : Option Bytes → Cms → Io (Unit {0})
send_encoded none c = failed not_ascii c
send_encoded (some s) c = send_bytes s c

pub record Talked : Type 0 where
  pub sid : Option SidInfo
  pub fs : Text
  pub accepted : Bool
  pub delivered : Bool

abbrev pub frame_of : Message → Bytes
frame_of m = (frame_binary m.subject m.compressed).bytes

-- From the reading of FS on.
unfoldable pub answered : Bool → Message → Banner → Bytes → Cms → Io Talked
answered send_body m b buf c =
    let fs = find_fs (split_at 13 buf) in
    let accepted = starts_with_send (parse_fs fs) in
    let stopped =
      did (record { sid = b.sid; fs = fs; accepted = accepted; delivered = false }) (say_fq c) in
    if not send_body
    then stopped
    else if not accepted
    then stopped
    else then_do (send_bytes (frame_of m) c) (λ u c1. then_do (read_until b'F' c1) (λ rest c2.
      did (record { sid = b.sid; fs = fs; accepted = accepted; delivered = true }) (say_fq c2)))

unfoldable pub run_b2f : Bool → (md5 : Bytes → Bytes) → Text → Text → Message → Cms → Io Talked
run_b2f send_body md5 password our_sid m c = then_do (read_until b'>' c) (λ banner c1.
    let b = banner_of banner in
    then_do (send_encoded (opening md5 password our_sid m b) c1)
      (λ u c2. then_do (read_until 13 c2) (λ buf c3. answered send_body m b buf c3)))
