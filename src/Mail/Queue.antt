-- ===== src/Mail/Queue.antt =====
-- src/web/mailqueue.py. The directory is the list of its files: the stem of the name, and the record
-- that the file holds. Every write is whole, and every file can be read. The new id, the time and its
-- printed form are arguments of enqueue.
pub mod Counts
pub mod Reach
pub mod Stored
use kp4pra.Prelude.{
  ℕ, zero, suc, ◌+◌, ◌-◌, ◌*◌, ◌/◌, ◌%◌, ◌≤◌, ◌<◌, ◌≡◌, ◌≢◌, ◌⊎◌, inl, inr, refl, sym, ap, ◌∙◌,
  append_assoc, append-nil, Bool, true, false, not, ◌&&◌, ◌||◌, Bool-cases, Option, none, some,
  List, [], ◌∷◌, ◌++◌, Bytes, Text, codes, arith, length, take, drop, length-append, take-append,
  drop-append, ltb, leb, ◌==◌, if◌then◌else◌, is_nil, text_eq, get_elem?, bit_and, bit_or, bit_xor,
  ==_iff, all_below_sound, map, All,
}
use kp4pra.PyText.{is_digit}

abbrev pub holding : Text
holding = codes "Holding"

abbrev pub states : List Text
states =
    holding
    ∷ codes "Approved"
    ∷ codes "Sending"
    ∷ codes "Sent"
    ∷ codes "Failed"
    ∷ codes "Rejected"
    ∷ []

unfoldable pub is_state : List Text → Text → Bool
is_state [] s = false
is_state (t ∷ ts) s = text_eq t s || is_state ts s

-- `[0-9a-f]`
unfoldable pub is_hex : ℕ → Bool
is_hex c = is_digit c || (leb b'a' c && leb c b'f')

-- The first `n` characters pass; what follows them.
unfoldable pub run_of : (ℕ → Bool) → ℕ → Text → Option Text
run_of test zero s = some s
run_of test (suc n) [] = none
run_of test (suc n) (c ∷ s) = let rest = run_of test n s in if test c then rest else none

unfoldable pub then_run : (ℕ → Bool) → ℕ → Option Text → Option Text
then_run test n none = none
then_run test n (some s) = run_of test n s

-- `$` matches at the end, and before a newline at the end.
unfoldable pub at_end : Option Text → Bool
at_end none = false
at_end (some []) = true
at_end (some (c ∷ [])) = c == 10
at_end (some (c ∷ d ∷ s)) = false

-- `_ID_RE`
unfoldable pub safe_id : Text → Bool
safe_id mid = at_end (
    then_run is_hex 8 (
      then_run (λ c. c == b'-') 1
        (then_run (λ c. c == b'Z') 1
          (then_run is_digit 6 (then_run (λ c. c == b'T') 1 (run_of is_digit 8 mid))))))

pub record Record : Type 0 where
  pub id : Text
  pub created : ℕ
  pub created_iso : Text
  pub to : Text
  pub reply_to : Text
  pub subject : Text
  pub body : Text
  pub lang : Text
  pub status : Text
  pub route : Option Text
  pub attempts : ℕ
  pub error : Option Text

abbrev pub Disk : Type 0
Disk = List (Text × Record)

-- `os.replace` of the file, or a new one.
unfoldable pub write : Text → Record → Disk → Disk
write mid r [] = (mid, r) ∷ []
write mid r ((m, old) ∷ disk) =
    if text_eq m mid then (mid, r) ∷ disk else (m, old) ∷ write mid r disk

unfoldable pub read : Text → Disk → Option Record
read mid [] = none
read mid ((m, r) ∷ disk) = if text_eq m mid then some r else read mid disk

unfoldable pub remove : Text → Disk → Disk
remove mid [] = []
remove mid ((m, r) ∷ disk) = if text_eq m mid then disk else (m, r) ∷ remove mid disk

unfoldable pub new_record : Text → ℕ → Text → Text → Text → Text → Text → Text → Record
new_record mid now iso to reply_to subject body lang = record {
  id = mid;
  created = now;
  created_iso = iso;
  to = to;
  reply_to = reply_to;
  subject = subject;
  body = body;
  lang = if text_eq lang (codes "en") || text_eq lang (codes "es") then lang else codes "en";
  status = holding;
  route = none;
  attempts = 0;
  error = none;
}

-- `none` is the ValueError of `_path`.
unfoldable pub enqueue : Text → ℕ → Text → Text → Text → Text → Text → Text → Disk → Option Disk
enqueue mid now iso to reply_to subject body lang disk =
    if safe_id mid
    then some (write mid (new_record mid now iso to reply_to subject body lang) disk)
    else none

unfoldable pub get : Text → Disk → Option Record
get mid disk = if safe_id mid then read mid disk else none

-- The keyword arguments of `update` that change a field of `Record`. The note of a test that the web
-- page adds to a message is left out.
pub record Fields : Type 0 where
  pub new_status : Option Text
  pub new_route : Option (Option Text)
  pub new_error : Option (Option Text)

abbrev pub given {ℓ} : {A : Type ℓ} → Option A → A → A
given none a = a
given (some b) a = b

-- `rec.update(fields)`
unfoldable pub merge : Fields → Record → Record
merge f r = record r {
  status = given f.new_status r.status;
  route = given f.new_route r.route;
  error = given f.new_error r.error;
}

-- `update` finds no message, raises ValueError, or returns the record with the disk changed.
pub data Updated : Type 0 where
  missing invalid : Updated
  updated : Record → Disk → Updated

unfoldable pub is_legal : Option Text → Bool
is_legal none = true
is_legal (some s) = is_state states s

unfoldable pub update_found : Option Record → Text → Fields → Disk → Updated
update_found none mid f disk = missing
update_found (some r) mid f disk =
    if is_legal f.new_status then updated (merge f r) (write mid (merge f r) disk) else invalid

unfoldable pub update : Text → Fields → Disk → Updated
update mid f disk = update_found (get mid disk) mid f disk

-- The disk behind an update, an exception included.
abbrev pub disk_of : Updated → Disk → Disk
disk_of missing disk = disk
disk_of invalid disk = disk
disk_of (updated r disk') disk = disk'

-- `set_status`, whose other arguments are optional; the disk behind it.
unfoldable pub set_status : Text → Text → Option (Option Text) → Option (Option Text) → Disk → Disk
set_status mid status route error disk =
    disk_of
      (update mid (record { new_status = some status; new_route = route; new_error = error }) disk)
      disk

unfoldable pub delete_found : Option Record → Text → Disk → Disk × Bool
delete_found none mid disk = (disk, false)
delete_found (some r) mid disk = (remove mid disk, true)

unfoldable pub delete : Text → Disk → Disk × Bool
delete mid disk = if safe_id mid then delete_found (read mid disk) mid disk else (disk, false)

-- Into the records in the order of `created`, the newest first; of the same age, in the old order.
unfoldable pub insert_newest : Record → List Record → List Record
insert_newest r [] = r ∷ []
insert_newest r (s ∷ rs) =
    let later = s ∷ insert_newest r rs in if ltb r.created s.created then later else r ∷ s ∷ rs

unfoldable pub sort_newest : List Record → List Record
sort_newest [] = []
sort_newest (r ∷ rs) = insert_newest r (sort_newest rs)

unfoldable pub has_status : Option Text → Record → Bool
has_status none r = true
has_status (some s) r = text_eq r.status s

unfoldable pub matching : Option Text → Disk → List Record
matching status [] = []
matching status ((m, r) ∷ disk) =
    let rest = matching status disk in if has_status status r then r ∷ rest else rest

unfoldable pub list_messages : Option Text → Disk → List Record
list_messages status disk = sort_newest (matching status disk)

unfoldable pub count_of : Text → List Record → ℕ
count_of s [] = 0
count_of s (r ∷ rs) = (if text_eq s r.status then 1 else 0) + count_of s rs

-- `counts()[s]` for a state `s`, and `counts()["total"]`.
unfoldable pub counts : Text → Disk → ℕ
counts s disk = count_of s (list_messages none disk)

unfoldable pub total : Disk → ℕ
total disk = length (list_messages none disk)
