-- ===== src/Mail/Queue/Stored.antt =====
-- The queue as a store: what is read back.
use kp4pra.Prelude.{
  ◌≡◌, inl, inr, refl, true, Bool-cases, Option, none, some, [], ◌∷◌, Text, if◌then◌else◌, text_eq,
}
use mathlib.Core.Path.{subst}
use kp4pra.Prelude.{text_eq_refl}
use kp4pra.Mail.Queue.{
  states, is_state, safe_id, Record, Disk, write, read, get, Fields, merge, is_legal, update_found,
  update, disk_of, set_status,
}

read-write : (mid : Text) (r : Record) (disk : Disk) → read mid (write mid r disk) ≡ some r
unfolding read write
read-write mid r [] = rw (text_eq_refl mid) refl
read-write mid r ((m, old) ∷ disk) = elim (Bool-cases (text_eq m mid)) [
  | inl e ↦ rw (e, text_eq_refl mid) refl
  | inr e ↦ rw (e, e) (read-write mid r disk)
]

get-safe : (mid : Text) (disk : Disk) (r : Record) → get mid disk ≡ some r → safe_id mid ≡ true
unfolding get
get-safe mid disk r h = elim (Bool-cases (safe_id mid)) [
  | inl e ↦ e
  | inr e ↦ (let none_there = subst (λ b. (if b then read mid disk else none) ≡ some r) e h in cc)
]

get-write :
    (mid : Text) (r : Record) (disk : Disk)
    → safe_id mid ≡ true
    → get mid (write mid r disk) ≡ some r
unfolding get
get-write mid r disk safe = rw safe (read-write mid r disk)

-- A legal update of a message that is there is what is read next.
pub get-update :
    (mid : Text) (f : Fields) (disk : Disk) (r : Record)
    → get mid disk ≡ some r
    → is_legal f.new_status ≡ true
    → get mid (disk_of (update mid f disk) disk) ≡ some (merge f r)
unfolding update update_found
get-update mid f disk r h legal =
    rw h (rw legal (get-write mid (merge f r) disk (get-safe mid disk r h)))

pub get-set_status :
    (mid s : Text) (route error : Option (Option Text)) (disk : Disk) (r : Record)
    → get mid disk ≡ some r
    → is_state states s ≡ true
    → get mid (set_status mid s route error disk)
      ≡ some (merge (record { new_status = some s; new_route = route; new_error = error }) r)
unfolding set_status is_legal
get-set_status mid s route error disk r h legal =
    get-update mid (record { new_status = some s; new_route = route; new_error = error }) disk r h
      legal
