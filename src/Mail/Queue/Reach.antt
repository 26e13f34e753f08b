-- ===== src/Mail/Queue/Reach.antt =====
-- The queue over any sequence of operations: which states occur, and that the counts add up.
use kp4pra.Mail.Queue.Counts.{
  IsLegal, length-sort, sum_over-matching, length-matching, sum_counts, all_counts, all_counts-sum,
}
use kp4pra.Prelude.{
  ℕ, ◌≡◌, inl, inr, refl, sym, ◌∙◌, true, false, Bool-cases, Option, none, some, List, [], ◌∷◌,
  Text, length, if◌then◌else◌, text_eq, All,
}
use mathlib.Core.Path.{subst}
use kp4pra.Mail.Queue.{
  disk_of, states, is_state, safe_id, Record, Disk, write, read, remove, new_record, enqueue, get,
  Fields, given, merge, is_legal, update_found, update, delete, delete_found, matching,
  list_messages, total,
}

write-IsLegal :
    (mid : Text) (r : Record) (disk : Disk)
    → is_state states r.status ≡ true
    → All IsLegal disk
    → All IsLegal (write mid r disk)
unfolding write
write-IsLegal mid r [] h v = (h, tt)
write-IsLegal mid r ((m, old) ∷ disk) h v = elim (Bool-cases (text_eq m mid)) [
  | inl e ↦ rw e (h, v.1)
  | inr e ↦ rw e (v.0, write-IsLegal mid r disk h v.1)
]

remove-IsLegal : (mid : Text) (disk : Disk) → All IsLegal disk → All IsLegal (remove mid disk)
unfolding remove
remove-IsLegal mid [] v = tt
remove-IsLegal mid ((m, old) ∷ disk) v = elim (Bool-cases (text_eq m mid)) [
  | inl e ↦ rw e v.1
  | inr e ↦ rw e (v.0, remove-IsLegal mid disk v.1)
]

read-IsLegal :
    (mid : Text) (disk : Disk) (r : Record)
    → All IsLegal disk
    → read mid disk ≡ some r
    → is_state states r.status ≡ true
unfolding read
read-IsLegal mid [] r v e = absurd (cc)
read-IsLegal mid ((m, old) ∷ disk) r v e = elim (Bool-cases (text_eq m mid)) [
  | inl q ↦
      let same = subst (λ b. (if b then some old else read mid disk) ≡ some r) q e in
      subst (λ o. is_state states (given o old).status ≡ true) same v.0
  | inr q ↦
      read-IsLegal mid disk r v.1
        (subst (λ b. (if b then some old else read mid disk) ≡ some r) q e)
]

-- What an operation leaves on the disk; an exception leaves it as it was.
pub data Op : Type 0 where
  enqueues : Text → ℕ → Text → Text → Text → Text → Text → Text → Op
  updates : Text → Fields → Op
  deletes : Text → Op

abbrev pub run_op : Op → Disk → Disk
run_op (enqueues mid now iso to reply_to subject body lang) disk =
    given (enqueue mid now iso to reply_to subject body lang disk) disk
run_op (updates mid f) disk = disk_of (update mid f disk) disk
run_op (deletes mid) disk = (delete mid disk).0

abbrev pub run_ops : List Op → Disk → Disk
run_ops [] disk = disk
run_ops (op ∷ ops) disk = run_ops ops (run_op op disk)

given-legal :
    (o : Option Text) (s : Text)
    → is_legal o ≡ true
    → is_state states s ≡ true
    → is_state states (given o s) ≡ true
unfolding is_legal
given-legal none s h k = k
given-legal (some t) s h k = h

update_found-IsLegal :
    (o : Option Record) (mid : Text) (f : Fields) (disk : Disk)
    → ((r : Record) → o ≡ some r → is_state states r.status ≡ true)
    → All IsLegal disk
    → All IsLegal (disk_of (update_found o mid f disk) disk)
unfolding update_found merge
update_found-IsLegal none mid f disk h v = v
update_found-IsLegal (some r) mid f disk h v = elim (Bool-cases (is_legal f.new_status)) [
  | inl e ↦
      rw e (write-IsLegal mid (merge f r) disk (given-legal f.new_status r.status e (h r refl)) v)
  | inr e ↦ rw e v
]

delete_found-IsLegal :
    (o : Option Record) (mid : Text) (disk : Disk)
    → All IsLegal disk
    → All IsLegal (delete_found o mid disk).0
unfolding delete_found
delete_found-IsLegal none mid disk v = v
delete_found-IsLegal (some r) mid disk v = remove-IsLegal mid disk v

run_op-IsLegal : (op : Op) (disk : Disk) → All IsLegal disk → All IsLegal (run_op op disk)
unfolding enqueue update delete delete_found get new_record is_state text_eq
run_op-IsLegal (enqueues mid now iso to reply_to subject body lang) disk v =
    elim (Bool-cases (safe_id mid)) [
      | inl e ↦
          rw e
            (write-IsLegal mid (new_record mid now iso to reply_to subject body lang) disk refl v)
      | inr e ↦ rw e v
    ]
run_op-IsLegal (updates mid f) disk v = elim (Bool-cases (safe_id mid)) [
  | inl e ↦
      rw e (update_found-IsLegal (read mid disk) mid f disk (λ r q. read-IsLegal mid disk r v q) v)
  | inr e ↦ rw e (update_found-IsLegal none mid f disk (λ r q. absurd (cc)) v)
]
run_op-IsLegal (deletes mid) disk v = elim (Bool-cases (safe_id mid)) [
  | inl e ↦
      subst
        (λ b. All IsLegal (if b then delete_found (read mid disk) mid disk else (disk, false)).0)
        (sym e) (delete_found-IsLegal (read mid disk) mid disk v)
  | inr e ↦
      subst
        (λ b. All IsLegal (if b then delete_found (read mid disk) mid disk else (disk, false)).0)
        (sym e) v
]

run_ops-IsLegal : (ops : List Op) (disk : Disk) → All IsLegal disk → All IsLegal (run_ops ops disk)
run_ops-IsLegal [] disk v = v
run_ops-IsLegal (op ∷ ops) disk v = run_ops-IsLegal ops (run_op op disk) (run_op-IsLegal op disk v)

-- After any operations on an empty queue, failed ones included, every message is in one of the six
-- states, and what `counts` says for the states adds up to its total, the number of messages.
pub run_ops-counts :
    (ops : List Op)
    → All IsLegal (run_ops ops [])
      × (all_counts states (run_ops ops []) ≡ total (run_ops ops []))
      × (total (run_ops ops []) ≡ length (run_ops ops []))
unfolding total list_messages
run_ops-counts ops =
    let disk = run_ops ops [] in
    let v = run_ops-IsLegal ops [] tt in
    let all = length-sort (matching none disk) ∙ length-matching disk in
    (
      v,
      all_counts-sum states disk ∙ sum_counts states disk ∙ sum_over-matching disk v ∙ sym all,
      all,
    )
