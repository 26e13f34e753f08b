-- ===== src/Mail/Queue/Counts.antt =====
-- The counts of the states, and their sum.
use kp4pra.Prelude.{
  ℕ, suc, ◌+◌, ◌≡◌, inl, inr, refl, ap, ◌∙◌, true, false, Bool-cases, none, List, [], ◌∷◌, Text,
  arith, length, if◌then◌else◌, text_eq, All,
}
use mathlib.Core.Path.{subst}
use kp4pra.Prelude.{text_eq_iff}
use kp4pra.Mail.Queue.{
  states, is_state, Record, Disk, insert_newest, sort_newest, has_status, matching, list_messages,
  count_of, counts,
}

-- Every record on the disk is in one of the six states.
abbrev pub IsLegal : Text × Record → Type 0
IsLegal (m, r) = is_state states r.status ≡ true

-- In how many of the states `s` is.
abbrev pub hits : List Text → Text → ℕ
hits [] s = 0
hits (t ∷ ts) s = (if text_eq t s then 1 else 0) + hits ts s

abbrev pub IsDistinct : List Text → Type 0
IsDistinct [] = Unit
IsDistinct (t ∷ ts) = (is_state ts t ≡ false) × IsDistinct ts

pub hits-IsDistinct :
    (ts : List Text) (s : Text) → IsDistinct ts → hits ts s ≡ (if is_state ts s then 1 else 0)
unfolding is_state
hits-IsDistinct [] s d = refl
hits-IsDistinct (t ∷ ts) s d = elim (Bool-cases (text_eq t s)) [
  | inl e ↦
      let none_left : is_state ts s ≡ false =
        subst (λ u. is_state ts u ≡ false) ((text_eq_iff t s).0 e) d.0 in
      ground (arith, e, none_left, hits-IsDistinct ts s d.1)
  | inr e ↦ ground (arith, e, hits-IsDistinct ts s d.1)
]

pub states-IsDistinct : IsDistinct states
unfolding is_state text_eq
states-IsDistinct = (refl, (refl, (refl, (refl, (refl, (refl, tt))))))

-- The sum over some states of how many records are in each.
abbrev pub sum_over : List Text → List Record → ℕ
sum_over [] rs = 0
sum_over (t ∷ ts) rs = count_of t rs + sum_over ts rs

pub sum_over-cons :
    (ts : List Text) (r : Record) (rs : List Record)
    → sum_over ts (r ∷ rs) ≡ hits ts r.status + sum_over ts rs
unfolding count_of
sum_over-cons [] r rs = omega arith
sum_over-cons (t ∷ ts) r rs = omega (arith, sum_over-cons ts r rs)

pub sum_over-nil : (ts : List Text) → sum_over ts [] ≡ 0
unfolding count_of
sum_over-nil [] = refl
sum_over-nil (t ∷ ts) = omega (arith, sum_over-nil ts)

pub count_of-insert :
    (t : Text) (r : Record) (rs : List Record)
    → count_of t (insert_newest r rs) ≡ count_of t (r ∷ rs)
unfolding count_of insert_newest
count_of-insert t r [] = refl
count_of-insert t r (s ∷ rs) = ground (arith, count_of-insert t r rs)

pub count_of-sort : (t : Text) (rs : List Record) → count_of t (sort_newest rs) ≡ count_of t rs
unfolding sort_newest count_of
count_of-sort t [] = refl
count_of-sort t (r ∷ rs) =
    count_of-insert t r (sort_newest rs)
    ∙ ap (λ n. (if text_eq t r.status then 1 else 0) + n) (count_of-sort t rs)

pub length-insert : (r : Record) (rs : List Record) → length (insert_newest r rs) ≡ suc (length rs)
unfolding insert_newest
length-insert r [] = refl
length-insert r (s ∷ rs) = ground (arith, length-insert r rs)

pub length-sort : (rs : List Record) → length (sort_newest rs) ≡ length rs
unfolding sort_newest
length-sort [] = refl
length-sort (r ∷ rs) = length-insert r (sort_newest rs) ∙ ap suc (length-sort rs)

pub sum_over-matching :
    (disk : Disk) → All IsLegal disk → sum_over states (matching none disk) ≡ length disk
unfolding matching has_status
sum_over-matching [] v = sum_over-nil states
sum_over-matching ((m, r) ∷ disk) v =
    let one =
      hits-IsDistinct states r.status states-IsDistinct ∙ ap (λ b. if b then 1 else 0) v.0 in
    sum_over-cons states r (matching none disk) ∙ omega (arith, one, sum_over-matching disk v.1)

pub length-matching : (disk : Disk) → length (matching none disk) ≡ length disk
unfolding matching has_status
length-matching [] = refl
length-matching ((m, r) ∷ disk) = ap suc (length-matching disk)

pub sum_counts :
    (ts : List Text) (disk : Disk)
    → sum_over ts (list_messages none disk) ≡ sum_over ts (matching none disk)
unfolding list_messages
sum_counts [] disk = refl
sum_counts (t ∷ ts) disk = omega (arith, count_of-sort t (matching none disk), sum_counts ts disk)

-- The sum of `counts` over some states.
abbrev pub all_counts : List Text → Disk → ℕ
all_counts [] disk = 0
all_counts (t ∷ ts) disk = counts t disk + all_counts ts disk

pub all_counts-sum :
    (ts : List Text) (disk : Disk) → all_counts ts disk ≡ sum_over ts (list_messages none disk)
unfolding counts
all_counts-sum [] disk = refl
all_counts-sum (t ∷ ts) disk = omega (arith, all_counts-sum ts disk)
