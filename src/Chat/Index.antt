-- ===== src/Chat/Index.antt =====
-- The store's invariant: messages are numbered from 1 without a gap, and each thread lists the
-- messages of its peer in order.

use kp4pra.Prelude.{
  ℕ, zero, suc, ◌+◌, ◌<◌, ◌≡◌, refl, ap, ◌∙◌, inl, inr, ◌&&◌, Option, none, some, List, [], ◌∷◌,
  ◌++◌, Text, arith, ◌==◌, if◌then◌else◌, text_eq, text_eq_iff, Bool-cases, All, length,
  length-append, drop, append-nil,
}
use kp4pra.Aprs.Call.{normalize_call}
use kp4pra.Chat.Store.{
  Message, ChatStore, Threads, thread, thread_add, append, deref, is_outgoing, find_in,
  find_outgoing, update_at, since, set_status, with_status, Status, empty_store, add, new_message,
  Direction,
}

-- What an entry keeps for ever: its number and its peer.
abbrev pub shape : List Message → List (ℕ × Text)
shape [] = []
shape (m ∷ ms) = (m.seq, m.peer) ∷ shape ms

abbrev pub Numbered : ℕ → List (ℕ × Text) → Type 0
Numbered k [] = Unit {0}
Numbered k ((n, p) ∷ es) = (n ≡ k) × Numbered (k + 1) es

-- The numbers of one peer's messages.
abbrev pub refs : Text → List (ℕ × Text) → List ℕ
refs peer [] = []
refs peer ((n, p) ∷ es) = if text_eq p peer then n ∷ refs peer es else refs peer es

pub record IsStore (s : ChatStore) : Type 0 where
  pub numbered : Numbered 1 (shape s.messages)
  pub counted : s.seq ≡ length s.messages
  pub indexed : (peer : Text) → thread peer s.threads ≡ refs peer (shape s.messages)

pub empty_store-IsStore : IsStore empty_store
unfolding thread
empty_store-IsStore = record { numbered = tt; counted = refl; indexed = λ peer. refl }

pub thread-thread_add :
    (peer p : Text) (r : ℕ) (ts : Threads)
    → thread peer (thread_add p r ts)
      ≡ (if text_eq p peer then thread peer ts ++ r ∷ [] else thread peer ts)
unfolding thread thread_add
thread-thread_add peer p r [] = refl
thread-thread_add peer p r ((q, l) ∷ ts) =
    ground (
      arith,
      thread-thread_add peer p r ts,
      text_eq_iff q p,
      text_eq_iff q peer,
      text_eq_iff p peer,
    )

shape-append : (a b : List Message) → shape (a ++ b) ≡ shape a ++ shape b
shape-append [] b = refl
shape-append (m ∷ a) b = ap (◌∷◌ (m.seq, m.peer)) (shape-append a b)

refs-append :
    (peer : Text) (a b : List (ℕ × Text)) → refs peer (a ++ b) ≡ refs peer a ++ refs peer b
refs-append peer [] b = refl
refs-append peer ((n, p) ∷ a) b = ground (arith, refs-append peer a b)

length-shape : (ms : List Message) → length (shape ms) ≡ length ms
length-shape [] = refl
length-shape (m ∷ ms) = ap suc (length-shape ms)

Numbered-concat :
    (k : ℕ) (es : List (ℕ × Text)) (n : ℕ) (p : Text)
    → Numbered k es
    → n ≡ k + length es
    → Numbered k (es ++ (n, p) ∷ [])
Numbered-concat k [] n p h e = (omega arith, tt)
Numbered-concat k ((m, q) ∷ es) n p h e = (h.0, Numbered-concat (k + 1) es n p h.1 (omega arith))

-- A new message, numbered by `_next_seq`, keeps the invariant.
pub append-IsStore :
    (s : ChatStore) (m : Message) → IsStore s → m.seq ≡ s.seq + 1 → IsStore (append m s)
unfolding append
append-IsStore s m v e = record {
  numbered = rw (shape-append s.messages (m ∷ [])) (
      Numbered-concat 1 (shape s.messages) m.seq m.peer v.numbered
        (omega (arith, v.counted, length-shape s.messages)));
  counted = omega (arith, v.counted, length-append s.messages (m ∷ []));
  indexed = λ peer.
      thread-thread_add peer m.peer m.seq s.threads
      ∙ rw (v.indexed peer) (
          rw
            (
              shape-append s.messages (m ∷ []),
              refs-append peer (shape s.messages) ((m.seq, m.peer) ∷ []),
            )
            (ground (arith, append-nil (refs peer (shape s.messages)))));
}

pub add-IsStore :
    (direction : Direction) (peer text : Text) (msgno : Option Text) (status : Status)
    (path info : Text) (now : ℕ) (s : ChatStore)
    → IsStore s
    → IsStore (add direction peer text msgno status path info now s).0
unfolding add
add-IsStore direction peer text msgno status path info now s v =
    append-IsStore s (new_message s direction peer text msgno status path info now) v refl

-- A change that keeps the shape of the messages keeps the invariant.
pub put-IsStore :
    (s : ChatStore) (ms : List Message)
    → IsStore s
    → shape ms ≡ shape s.messages
    → IsStore (record s { messages = ms })
put-IsStore s ms v e = record {
  numbered = rw e v.numbered;
  counted = omega (arith, v.counted, ap length e, length-shape ms, length-shape s.messages);
  indexed = λ peer. rw e (v.indexed peer);
}

pub shape-update_at :
    (r : ℕ) (f : Message → Message)
    → ((m : Message) → ((f m).seq ≡ m.seq) × ((f m).peer ≡ m.peer))
    → (ms : List Message) → shape (update_at r f ms) ≡ shape ms
unfolding update_at
shape-update_at r f keeps [] = refl
shape-update_at r f keeps (m ∷ ms) = elim (Bool-cases (m.seq == r)) [
  | inl same ↦ rw (same, (keeps m).0, (keeps m).1, shape-update_at r f keeps ms) refl
  | inr other ↦ rw (other, shape-update_at r f keeps ms) refl
]

pub set_status-IsStore :
    (r : ℕ) (st : Status) (s : ChatStore) → IsStore s → IsStore (set_status r st s)
unfolding set_status
set_status-IsStore r st s v =
    put-IsStore s (update_at r (with_status st) s.messages) v
      (shape-update_at r (with_status st) (λ m. (refl, refl)) s.messages)

since_all : (k n : ℕ) (ms : List Message) → Numbered k (shape ms) → n < k → since n ms ≡ ms
unfolding since
since_all k n [] h lt = refl
since_all k n (m ∷ ms) h lt = ground (arith, h.0, since_all (k + 1) n ms h.1 (omega arith))

since-drop :
    (k j n : ℕ) (ms : List Message)
    → Numbered (k + 1) (shape ms)
    → n ≡ k + j
    → since n ms ≡ drop j ms
unfolding since
since-drop k zero n ms h e = since_all (k + 1) n ms h (omega arith)
since-drop k (suc j) n [] h e = refl
since-drop k (suc j) n (m ∷ ms) h e =
    ground (arith, h.0, since-drop (k + 1) j n ms h.1 (omega arith))

-- In a store that keeps its invariant, a client that has seen everything up to number `n` gets
-- exactly the later messages, in order.
pub since-eq-drop : (s : ChatStore) (n : ℕ) → IsStore s → since n s.messages ≡ drop n s.messages
since-eq-drop s n v = since-drop 0 n n s.messages v.numbered (omega arith)

-- References into a store lead to their messages.
abbrev Leads : List Message → List Message → Type 0
Leads all = All (λ m. deref m.seq all ≡ some m)

Leads-cons :
    (k : ℕ) (h : Message) (all ms : List Message)
    → h.seq < k
    → Numbered k (shape ms)
    → Leads all ms
    → Leads (h ∷ all) ms
unfolding deref
Leads-cons k h all [] lt n l = tt
Leads-cons k h all (m ∷ ms) lt n l =
    (ground (arith, n.0, l.0), Leads-cons (k + 1) h all ms (omega arith) n.1 l.1)

Leads-self : (k : ℕ) (ms : List Message) → Numbered k (shape ms) → Leads ms ms
Leads-self k [] n = tt
Leads-self k (m ∷ ms) n = (
  (unfold deref in ground arith),
  Leads-cons (k + 1) m ms ms (omega (arith, n.0)) n.1 (Leads-self (k + 1) ms n.1),
)

-- The plain description of `find_outgoing`: the first message of the peer with the number.
abbrev pub first_outgoing : Text → Text → List Message → Option Message
first_outgoing peer msgno [] = none
first_outgoing peer msgno (m ∷ ms) =
    if text_eq m.peer peer && is_outgoing msgno m then some m else first_outgoing peer msgno ms

find_in-first_outgoing :
    (peer msgno : Text) (all ms : List Message)
    → Leads all ms
    → find_in msgno (refs peer (shape ms)) all ≡ first_outgoing peer msgno ms
unfolding find_in
find_in-first_outgoing peer msgno all [] l = refl
find_in-first_outgoing peer msgno all (m ∷ ms) l = elim (Bool-cases (text_eq m.peer peer)) [
  | inl mine ↦ rw (mine, l.0, find_in-first_outgoing peer msgno all ms l.1)
  | inr other ↦ rw (other, find_in-first_outgoing peer msgno all ms l.1)
]

-- In a store that keeps its invariant, looking up an ack through the thread of its sender finds what a scan of all messages would: the
-- first outgoing message to that station with that number.
pub find_outgoing-eq-first_outgoing :
    (peer msgno : Text) (s : ChatStore)
    → IsStore s
    → find_outgoing peer msgno s ≡ first_outgoing (normalize_call peer) msgno s.messages
unfolding find_outgoing
find_outgoing-eq-first_outgoing peer msgno s v = rw (v.indexed (normalize_call peer)) (
    find_in-first_outgoing (normalize_call peer) msgno s.messages s.messages
      (Leads-self 1 s.messages v.numbered))
