-- ===== src/Chat/Store.antt =====
-- src/web/aprschat.py: `Message` and `ChatStore`. A message object stands once in `messages`; the
-- lists of a thread hold references to it, which are sequence numbers here.
use kp4pra.Prelude.{
  ℕ, ◌+◌, Bool, false, Option, none, some, List, [], ◌∷◌, ◌++◌, Text, ltb, ◌==◌, if◌then◌else◌,
  text_eq,
}
use kp4pra.Aprs.Call.{normalize_call}

pub data Status : Type 0 where
  sending acked sent failed received : Status

-- `direction` is `incoming` or `outgoing`.
pub data Direction : Type 0 where
  incoming outgoing : Direction

pub record Message : Type 0 where
  pub seq : ℕ
  pub direction : Direction
  pub peer : Text
  pub text : Text
  pub msgno : Option Text
  pub ts : ℕ
  pub status : Status
  pub path : Text
  pub retries : ℕ
  pub info : Text

abbrev pub Threads : Type 0
Threads = List (Text × List ℕ)

pub record ChatStore : Type 0 where
  pub seq : ℕ
  pub messages : List Message
  pub threads : Threads

abbrev pub empty_store : ChatStore
empty_store = record { seq = 0; messages = []; threads = [] }

-- `self._threads.get(peer, ())`
unfoldable pub thread : Text → Threads → List ℕ
thread peer [] = []
thread peer ((p, refs) ∷ ts) = if text_eq p peer then refs else thread peer ts

-- `self._threads.setdefault(peer, []).append(m)`
unfoldable pub thread_add : Text → ℕ → Threads → Threads
thread_add peer r [] = (peer, r ∷ []) ∷ []
thread_add peer r ((p, refs) ∷ ts) =
    if text_eq p peer then (p, refs ++ r ∷ []) ∷ ts else (p, refs) ∷ thread_add peer r ts

-- `Message(self._next_seq(), ...)` for a peer that is already normalized.
abbrev pub new_message :
    ChatStore → Direction → Text → Text → Option Text → Status → Text → Text → ℕ → Message
new_message s direction peer text msgno status path info now = record {
  seq = s.seq + 1;
  direction = direction;
  peer = normalize_call peer;
  text = text;
  msgno = msgno;
  ts = now;
  status = status;
  path = path;
  retries = 0;
  info = info;
}

-- The store with one more message, which `_next_seq` has numbered.
unfoldable pub append : Message → ChatStore → ChatStore
append m s = record {
  seq = m.seq;
  messages = s.messages ++ m ∷ [];
  threads = thread_add m.peer m.seq s.threads;
}

unfoldable pub add :
    Direction
    → Text
    → Text
    → Option Text
    → Status
    → Text
    → Text
    → ℕ
    → ChatStore
    → ChatStore × Message
add direction peer text msgno status path info now s =
    let m = new_message s direction peer text msgno status path info now in (append m s, m)

-- The object of a reference.
unfoldable pub deref : ℕ → List Message → Option Message
deref r [] = none
deref r (m ∷ ms) = if m.seq == r then some m else deref r ms

unfoldable pub option_eq : Option Text → Text → Bool
option_eq none n = false
option_eq (some m) n = text_eq m n

-- `m.direction == "out" and m.msgno == msgno`
unfoldable pub is_outgoing : Text → Message → Bool
is_outgoing msgno m = elim m.direction [ incoming ↦ false | outgoing ↦ option_eq m.msgno msgno ]

-- The message behind a reference that may dangle, if it is the one looked for.
pick : Text → Option Message → Option Message → Option Message
pick msgno none rest = rest
pick msgno (some m) rest = if is_outgoing msgno m then some m else rest

unfoldable pub find_in : Text → List ℕ → List Message → Option Message
unfolding pick
find_in msgno [] ms = none
find_in msgno (r ∷ refs) ms = pick msgno (deref r ms) (find_in msgno refs ms)

unfoldable pub find_outgoing : Text → Text → ChatStore → Option Message
find_outgoing peer msgno s = find_in msgno (thread (normalize_call peer) s.threads) s.messages

-- A field of the object behind a reference is assigned.
unfoldable pub update_at : ℕ → (Message → Message) → List Message → List Message
update_at r f [] = []
update_at r f (m ∷ ms) = (if m.seq == r then f m else m) ∷ update_at r f ms

abbrev pub with_status : Status → Message → Message
with_status st m = record m { status = st }

unfoldable pub set_status : ℕ → Status → ChatStore → ChatStore
set_status r st s = record s { messages = update_at r (with_status st) s.messages }

-- `[m for m in self._messages if m.seq > seq]`
unfoldable pub since : ℕ → List Message → List Message
since n [] = []
since n (m ∷ ms) = if ltb n m.seq then m ∷ since n ms else since n ms
