-- ===== src/Chat/Retries.antt =====
-- What a round of `resend_due` does: every message is retried, failed or left, each once.
use kp4pra.Chat.Session.{send_info}
use kp4pra.Prelude.{append-nil}
use kp4pra.Prelude.{
  ℕ, ◌+◌, ◌<◌, ◌≡◌, refl, sym, ap, ◌∙◌, inl, inr, Bool, ◌&&◌, some, List, [], ◌∷◌, ◌++◌, map, Text,
  arith, leb, if◌then◌else◌, Bool-cases, All, All-append, All-imp, append_assoc,
}
use kp4pra.Chat.Store.{Message, failed, update_at, deref}
use kp4pra.Chat.Session.{
  AprsChat, awaits_ack, has_waited, check_retry, due_loop, retried, put_messages, resend_loop,
  resend_due, due_retries,
}
use kp4pra.Chat.Index.{shape, Numbered, IsStore}

-- The plain description of a round, for one message.
abbrev pub is_waiting : ℕ → ℕ → Message → Bool
is_waiting interval now m = awaits_ack m && has_waited interval now m

abbrev pub retry : ℕ → ℕ → ℕ → Message → Message
retry interval limit now m =
    if is_waiting interval now m
    then if leb limit m.retries then record m { status = failed } else retried m
    else m

-- What goes out again.
abbrev pub retry_infos : ℕ → ℕ → ℕ → List Message → List Text
retry_infos interval limit now [] = []
retry_infos interval limit now (m ∷ ms) =
    let rest = retry_infos interval limit now ms in
    if is_waiting interval now m then if leb limit m.retries then rest else m.info ∷ rest else rest

shape-due_loop :
    (interval limit now : ℕ) (ms : List Message)
    → shape (due_loop interval limit now ms).0 ≡ shape ms
unfolding due_loop check_retry
shape-due_loop interval limit now [] = refl
shape-due_loop interval limit now (m ∷ ms) = ground (arith, shape-due_loop interval limit now ms)

-- A reference behind all of the prefix.
update_at-above :
    (r k : ℕ) (f : Message → Message) (ms : List Message)
    → Numbered k (shape ms)
    → r < k
    → update_at r f ms ≡ ms
unfolding update_at
update_at-above r k f [] n lt = refl
update_at-above r k f (m ∷ ms) n lt =
    ground (arith, n.0, update_at-above r (k + 1) f ms n.1 (omega arith))

pub update_at-here :
    (k : ℕ) (f : Message → Message) (pre : List Message) (m : Message) (ms : List Message)
    → All (λ x. x.seq < k) pre
    → m.seq ≡ k
    → Numbered (k + 1) (shape ms)
    → update_at m.seq f (pre ++ m ∷ ms) ≡ pre ++ f m ∷ ms
unfolding update_at
update_at-here k f [] m ms h e n =
    ground (arith, update_at-above m.seq (k + 1) f ms n (omega arith))
update_at-here k f (x ∷ pre) m ms h e n = ground (arith, h.0, update_at-here k f pre m ms h.1 e n)

pub deref-here :
    (k : ℕ) (pre : List Message) (m : Message) (ms : List Message)
    → All (λ x. x.seq < k) pre
    → m.seq ≡ k
    → deref m.seq (pre ++ m ∷ ms) ≡ some m
unfolding deref
deref-here k [] m ms h e = ground arith
deref-here k (x ∷ pre) m ms h e = ground (arith, h.0, deref-here k pre m ms h.1 e)

-- The state before the loop over what is due, with a prefix that is done.
abbrev halfway : ℕ → ℕ → ℕ → List Message → List Message → AprsChat → AprsChat
halfway interval limit now pre ms c = put_messages (pre ++ (due_loop interval limit now ms).0) c

-- What the round leaves.
abbrev pub after_round : ℕ → ℕ → ℕ → List Message → List Message → AprsChat → AprsChat
after_round interval limit now pre ms c =
    put_messages (pre ++ map (retry interval limit now) ms)
      (record c { out = c.out ++ retry_infos interval limit now ms })

below_next :
    (k : ℕ) (pre : List Message) (m : Message)
    → All (λ x. x.seq < k) pre
    → m.seq ≡ k
    → All (λ x. x.seq < k + 1) (pre ++ m ∷ [])
below_next k pre m h e =
    All-append (λ x. x.seq < k + 1) pre (m ∷ [])
      (All-imp (λ x. x.seq < k) (λ x. x.seq < k + 1) (λ x lt. omega arith) pre h) (omega arith, tt)

resend_loop-due_loop :
    (interval limit now k : ℕ) (pre ms : List Message) (c : AprsChat)
    → All (λ x. x.seq < k) pre
    → Numbered k (shape ms)
    → resend_loop (due_loop interval limit now ms).1 (halfway interval limit now pre ms c)
      ≡ after_round interval limit now pre ms c
unfolding due_loop check_retry resend_loop
resend_loop-due_loop interval limit now k pre [] c h n =
    ap (λ o. put_messages (pre ++ []) (record c { out = o })) (sym (append-nil c.out))
resend_loop-due_loop interval limit now k pre (m ∷ ms) c h n =
    let go : (m' : Message) (d : AprsChat)
        → m'.seq ≡ k
        → resend_loop (due_loop interval limit now ms).1
            (put_messages (pre ++ m' ∷ (due_loop interval limit now ms).0) d)
          ≡ put_messages (pre ++ m' ∷ map (retry interval limit now) ms)
              (record d { out = d.out ++ retry_infos interval limit now ms }) =
      λ m' d e.
        ap (λ l. resend_loop (due_loop interval limit now ms).1 (put_messages l d))
          (sym (append_assoc pre (m' ∷ []) _))
        ∙ resend_loop-due_loop interval limit now (k + 1) (pre ++ m' ∷ []) ms d
            (below_next k pre m' h e) n.1
        ∙ ap (λ l. put_messages l (record d { out = d.out ++ retry_infos interval limit now ms }))
            (append_assoc pre (m' ∷ []) _) in
    elim (Bool-cases (awaits_ack m)) [
      | inr idle ↦ rw idle (go m c n.0)
      | inl waits ↦ elim (Bool-cases (has_waited interval now m)) [
        | inr early ↦ rw (waits, early) (go m c n.0)
        | inl late ↦ elim (Bool-cases (leb limit m.retries)) [
          | inl spent ↦ rw (waits, late, spent) (go (record m { status = failed }) c n.0)
          | inr again ↦
              rw
                (
                  waits,
                  late,
                  again,
                  deref-here k pre m (due_loop interval limit now ms).0 h n.0,
                  update_at-here k retried pre m (due_loop interval limit now ms).0 h n.0
                      (rw (shape-due_loop interval limit now ms) n.1),
                )
                (go (retried m) (send_info m.info c) n.0
                  ∙ ap
                      (λ o.
                        put_messages (pre ++ retried m ∷ map (retry interval limit now) ms)
                          (record c { out = o }))
                      (append_assoc c.out (m.info ∷ []) (retry_infos interval limit now ms)))
        ]
      ]
    ]

-- With a store that keeps its invariant, a round of `resend_due` treats each message by itself: one that waits for its ack and is due is
-- marked failed when it has had all its retries, and else is sent again and counted once more; no
-- other message changes. The messages sent again go out in the order of the store.
pub resend_due-retry :
    (now : ℕ) (c : AprsChat)
    → IsStore c.store
    → (resend_due now c).0 ≡ after_round c.retry_interval c.max_retries now [] c.store.messages c
unfolding resend_due due_retries
resend_due-retry now c v =
    resend_loop-due_loop c.retry_interval c.max_retries now 1 [] c.store.messages c tt v.numbered
