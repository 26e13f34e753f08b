-- ===== src/Feed/State/Window.antt =====
-- The histories of the display: what they keep, and that they stay short.
use kp4pra.Prelude.{if◌then◌else◌}
use kp4pra.Feed.State.{sample, set_connected, snapshot, true}
use kp4pra.Prelude.{true, false, Bool, leb, text_eq, codes, Text}
use kp4pra.Feed.State.{
  hello, status_of, waterfall, host, notice, other_message, host_connected, host_disconnected,
  host_bitrate, host_other, note_change, notice_text, hello,
}
use kp4pra.Feed.State.{Message, leb}
use kp4pra.Feed.State.{true, false, take_status}
use kp4pra.Feed.State.{Status, host_event, log_lines, note}
use kp4pra.Feed.State.{Text, add_sample, apply, note_state, sn_history}
use kp4pra.Feed.State.{add_row}
use kp4pra.Prelude.{
  ℕ, ◌+◌, ◌-◌, ◌≤◌, ◌≡◌, refl, sym, ap, ◌∙◌, append_assoc, append-nil, Option, none, some, List, [],
  ◌∷◌, ◌++◌, Bytes, arith, length, drop, length-append,
}
use kp4pra.Prelude.{last, drop-drop, drop-within, length-drop}
use kp4pra.Feed.State.{waterfall_rows, push, row_of, XaraState, apply_row}

length-push {ℓ} : {A : Type ℓ} (n : ℕ) (a : A) (xs : List A) → length (push n a xs) ≤ n
unfolding push
length-push n a xs = omega (arith, length-drop (length (xs ++ a ∷ []) - n) (xs ++ a ∷ []))

push-last {ℓ} :
    {A : Type ℓ} (n : ℕ) (a : A) (xs : List A) → push n a (last n xs) ≡ last n (xs ++ a ∷ [])
unfolding push
push-last n a xs =
    let k = length xs - n in
    let whole : drop k (xs ++ a ∷ []) ≡ drop k xs ++ a ∷ [] =
      drop-within k xs (a ∷ []) (omega arith) in
    ap (drop (length (drop k xs ++ a ∷ []) - n)) (sym whole)
    ∙ drop-drop (length (drop k xs ++ a ∷ []) - n) k (xs ++ a ∷ [])
    ∙ ap (λ j. drop j (xs ++ a ∷ []))
        (omega
          (arith, length-append (drop k xs) (a ∷ []), length-append xs (a ∷ []), length-drop k xs))

-- The rows of the frames that are rows.
abbrev pub row_list : Option Bytes → List Bytes
row_list none = []
row_list (some row) = row ∷ []

abbrev pub rows_of : List Bytes → List Bytes
rows_of [] = []
rows_of (f ∷ fs) = row_list (row_of f) ++ rows_of fs

-- What may happen to the state.
pub data Event (F : Type 0) : Type 0 where
  message : ℕ → Message F → Event F
  got_row : Bytes → Event F
  link : Bool → Event F
  drawn : Event F

module _ {F : Type 0} where
  add_row-rows :
      (o : Option Bytes) (old : List Bytes) (s : XaraState F)
      → s.rows ≡ last waterfall_rows old
      → ((add_row o s).rows ≡ last waterfall_rows (old ++ row_list o))
        × ((add_row o s).rows_seen ≡ s.rows_seen + length (row_list o))
  unfolding add_row
  add_row-rows none old s e = (e ∙ ap (last waterfall_rows) (sym (append-nil old)), omega arith)
  add_row-rows (some row) old s e =
      (ap (push waterfall_rows row) e ∙ push-last waterfall_rows row old, refl)

  abbrev pub apply_rows : List Bytes → XaraState F → XaraState F
  apply_rows [] s = s
  apply_rows (f ∷ fs) s = apply_rows fs (apply_row f s)

  apply_rows-from :
      (fs : List Bytes) (old : List Bytes) (s : XaraState F)
      → s.rows ≡ last waterfall_rows old
      → ((apply_rows fs s).rows ≡ last waterfall_rows (old ++ rows_of fs))
        × ((apply_rows fs s).rows_seen ≡ s.rows_seen + length (rows_of fs))
  unfolding apply_row
  apply_rows-from [] old s e = (e ∙ ap (last waterfall_rows) (sym (append-nil old)), omega arith)
  apply_rows-from (f ∷ fs) old s e =
      let one = add_row-rows (row_of f) old s e in
      let more = apply_rows-from fs (old ++ row_list (row_of f)) (apply_row f s) one.0 in
      (
        more.0 ∙ ap (last waterfall_rows) (append_assoc old (row_list (row_of f)) (rows_of fs)),
        more.1 ∙ omega (arith, one.1, length-append (row_list (row_of f)) (rows_of fs)),
      )

  -- After any frames, those that are waterfall rows have been counted, and the last 64 of them, with
  -- the rows that were there before, are kept in their order, the oldest dropped first.
  pub apply_rows-eq-last :
      (fs : List Bytes) (s : XaraState F)
      → length s.rows ≤ waterfall_rows
      → ((apply_rows fs s).rows ≡ last waterfall_rows (s.rows ++ rows_of fs))
        × ((apply_rows fs s).rows_seen ≡ s.rows_seen + length (rows_of fs))
  apply_rows-eq-last fs s h =
      let none_over : 0 ≡ length s.rows - waterfall_rows = omega arith in
      apply_rows-from fs s.rows s (ap (λ k. drop k s.rows) none_over)

  -- The histories within their lengths.
  abbrev pub IsBounded : XaraState F → Type 0
  IsBounded s =
      (length s.rows ≤ waterfall_rows) × (length s.sn ≤ sn_history) × (length s.log ≤ log_lines)

  note-IsBounded :
      (now : ℕ) (text : Text) (s : XaraState F) → IsBounded s → IsBounded (note now text s)
  note-IsBounded now text s (r, n, l) = (r, n, length-push log_lines (now, text) s.log)

  if-IsBounded :
      (b : Bool) (s t : XaraState F) → IsBounded s → IsBounded t → IsBounded (if b then s else t)
  if-IsBounded true s t v w = v
  if-IsBounded false s t v w = w

  note_change-IsBounded :
      (o : Option Text) (now : ℕ) (m : Status F) (s : XaraState F)
      → IsBounded s
      → IsBounded (note_change o now m s)
  unfolding note_change
  note_change-IsBounded none now m s v = v
  note_change-IsBounded (some old) now m s v = if-IsBounded (text_eq m.state old) s _ v (
      if-IsBounded (text_eq m.state (codes "Calling")) (note now (codes "Calling " ++ m.peer) s) s
        (note-IsBounded now (codes "Calling " ++ m.peer) s v) v)

  add_sample-IsBounded :
      (now : ℕ) (m : Status F) (s : XaraState F) → IsBounded s → IsBounded (add_sample now m s)
  unfolding add_sample
  add_sample-IsBounded now m s (r, n, l) =
      if-IsBounded (leb 1000 (now - s.last_sn_t))
        (record s { last_sn_t = now; sn = push sn_history (sample m) s.sn }) s
        (r, length-push sn_history (sample m) s.sn, l) (r, n, l)

  apply-IsBounded :
      (bpm : ℕ → Text) (now : ℕ) (m : Message F) (s : XaraState F)
      → IsBounded s
      → IsBounded (apply bpm now m s)
  unfolding apply host_event take_status note_state
  apply-IsBounded bpm now (hello mode) s v = v
  apply-IsBounded bpm now (status_of m) s v =
      add_sample-IsBounded now m _
        (note_change-IsBounded s.last_state now m (record s { changed = true; status = some m }) v)
  apply-IsBounded bpm now (waterfall floor step_size) s v = v
  apply-IsBounded bpm now (host (host_connected caller answerer bw)) s v =
      note-IsBounded now _ (record s { changed = true; peak_bps = 0 }) v
  apply-IsBounded bpm now (host host_disconnected) s v =
      note-IsBounded now _ (record s { changed = true }) v
  apply-IsBounded bpm now (host host_bitrate) s v = v
  apply-IsBounded bpm now (host host_other) s v = v
  apply-IsBounded bpm now (notice kind) s v =
      note-IsBounded now (notice_text kind) (record s { changed = true }) v
  apply-IsBounded bpm now other_message s v = v

  add_row-IsBounded : (o : Option Bytes) (s : XaraState F) → IsBounded s → IsBounded (add_row o s)
  unfolding add_row
  add_row-IsBounded none s v = v
  add_row-IsBounded (some row) s (r, n, l) = (length-push waterfall_rows row s.rows, n, l)

  set_connected-IsBounded :
      (on : Bool) (s : XaraState F) → IsBounded s → IsBounded (set_connected on s)
  unfolding set_connected
  set_connected-IsBounded true s v =
      if-IsBounded s.connected s (record s { connected = true; changed = true }) v v
  set_connected-IsBounded false s (r, n, l) =
      if-IsBounded s.connected
        (record s {
          connected = false;
          changed = true;
          status = none;
          last_state = none;
          rows = [];
        })
        s (omega arith, n, l) (r, n, l)

  abbrev pub on_event : (bpm : ℕ → Text) → Event F → XaraState F → XaraState F
  on_event bpm (message now m) s = apply bpm now m s
  on_event bpm (got_row f) s = apply_row f s
  on_event bpm (link on) s = set_connected on s
  on_event bpm drawn s = (snapshot s).1

  abbrev pub run : (bpm : ℕ → Text) → List (Event F) → XaraState F → XaraState F
  run bpm [] s = s
  run bpm (e ∷ es) s = run bpm es (on_event bpm e s)

  on_event-IsBounded :
      (bpm : ℕ → Text) (e : Event F) (s : XaraState F) → IsBounded s → IsBounded (on_event bpm e s)
  unfolding snapshot apply_row
  on_event-IsBounded bpm (message now m) s v = apply-IsBounded bpm now m s v
  on_event-IsBounded bpm (got_row f) s v = add_row-IsBounded (row_of f) s v
  on_event-IsBounded bpm (link on) s v = set_connected-IsBounded on s v
  on_event-IsBounded bpm drawn s v = v

  -- Whatever messages, rows, drops of the connection and drawings come in whatever order, the histories
  -- stay within their lengths: 64 rows, 90 samples, 30 lines.
  pub run-IsBounded :
      (bpm : ℕ → Text) (es : List (Event F)) (s : XaraState F)
      → IsBounded s
      → IsBounded (run bpm es s)
  run-IsBounded bpm [] s v = v
  run-IsBounded bpm (e ∷ es) s v =
      run-IsBounded bpm es (on_event bpm e s) (on_event-IsBounded bpm e s v)
