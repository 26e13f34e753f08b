-- ===== src/Feed/State.antt =====
-- src/tft/xara_feed.py: `XaraState`. A message has its fields in the types that the modem sends; `F` is
-- the type of the floating-point numbers, and times are whole milliseconds.
pub mod Window
use kp4pra.Prelude.{
  ℕ, zero, suc, ◌+◌, ◌-◌, ◌*◌, ◌/◌, ◌%◌, ◌≤◌, ◌<◌, ◌≡◌, ◌≢◌, ◌⊎◌, inl, inr, refl, sym, ap, ◌∙◌,
  append_assoc, append-nil, Bool, true, false, not, ◌&&◌, ◌||◌, Bool-cases, Option, none, some,
  List, [], ◌∷◌, ◌++◌, Bytes, Text, codes, arith, length, take, drop, length-append, take-append,
  drop-append, ltb, leb, ◌==◌, if◌then◌else◌, is_nil, text_eq, get_elem?, bit_and, bit_or, bit_xor,
  ==_iff, all_below_sound, map, All,
}
use kp4pra.PyText.{strip}

abbrev pub waterfall_rows : ℕ
waterfall_rows = 64

abbrev pub sn_history : ℕ
sn_history = 90

abbrev pub log_lines : ℕ
log_lines = 30

unfoldable pub is_one_of : Text → List Text → Bool
is_one_of s [] = false
is_one_of s (t ∷ ts) = text_eq s t || is_one_of s ts

abbrev pub connected_states : List Text
connected_states =
    codes "Receiving"
    ∷ codes "Sending"
    ∷ codes "Idle"
    ∷ codes "IdleSent"
    ∷ codes "AwaitGo"
    ∷ codes "Answering"
    ∷ codes "HeaderSent"
    ∷ codes "Break"
    ∷ codes "FqWait"
    ∷ []

pub data LinkKind : Type 0 where
  idle calling connected closing : LinkKind

-- `state in ("", "Listen")`
unfoldable pub is_quiet : Text → Bool
is_quiet s = is_one_of s ([] ∷ codes "Listen" ∷ [])

unfoldable pub link_label : Text → Text → Text × LinkKind
link_label state peer =
    if is_quiet state
    then (codes "Listening", idle)
    else if text_eq state (codes "Digipeating")
    then (codes "Digipeating", calling)
    else if text_eq state (codes "Calling")
    then (strip (codes "Calling " ++ peer), calling)
    else if is_one_of state (codes "Qrt" ∷ codes "Closing" ∷ [])
    then (codes "Disconnecting", closing)
    else if is_one_of state connected_states
    then (strip (codes "Linked " ++ peer), connected)
    else (state, calling)

-- `append` to a `deque(maxlen=n)`.
unfoldable pub push {ℓ} : {A : Type ℓ} → ℕ → A → List A → List A
push n a xs = let s = xs ++ a ∷ [] in drop (length s - n) s

pub data HostKind : Type 0 where
  host_connected : Text → Text → Text → HostKind
  host_disconnected host_bitrate host_other : HostKind

unfoldable pub raise_peak : ℕ → ℕ → ℕ
raise_peak bps peak = if ltb peak bps then bps else peak

unfoldable pub underscores_off : Text → Text
underscores_off [] = []
underscores_off (c ∷ s) = (if c == b'_' then b' ' else c) ∷ underscores_off s

unfoldable pub notice_text : Text → Text
notice_text kind =
    if text_eq kind (codes "unable_to_connect")
    then codes "Unable to connect"
    else if text_eq kind (codes "timed_out")
    then codes "Link timed out"
    else underscores_off kind

-- `frame[4:4 + n]` of a frame that starts with 1, 0 and the length, low byte first.
unfoldable pub row_of : Bytes → Option Bytes
row_of (kind ∷ _ ∷ lo ∷ hi ∷ bins) = if kind == 1 then some (take (lo + 256 * hi) bins) else none
row_of _ = none

module _ (F : Type 0) where
  -- A "status" message; `none` for what is missing or null.
  pub record Status : Type 0 where
    pub state : Text
    pub peer : Text
    pub ptt : Bool
    pub busy : Bool
    pub bps : ℕ
    pub sn : Option F

  pub data Message : Type 0 where
    hello : Text → Message
    status_of : Status → Message
    waterfall : Option F → Option F → Message
    host : HostKind → Message
    notice : Text → Message
    other_message : Message

  pub record XaraState : Type 0 where
    pub connected : Bool
    pub mode : Text
    pub status : Option Status
    pub rows : List Bytes
    pub sn : List (Option F)
    pub log : List (ℕ × Text)
    pub wf_floor : F
    pub wf_step : F
    pub peak_bps : ℕ
    pub rows_seen : ℕ
    pub changed : Bool
    pub activity : Bool
    pub last_sn_t : ℕ
    pub last_state : Option Text

-- `floor` and `step` stand for -130.0 and 0.5.
abbrev pub new_state : {F : Type 0} → F → F → XaraState F
new_state floor step_size = record {
  connected = false;
  mode = [];
  status = none;
  rows = [];
  sn = [];
  log = [];
  wf_floor = floor;
  wf_step = step_size;
  peak_bps = 0;
  rows_seen = 0;
  changed = false;
  activity = false;
  last_sn_t = 0;
  last_state = none;
}

module _ {F : Type 0} where
  abbrev pub note : ℕ → Text → XaraState F → XaraState F
  note now text s = record s { log = push log_lines (now, text) s.log; activity = true }

  -- `if state != self._last_state: ...`, for what `_last_state` is.
  unfoldable pub note_change : Option Text → ℕ → Status F → XaraState F → XaraState F
  note_change none now m s = record s { last_state = some m.state }
  note_change (some old) now m s =
      let noted =
        if text_eq m.state (codes "Calling") then note now (codes "Calling " ++ m.peer) s else s in
      if text_eq m.state old then s else record noted { last_state = some m.state }

  unfoldable pub note_state : ℕ → Status F → XaraState F → XaraState F
  note_state now m s = note_change s.last_state now m s

  -- `None if sn is None or state in ("", "Listen") else float(sn)`
  unfoldable pub sample : Status F → Option F
  sample m = if is_quiet m.state then none else m.sn

  unfoldable pub add_sample : ℕ → Status F → XaraState F → XaraState F
  add_sample now m s =
      if leb 1000 (now - s.last_sn_t)
      then record s { last_sn_t = now; sn = push sn_history (sample m) s.sn }
      else s

  unfoldable pub take_status : ℕ → Status F → XaraState F → XaraState F
  take_status now m s =
      let noted = note_state now m (record s { status = some m }) in
      add_sample now m (record noted {
        activity = (m.ptt || (m.busy || not (is_quiet m.state))) || noted.activity;
        peak_bps = raise_peak m.bps noted.peak_bps;
      })

  -- `bpm` stands for the function of that name, printed.
  unfoldable pub host_event : (bpm : ℕ → Text) → ℕ → HostKind → XaraState F → XaraState F
  host_event bpm now (host_connected caller answerer bw) s =
      note now (codes "Linked " ++ (caller ++ (codes ">" ++ (answerer ++ (codes " " ++ bw)))))
        (record s { peak_bps = 0 })
  host_event bpm now host_disconnected s =
      note now
        (codes "Disconnected"
          ++ (if s.peak_bps == 0 then [] else codes " (top " ++ (bpm s.peak_bps ++ codes " BPM)")))
        s
  host_event bpm now host_bitrate s = record s { activity = true }
  host_event bpm now host_other s = s

  abbrev pub given : Option F → F → F
  given none x = x
  given (some y) x = y

  unfoldable pub apply : (bpm : ℕ → Text) → ℕ → Message F → XaraState F → XaraState F
  apply bpm now (hello mode) s = record s { changed = true; mode = mode; connected = true }
  apply bpm now (status_of m) s = take_status now m (record s { changed = true })
  apply bpm now (waterfall floor step_size) s = record s {
    changed = true;
    wf_floor = given floor s.wf_floor;
    wf_step = given step_size s.wf_step;
  }
  apply bpm now (host kind) s = host_event bpm now kind (record s { changed = true })
  apply bpm now (notice kind) s = note now (notice_text kind) (record s { changed = true })
  apply bpm now other_message s = record s { changed = true }

  unfoldable pub add_row : Option Bytes → XaraState F → XaraState F
  add_row none s = s
  add_row (some row) s = record s {
    rows = push waterfall_rows row s.rows;
    rows_seen = s.rows_seen + 1;
    changed = true;
  }

  unfoldable pub apply_row : Bytes → XaraState F → XaraState F
  apply_row frame s = add_row (row_of frame) s

  unfoldable pub set_connected : Bool → XaraState F → XaraState F
  set_connected true s = if s.connected then s else record s { connected = true; changed = true }
  set_connected false s =
      if s.connected
      then record s {
        connected = false;
        changed = true;
        status = none;
        last_state = none;
        rows = [];
      }
      else s

  -- What is drawn, and the state with its two marks taken down.
  unfoldable pub snapshot : XaraState F → XaraState F × XaraState F
  snapshot s = (s, record s { changed = false; activity = false })
