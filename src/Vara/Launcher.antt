-- ===== src/Vara/Launcher.antt =====
-- src/vara_launcher.py: `Launcher`. A connection is cut at its awaits: `phase` says at which of them
-- it stands. `busy` belongs to all connections. What the hooks find is an argument of the steps.
pub mod Sessions
pub mod Handover
use kp4pra.Prelude.{
  ℕ, zero, suc, Bool, true, false, not, ◌&&◌, ◌||◌, Option, none, some, List, [], ◌∷◌, ◌++◌, Text,
  codes, if◌then◌else◌, text_eq, is_nil,
}
use kp4pra.PyText.{strip, partition}
use kp4pra.PyText.Lines.{splitlines, last_line}
use kp4pra.PyText.Decimal.{decimal}
use kp4pra.Vara.Modem.{ModemInfo}

-- Where a connection waits: for data, for the switch to Xara, for its port, for the last drain, for
-- the switch back, or for nothing any more.
pub data Phase : Type 0 where
  reading switching waiting closing restoring gone : Phase

-- `state` is the pair of `session` and `switched`; `sent` is what has been written.
pub record Conn : Type 0 where
  pub phase : Phase
  pub session : Bool
  pub switched : Bool
  pub sent : List Text

abbrev pub new_conn : Conn
new_conn = record { phase = reading; session = false; switched = false; sent = [] }

abbrev pub send : Text → Conn → Conn
send text c = record c { sent = c.sent ++ text ∷ [] }

-- `send(text)`, then `return "close"`.
abbrev pub send_close : Text → Conn → Conn
send_close text c = record c { sent = c.sent ++ text ∷ []; phase = closing }

-- The loop of `wait_ready` over what the port looks like at each round.
unfoldable pub wait_ready : ℕ → List Bool → Bool
wait_ready zero looks = false
wait_ready (suc n) [] = false
wait_ready (suc n) (l ∷ looks) = l || wait_ready n looks

-- `start`, up to its first await.
unfoldable pub start : ModemInfo → Bool → Bool → Bool → Conn → Bool × Conn
start info installed running busy c =
    if c.session
    then (busy, send (codes "OK\n") c)
    else if busy
    then (busy, send (codes "ERROR modem " ++ (info.name ++ codes " is already running\n")) c)
    else if not installed
    then (busy, send_close (codes "ERROR Xara is not installed on this TNC\n") c)
    else if running
    then (true, record c { session = true; phase = waiting })
    else if not info.auto_switch
    then (
      true,
      send_close (codes "ERROR Xara is not on - choose Xara on the KP4PRA Services page\n")
          (record c { session = true }),
    )
    else (true, record c { session = true; phase = switching })

abbrev pub config_text : ModemInfo → Text
config_text info =
    codes "OK\nConfig path: KP4PRA TNC (Config page, Xara card)\n"
    ++ (info.name ++ (codes "\n  Type: " ++ (info.type ++ codes "\n  Cmd: xara (KP4PRA TNC)\n")))

abbrev pub version : Text
version = codes "kp4pra-vara-launcher 1"

-- The commands that neither wait nor change the session.
unfoldable pub answer : ModemInfo → Text → Conn → Conn
answer info cmd c =
    if text_eq (partition b' ' cmd).0 (codes "monitor")
    then send (codes "ERROR audio monitor is not available on KP4PRA TNC\n") c
    else if text_eq cmd (codes "stop")
    then send_close (codes "OK\n") c
    else if text_eq cmd (codes "version")
    then send (codes "OK\n" ++ (version ++ codes "\n")) c
    else if text_eq cmd (codes "list")
    then send (codes "OK\n" ++ (info.name ++ codes "\n")) c
    else if text_eq cmd (codes "config")
    then send (config_text info) c
    else if text_eq cmd (codes "shutdown")
    then send (codes "ERROR remote shutdown disabled\n") c
    else send (codes "Invalid command\n") c

unfoldable pub command : ModemInfo → Text → Bool → Bool → Bool → Conn → Bool × Conn
command info cmd installed running busy c =
    if text_eq (partition b' ' cmd).0 (codes "start")
    then start info installed running busy c
    else (busy, answer info cmd c)

-- `out.splitlines()[-1] if out else "Xara did not start"`
unfoldable pub switch_error : Text → Text
switch_error out =
    codes "ERROR "
    ++ ((if is_nil out then codes "Xara did not start" else last_line out) ++ codes "\n")

-- Behind `await self.h.switch("xara")`.
unfoldable pub after_switch : Bool → Text → Conn → Conn
after_switch true out c = record c { switched = true; phase = waiting }
after_switch false out c = send_close (switch_error out) c

-- Behind `await self.wait_ready(info["port"])`.
unfoldable pub after_wait : ModemInfo → Bool → Conn → Conn
after_wait info true c = record c { sent = c.sent ++ codes "OK\n" ∷ []; phase = reading }
after_wait info false c =
    send_close (codes "ERROR Xara is not listening on port " ++ (decimal info.port ++ codes "\n")) c

-- Behind the drain of the `finally` clause, up to the switch back.
unfoldable pub finish : Bool → Conn → Bool × Conn
finish busy c =
    (if c.session then false else busy, record c { phase = if c.switched then restoring else gone })

-- Behind `await self.h.switch("packet")`, whether it worked or not.
unfoldable pub after_restore : Conn → Conn
after_restore c = record c { phase = gone }

-- The lines of one read, stripped, without the empty ones.
unfoldable pub commands_of : List Text → List Text
commands_of [] = []
commands_of (l ∷ ls) =
    let cmd = strip l in if is_nil cmd then commands_of ls else cmd ∷ commands_of ls

-- `data.decode(...).splitlines()`, for a text that is decoded.
unfoldable pub read_commands : Text → List Text
read_commands text = commands_of (splitlines text)

abbrev pub is_local : Text → Bool
is_local peer =
    text_eq peer (codes "127.0.0.1")
    || (text_eq peer (codes "::1") || text_eq peer (codes "::ffff:127.0.0.1"))

-- `handle` up to the loop: a connection that is closed at once, or a new one.
unfoldable pub admit : ModemInfo → Text → Option Conn
admit info peer = if not info.network && not (is_local peer) then none else some new_conn
