-- ===== src/Mail/Send.antt =====
-- src/web/b2fsend.py: `send`. The record that it is given may differ from the one on the disk. What
-- mailbuilder and lzhuf make of it, what the login comes to, and the texts of errors are arguments.
pub mod Escapes
pub mod Outcomes
use kp4pra.Mail.Talk.{timed_out, closed, broken, not_ascii}
use kp4pra.Prelude.{
  ℕ, zero, suc, ◌+◌, ◌-◌, ◌*◌, ◌/◌, ◌%◌, ◌≤◌, ◌<◌, ◌≡◌, ◌≢◌, ◌⊎◌, inl, inr, refl, sym, ap, ◌∙◌,
  append_assoc, append-nil, Bool, true, false, not, ◌&&◌, ◌||◌, Bool-cases, Option, none, some,
  List, [], ◌∷◌, ◌++◌, Bytes, Text, codes, arith, length, take, drop, length-append, take-append,
  drop-append, ltb, leb, ◌==◌, if◌then◌else◌, is_nil, text_eq, get_elem?, bit_and, bit_or, bit_xor,
  ==_iff, all_below_sound, map, All,
}
use kp4pra.PyText.{strip, upper, partition}
use kp4pra.Mail.Queue.{Record, Disk, set_status}
use kp4pra.Mail.Talk.{Cms, Failure, Io, did, failed, Message, Talked, run_b2f}

pub record Config : Type 0 where
  pub dry_run : Bool
  pub callsign : Text
  pub cms_call : Text
  pub cms_password : Text

-- `mailbuilder.base_callsign`
unfoldable pub base_callsign : Text → Text
base_callsign call = (partition b'-' (strip (upper call))).0

-- `ids.get(identity, ids["station"])`: the remote and the gateway callsign.
unfoldable pub identity_calls : Config → Text → Text × Text
identity_calls cfg identity =
    let station = base_callsign cfg.callsign in
    if text_eq identity (codes "gateway")
    then (station, upper (if is_nil cfg.cms_call then station else cfg.cms_call))
    else (station, station)

-- What `cms.connect` comes to: it returns, raises one of the exceptions that `_connect_and_run`
-- catches, or another one.
pub data Login : Type 0 where
  logged_in login_error login_breaks : Login

-- What `_connect_and_run` returns: what the conversation says, or an error, where `none` is one of
-- the login. Or an exception that it does not catch goes through it.
pub data Ran : Type 0 where
  talked : Talked → Ran
  error_of : Option Failure → Ran
  escaped : Ran

unfoldable pub ran_of : Io Talked → Ran × Cms
ran_of (did t c) = (talked t, c)
ran_of (failed timed_out c) = (error_of (some timed_out), c)
ran_of (failed closed c) = (error_of (some closed), c)
ran_of (failed broken c) = (error_of (some broken), c)
ran_of (failed not_ascii c) = (escaped, c)

unfoldable pub connect_and_run :
    Login → Bool → (md5 : Bytes → Bytes) → Text → Text → Message → Cms → Ran × Cms
connect_and_run login_error send_body md5 password our_sid m c = (error_of none, c)
connect_and_run login_breaks send_body md5 password our_sid m c = (escaped, c)
connect_and_run logged_in send_body md5 password our_sid m c =
    ran_of (run_b2f send_body md5 password our_sid m c)

-- `send` raises DeliveryError and has done nothing, raises BuildError, lets an exception of the login
-- or of the conversation through, or returns a final status.
pub data Sending : Type 0 where
  refused : Sending
  build_error : Disk → Sending
  crashed : Disk → Cms → Sending
  finished : Text → Disk → Cms → Sending

-- `res.get("ok") and res.get("delivered")`
unfoldable pub is_delivered : Ran → Bool
is_delivered (talked t) = t.delivered
is_delivered (error_of f) = false
is_delivered escaped = false

-- `describe` is the text of the error of a run that failed or was not accepted.
unfoldable pub settle : Text → Text → (describe : Ran → Text) → Disk → Ran × Cms → Sending
settle mid route describe disk (escaped, c) = crashed disk c
settle mid route describe disk (error_of f, c) =
    finished (codes "Failed")
      (set_status mid (codes "Failed") none (some (some (describe (error_of f)))) disk) c
settle mid route describe disk (talked t, c) =
    if is_delivered (talked t)
    then finished (codes "Sent")
        (set_status mid (codes "Sent") (some (some route)) (some none) disk) c
    else finished (codes "Failed")
        (set_status mid (codes "Failed") none (some (some (describe (talked t)))) disk) c

-- Behind the guards; `none` is the BuildError of `build_message`.
unfoldable pub attempt :
    Text
    → Text
    → (describe : Ran → Text) → Option Message
    → Login
    → (md5 : Bytes → Bytes) → Text
    → Text
    → Cms
    → Disk
    → Sending
attempt mid route describe none login md5 password our_sid c disk =
    build_error (set_status mid (codes "Sending") (some (some route)) none disk)
attempt mid route describe (some m) login md5 password our_sid c disk =
    settle mid route describe (set_status mid (codes "Sending") (some (some route)) none disk)
      (connect_and_run login true md5 password our_sid m c)

unfoldable pub send :
    Config
    → Record
    → Text
    → (describe : Ran → Text) → Option Message
    → Login
    → (md5 : Bytes → Bytes) → Text
    → Cms
    → Disk
    → Sending
send cfg r identity describe built login md5 our_sid c disk =
    if cfg.dry_run
    then refused
    else if text_eq r.status (codes "Sent")
    then refused
    else attempt r.id (codes "cms:" ++ identity) describe built login md5 cfg.cms_password our_sid c
        disk
