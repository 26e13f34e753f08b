-- ===== src/Vara/Announcer.antt =====
-- src/vara_launcher.py: `Announcer`. A process is the command that runs in it; whether all of them
-- are alive, and whether the program is there, are arguments.
pub mod Laws
use kp4pra.Prelude.{
  ℕ, Bool, true, false, ◌&&◌, Option, none, some, List, [], ◌∷◌, Text, ◌==◌, if◌then◌else◌, text_eq,
}
use kp4pra.Vara.Modem.{ModemInfo, publish_commands}

-- `(info["name"], info["type"], info["port"])`
pub record Key : Type 0 where
  pub name : Text
  pub type : Text
  pub port : ℕ

pub record Announcer : Type 0 where
  pub procs : List (List Text)
  pub key : Option Key

abbrev pub new_announcer : Announcer
new_announcer = record { procs = []; key = none }

-- `key == self.key`
unfoldable pub key_eq : Option Key → Option Key → Bool
key_eq none none = true
key_eq (some a) (some b) = text_eq a.name b.name && (text_eq a.type b.type && a.port == b.port)
key_eq _ _ = false

abbrev pub stop : Announcer → Announcer
stop a = record a { procs = [] }

unfoldable pub wanted : ModemInfo → Bool → Option Key
wanted info installed =
    if installed && info.network
    then some (record { name = info.name; type = info.type; port = info.port })
    else none

-- The loop over the commands; without the program the first one fails.
unfoldable pub start_all : Bool → List (List Text) → List (List Text)
start_all true cmds = cmds
start_all false cmds = []

-- The part behind the comparison of the keys.
unfoldable pub restart : ℕ → ModemInfo → Bool → Option Key → Announcer → Announcer
restart launch_port info found none a = record { procs = []; key = none }
restart launch_port info found (some k) a = record {
  procs = start_all found (publish_commands launch_port info);
  key = some k;
}

unfoldable pub update : ℕ → ModemInfo → Bool → Bool → Bool → Announcer → Announcer
update launch_port info installed alive found a =
    let key = wanted info installed in
    if key_eq key a.key && alive then a else restart launch_port info found key (stop a)
