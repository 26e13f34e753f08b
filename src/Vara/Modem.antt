-- ===== src/Vara/Modem.antt =====
-- src/vara_launcher.py: `modem_info`, `txt_records` and `publish_commands`.
use kp4pra.Prelude.{
  ℕ, Bool, List, [], ◌∷◌, ◌++◌, Text, codes, if◌then◌else◌, ◌==◌, text_eq, take, is_nil,
}
use kp4pra.PyText.{upper}
use kp4pra.PyText.Decimal.{decimal}

-- What `xara_conf` says: the settings, and the callsign, empty if there is none.
pub record Settings : Type 0 where
  pub mode : Text
  pub port : ℕ
  pub network : Bool
  pub auto_switch : Bool
  pub call : Text

pub record ModemInfo : Type 0 where
  pub name : Text
  pub type : Text
  pub port : ℕ
  pub network : Bool
  pub auto_switch : Bool

-- `"hf" if mode.startswith("hf") else "fm"`
unfoldable pub band_of : Text → Text
band_of mode = if text_eq (take 2 mode) (codes "hf") then codes "hf" else codes "fm"

unfoldable pub modem_info : Settings → ModemInfo
modem_info x =
    let band = band_of x.mode in
    let call = if is_nil x.call then codes "KP4PRA" else x.call in
    record {
      name = call ++ (codes " VARA " ++ upper band);
      type = band;
      port = if x.port == 0 then 8300 else x.port;
      network = x.network;
      auto_switch = x.auto_switch;
    }

-- `LAUNCH_PORT` is an argument: it comes from the environment.
unfoldable pub txt_records : ℕ → ModemInfo → List Text
txt_records launch_port info =
    (codes "launchport=" ++ (decimal launch_port ++ codes ";"))
    ∷ (codes "type=" ++ (info.type ++ codes ";"))
    ∷ []

unfoldable pub publish_command : ℕ → ModemInfo → Text → List Text
publish_command launch_port info service =
    codes "avahi-publish"
    ∷ codes "-s"
    ∷ info.name
    ∷ service
    ∷ decimal info.port
    ∷ txt_records launch_port info

unfoldable pub legacy_service : ModemInfo → Text
legacy_service info =
    if text_eq info.type (codes "fm")
    then codes "_varafm-modem._tcp"
    else codes "_varahf-modem._tcp"

unfoldable pub publish_commands : ℕ → ModemInfo → List (List Text)
publish_commands launch_port info =
    publish_command launch_port info (codes "_vara-modem._tcp")
    ∷ publish_command launch_port info (legacy_service info)
    ∷ []
