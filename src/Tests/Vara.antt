-- ===== src/Tests/Vara.antt =====
-- Inputs for src/vara_launcher.py.
use kp4pra.Vara.Launcher.Handover.{start-running}
use kp4pra.Vara.Launcher.Sessions.{hears}
use kp4pra.Vara.Launcher.{waiting}
use kp4pra.Vara.Launcher.Sessions.{turns}
use kp4pra.Prelude.{◌≡◌, refl, true, false, [], ◌∷◌, codes}
use kp4pra.Vara.Modem.{ModemInfo}
use kp4pra.Vara.Launcher.{Conn, new_conn, restoring, after_restore}
use kp4pra.Vara.Launcher.Sessions.{
  System, Moves, IsExclusive, Moves-IsExclusive, here, next, accepts,
}
use kp4pra.Vara.Launcher.Handover.{started, handover_loses_modem}

abbrev fm_info : ModemInfo
fm_info = record {
  name = codes "KP4PRA VARA FM";
  type = codes "fm";
  port = 8300;
  network = true;
  auto_switch = true;
}

abbrev at_start : System
at_start = record { busy = false; xara = true; conns = [] }

abbrev one_conn : System
one_conn = record { busy = false; xara = true; conns = new_conn ∷ [] }

abbrev held : Conn
held = record { phase = waiting; session = true; switched = false; sent = [] }

abbrev one_held : System
one_held = record { busy = true; xara = true; conns = held ∷ [] }

Moves-IsExclusive_example : IsExclusive one_held
Moves-IsExclusive_example =
    Moves-IsExclusive at_start one_held
      (next {t = one_conn} (next here (accepts refl)) (
        turns [] [] new_conn held refl refl
          (hears fm_info (codes "start") true refl (start-running fm_info new_conn refl) refl)))
      refl

abbrev ending : Conn
ending = record { phase = restoring; session = true; switched = true; sent = [] }

handover_loses_modem_example :
    (t : System) × Moves (record { busy = false; xara = true; conns = ending ∷ new_conn ∷ [] }) t
    × (t.busy ≡ true)
    × (t.xara ≡ false)
    × (t.conns ≡ after_restore ending ∷ started new_conn ∷ [])
handover_loses_modem_example = handover_loses_modem fm_info ending new_conn [] refl refl refl
