-- ===== src/Vara/Launcher/Handover.antt =====
-- src/vara_launcher.py: the end of a session against the start of the next one.
use kp4pra.Vara.Launcher.{waiting}
use kp4pra.Vara.Launcher.{[]}
use kp4pra.Vara.Launcher.{◌∷◌}
use kp4pra.Vara.Launcher.{codes}
use kp4pra.Vara.Launcher.{◌++◌}
use kp4pra.Vara.Launcher.{List, text_eq, true}
use kp4pra.Prelude.{◌≡◌, refl, true, false, List, [], ◌∷◌, ◌++◌, codes, text_eq}
use kp4pra.PyText.{partition}
use kp4pra.Vara.Modem.{ModemInfo}
use kp4pra.Vara.Launcher.{Conn, reading, restoring, command, start, after_wait, after_restore}
use kp4pra.Vara.Launcher.Sessions.{System, hears, waits, restores, turns, Moves, here, next}

-- The connection, behind a `start` that was answered with OK.
abbrev pub started : Conn → Conn
started c = record c { session = true; sent = c.sent ++ codes "OK\n" ∷ []; phase = reading }

pub start-running :
    (info : ModemInfo) (c : Conn)
    → c.session ≡ false
    → command info (codes "start") true true false c
      ≡ (true, record c { session = true; phase = waiting })
unfolding command start text_eq partition
start-running info c e = simp e refl

-- A session that has given the modem back still has its switch back to Dire Wolf to come. Another
-- connection that starts in between finds Xara running and gets its OK without a switch, and then the
-- first one's switch turns Xara off: the second has its session, the flag is on, and Xara is not running.
pub handover_loses_modem :
    (info : ModemInfo) (c d : Conn) (rest : List Conn)
    → c.phase ≡ restoring
    → d.phase ≡ reading
    → d.session ≡ false
    → (t : System) × Moves (record { busy = false; xara = true; conns = c ∷ d ∷ rest }) t
      × (t.busy ≡ true)
      × (t.xara ≡ false)
      × (t.conns ≡ after_restore c ∷ started d ∷ rest)
unfolding after_wait
handover_loses_modem info c d rest p q r =
    let d1 : Conn = record d { session = true; phase = waiting } in
    let m1 =
      turns (c ∷ []) rest d d1 refl refl
        (hears info (codes "start") true q (start-running info d r) refl) in
    let m2 = turns (c ∷ []) rest d1 (started d) refl refl (waits info true refl refl refl refl) in
    let m3 =
      turns [] (started d ∷ rest) c (after_restore c) refl refl (restores true p refl refl refl) in
    (
      record { busy = true; xara = false; conns = after_restore c ∷ started d ∷ rest },
      next (next (next {t = record { busy = false; xara = true; conns = c ∷ d ∷ rest }} here m1) m2)
          m3,
      refl,
      refl,
      refl,
    )
