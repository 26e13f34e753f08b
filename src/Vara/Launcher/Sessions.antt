-- ===== src/Vara/Launcher/Sessions.antt =====
-- Any number of connections, whose steps come in any order: who holds the modem.
use mathlib.Core.Path.{subst}
use kp4pra.Prelude.{◌∙◌}
use kp4pra.Prelude.{ap, ◌≤◌}
use kp4pra.Prelude.{
  ℕ, ◌+◌, ◌≡◌, ◌⊎◌, Bool, true, false, ◌&&◌, ◌||◌, List, [], ◌∷◌, ◌++◌, Text, arith, if◌then◌else◌,
}
use kp4pra.Vara.Modem.{ModemInfo}
use kp4pra.Vara.Launcher.{
  Phase, reading, switching, waiting, closing, restoring, gone, Conn, new_conn, start, answer,
  command, after_switch, after_wait, finish, after_restore,
}

-- `xara` says whether the TNC runs Xara, which is what `running` asks.
pub record System : Type 0 where
  pub busy : Bool
  pub xara : Bool
  pub conns : List Conn

-- One step of a connection: from `busy`, `xara` and the connection to new ones. A socket may break at
-- every await, and end where data is read.
pub data Turn (busy xara : Bool) (c : Conn) (busy' xara' : Bool) (c' : Conn) : Type 0 where
  hears :
      (info : ModemInfo) (cmd : Text) (installed : Bool)
      → c.phase ≡ reading
      → command info cmd installed xara busy c ≡ (busy', c')
      → xara' ≡ xara
      → Turn busy xara c busy' xara' c'
  switches :
      (ok : Bool) (out : Text)
      → c.phase ≡ switching
      → busy' ≡ busy
      → xara' ≡ (xara || ok)
      → c' ≡ after_switch ok out c
      → Turn busy xara c busy' xara' c'
  waits :
      (info : ModemInfo) (ready : Bool)
      → c.phase ≡ waiting
      → busy' ≡ busy
      → xara' ≡ xara
      → c' ≡ after_wait info ready c
      → Turn busy xara c busy' xara' c'
  breaks :
      (c.phase ≡ reading) ⊎ ((c.phase ≡ switching) ⊎ (c.phase ≡ waiting))
      → busy' ≡ busy
      → xara' ≡ xara
      → c' ≡ record c { phase = closing }
      → Turn busy xara c busy' xara' c'
  finishes :
      c.phase ≡ closing
      → finish busy c ≡ (busy', c')
      → xara' ≡ xara
      → Turn busy xara c busy' xara' c'
  restores :
      (ok : Bool)
      → c.phase ≡ restoring
      → busy' ≡ busy
      → xara' ≡ (if ok then false else xara)
      → c' ≡ after_restore c
      → Turn busy xara c busy' xara' c'

pub data Move (s t : System) : Type 0 where
  accepts : t ≡ record s { conns = s.conns ++ new_conn ∷ [] } → Move s t
  turns :
      (before after : List Conn) (c c' : Conn)
      → s.conns ≡ before ++ c ∷ after
      → t.conns ≡ before ++ c' ∷ after
      → Turn s.busy s.xara c t.busy t.xara c'
      → Move s t

pub data Moves (s : System) : System → Type 0 where
  here : Moves s s
  next : {t u : System} → Moves s t → Move t u → Moves s u

-- The connection has the session, and has not yet given it back.
abbrev pub is_live : Phase → Bool
is_live reading = true
is_live switching = true
is_live waiting = true
is_live closing = true
is_live restoring = false
is_live gone = false

abbrev pub holds : Conn → ℕ
holds c = if c.session && is_live c.phase then 1 else 0

abbrev pub holders : List Conn → ℕ
holders [] = 0
holders (c ∷ cs) = holds c + holders cs

abbrev pub bit : Bool → ℕ
bit b = if b then 1 else 0

abbrev pub IsExclusive : System → Type 0
IsExclusive s = holders s.conns ≡ bit s.busy

holders-append : (a b : List Conn) → holders (a ++ b) ≡ holders a + holders b
holders-append [] b = omega arith
holders-append (c ∷ a) b = omega (arith, holders-append a b)

-- What one connection does to the balance of holders and the flag.
abbrev IsBalanced : Bool → Conn → Bool → Conn → Type 0
IsBalanced busy c busy' c' = holds c' + bit busy ≡ holds c + bit busy'

start-IsBalanced :
    (info : ModemInfo) (installed running busy : Bool) (c : Conn)
    → c.phase ≡ reading
    → IsBalanced busy c
        (start info installed running busy c).0
        (start info installed running busy c).1
unfolding start
start-IsBalanced info installed running busy c e = ground (arith, e)

answer-kept :
    (info : ModemInfo) (cmd : Text) (c : Conn)
    → c.phase ≡ reading
    → holds (answer info cmd c) ≡ holds c
unfolding answer
answer-kept info cmd c e = ground (arith, e)

command-IsBalanced :
    (info : ModemInfo) (cmd : Text) (installed running busy : Bool) (c : Conn)
    → c.phase ≡ reading
    → IsBalanced busy c
        (command info cmd installed running busy c).0
        (command info cmd installed running busy c).1
unfolding command
command-IsBalanced info cmd installed running busy c e =
    ground (arith, e, start-IsBalanced info installed running busy c e, answer-kept info cmd c e)

finish-IsBalanced :
    (busy : Bool) (c : Conn)
    → c.phase ≡ closing
    → holds c ≤ bit busy
    → IsBalanced busy c (finish busy c).0 (finish busy c).1
unfolding finish
finish-IsBalanced busy c e h = ground (arith, e, h)

after_switch-kept :
    (ok : Bool) (out : Text) (c : Conn)
    → c.phase ≡ switching
    → holds (after_switch ok out c) ≡ holds c
unfolding after_switch
after_switch-kept true out c e = ground (arith, e)
after_switch-kept false out c e = ground (arith, e)

after_wait-kept :
    (info : ModemInfo) (ready : Bool) (c : Conn)
    → c.phase ≡ waiting
    → holds (after_wait info ready c) ≡ holds c
unfolding after_wait
after_wait-kept info true c e = ground (arith, e)
after_wait-kept info false c e = ground (arith, e)

-- A turn keeps the balance, provided that the flag is on where the connection holds.
Turn-IsBalanced :
    (busy xara : Bool) (c : Conn) (busy' xara' : Bool) (c' : Conn)
    → Turn busy xara c busy' xara' c'
    → holds c ≤ bit busy
    → IsBalanced busy c busy' c'
unfolding after_restore
Turn-IsBalanced busy xara c busy' xara' c' (hears info cmd installed e q x) h =
    let b = command-IsBalanced info cmd installed xara busy c e in
    subst (λ (r : Bool × Conn). IsBalanced busy c r.0 r.1) q b
Turn-IsBalanced busy xara c busy' xara' c' (switches ok out e b x q) h =
    rw (b, q) (omega (arith, after_switch-kept ok out c e))
Turn-IsBalanced busy xara c busy' xara' c' (waits info ready e b x q) h =
    rw (b, q) (omega (arith, after_wait-kept info ready c e))
Turn-IsBalanced busy xara c busy' xara' c' (breaks e b x q) h = rw (b, q) (ground (arith, e))
Turn-IsBalanced busy xara c busy' xara' c' (finishes e q x) h =
    let b = finish-IsBalanced busy c e h in
    subst (λ (r : Bool × Conn). IsBalanced busy c r.0 r.1) q b
Turn-IsBalanced busy xara c busy' xara' c' (restores ok e b x q) h = rw (b, q) (ground (arith, e))

Move-IsExclusive : (s t : System) → Move s t → IsExclusive s → IsExclusive t
Move-IsExclusive s t (accepts q) h = rw q (omega (arith, h, holders-append s.conns (new_conn ∷ [])))
Move-IsExclusive s t (turns before after c c' p q turn) h =
    let whole = ap holders p ∙ holders-append before (c ∷ after) in
    let whole' = ap holders q ∙ holders-append before (c' ∷ after) in
    let below : holds c ≤ bit s.busy = omega (arith, whole, h) in
    let b = Turn-IsBalanced s.busy s.xara c t.busy t.xara c' turn below in
    omega (arith, whole, whole', h, b)

-- However the steps of any number of connections interleave, the busy flag is on exactly while one
-- connection has the session and has not given it back, and no two have it at the same time: the number
-- of those that have it is one with the flag on and none with the flag off.
pub Moves-IsExclusive : (s t : System) → Moves s t → IsExclusive s → IsExclusive t
Moves-IsExclusive s t here h = h
Moves-IsExclusive s t (next {t = u} ms m) h = Move-IsExclusive u t m (Moves-IsExclusive s u ms h)
