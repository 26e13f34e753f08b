-- ===== src/Vara/Announcer/Laws.antt =====
-- src/vara_launcher.py: what `Announcer.update` leaves running.
use kp4pra.Prelude.{◌∙◌}
use kp4pra.Vara.Announcer.{Bool}
use kp4pra.Vara.Announcer.{Option, ℕ}
use kp4pra.Prelude.{
  ℕ, ◌≡◌, refl, Bool, true, false, [], if◌then◌else◌, ◌&&◌, ◌⊎◌, inl, inr, Option, none, some,
  arith, Bool-cases, text_eq_refl,
}
use kp4pra.Vara.Modem.{ModemInfo, publish_commands}
use kp4pra.Vara.Announcer.{Key, Announcer, key_eq, stop, wanted, start_all, restart, update}

key_eq-same : (k : Option Key) → key_eq k k ≡ true
unfolding key_eq
key_eq-same none = refl
key_eq-same (some k) = ground (arith, text_eq_refl k.name, text_eq_refl k.type)

-- The state behind `stop` and the new start.
pub update_anew :
    (launch_port : ℕ) (info : ModemInfo) (installed found : Bool) (a : Announcer)
    → restart launch_port info found (wanted info installed) (stop a) ≡ record {
      procs = if installed && info.network && found then publish_commands launch_port info else [];
      key = wanted info installed;
    }
unfolding wanted restart start_all
update_anew launch_port info true found a = elim (Bool-cases info.network) [
  | inl e ↦ simp e (elim (Bool-cases found) [ inl f ↦ simp f refl | inr f ↦ simp f refl ])
  | inr e ↦ simp e refl
]
update_anew launch_port info false found a = refl

and-left : (a b : Bool) → (a && b) ≡ true → a ≡ true
and-left true b e = refl
and-left false b e = e

update-alive :
    (launch_port : ℕ) (info : ModemInfo) (installed found : Bool) (a : Announcer)
    → key_eq (wanted info installed) a.key ≡ true
    → update launch_port info installed true found a ≡ a
unfolding update
update-alive launch_port info installed found a e = rw e refl

-- An update either finds the key of the present settings and all processes alive, and keeps
-- everything, or starts anew: the key of the present settings, and the two commands for it where Xara
-- is installed, to be announced, and the program is there. In both cases a second update under the same
-- settings, with all processes alive, changes nothing.
pub update-settled :
    (launch_port : ℕ) (info : ModemInfo) (installed alive found found' : Bool) (a : Announcer)
    → ((update launch_port info installed alive found a ≡ a)
        ⊎ (update launch_port info installed alive found a ≡ record {
          procs =
              if installed && info.network && found then publish_commands launch_port info else [];
          key = wanted info installed;
        }))
      × (update launch_port info installed true found'
            (update launch_port info installed alive found a)
          ≡ update launch_port info installed alive found a)
unfolding update
update-settled launch_port info installed alive found found' a =
    elim (Bool-cases (key_eq (wanted info installed) a.key && alive)) [
      | inl e ↦
          let kept : update launch_port info installed alive found a ≡ a = rw e refl in
          (
            inl kept,
            rw kept (update-alive launch_port info installed found' a (and-left _ alive e)),
          )
      | inr e ↦
          let anew = (rw e refl) ∙ update_anew launch_port info installed found a in
          (
            inr anew,
            rw anew (
                update-alive launch_port info installed found' _
                  (key_eq-same (wanted info installed))),
          )
    ]
