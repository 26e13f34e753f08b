-- ===== src/Clock/Gate.antt =====
-- src/aprs_clock.py: `NtpLossGate`.
use kp4pra.Prelude.{
  ℕ, ◌+◌, ◌≡◌, refl, Bool, true, false, List, [], ◌∷◌, arith, ltb, leb, if◌then◌else◌,
}

pub record NtpLossGate : Type 0 where
  pub required : ℕ
  pub failures : ℕ

abbrev pub new_gate : NtpLossGate
new_gate = record { required = 3; failures = 0 }

unfoldable pub observe : Bool → NtpLossGate → NtpLossGate × Bool
observe true g = (record g { failures = 0 }, false)
observe false g =
    let n = if ltb g.required (g.failures + 1) then g.required else g.failures + 1 in
    (record g { failures = n }, leb g.required n)

-- The gate after a list of observations.
unfoldable pub observe_all : List Bool → NtpLossGate → NtpLossGate
observe_all [] g = g
observe_all (b ∷ bs) g = observe_all bs (observe b g).0

-- How many failures stand at the end of the observations, behind `n` before them.
abbrev pub lost_in_a_row : ℕ → List Bool → ℕ
lost_in_a_row n [] = n
lost_in_a_row n (true ∷ bs) = lost_in_a_row 0 bs
lost_in_a_row n (false ∷ bs) = lost_in_a_row (n + 1) bs

-- The counter, for a count `n` of which it holds as much as it can.
observe_all-failures :
    (bs : List Bool) (n : ℕ) (g : NtpLossGate)
    → g.failures ≡ (if ltb g.required n then g.required else n)
    → ((observe_all bs g).failures
        ≡ (if ltb g.required (lost_in_a_row n bs) then g.required else lost_in_a_row n bs))
      × ((observe_all bs g).required ≡ g.required)
unfolding observe_all observe
observe_all-failures [] n g h = (h, refl)
observe_all-failures (true ∷ bs) n g h =
    observe_all-failures bs 0 (record g { failures = 0 }) (ground arith)
observe_all-failures (false ∷ bs) n g h =
    observe_all-failures bs (n + 1) (observe false g).0 (ground arith)

-- After any observations and one more failure, a gate that started at 0 answers yes exactly when
-- the observations end in as many failures as it requires.
pub observe-eq-lost :
    (bs : List Bool) (g : NtpLossGate)
    → g.failures ≡ 0
    → (observe false (observe_all bs g)).1 ≡ leb g.required (lost_in_a_row 0 bs + 1)
unfolding observe
observe-eq-lost bs g h = ground (arith, observe_all-failures bs 0 g (ground arith))
