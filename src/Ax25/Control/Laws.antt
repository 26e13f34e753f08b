-- ===== src/Ax25/Control/Laws.antt =====
-- What the constructors of control fields put where the tests and the readers look.
use kp4pra.Prelude.{if◌then◌else◌}
use kp4pra.Prelude.{
  ℕ, ◌<◌, ◌≡◌, refl, Bool, true, false, not, ◌&&◌, ◌==◌, all_below, all_below_sound, arith,
}
use kp4pra.Ax25.Control.{is_s, is_sabm, is_disc, is_i, poll_bit, ns, nr, rr, iframe}

-- A property of two sequence numbers, at all 64 pairs.
abbrev pairs : (ℕ → ℕ → Bool) → Bool
pairs p = all_below 8 (λ s. all_below 8 (p s))

pairs_sound : (p : ℕ → ℕ → Bool) (s r : ℕ) → pairs p ≡ true → s < 8 → r < 8 → p s r ≡ true
pairs_sound p s r h hs hr =
    all_below_sound 8 (p s) r (all_below_sound 8 (λ k. all_below 8 (p k)) s h hs) hr

abbrev iframe_row : Bool → ℕ → ℕ → Bool
iframe_row pf s r =
    let c = iframe s r pf in
    ns c == s
    && (nr c == r
        && (is_i c
            && (not (is_s c)
                && (not (is_sabm c)
                    && (not (is_disc c) && (if pf then poll_bit c else not (poll_bit c)))))))

iframe_table : (pf : Bool) → pairs (iframe_row pf) ≡ true
unfolding all_below iframe ns nr is_i is_s is_sabm is_disc poll_bit
iframe_table true = refl
iframe_table false = refl

pub record IsIframe (c s r : ℕ) (pf : Bool) : Type 0 where
  pub ns_is : ns c ≡ s
  pub nr_is : nr c ≡ r
  pub i_frame : is_i c ≡ true
  pub not_s : is_s c ≡ false
  pub not_sabm : is_sabm c ≡ false
  pub not_disc : is_disc c ≡ false
  pub poll_is : poll_bit c ≡ pf

-- An I frame carries both numbers and the poll bit, and is taken for nothing else.
pub iframe-IsIframe : (s r : ℕ) (pf : Bool) → s < 8 → r < 8 → IsIframe (iframe s r pf) s r pf
iframe-IsIframe s r true hs hr =
    ground (arith, pairs_sound (iframe_row true) s r (iframe_table true) hs hr)
iframe-IsIframe s r false hs hr =
    ground (arith, pairs_sound (iframe_row false) s r (iframe_table false) hs hr)

abbrev rr_row : Bool → ℕ → Bool
rr_row pf n =
    let c = rr n pf in
    nr c == n
    && (is_s c
        && (not (is_i c)
            && (not (is_sabm c)
                && (not (is_disc c) && (if pf then poll_bit c else not (poll_bit c))))))

rr_table : (pf : Bool) → all_below 8 (rr_row pf) ≡ true
unfolding all_below rr ns nr is_i is_s is_sabm is_disc poll_bit
rr_table true = refl
rr_table false = refl

pub record IsRr (c n : ℕ) (pf : Bool) : Type 0 where
  pub nr_is : nr c ≡ n
  pub s_frame : is_s c ≡ true
  pub not_i : is_i c ≡ false
  pub not_sabm : is_sabm c ≡ false
  pub not_disc : is_disc c ≡ false
  pub final_is : poll_bit c ≡ pf

-- An RR carries its number and the final bit, and is taken for nothing else.
pub rr-IsRr : (n : ℕ) (pf : Bool) → n < 8 → IsRr (rr n pf) n pf
rr-IsRr n true h = ground (arith, all_below_sound 8 (rr_row true) n (rr_table true) h)
rr-IsRr n false h = ground (arith, all_below_sound 8 (rr_row false) n (rr_table false) h)
