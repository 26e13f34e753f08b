-- ===== src/Ax25/Frame/Split.antt =====
-- src/rms/ax25.py: `split_frame`.
use kp4pra.Prelude.{
  ℕ, ◌%◌, ◌||◌, true, false, Bool, Option, none, some, List, [], ◌∷◌, ◌++◌, ltb, ◌==◌,
  if◌then◌else◌, Bytes, Text, length,
}
use kp4pra.Ax25.Call.{decode_call}
use kp4pra.Ax25.Control.{is_i}

-- The `ValueError`s of `split_frame`.
pub data FrameError : Type 0 where
  short_frame truncated_address too_many_addresses missing_control missing_pid : FrameError

pub data Result {ℓ} (A : Type ℓ) : Type ℓ where
  ok : A → Result A
  err : FrameError → Result A

infixl 5 ◌>>=◌
abbrev pub ◌>>=◌ {ℓ κ} : {A : Type ℓ} {B : Type κ} → Result A → (A → Result B) → Result B
ok a >>= f = f a
err e >>= f = err e

-- The loop over the address field: seven bytes a round, until the extension bit is set.
unfoldable pub read_addresses : List Text → Bytes → Result (List Text × Bytes)
read_addresses addrs (a ∷ b ∷ c ∷ d ∷ e ∷ f ∷ g ∷ rest) =
    let addrs' = addrs ++ decode_call (a ∷ b ∷ c ∷ d ∷ e ∷ f ∷ []) g ∷ [] in
    if g % 2 == 1
    then ok (addrs', rest)
    else if ltb 10 (length addrs')
    then err too_many_addresses
    else read_addresses addrs' rest
read_addresses addrs _ = err truncated_address

-- What `split_frame` returns; no PID is `none` for its `-1`.
pub record Frame : Type 0 where
  pub dest : Text
  pub src : Text
  pub path : List Text
  pub ctrl : ℕ
  pub pid : Option ℕ
  pub payload : Bytes

-- `(ctrl&1)==0 or ctrl==0x03`: I frames and UI frames carry a PID.
unfoldable pub has_pid : ℕ → Bool
has_pid ctrl = is_i ctrl || ctrl == 0x03

read_pid : Bool → Bytes → Result (Option ℕ × Bytes)
read_pid false rest = ok (none, rest)
read_pid true [] = err missing_pid
read_pid true (pid ∷ rest) = ok (some pid, rest)

unfoldable pub read_control : List Text → Bytes → Result Frame
unfolding read_pid
read_control (dest ∷ src ∷ path) (ctrl ∷ rest) = do
  (pid, payload) ← read_pid (has_pid ctrl) rest
  ok (record { dest = dest; src = src; path = path; ctrl = ctrl; pid = pid; payload = payload })
read_control _ _ = err missing_control

unfoldable pub split_frame : Bytes → Result Frame
split_frame frame =
    if ltb (length frame) 15
    then err short_frame
    else do (addrs, rest) ← read_addresses [] frame; read_control addrs rest
