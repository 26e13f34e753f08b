-- ===== src/Feed/Frame/Coding.antt =====
-- The mask, the length bytes and the first byte of a frame, undone.
use kp4pra.Prelude.{all_below, ◌^◌}
use kp4pra.Prelude.{
  ℕ, zero, suc, ◌+◌, ◌*◌, ◌/◌, ◌%◌, ◌<◌, ◌≡◌, refl, ap, ◌∙◌, true, none, some, [], ◌∷◌, ◌++◌, Bytes,
  arith, length, length-append, ◌==◌, get_elem?, bit_and, bit_or, bit_xor, ==_iff, all_below_sound,
  All,
}
use kp4pra.Feed.Frame.{mask_at, masked, be_bytes, be_value, be_from}

abbrev pub IsByte : ℕ → Type 0
IsByte b = b < 256

pub xor_passes :
    all_below 256 (λ (b : ℕ). all_below 256 (λ (m : ℕ). bit_xor (bit_xor b m) m == b)) ≡ true
unfolding all_below
xor_passes = refl

pub xor-xor : (b m : ℕ) → IsByte b → IsByte m → bit_xor (bit_xor b m) m ≡ b
xor-xor b m h k =
    let row =
      all_below_sound 256 (λ (b : ℕ). all_below 256 (λ (m : ℕ). bit_xor (bit_xor b m) m == b)) b
        xor_passes h in
    let cell = all_below_sound 256 (λ (m : ℕ). bit_xor (bit_xor b m) m == b) m row k in
    (==_iff _ _).0 cell

pub mask_at-IsByte : (mask : Bytes) (i : ℕ) → All IsByte mask → IsByte (mask_at mask i)
unfolding mask_at
mask_at-IsByte mask i h = in_mask mask (i % 4) h
  where
    in_mask :
        (mask : Bytes) (k : ℕ)
        → All IsByte mask
        → IsByte (elim (get_elem? mask k) [ none ↦ 0 | some m ↦ m ])
    in_mask [] k h = omega arith
    in_mask (m ∷ mask) zero h = h.0
    in_mask (m ∷ mask) (suc k) h = in_mask mask k h.1

pub masked-masked :
    (mask : Bytes) (i : ℕ) (s : Bytes)
    → All IsByte mask
    → All IsByte s
    → masked mask i (masked mask i s) ≡ s
unfolding masked
masked-masked mask i [] h k = refl
masked-masked mask i (b ∷ s) h k =
    rw (xor-xor b (mask_at mask i) k.0 (mask_at-IsByte mask i h))
      (ap (◌∷◌ b) (masked-masked mask (i + 1) s h k.1))

pub length-masked : (mask : Bytes) (i : ℕ) (s : Bytes) → length (masked mask i s) ≡ length s
unfolding masked
length-masked mask i [] = refl
length-masked mask i (b ∷ s) = ap suc (length-masked mask (i + 1) s)

pub be_from-append : (n b : ℕ) (s : Bytes) → be_from n (s ++ b ∷ []) ≡ be_from n s * 256 + b
unfolding be_from
be_from-append n b [] = refl
be_from-append n b (a ∷ s) = be_from-append (n * 256 + a) b s

pub be_value-be_bytes : (k n : ℕ) → n < 256 ^ k → be_value (be_bytes k n) ≡ n
unfolding be_value be_bytes
be_value-be_bytes zero n h = omega arith
be_value-be_bytes (suc k) n h =
    let bound : n / 256 < 256 ^ k = room k n h in
    be_from-append 0 (n % 256) (be_bytes k (n / 256))
    ∙ ap (λ v. v * 256 + n % 256) (be_value-be_bytes k (n / 256) bound)
    ∙ omega arith
  where
    room : (k n : ℕ) → n < 256 ^ suc k → n / 256 < 256 ^ k
    room k n h = omega (arith, h)

pub length-be_bytes : (k n : ℕ) → length (be_bytes k n) ≡ k
unfolding be_bytes
length-be_bytes zero n = refl
length-be_bytes (suc k) n =
    omega (arith, length-append (be_bytes k (n / 256)) (n % 256 ∷ []), length-be_bytes k (n / 256))

pub op_passes : all_below 16 (λ (op : ℕ). bit_and (bit_or 0x80 op) 0x0F == op) ≡ true
unfolding all_below
op_passes = refl

pub op_bits : (op : ℕ) → op < 16 → bit_and (bit_or 0x80 op) 0x0F ≡ op
op_bits op h =
    (==_iff _ _).0
      (all_below_sound 16 (λ (op : ℕ). bit_and (bit_or 0x80 op) 0x0F == op) op op_passes h)

pub low_passes : all_below 128 (λ (n : ℕ). bit_and (bit_or 0x80 n) 0x7F == n) ≡ true
unfolding all_below
low_passes = refl

pub high_passes : all_below 128 (λ (n : ℕ). bit_and (bit_or 0x80 n) 0x80 == 0x80) ≡ true
unfolding all_below
high_passes = refl

pub length_bits :
    (n : ℕ) → n < 128 → (bit_and (bit_or 0x80 n) 0x7F ≡ n) × (bit_and (bit_or 0x80 n) 0x80 ≡ 0x80)
length_bits n h = (
  (==_iff _ _).0
      (all_below_sound 128 (λ (n : ℕ). bit_and (bit_or 0x80 n) 0x7F == n) n low_passes h),
  (==_iff _ _).0
      (all_below_sound 128 (λ (n : ℕ). bit_and (bit_or 0x80 n) 0x80 == 0x80) n high_passes h),
)
