-- ===== src/Lzhuf/Crc/Detects.antt =====
-- A change of one byte changes the CRC.
use kp4pra.Prelude.{all_below}
use kp4pra.Prelude.{
  ℕ, ◌*◌, ◌/◌, ◌%◌, ◌<◌, ◌≡◌, ◌≢◌, refl, sym, ap, ◌∙◌, Bool, true, false, Option, none, some, [],
  ◌∷◌, ◌++◌, Bytes, arith, ltb, ◌==◌, if◌then◌else◌, get_elem?, bit_xor, all_below_sound, All,
}
use kp4pra.Prelude.{get_elem?}
use kp4pra.Lzhuf.Crc.{crc_shift, crc_shifts, crc16_tab, crc16_update, crc16_from, crc16}
use kp4pra.Lzhuf.Crc.Xor.{cancel_left, cancel_right, peel, bit_xor-lt}

-- The entry of the table that has a given lower byte.
inverse : Bytes
inverse =
    0 ∷ 35 ∷ 70 ∷ 101 ∷ 140 ∷ 175 ∷ 202 ∷ 233 ∷ 8 ∷ 43 ∷ 78 ∷ 109 ∷ 132 ∷ 167 ∷ 194 ∷ 225 ∷ 17 ∷ 50
    ∷ 87 ∷ 116 ∷ 157 ∷ 190 ∷ 219 ∷ 248 ∷ 25 ∷ 58 ∷ 95 ∷ 124 ∷ 149 ∷ 182 ∷ 211 ∷ 240 ∷ 34 ∷ 1 ∷ 100
    ∷ 71 ∷ 174 ∷ 141 ∷ 232 ∷ 203 ∷ 42 ∷ 9 ∷ 108 ∷ 79 ∷ 166 ∷ 133 ∷ 224 ∷ 195 ∷ 51 ∷ 16 ∷ 117 ∷ 86
    ∷ 191 ∷ 156 ∷ 249 ∷ 218 ∷ 59 ∷ 24 ∷ 125 ∷ 94 ∷ 183 ∷ 148 ∷ 241 ∷ 210 ∷ 68 ∷ 103 ∷ 2 ∷ 33 ∷ 200
    ∷ 235 ∷ 142 ∷ 173 ∷ 76 ∷ 111 ∷ 10 ∷ 41 ∷ 192 ∷ 227 ∷ 134 ∷ 165 ∷ 85 ∷ 118 ∷ 19 ∷ 48 ∷ 217 ∷ 250
    ∷ 159 ∷ 188 ∷ 93 ∷ 126 ∷ 27 ∷ 56 ∷ 209 ∷ 242 ∷ 151 ∷ 180 ∷ 102 ∷ 69 ∷ 32 ∷ 3 ∷ 234 ∷ 201 ∷ 172
    ∷ 143 ∷ 110 ∷ 77 ∷ 40 ∷ 11 ∷ 226 ∷ 193 ∷ 164 ∷ 135 ∷ 119 ∷ 84 ∷ 49 ∷ 18 ∷ 251 ∷ 216 ∷ 189 ∷ 158
    ∷ 127 ∷ 92 ∷ 57 ∷ 26 ∷ 243 ∷ 208 ∷ 181 ∷ 150 ∷ 136 ∷ 171 ∷ 206 ∷ 237 ∷ 4 ∷ 39 ∷ 66 ∷ 97 ∷ 128
    ∷ 163 ∷ 198 ∷ 229 ∷ 12 ∷ 47 ∷ 74 ∷ 105 ∷ 153 ∷ 186 ∷ 223 ∷ 252 ∷ 21 ∷ 54 ∷ 83 ∷ 112 ∷ 145 ∷ 178
    ∷ 215 ∷ 244 ∷ 29 ∷ 62 ∷ 91 ∷ 120 ∷ 170 ∷ 137 ∷ 236 ∷ 207 ∷ 38 ∷ 5 ∷ 96 ∷ 67 ∷ 162 ∷ 129 ∷ 228
    ∷ 199 ∷ 46 ∷ 13 ∷ 104 ∷ 75 ∷ 187 ∷ 152 ∷ 253 ∷ 222 ∷ 55 ∷ 20 ∷ 113 ∷ 82 ∷ 179 ∷ 144 ∷ 245 ∷ 214
    ∷ 63 ∷ 28 ∷ 121 ∷ 90 ∷ 204 ∷ 239 ∷ 138 ∷ 169 ∷ 64 ∷ 99 ∷ 6 ∷ 37 ∷ 196 ∷ 231 ∷ 130 ∷ 161 ∷ 72
    ∷ 107 ∷ 14 ∷ 45 ∷ 221 ∷ 254 ∷ 155 ∷ 184 ∷ 81 ∷ 114 ∷ 23 ∷ 52 ∷ 213 ∷ 246 ∷ 147 ∷ 176 ∷ 89 ∷ 122
    ∷ 31 ∷ 60 ∷ 238 ∷ 205 ∷ 168 ∷ 139 ∷ 98 ∷ 65 ∷ 36 ∷ 7 ∷ 230 ∷ 197 ∷ 160 ∷ 131 ∷ 106 ∷ 73 ∷ 44
    ∷ 15 ∷ 255 ∷ 220 ∷ 185 ∷ 154 ∷ 115 ∷ 80 ∷ 53 ∷ 22 ∷ 247 ∷ 212 ∷ 177 ∷ 146 ∷ 123 ∷ 88 ∷ 61 ∷ 30
    ∷ []

entry_at : Option ℕ → ℕ → Bool
entry_at none i = false
entry_at (some x) i = x == i

entry_test : ℕ → Bool
entry_test i =
    if ltb (crc16_tab i) 0x10000 then entry_at (get_elem? inverse (crc16_tab i % 256)) i else false

entry_table : all_below 256 entry_test ≡ true
unfolding all_below entry_test entry_at inverse crc16_tab crc_shifts crc_shift
entry_table = refl

entry_test_lem : (i : ℕ) → i < 256 → entry_test i ≡ true
entry_test_lem i p = all_below_sound 256 entry_test i entry_table p

crc16_tab-lt : (i : ℕ) → i < 256 → crc16_tab i < 0x10000
unfolding entry_test
crc16_tab-lt i p = ground (arith, entry_test_lem i p)

same_entry : (o : Option ℕ) (i j : ℕ) → entry_at o i ≡ true → entry_at o j ≡ true → i ≡ j
unfolding entry_at
same_entry none i j e f = absurd (cc e)
same_entry (some x) i j e f = ground (arith, e, f)

crc16_tab-injective : (i j : ℕ) → i < 256 → j < 256 → crc16_tab i % 256 ≡ crc16_tab j % 256 → i ≡ j
unfolding entry_test
crc16_tab-injective i j p q e =
    let first : entry_at (get_elem? inverse (crc16_tab i % 256)) i ≡ true =
      ground (arith, entry_test_lem i p) in
    let second : entry_at (get_elem? inverse (crc16_tab j % 256)) j ≡ true =
      ground (arith, entry_test_lem j q) in
    same_entry (get_elem? inverse (crc16_tab j % 256)) i j (rw e at first) second

-- The update without the mask, which changes nothing.
crc16_update_lem :
    (c s : ℕ)
    → c < 256
    → crc16_update c s ≡ bit_xor (bit_xor (s % 256 * 256) (crc16_tab (s / 256 % 256))) c
unfolding crc16_update
crc16_update_lem c s p =
    let mixed =
      bit_xor-lt 16 (s % 256 * 256) (crc16_tab (s / 256 % 256)) (omega arith)
        (crc16_tab-lt (s / 256 % 256) (omega arith)) in
    let small =
      bit_xor-lt 16 (bit_xor (s % 256 * 256) (crc16_tab (s / 256 % 256))) c mixed (omega arith) in
    omega (arith, small)

crc16_update-lt : (c s : ℕ) → crc16_update c s < 0x10000
unfolding crc16_update
crc16_update-lt c s = omega arith

-- Eight zeros below leave the lower byte of the other operand.
peel_byte :
    (u u' t t' : ℕ)
    → bit_xor (u * 256) t ≡ bit_xor (u' * 256) t'
    → (t % 256 ≡ t' % 256) × (bit_xor u (t / 256) ≡ bit_xor u' (t' / 256))
peel_byte u u' t t' e =
    let scaled : u * 256 ≡ 2 * (2 * (2 * (2 * (2 * (2 * (2 * (2 * u))))))) = omega arith in
    let scaled' : u' * 256 ≡ 2 * (2 * (2 * (2 * (2 * (2 * (2 * (2 * u'))))))) = omega arith in
    let e0 = ap (λ x. bit_xor x t) (sym scaled) ∙ e ∙ ap (λ x. bit_xor x t') scaled' in
    let p1 =
      peel (2 * (2 * (2 * (2 * (2 * (2 * (2 * u))))))) (2 * (2 * (2 * (2 * (2 * (2 * (2 * u')))))))
        t t' e0 in
    let p2 =
      peel (2 * (2 * (2 * (2 * (2 * (2 * u)))))) (2 * (2 * (2 * (2 * (2 * (2 * u')))))) (t / 2)
        (t' / 2) p1.1 in
    let p3 =
      peel (2 * (2 * (2 * (2 * (2 * u))))) (2 * (2 * (2 * (2 * (2 * u'))))) (t / 2 / 2) (t' / 2 / 2)
        p2.1 in
    let p4 =
      peel (2 * (2 * (2 * (2 * u)))) (2 * (2 * (2 * (2 * u')))) (t / 2 / 2 / 2) (t' / 2 / 2 / 2)
        p3.1 in
    let p5 =
      peel (2 * (2 * (2 * u))) (2 * (2 * (2 * u'))) (t / 2 / 2 / 2 / 2) (t' / 2 / 2 / 2 / 2) p4.1 in
    let p6 =
      peel (2 * (2 * u)) (2 * (2 * u')) (t / 2 / 2 / 2 / 2 / 2) (t' / 2 / 2 / 2 / 2 / 2) p5.1 in
    let p7 = peel (2 * u) (2 * u') (t / 2 / 2 / 2 / 2 / 2 / 2) (t' / 2 / 2 / 2 / 2 / 2 / 2) p6.1 in
    let p8 = peel u u' (t / 2 / 2 / 2 / 2 / 2 / 2 / 2) (t' / 2 / 2 / 2 / 2 / 2 / 2 / 2) p7.1 in
    let low : t / 2 / 2 / 2 / 2 / 2 / 2 / 2 / 2 ≡ t / 256 = omega arith in
    let low' : t' / 2 / 2 / 2 / 2 / 2 / 2 / 2 / 2 ≡ t' / 256 = omega arith in
    (
      omega (arith, p1.0, p2.0, p3.0, p4.0, p5.0, p6.0, p7.0, p8.0),
      ap (bit_xor u) (sym low) ∙ p8.1 ∙ ap (bit_xor u') low',
    )

crc16_update-injective :
    (c s s' : ℕ)
    → c < 256
    → s < 0x10000
    → s' < 0x10000
    → crc16_update c s ≡ crc16_update c s'
    → s ≡ s'
crc16_update-injective c s s' p q r e =
    let mixed =
      cancel_right (bit_xor (s % 256 * 256) (crc16_tab (s / 256 % 256)))
        (bit_xor (s' % 256 * 256) (crc16_tab (s' / 256 % 256))) c
        (sym (crc16_update_lem c s p) ∙ e ∙ crc16_update_lem c s' p) in
    let (low, high) =
      peel_byte (s % 256) (s' % 256) (crc16_tab (s / 256 % 256)) (crc16_tab (s' / 256 % 256))
        mixed in
    let index : s / 256 % 256 ≡ s' / 256 % 256 =
      crc16_tab-injective (s / 256 % 256) (s' / 256 % 256) (omega arith) (omega arith) low in
    let rest : s % 256 ≡ s' % 256 =
      cancel_right (s % 256) (s' % 256) (crc16_tab (s' / 256 % 256) / 256) (rw index at high) in
    omega (arith, index, rest)

crc16_from-injective :
    (t : Bytes) (s s' : ℕ)
    → All (λ c. c < 256) t
    → s < 0x10000
    → s' < 0x10000
    → crc16_from s t ≡ crc16_from s' t
    → s ≡ s'
unfolding crc16_from
crc16_from-injective [] s s' p q r e = e
crc16_from-injective (c ∷ t) s s' p q r e = crc16_update-injective c s s' p.0 q r (
    crc16_from-injective t (crc16_update c s) (crc16_update c s') p.1 (crc16_update-lt c s)
      (crc16_update-lt c s') e)

crc16_from-lt : (t : Bytes) (s : ℕ) → s < 0x10000 → crc16_from s t < 0x10000
unfolding crc16_from
crc16_from-lt [] s p = p
crc16_from-lt (c ∷ t) s p = crc16_from-lt t (crc16_update c s) (crc16_update-lt c s)

changed_from :
    (a b : Bytes) (x y s : ℕ)
    → All (λ c. c < 256) b
    → x < 256
    → y < 256
    → s < 0x10000
    → crc16_from s (a ++ x ∷ b) ≡ crc16_from s (a ++ y ∷ b)
    → x ≡ y
unfolding crc16_from
changed_from [] b x y s p q r k e =
    let same =
      crc16_from-injective b (crc16_update x s) (crc16_update y s) p (crc16_update-lt x s)
        (crc16_update-lt y s) e in
    cancel_left (bit_xor (s % 256 * 256) (crc16_tab (s / 256 % 256))) x y
      (sym (crc16_update_lem x s q) ∙ same ∙ crc16_update_lem y s r)
changed_from (c ∷ a) b x y s p q r k e =
    changed_from a b x y (crc16_update c s) p q r (crc16_update-lt c s) e

-- Two streams of bytes that differ in exactly one byte, wherever it stands, have different CRCs.
pub crc16-changed :
    (a b : Bytes) (x y : ℕ)
    → All (λ c. c < 256) b
    → x < 256
    → y < 256
    → x ≢ y
    → crc16 (a ++ x ∷ b) ≢ crc16 (a ++ y ∷ b)
unfolding crc16
crc16-changed a b x y p q r d e = d (
    changed_from a b x y 0 p q r (omega arith) (
      crc16_from-injective (0 ∷ 0 ∷ []) (crc16_from 0 (a ++ x ∷ b)) (crc16_from 0 (a ++ y ∷ b))
        (omega arith, (omega arith, tt)) (crc16_from-lt (a ++ x ∷ b) 0 (omega arith))
        (crc16_from-lt (a ++ y ∷ b) 0 (omega arith)) e))

pub crc16-lt : (s : Bytes) → crc16 s < 0x10000
unfolding crc16
crc16-lt s = crc16_from-lt (0 ∷ 0 ∷ []) (crc16_from 0 s) (crc16_from-lt s 0 (omega arith))
