-- ===== src/Aprs/MsgNo.antt =====
-- src/web/aprs.py: `MsgNoGen`.
use kp4pra.PyText.Decimal.{int, int-decimal}
use kp4pra.Prelude.{sym, ap, ◌∙◌}
use kp4pra.Prelude.{
  ℕ, zero, suc, ◌+◌, ◌%◌, ◌≤◌, ◌<◌, ◌≡◌, ◌≢◌, Text, arith, length, ltb, if◌then◌else◌,
}
use kp4pra.PyText.Decimal.{decimal, length-decimal, length-decimal_pos}

pub record MsgNoGen : Type 0 where
  pub value : ℕ

-- `max(1, int(start)) % 100000`
abbrev pub msg_no_gen : ℕ → MsgNoGen
msg_no_gen start = record { value = (if ltb start 1 then 1 else start) % 100000 }

unfoldable pub next : MsgNoGen → MsgNoGen × Text
next g = (record { value = g.value % 99999 + 1 }, decimal g.value)

-- A number that can go out: 1 to 99999.
pub record IsMsgNo (g : MsgNoGen) : Type 0 where
  pub positive : 1 ≤ g.value
  pub small : g.value ≤ 99999

pub msg_no_gen-IsMsgNo : (start : ℕ) → start < 100000 → IsMsgNo (msg_no_gen start)
msg_no_gen-IsMsgNo start h = ground arith

pub next-IsMsgNo : (g : MsgNoGen) → IsMsgNo g → IsMsgNo (next g).0
unfolding next
next-IsMsgNo g v = omega arith

-- The numbers that go out have one to five digits.
pub length-next : (g : MsgNoGen) → IsMsgNo g → (1 ≤ length (next g).1) × (length (next g).1 ≤ 5)
unfolding next
length-next g v = (length-decimal_pos g.value, length-decimal 4 g.value (omega (arith, v.small)))

-- The state after `n` calls of `next`.
unfoldable pub next_times : ℕ → MsgNoGen → MsgNoGen
next_times zero g = g
next_times (suc n) g = next_times n (next g).0

-- The value after `n` calls, in closed form.
pub value-next_times :
    (n : ℕ) (g : MsgNoGen) → IsMsgNo g → (next_times n g).value ≡ (g.value + n + 99998) % 99999 + 1
unfolding next_times next
value-next_times zero g v = omega arith
value-next_times (suc n) g v = omega (arith, value-next_times n (next g).0 (next-IsMsgNo g v))

-- The text of a number determines it.
decimal-injective : (m n : ℕ) → decimal m ≡ decimal n → m ≡ n
decimal-injective m n e = cc (sym (int-decimal m) ∙ ap int e ∙ int-decimal n)

-- From a value in 1 to 99999: the text that `next` hands out is not that of the `n`th call behind it,
-- for `n` from 1 to 99998, and it is that of the 99999th.
pub next_times-cycle :
    (n : ℕ) (g : MsgNoGen)
    → IsMsgNo g
    → 1 ≤ n
    → n ≤ 99998
    → ((next (next_times n g)).1 ≢ (next g).1) × ((next (next_times 99999 g)).1 ≡ (next g).1)
unfolding next
next_times-cycle n g v low high =
    let again : (next_times 99999 g).value ≡ g.value = omega (arith, value-next_times 99999 g v) in
    (
      λ e.
          let same = decimal-injective (next_times n g).value g.value e in
          omega (arith, value-next_times n g v, same),
      ap decimal again,
    )
