-- ===== src/Decimal.antt =====
-- Python's `decimal.Decimal`, as the source uses it: finite values under a context of `prec`
-- significant digits with ROUND_HALF_EVEN. Every finite value of such a context is a whole number
-- of units of 10^-places, where `places` is -Etiny (28 and 1000026 in the default context), so a
-- value is that whole number. Signed zeros are one value, and the upper exponent limit is not
-- modelled. Unary minus and `abs` are exact: they leave a value of at most `prec` digits as it is,
-- and no column or result of the source has more.
pub mod Rounding
pub mod Laws
use vault.Base.{
  ℕ, zero, suc, ◌+◌, ◌-◌, ◌*◌, ◌/◌, ◌%◌, ◌^◌, Bool, true, false, ◌≡◌, ltb, ◌==◌, if◌then◌else◌, ℤ,
  pos, negsuc, pos_part, neg_part, magnitude, neg, ◌+ℤ◌, ◌-ℤ◌, ltb_ℤ, leb_ℤ, eqb_ℤ, Result, ok, err,
  division_by_zero,
}

pub record Context : Type 0 where
  pub prec : ℕ
  pub places : ℕ

abbrev pub Decimal : Type 0
Decimal = ℤ

-- The number of decimal digits of n, with fuel; n itself is fuel enough.
digit_count : ℕ → ℕ → ℕ
digit_count zero n = 0
digit_count (suc fuel) n = let rest = suc (digit_count fuel (n / 10)) in if n == 0 then 0 else rest

unfoldable pub digits : ℕ → ℕ
unfolding digit_count
digits n = digit_count n n

-- n / d to the nearest whole number, a tie to the even one.
half_even : ℕ → ℕ → ℕ
half_even n d =
    let q = n / d in
    let r = n % d in if ltb (r + r) d then q else if ltb d (r + r) then q + 1 else q + q % 2

signed : Bool → ℕ → ℤ
signed true n = neg (pos n)
signed false n = pos n

abbrev is_negative : ℤ → Bool
is_negative (pos n) = false
is_negative (negsuc n) = true

abbrev differ : Bool → Bool → Bool
differ true true = false
differ false false = false
differ _ _ = true

abbrev pub decimal_zero : Decimal
decimal_zero = pos 0

module _ ⦃c : Context⦄ where
  -- The unit of the last digit that the context keeps of p / q.
  pub quantum : ℕ → ℕ → ℕ
  unfolding digits
  quantum p q = 10 ^ (digits (p / q) - c.prec)

  -- p / q units, rounded to the digits of the context.
  pub round : ℕ → ℕ → ℕ
  unfolding half_even quantum
  round p q = half_even p (q * quantum p q) * quantum p q

  -- `Decimal(n)`
  unfoldable pub whole : ℕ → Decimal
  whole n = pos (n * 10 ^ c.places)

  unfoldable pub fit : ℤ → Decimal
  unfolding round signed
  fit a = signed (is_negative a) (round (magnitude a) 1)

  infixl 65 ◌⊕◌ ◌⊖◌
  infixl 70 ◌⊗◌
  -- `a + b`, `a - b`, `a * b`
  unfoldable pub ◌⊕◌ : Decimal → Decimal → Decimal
  unfolding fit
  a ⊕ b = fit (a +ℤ b)

  unfoldable pub ◌⊖◌ : Decimal → Decimal → Decimal
  unfolding fit
  a ⊖ b = fit (a -ℤ b)

  unfoldable pub ◌⊗◌ : Decimal → Decimal → Decimal
  unfolding round signed
  a ⊗ b =
      signed (differ (is_negative a) (is_negative b))
        (round (magnitude a * magnitude b) (10 ^ c.places))

  -- `a / b` for b other than zero
  unfoldable pub quotient : Decimal → Decimal → Decimal
  unfolding round signed
  quotient a b =
      signed (differ (is_negative a) (is_negative b))
        (round (magnitude a * 10 ^ c.places) (magnitude b))

  -- `a / b`
  unfoldable pub divide : Decimal → Decimal → Result Decimal
  unfolding quotient
  divide a b = if eqb_ℤ b decimal_zero then err division_by_zero else ok (quotient a b)

  -- `a.quantize(Decimal(10) ** -n)`, rounding half to even. The exception on a result of more than
  -- `prec` digits is not modelled: a column that takes the result holds no such value.
  unfoldable pub quantize : ℕ → Decimal → Decimal
  unfolding half_even signed
  quantize n a =
      let unit = 10 ^ (c.places - n) in signed (is_negative a) (half_even (magnitude a) unit * unit)

unfoldable pub min : Decimal → Decimal → Decimal
min a b = if ltb_ℤ b a then b else a

unfoldable pub max : Decimal → Decimal → Decimal
max a b = if ltb_ℤ a b then b else a

unfoldable pub abs : Decimal → Decimal
abs a = pos (magnitude a)
