-- ===== src/Decimal/Laws.antt =====
-- What the services rely on of decimal arithmetic: signs, order, and exactness within the digits.
use native.Mathlib.Nat.{zero-mul, mul-pos, mul-le-mul_left, mul-le-mul_right, pow-suc}
use vault.Base.{
  ℕ, zero, ◌≤◌, ◌*◌, ◌^◌, ◌<◌, ◌≡◌, ap, arith, false, ℤ, pos, negsuc, pos_part, neg_part, magnitude,
  neg, ◌+ℤ◌, ◌-ℤ◌, ◌≤ℤ◌, ◌<ℤ◌, int_laws, ok, eqb_ℤ, suc, ◌∙◌, eq_of_parts,
}
use vault.Decimal.{
  Context, Decimal, signed, round, fit, whole, ◌⊕◌, ◌⊖◌, ◌⊗◌, quotient, divide, min, max,
  decimal_zero,
}
use vault.Decimal.Rounding.{Representable, round-mul, round_mono, pow_pos}

-- A value that the context holds without rounding.
abbrev pub IsExact : ⦃c : Context⦄ → ℤ → Type 0
IsExact ⦃c⦄ a = Representable c.prec (magnitude a)

module _ ⦃c : Context⦄ where
  round-zero : (q : ℕ) → 0 < q → round 0 q ≡ 0
  round-zero q h =
      rw (← zero-mul q) (round-mul 0 q h (0, 0, pow_pos c.prec, omega arith) ∙ omega arith)

  round-one : (v : ℕ) → Representable c.prec v → round v 1 ≡ v
  round-one v h = ap (λ (t : ℕ). round t 1) (omega arith) ∙ round-mul v 1 (omega arith) h

  pub fit-IsExact : (a : ℤ) → IsExact a → fit a ≡ a
  unfolding fit signed neg
  fit-IsExact (pos n) h = ap pos (round-one n h)
  fit-IsExact (negsuc n) h = ground (arith, round-one (suc n) h)

  -- Rounding keeps the order.
  pub fit_mono : (a b : ℤ) → 0 < c.prec → a ≤ℤ b → fit a ≤ℤ fit b
  unfolding fit signed neg
  fit_mono (pos n) (pos m) pr h = ground (arith, round_mono n m 1 (omega arith) pr)
  fit_mono (pos n) (negsuc m) pr h = absurd (omega arith)
  fit_mono (negsuc n) (pos m) pr h = ground arith
  fit_mono (negsuc n) (negsuc m) pr h =
      ground (arith, round_mono (suc m) (suc n) 1 (omega arith) pr)

  pub fit_nonneg : (a : ℤ) → decimal_zero ≤ℤ a → decimal_zero ≤ℤ fit a
  unfolding fit signed neg
  fit_nonneg (pos n) h = omega arith
  fit_nonneg (negsuc n) h = absurd (omega arith)

  pub fit_nonpos : (a : ℤ) → a ≤ℤ decimal_zero → fit a ≤ℤ decimal_zero
  unfolding fit signed neg
  fit_nonpos (pos n) h = rw (round-one n (0, 0, pow_pos c.prec, omega arith)) h
  fit_nonpos (negsuc n) h = ground arith

  pub ⊕_nonneg : (a b : Decimal) → decimal_zero ≤ℤ a → decimal_zero ≤ℤ b → decimal_zero ≤ℤ a ⊕ b
  unfolding ◌⊕◌
  ⊕_nonneg a b h k = fit_nonneg (a +ℤ b) (omega int_laws)

  pub ⊖_nonneg : (a b : Decimal) → b ≤ℤ a → decimal_zero ≤ℤ a ⊖ b
  unfolding ◌⊖◌
  ⊖_nonneg a b h = fit_nonneg (a -ℤ b) (omega int_laws)

  pub ⊖_nonpos : (a b : Decimal) → a ≤ℤ b → a ⊖ b ≤ℤ decimal_zero
  unfolding ◌⊖◌
  ⊖_nonpos a b h = fit_nonpos (a -ℤ b) (omega int_laws)

  pub ⊗_nonneg : (a b : Decimal) → decimal_zero ≤ℤ a → decimal_zero ≤ℤ b → decimal_zero ≤ℤ a ⊗ b
  unfolding ◌⊗◌ signed
  ⊗_nonneg (pos n) (pos m) h k = omega arith
  ⊗_nonneg (negsuc n) b h k = absurd (omega arith)
  ⊗_nonneg (pos n) (negsuc m) h k = absurd (omega arith)

  pub quotient_nonneg :
      (a b : Decimal) → decimal_zero ≤ℤ a → decimal_zero ≤ℤ b → decimal_zero ≤ℤ quotient a b
  unfolding quotient signed
  quotient_nonneg (pos n) (pos m) h k = omega arith
  quotient_nonneg (negsuc n) b h k = absurd (omega arith)
  quotient_nonneg (pos n) (negsuc m) h k = absurd (omega arith)

  -- Taking away what is not negative from an exact value does not raise it.
  pub ⊖-le : (a b : Decimal) → 0 < c.prec → IsExact a → decimal_zero ≤ℤ b → a ⊖ b ≤ℤ a
  unfolding ◌⊖◌
  ⊖-le a b pr e h = omega (
    arith,
    fit_mono (a -ℤ b) a pr (omega int_laws),
    ap pos_part (fit-IsExact a e),
    ap neg_part (fit-IsExact a e),
  )

  pub ⊕-IsExact : (a b : Decimal) → IsExact (a +ℤ b) → a ⊕ b ≡ a +ℤ b
  unfolding ◌⊕◌
  ⊕-IsExact a b h = fit-IsExact (a +ℤ b) h

  pub ⊖-IsExact : (a b : Decimal) → IsExact (a -ℤ b) → a ⊖ b ≡ a -ℤ b
  unfolding ◌⊖◌
  ⊖-IsExact a b h = fit-IsExact (a -ℤ b) h

  pub ⊖-self : (a : Decimal) → a ⊖ a ≡ decimal_zero
  unfolding ◌⊖◌
  ⊖-self a =
      ap fit (eq_of_parts (a -ℤ a) decimal_zero (omega int_laws))
      ∙ fit-IsExact decimal_zero (0, 0, pow_pos c.prec, omega arith)

  pub divide-ok : (a b : Decimal) → decimal_zero <ℤ b → divide a b ≡ ok (quotient a b)
  unfolding divide
  divide-ok a b h = ground arith

module _ ⦃c : Context⦄ where
  pub divide-ne_zero :
      (a b : Decimal) → eqb_ℤ b decimal_zero ≡ false → divide a b ≡ ok (quotient a b)
  unfolding divide
  divide-ne_zero a b h = rw h

pub min_le : (a b : Decimal) → (min a b ≤ℤ a) × (min a b ≤ℤ b)
unfolding min
min_le a b = ground arith

pub le-min : (a b x : Decimal) → x ≤ℤ a → x ≤ℤ b → x ≤ℤ min a b
unfolding min
le-min a b x h k = ground arith

pub le_max : (a b : Decimal) → (a ≤ℤ max a b) × (b ≤ℤ max a b)
unfolding max
le_max a b = ground arith

module _ ⦃c : Context⦄ where
  pub whole_nonneg : (n : ℕ) → decimal_zero ≤ℤ whole n
  unfolding whole
  whole_nonneg n = omega arith

  pub whole-ne_zero : (n : ℕ) → 0 < n → eqb_ℤ (whole n) decimal_zero ≡ false
  unfolding whole
  whole-ne_zero n h =
      let positive : 0 < n * 10 ^ c.places = mul-pos h (pow_pos c.places) in ground arith

one_small : (k : ℕ) → 0 < k → 1 < 10 ^ k
one_small zero h = omega arith
one_small (suc k) h = omega (arith, pow-suc 10 k, pow_pos k)

-- A part of a whole in percent.
module _ ⦃c : Context⦄ where
  unit-Representable : 0 < c.prec → Representable c.prec (10 ^ c.places)
  unit-Representable h = (1, c.places, one_small c.prec h, omega arith)

  hundred-Representable : 0 < c.prec → Representable c.prec (100 * 10 ^ c.places)
  hundred-Representable h = (
    1,
    suc (suc c.places),
    one_small c.prec h,
    omega (arith, pow-suc 10 c.places, pow-suc 10 (suc c.places)),
  )

  round-part : (n m : ℕ) → 0 < c.prec → n ≤ m → 0 < m → round (n * 10 ^ c.places) m ≤ 10 ^ c.places
  round-part n m pr h k =
      let bound =
        round_mono (n * 10 ^ c.places) (m * 10 ^ c.places) m k pr
          (mul-le-mul_right (10 ^ c.places) h) in
      let full : round (m * 10 ^ c.places) m ≡ 10 ^ c.places =
        ap (λ (t : ℕ). round t m) (omega arith)
        ∙ round-mul (10 ^ c.places) m k (unit-Representable pr) in
      omega (arith, bound, full)

  round-percent :
      (q : ℕ)
      → 0 < c.prec
      → q ≤ 10 ^ c.places
      → round (q * (100 * 10 ^ c.places)) (10 ^ c.places) ≤ 100 * 10 ^ c.places
  round-percent q pr h =
      let bound =
        round_mono (q * (100 * 10 ^ c.places)) (10 ^ c.places * (100 * 10 ^ c.places))
          (10 ^ c.places) (pow_pos c.places) pr (mul-le-mul_right (100 * 10 ^ c.places) h) in
      let full : round (10 ^ c.places * (100 * 10 ^ c.places)) (10 ^ c.places)
          ≡ 100 * 10 ^ c.places =
        ap (λ (t : ℕ). round t (10 ^ c.places)) (omega arith)
        ∙ round-mul (100 * 10 ^ c.places) (10 ^ c.places) (pow_pos c.places)
            (hundred-Representable pr) in
      omega (arith, bound, full)

  -- A part is at most a hundred percent of its whole.
  pub percent-le :
      (n m : ℕ)
      → 0 < c.prec
      → n ≤ m
      → 0 < m
      → magnitude (quotient (pos n) (pos m) ⊗ whole 100) ≤ 100 * 10 ^ c.places
  unfolding quotient ◌⊗◌ whole signed
  percent-le n m pr h k = round-percent (round (n * 10 ^ c.places) m) pr (round-part n m pr h k)

  -- A percentage of at most a hundred of an exact value is at most that value.
  pub percentage-le :
      (a rate : Decimal)
      → 0 < c.prec
      → IsExact a
      → decimal_zero ≤ℤ a
      → decimal_zero ≤ℤ rate
      → rate ≤ℤ whole 100
      → a ⊗ quotient rate (whole 100) ≤ℤ a
  unfolding quotient ◌⊗◌ whole signed
  percentage-le (negsuc n) rate pr e h k l = absurd (omega arith)
  percentage-le (pos n) (negsuc m) pr e h k l = absurd (omega arith)
  percentage-le (pos n) (pos m) pr e h k l =
      let q = round (m * 10 ^ c.places) (100 * 10 ^ c.places) in
      let part : q ≤ 10 ^ c.places =
        round-part m (100 * 10 ^ c.places) pr (omega arith) (omega (arith, pow_pos c.places)) in
      let bound =
        round_mono (n * q) (n * 10 ^ c.places) (10 ^ c.places) (pow_pos c.places) pr
          (mul-le-mul_left n part) in
      omega (arith, bound, round-mul n (10 ^ c.places) (pow_pos c.places) e)
