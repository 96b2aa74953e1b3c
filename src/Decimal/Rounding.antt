-- ===== src/Decimal/Rounding.antt =====
-- The rounding of the decimal context, against exact values.
use native.Mathlib.Nat.{
  pow-suc, pow-zero, add-zero, one-le-pow, mul-div_cancel, pow-le-pow_right, mul-mod_left,
  mul-le-mul_right, div-add-mod', mod-lt, le-div_iff_mul-le, div-lt_iff_lt-mul, le_of_eq,
  div-mul-le_self, le_trans, mul-one,
}
use native.Mathlib.Decide.{dec_lt, ℕ_discrete}
use vault.Base.{ℕ, zero, suc, ◌+◌, ◌-◌, ◌*◌, ◌/◌, ◌%◌, ◌^◌, ◌≤◌, ◌<◌, ◌≡◌, ap, arith, inl, inr, ◌⊎◌}
use vault.Decimal.{Context, digit_count, digits, half_even, quantum, round}

pub pow_pos : (k : ℕ) → 0 < 10 ^ k
pow_pos k = one-le-pow k 10 (omega arith)

digit_count-le : (fuel n d : ℕ) → n < 10 ^ d → digit_count fuel n ≤ d
unfolding digit_count
digit_count-le zero n d h = omega arith
digit_count-le (suc fuel) n zero h = ground arith
digit_count-le (suc fuel) n (suc d) h = ground (arith, pow-suc 10 d, digit_count-le fuel (n / 10) d)

lt-pow-digit_count : (fuel n : ℕ) → n ≤ fuel → n < 10 ^ digit_count fuel n
unfolding digit_count
lt-pow-digit_count zero n h = omega arith
lt-pow-digit_count (suc fuel) n h =
    ground (arith, pow-suc 10 (digit_count fuel (n / 10)), lt-pow-digit_count fuel (n / 10))

half_even-mul : (w d : ℕ) → 0 < d → half_even (w * d) d ≡ w
unfolding half_even
half_even-mul w d h = rw (mul-div_cancel w h, mul-mod_left w d) (ground arith)

-- The tie goes to one of the two neighbours.
half_even-step :
    (n d : ℕ)
    → (half_even n d ≡ n / d) × ((n % d + n % d) ≤ d)
      ⊎ (half_even n d ≡ n / d + 1) × (d ≤ n % d + n % d)
unfolding half_even
half_even-step n d = elim (dec_lt (n / d % 2) 1) [
  | yes e ↦ ground arith
  | no e ↦ ground (arith, mod-lt (n / d) {m = 2} (omega arith))
]

-- The rounded quotient is within half a divisor of the exact one.
half_even_nearest :
    (n d : ℕ) → 0 < d → (half_even n d * d * 2 ≤ n * 2 + d) × (n * 2 ≤ half_even n d * d * 2 + d)
half_even_nearest n d h = elim (half_even-step n d) [
  | inl (e, r) ↦ rw e (omega (arith, div-add-mod' n d))
  | inr (e, r) ↦ rw e (omega (arith, div-add-mod' n d, mod-lt n h))
]

-- A quotient below a whole bound rounds to at most the bound, and one above to at least it.
half_even-le : (n d b : ℕ) → 0 < d → n ≤ b * d → half_even n d ≤ b
half_even-le n d b h k = elim (dec_lt b (half_even n d)) [
  | yes p ↦ absurd (omega (arith, half_even_nearest n d h, mul-le-mul_right d p))
  | no p ↦ omega arith
]

le-half_even : (n d b : ℕ) → 0 < d → b * d ≤ n → b ≤ half_even n d
le-half_even n d b h k = elim (dec_lt (half_even n d) b) [
  | yes p ↦ absurd (omega (arith, half_even_nearest n d h, mul-le-mul_right d p))
  | no p ↦ omega arith
]

half_even_mono : (n m d : ℕ) → 0 < d → n ≤ m → half_even n d ≤ half_even m d
half_even_mono n m d h k = elim (dec_lt (half_even m d) (half_even n d)) [
  | yes p ↦ elim (dec_lt n m) [
    | yes less ↦
        absurd
          (omega (arith, half_even_nearest n d h, half_even_nearest m d h, mul-le-mul_right d p))
    | no same ↦ let e : n ≡ m = omega arith in rw e (omega arith)
  ]
  | no p ↦ omega arith
]

pow-add : (a b : ℕ) → 10 ^ (a + b) ≡ 10 ^ a * 10 ^ b
pow-add a zero = rw (add-zero, pow-zero, mul-one)
pow-add a (suc b) =
    let e : a + suc b ≡ suc (a + b) = omega arith in
    rw (e, pow-suc, pow-suc, pow-add a b) (omega arith)

pub pow_split : (n k : ℕ) → k ≤ n → 10 ^ (n - k) * 10 ^ k ≡ 10 ^ n
pow_split n k h = rw (← pow-add (n - k) k) (ap (λ (t : ℕ). 10 ^ t) (omega arith))

pow-digits-le : (n : ℕ) → 0 < digits n → 10 ^ (digits n - 1) ≤ n
unfolding digits
pow-digits-le n h = elim (dec_lt n (10 ^ (digits n - 1))) [
  | yes p ↦ absurd (omega (arith, digit_count-le n n (digits n - 1) p))
  | no p ↦ omega arith
]

digits_mono : (n m : ℕ) → n ≤ m → digits n ≤ digits m
unfolding digits
digits_mono n m h =
    digit_count-le n n (digit_count m m) (omega (arith, lt-pow-digit_count m m (omega arith)))

-- A value of at most `prec` digits, in units of 10^j.
abbrev pub Representable : ℕ → ℕ → Type 0
Representable prec v = (m : ℕ) × (j : ℕ) × (m < 10 ^ prec) × (v ≡ m * 10 ^ j)

digits-Representable :
    (prec v : ℕ) → Representable prec v → (w : ℕ) × (w * 10 ^ (digits v - prec) ≡ v)
unfolding digits
digits-Representable prec v (m, j, small, e) =
    let k = digits v - prec in
    let below : v < 10 ^ (prec + j) =
      rw (e, pow-add prec j) (omega (arith, mul-le-mul_right (10 ^ j) small, pow_pos j)) in
    let short : k ≤ j = omega (arith, digit_count-le v v (prec + j) below) in
    (m * 10 ^ (j - k), omega (arith, e, ap (λ (t : ℕ). m * t) (pow_split j k short)))

module _ ⦃c : Context⦄ where
  quantum_pos : (p q : ℕ) → 0 < quantum p q
  unfolding quantum
  quantum_pos p q = pow_pos (digits (p / q) - c.prec)

  pub round-mul : (v q : ℕ) → 0 < q → Representable c.prec v → round (v * q) q ≡ v
  unfolding round quantum
  round-mul v q h r =
      let (w, e) = digits-Representable c.prec v r in
      let k = 10 ^ (digits v - c.prec) in
      let same : v * q ≡ w * (q * k) = omega (arith, ap (λ (t : ℕ). t * q) e) in
      rw (mul-div_cancel v h, same)
        (rw (half_even-mul w (q * k) (grind (arith, pow_pos (digits v - c.prec)))) e)

  pub round_nearest :
      (p q : ℕ)
      → 0 < q
      → (round p q * q * 2 ≤ p * 2 + q * quantum p q)
        × (p * 2 ≤ round p q * q * 2 + q * quantum p q)
  unfolding round
  round_nearest p q h =
      let near = half_even_nearest p (q * quantum p q) (grind (arith, quantum_pos p q)) in
      (omega (arith, near), omega (arith, near))

  -- A bound that is a power of ten, above or below the exact quotient, bounds the rounded one.
  round-le-pow : (p q b : ℕ) → 0 < q → digits (p / q) ≤ b → round p q ≤ 10 ^ b
  unfolding round quantum digits
  round-le-pow p q b h k =
      let d = digits (p / q) in
      let e = d - c.prec in
      let fine : 10 ^ (b - e) * 10 ^ e ≡ 10 ^ b = pow_split b e (omega arith) in
      let below : p / q < 10 ^ b =
        le_trans (lt-pow-digit_count (p / q) (p / q) (omega arith))
          (pow-le-pow_right (omega arith) k) in
      let small : p < 10 ^ b * q = (div-lt_iff_lt-mul h).0 below in
      let up : half_even p (q * 10 ^ e) ≤ 10 ^ (b - e) =
        half_even-le p (q * 10 ^ e) (10 ^ (b - e)) (grind (arith, pow_pos e))
          (omega (arith, small, ap (λ (t : ℕ). t * q) fine)) in
      omega (arith, fine, mul-le-mul_right (10 ^ e) up)

  pow-le-round : (p q b : ℕ) → 0 < q → 0 < c.prec → digits (p / q) ≡ b + 1 → 10 ^ b ≤ round p q
  unfolding round quantum
  pow-le-round p q b h pr k =
      let e = digits (p / q) - c.prec in
      let fine : 10 ^ (b - e) * 10 ^ e ≡ 10 ^ b = pow_split b e (omega arith) in
      let above : 10 ^ b ≤ p / q =
        le_trans (le_of_eq (ap (λ (t : ℕ). 10 ^ t) (omega arith)))
          (pow-digits-le (p / q) (omega arith)) in
      let large : 10 ^ b * q ≤ p = (le-div_iff_mul-le h).0 above in
      let low : 10 ^ (b - e) ≤ half_even p (q * 10 ^ e) =
        le-half_even p (q * 10 ^ e) (10 ^ (b - e)) (grind (arith, pow_pos e))
          (omega (arith, large, ap (λ (t : ℕ). t * q) fine)) in
      omega (arith, fine, mul-le-mul_right (10 ^ e) low)

  pub round_mono : (p p' q : ℕ) → 0 < q → 0 < c.prec → p ≤ p' → round p q ≤ round p' q
  unfolding round quantum
  round_mono p p' q h pr k =
      let d = digits (p / q) in
      let d' = digits (p' / q) in
      let grows : d ≤ d' =
        digits_mono (p / q) (p' / q) ((le-div_iff_mul-le h).1 (le_trans (div-mul-le_self p q) k)) in
      elim (ℕ_discrete (d - c.prec) (d' - c.prec)) [
        | yes e ↦ rw e (
            mul-le-mul_right (10 ^ (d' - c.prec)) (
              half_even_mono p p' (q * 10 ^ (d' - c.prec)) (grind (arith, pow_pos (d' - c.prec)))
                k))
        | no e ↦
            le_trans (round-le-pow p q (d' - 1) h (omega arith))
              (pow-le-round p' q (d' - 1) h pr (omega arith))
      ]
