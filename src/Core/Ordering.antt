-- ===== src/Core/Ordering.antt =====
-- `order_by("-date", "source", "-created_at").first()` over the observations of a table. The order
-- of texts is the database's collation, a parameter.
use mathlib.Core.Path.{subst}
use mathlib.Core.Option.{some-injective}
use vault.Base.{
  ℕ, ◌≤◌, ◌≡◌, refl, Bool, not, ◌&&◌, ◌||◌, List, [], ◌∷◌, Option, none, some, ltb, ◌==◌,
  if◌then◌else◌, String, arith, All, Has, ◌⊎◌, ◌≢◌, inl, inr,
}

pub record Collation : Type 0 where
  pub less : String → String → Bool

pub record Observation : Type 0 where
  pub date : ℕ
  pub source : String
  pub created_at : ℕ

module _ ⦃c : Collation⦄ where
  -- x comes strictly before y
  precedes : Observation → Observation → Bool
  precedes x y =
      ltb y.date x.date
      || (x.date == y.date
          && (c.less x.source y.source
              || (not (c.less y.source x.source) && ltb y.created_at x.created_at)))

  module _ {A : Type 0} (view : A → Observation) where
    choose : A → Option A → Option A
    choose x none = some x
    choose x (some y) = if precedes (view y) (view x) then some y else some x

    unfoldable pub first : List A → Option A
    unfolding precedes choose
    first [] = none
    first (x ∷ xs) = choose x (first xs)

    -- The first row is one of the rows, and no row is dated after it.
    abbrev pub IsNewest : List A → A → Type 0
    IsNewest xs y = Has (λ x. x ≡ y) xs × All (λ x. (view x).date ≤ (view y).date) xs

    choose-date :
        (x z y : A)
        → choose x (some z) ≡ some y
        → ((z ≡ y) × ((view x).date ≤ (view z).date)) ⊎ ((x ≡ y) × ((view z).date ≤ (view x).date))
    unfolding choose precedes
    choose-date x z y h = ground arith

    choose-ne-none : (x : A) (o : Option A) → choose x o ≢ none
    unfolding choose
    choose-ne-none x none h = cc
    choose-ne-none x (some z) h = ground arith

    pub first-none : (xs : List A) → first xs ≡ none → xs ≡ []
    unfolding first
    first-none [] h = refl
    first-none (x ∷ xs) h = absurd (choose-ne-none x (first xs) h)

    dates_weaken :
        (a b : ℕ) (xs : List A)
        → a ≤ b
        → All (λ x. (view x).date ≤ a) xs
        → All (λ x. (view x).date ≤ b) xs
    dates_weaken a b [] h k = tt
    dates_weaken a b (x ∷ xs) h k = (omega arith, dates_weaken a b xs h k.1)

    choose-IsNewest :
        (x : A) (xs : List A) (o : Option A) (y : A)
        → (o ≡ none → xs ≡ [])
        → ((z : A) → o ≡ some z → IsNewest xs z)
        → choose x o ≡ some y
        → IsNewest (x ∷ xs) y
    unfolding choose
    choose-IsNewest x xs none y empty ih h =
        subst (λ t. IsNewest (x ∷ xs) t) (some-injective _ _ h)
          (rw (empty refl) (inl refl, (omega arith, tt)))
    choose-IsNewest x xs (some z) y empty ih h = elim (choose-date x z y h) [
      | inl (e, d) ↦ subst (λ t. IsNewest (x ∷ xs) t) e (inr (ih z refl).0, (d, (ih z refl).1))
      | inr (e, d) ↦
          subst (λ t. IsNewest (x ∷ xs) t) e
            (inl refl, (omega arith, dates_weaken _ _ xs d (ih z refl).1))
    ]

    pub first-IsNewest : (xs : List A) (y : A) → first xs ≡ some y → IsNewest xs y
    unfolding first
    first-IsNewest [] y h = cc
    first-IsNewest (x ∷ xs) y h =
        choose-IsNewest x xs (first xs) y (first-none xs) (first-IsNewest xs) h
