-- ===== src/Base/Lists.antt =====
-- Queries over a table of rows: lists with Boolean filters, and predicates by recursion.
use Prim.Native.Nat.{ℕ, suc, ◌+◌}
use native.Mathlib.Omega.{arith}
use mathlib.Core.Path.{◌≡◌, refl, subst, ap, ◌∙◌}
use mathlib.Core.Logic.{◌⊎◌, inl, inr}
use mathlib.Core.Bool.{Bool, true, false, ◌||◌}
use mathlib.Core.Option.{Option, none, some}
use mathlib.Core.List.{List, [], ◌∷◌, ◌++◌, map}
use vault.Base.Tests.{if◌then◌else◌, Bool-cases}

module _ {ℓ} {A : Type ℓ} where
  abbrev pub length : List A → ℕ
  length [] = 0
  length (x ∷ xs) = suc (length xs)

  -- `queryset.filter(...)`
  abbrev pub where_rows : (A → Bool) → List A → List A
  where_rows p [] = []
  where_rows p (x ∷ xs) = let rest = where_rows p xs in if p x then x ∷ rest else rest

  -- `any(...)`, `queryset.exists()`
  abbrev pub any : (A → Bool) → List A → Bool
  any p [] = false
  any p (x ∷ xs) = p x || any p xs

  -- the first row that passes the test
  abbrev pub find : (A → Bool) → List A → Option A
  find p [] = none
  find p (x ∷ xs) = let rest = find p xs in if p x then some x else rest

  abbrev pub All {κ} : (A → Type κ) → List A → Type κ
  All P [] = Unit
  All P (x ∷ xs) = P x × All P xs

  abbrev pub Has : (A → Type 0) → List A → Type 0
  Has P [] = ⊥
  Has P (x ∷ xs) = P x ⊎ Has P xs

module _ {A : Type 0} where
  -- What a filter keeps passes the test, and was there before.
  pub Has-where_rows :
      (p : A → Bool) (xs : List A) (y : A)
      → Has (λ x. x ≡ y) (where_rows p xs)
      → (p y ≡ true) × Has (λ x. x ≡ y) xs
  Has-where_rows p [] y h = absurd h
  Has-where_rows p (x ∷ xs) y h = elim (Bool-cases (p x)) [
    | inl e ↦ elim (rw e at h) [
      | inl same ↦ (rw (← same) e, inl same)
      | inr rest ↦ let (a, b) = Has-where_rows p xs y rest in (a, inr b)
    ]
    | inr e ↦ let (a, b) = Has-where_rows p xs y (rw e at h) in (a, inr b)
  ]

  -- What holds of all that a filter keeps holds of every row that passes the test.
  pub All-where_rows {κ} :
      (P : A → Type κ) (p : A → Bool) (xs : List A)
      → All P (where_rows p xs)
      → All (λ x. p x ≡ true → P x) xs
  All-where_rows P p [] h = tt
  All-where_rows P p (x ∷ xs) h = elim (Bool-cases (p x)) [
    | inl e ↦ let k = rw e at h in (λ _. k.0, All-where_rows P p xs k.1)
    | inr e ↦ (λ e'. absurd (cc), All-where_rows P p xs (rw e at h))
  ]

  pub where_rows-nil :
      (p : A → Bool) (xs : List A) → where_rows p xs ≡ [] → All (λ x. p x ≡ false) xs
  where_rows-nil p [] h = tt
  where_rows-nil p (x ∷ xs) h = elim (Bool-cases (p x)) [
    | inl e ↦ absurd (cc (rw e at h))
    | inr e ↦ (e, where_rows-nil p xs (rw e at h))
  ]

  pub at_member {κ} : (P : A → Type κ) (xs : List A) (y : A) → All P xs → Has (λ x. x ≡ y) xs → P y
  at_member P [] y h m = absurd m
  at_member P (x ∷ xs) y h (inl e) = subst P e h.0
  at_member P (x ∷ xs) y h (inr m) = at_member P xs y h.1 m

  pub All_map {κ ν} :
      (P : A → Type κ) (Q : A → Type ν) (xs : List A) → ((x : A) → P x → Q x) → All P xs → All Q xs
  All_map P Q [] f h = tt
  All_map P Q (x ∷ xs) f h = (f x h.0, All_map P Q xs f h.1)

  pub All-snoc {κ} : (P : A → Type κ) (xs : List A) (y : A) → All P xs → P y → All P (xs ++ y ∷ [])
  All-snoc P [] y h k = (k, tt)
  All-snoc P (x ∷ xs) y h k = (h.0, All-snoc P xs y h.1 k)

  pub Has-snoc : (P : A → Type 0) (xs : List A) (y : A) → Has P xs → Has P (xs ++ y ∷ [])
  Has-snoc P [] y h = absurd h
  Has-snoc P (x ∷ xs) y (inl h) = inl h
  Has-snoc P (x ∷ xs) y (inr h) = inr (Has-snoc P xs y h)

  pub Has-last : (P : A → Type 0) (xs : List A) (y : A) → P y → Has P (xs ++ y ∷ [])
  Has-last P [] y h = inl h
  Has-last P (x ∷ xs) y h = inr (Has-last P xs y h)

  pub All-where_rows_keep {κ} :
      (P : A → Type κ) (p : A → Bool) (xs : List A) → All P xs → All P (where_rows p xs)
  All-where_rows_keep P p [] h = tt
  All-where_rows_keep P p (x ∷ xs) h = elim (Bool-cases (p x)) [
    | inl e ↦ rw e (h.0, All-where_rows_keep P p xs h.1)
    | inr e ↦ rw e (All-where_rows_keep P p xs h.1)
  ]

  pub All-where_rows_test : (p : A → Bool) (xs : List A) → All (λ x. p x ≡ true) (where_rows p xs)
  All-where_rows_test p [] = tt
  All-where_rows_test p (x ∷ xs) = elim (Bool-cases (p x)) [
    | inl e ↦ rw e (e, All-where_rows_test p xs)
    | inr e ↦ rw e (All-where_rows_test p xs)
  ]

  pub Has-where_rows_keep :
      (p : A → Bool) (xs : List A) (y : A)
      → p y ≡ true
      → Has (λ x. x ≡ y) xs
      → Has (λ x. x ≡ y) (where_rows p xs)
  Has-where_rows_keep p [] y h m = absurd m
  Has-where_rows_keep p (x ∷ xs) y h (inl e) = rw (ap p e ∙ h) (inl e)
  Has-where_rows_keep p (x ∷ xs) y h (inr m) = elim (Bool-cases (p x)) [
    | inl e ↦ rw e (inr (Has-where_rows_keep p xs y h m))
    | inr e ↦ rw e (Has-where_rows_keep p xs y h m)
  ]

  -- A filter that all rows pass but the last.
  pub where_rows-snoc :
      (p : A → Bool) (xs : List A) (y : A)
      → All (λ x. p x ≡ true) xs
      → p y ≡ false
      → where_rows p (xs ++ y ∷ []) ≡ xs
  where_rows-snoc p [] y h k = rw k
  where_rows-snoc p (x ∷ xs) y h k = rw h.0 (ap (λ t. x ∷ t) (where_rows-snoc p xs y h.1 k))

  pub any-false : (p : A → Bool) (xs : List A) → All (λ x. p x ≡ false) xs → any p xs ≡ false
  any-false p [] h = refl
  any-false p (x ∷ xs) h = rw h.0 (any-false p xs h.1)

  pub any-true :
      (p : A → Bool) (xs : List A) (y : A) → p y ≡ true → Has (λ x. x ≡ y) xs → any p xs ≡ true
  any-true p [] y h m = absurd m
  any-true p (x ∷ xs) y h (inl e) = rw (ap p e ∙ h) refl
  any-true p (x ∷ xs) y h (inr m) = elim (Bool-cases (p x)) [
    | inl e ↦ rw e refl
    | inr e ↦ rw e (any-true p xs y h m)
  ]

  pub any-none : (p : A → Bool) (xs : List A) → any p xs ≡ false → All (λ x. p x ≡ false) xs
  any-none p [] h = tt
  any-none p (x ∷ xs) h = elim (Bool-cases (p x)) [
    | inl e ↦ absurd (cc (rw e at h))
    | inr e ↦ (e, any-none p xs (rw e at h))
  ]

  pub All_zip {κ ν} :
      (P : A → Type κ) (Q : A → Type ν) (xs : List A)
      → All P xs
      → All Q xs
      → All (λ x. P x × Q x) xs
  All_zip P Q [] h k = tt
  All_zip P Q (x ∷ xs) h k = ((h.0, k.0), All_zip P Q xs h.1 k.1)

  pub All_members : (xs : List A) → All (λ y. Has (λ x. x ≡ y) xs) xs
  All_members [] = tt
  All_members (x ∷ xs) = (inl refl, All_map _ _ xs (λ y h. inr h) (All_members xs))

  pub where_rows-append :
      (p : A → Bool) (xs ys : List A) → where_rows p (xs ++ ys) ≡ where_rows p xs ++ where_rows p ys
  where_rows-append p [] ys = refl
  where_rows-append p (x ∷ xs) ys = elim (Bool-cases (p x)) [
    | inl e ↦ rw e (ap (λ t. x ∷ t) (where_rows-append p xs ys))
    | inr e ↦ rw e (where_rows-append p xs ys)
  ]

  pub where_rows-all :
      (p : A → Bool) (xs : List A) → All (λ x. p x ≡ true) xs → where_rows p xs ≡ xs
  where_rows-all p [] h = refl
  where_rows-all p (x ∷ xs) h = rw h.0 (ap (λ t. x ∷ t) (where_rows-all p xs h.1))

  pub where_rows-none :
      (p : A → Bool) (xs : List A) → All (λ x. p x ≡ false) xs → where_rows p xs ≡ []
  where_rows-none p [] h = refl
  where_rows-none p (x ∷ xs) h = rw h.0 (where_rows-none p xs h.1)

  pub All-map {κ ν} :
      {B : Type 0} (P : A → Type κ) (Q : B → Type ν) (f : A → B) (xs : List A)
      → ((x : A) → P x → Q (f x))
      → All P xs
      → All Q (map f xs)
  All-map P Q f [] h k = tt
  All-map P Q f (x ∷ xs) h k = (h x k.0, All-map P Q f xs h k.1)

  pub All_of {κ} : (P : A → Type κ) (xs : List A) → ((x : A) → P x) → All P xs
  All_of P [] h = tt
  All_of P (x ∷ xs) h = (h x, All_of P xs h)

pub length-append : {A : Type 0} (xs ys : List A) → length (xs ++ ys) ≡ length xs + length ys
length-append [] ys = omega arith
length-append (x ∷ xs) ys = omega (arith, length-append xs ys)

pub length-map : {A B : Type 0} (f : A → B) (xs : List A) → length (map f xs) ≡ length xs
length-map f [] = refl
length-map f (x ∷ xs) = ap suc (length-map f xs)
