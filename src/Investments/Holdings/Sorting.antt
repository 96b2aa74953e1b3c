-- ===== src/Investments/Holdings/Sorting.antt =====
-- The insertion sort of Investments/Holdings.
use vault.Base.{◌≡◌, refl, ap, ◌∙◌, Bool, List, [], ◌∷◌, suc, length, Bool-cases, inl, inr}
use vault.Investments.Holdings.{place, sort}

length-place :
    {A : Type 0} (before : A → A → Bool) (x : A) (xs : List A)
    → length (place before x xs) ≡ suc (length xs)
unfolding place
length-place before x [] = refl
length-place before x (y ∷ ys) = elim (Bool-cases (before y x)) [
  | inl e ↦ rw e (ap suc (length-place before x ys))
  | inr e ↦ rw e refl
]

pub length-sort :
    {A : Type 0} (before : A → A → Bool) (xs : List A) → length (sort before xs) ≡ length xs
unfolding sort
length-sort before [] = refl
length-sort before (x ∷ xs) =
    length-place before x (sort before xs) ∙ ap suc (length-sort before xs)
