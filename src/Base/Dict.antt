-- ===== src/Base/Dict.antt =====
-- Dictionaries by texts.
use Prim.Native.String.{String}
use mathlib.Core.Option.{Option, none, some}
use mathlib.Core.List.{List, [], ◌∷◌}
use text.Mathlib.Text.{◌==◌ as str_eq}
use vault.Base.Tests.{if◌then◌else◌}

-- A dictionary, whose keys differ; a key keeps its place when its value changes.
abbrev pub Dict : Type 0 → Type 0
Dict A = List (String × A)

module _ {A : Type 0} where
  unfoldable pub set : String → A → Dict A → Dict A
  set key value [] = (key, value) ∷ []
  set key value ((k, v) ∷ d) =
      let rest = set key value d in if str_eq k key then (key, value) ∷ d else (k, v) ∷ rest

  unfoldable pub get : String → Dict A → Option A
  get key [] = none
  get key ((k, v) ∷ d) = if str_eq k key then some v else get key d
