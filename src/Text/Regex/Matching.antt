-- ===== src/Text/Regex/Matching.antt =====
-- The matcher against what an expression means: the texts it stands for, without an order of choices.
use mathlib.Core.Option.{some-injective}
use Prim.Native.Char.{Char}
use vault.Base.{
  ◌≡◌, ◌≢◌, refl, sym, subst, ◌⊎◌, inl, inr, Bool, true, false, Option, none, some, String, List,
  [], ◌∷◌, if◌then◌else◌, get_or,
}
use vault.Base.Dict.{get}
use vault.Text.{Unicode, removeprefix}
use vault.Text.Regex.{
  Class, Item, one, greedy, lazy, optional, group_start, group_end, same_as, at_end, Groups,
  no_groups, push, close, or_else, on_rest, ends, Continuation, belongs, run_one, run_greedy,
  run_lazy, run,
}

module _ ⦃u : Unicode⦄ where
  -- The items lead from a text and groups to the groups of a whole match.
  pub data Matches : List Item → String → Groups → Groups → Type 0 where
    done : {s : String} {g : Groups} → Matches [] s g g
    take_one :
        {p : Class} {items : List Item} {c : Char} {s : String} {g h : Groups}
        → belongs p c ≡ true
        → Matches items s (push c g) h
        → Matches (one p ∷ items) (String.◌∷◌ c s) g h
    greedy_stop :
        {p : Class} {items : List Item} {s : String} {g h : Groups}
        → Matches items s g h
        → Matches (greedy p ∷ items) s g h
    greedy_more :
        {p : Class} {items : List Item} {c : Char} {s : String} {g h : Groups}
        → belongs p c ≡ true
        → Matches (greedy p ∷ items) s (push c g) h
        → Matches (greedy p ∷ items) (String.◌∷◌ c s) g h
    lazy_stop :
        {p : Class} {items : List Item} {s : String} {g h : Groups}
        → Matches items s g h
        → Matches (lazy p ∷ items) s g h
    lazy_more :
        {p : Class} {items : List Item} {c : Char} {s : String} {g h : Groups}
        → belongs p c ≡ true
        → Matches (lazy p ∷ items) s (push c g) h
        → Matches (lazy p ∷ items) (String.◌∷◌ c s) g h
    skip :
        {p : Class} {items : List Item} {s : String} {g h : Groups}
        → Matches items s g h
        → Matches (optional p ∷ items) s g h
    take_optional :
        {p : Class} {items : List Item} {c : Char} {s : String} {g h : Groups}
        → belongs p c ≡ true
        → Matches items s (push c g) h
        → Matches (optional p ∷ items) (String.◌∷◌ c s) g h
    open_group :
        {items : List Item} {s : String} {g h : Groups}
        → Matches items s (record g { current = "" }) h
        → Matches (group_start ∷ items) s g h
    close_group :
        {name : String} {items : List Item} {s : String} {g h : Groups}
        → Matches items s (close name g) h
        → Matches (group_end name ∷ items) s g h
    again :
        {name : String} {items : List Item} {s t : String} {g h : Groups}
        → removeprefix (get_or (get name g.closed) "") s ≡ some t
        → Matches items t g h
        → Matches (same_as name ∷ items) s g h
    finish :
        {items : List Item} {s : String} {g h : Groups}
        → ends s ≡ true
        → Matches items s g h
        → Matches (at_end ∷ items) s g h

  or_else-some :
      (a b : Option Groups) (h : Groups) → or_else a b ≡ some h → (a ≡ some h) ⊎ (b ≡ some h)
  unfolding or_else
  or_else-some none b h e = inr e
  or_else-some (some x) b h e = inl e

  if-some :
      (b : Bool) (a : Option Groups) (h : Groups)
      → (if b then a else none) ≡ some h
      → (b ≡ true) × (a ≡ some h)
  if-some true a h e = (refl, e)
  if-some false a h e = cc

  abbrev Sound : List Item → Continuation → Type 0
  Sound items rest = (s : String) (g h : Groups) → rest s g ≡ some h → Matches items s g h

  run_greedy-Matches :
      (p : Class) (items : List Item) (rest : Continuation)
      → Sound items rest
      → Sound (greedy p ∷ items) (run_greedy p rest)
  unfolding run_greedy
  run_greedy-Matches p items rest ih String.[] g h e = greedy_stop (ih "" g h e)
  run_greedy-Matches p items rest ih (String.◌∷◌ c s) g h e = elim (or_else-some _ _ h e) [
    | inl longer ↦
        let (ok, m) = if-some (belongs p c) _ h longer in
        greedy_more ok (run_greedy-Matches p items rest ih s (push c g) h m)
    | inr stop ↦ greedy_stop (ih (String.◌∷◌ c s) g h stop)
  ]

  run_lazy-Matches :
      (p : Class) (items : List Item) (rest : Continuation)
      → Sound items rest
      → Sound (lazy p ∷ items) (run_lazy p rest)
  unfolding run_lazy
  run_lazy-Matches p items rest ih String.[] g h e = lazy_stop (ih "" g h e)
  run_lazy-Matches p items rest ih (String.◌∷◌ c s) g h e = elim (or_else-some _ _ h e) [
    | inl stop ↦ lazy_stop (ih (String.◌∷◌ c s) g h stop)
    | inr longer ↦
        let (ok, m) = if-some (belongs p c) _ h longer in
        lazy_more ok (run_lazy-Matches p items rest ih s (push c g) h m)
  ]

  run_one-Matches :
      (p : Class) (items : List Item) (rest : Continuation)
      → Sound items rest
      → (s : String) (g h : Groups) → run_one p rest s g ≡ some h
      → Matches (one p ∷ items) s g h × Matches (optional p ∷ items) s g h
  unfolding run_one
  run_one-Matches p items rest ih String.[] g h e = cc
  run_one-Matches p items rest ih (String.◌∷◌ c s) g h e =
      let (ok, m) = if-some (belongs p c) _ h e in
      (take_one ok (ih s (push c g) h m), take_optional ok (ih s (push c g) h m))

  on_rest-Matches :
      (name : String) (items : List Item) (rest : Continuation)
      → Sound items rest
      → (s : String) (g h : Groups) (o : Option String)
      → removeprefix (get_or (get name g.closed) "") s ≡ o
      → on_rest rest o g ≡ some h
      → Matches (same_as name ∷ items) s g h
  unfolding on_rest
  on_rest-Matches name items rest ih s g h none p e = cc
  on_rest-Matches name items rest ih s g h (some t) p e = again p (ih t g h e)

  -- A match that the matcher finds is one.
  pub run-Matches : (items : List Item) → Sound items (run items)
  unfolding run
  run-Matches [] s g h e = subst (λ (x : Groups). Matches [] s g x) (some-injective _ _ e) done
  run-Matches (one p ∷ items) s g h e =
      (run_one-Matches p items (run items) (run-Matches items) s g h e).0
  run-Matches (greedy p ∷ items) s g h e =
      run_greedy-Matches p items (run items) (run-Matches items) s g h e
  run-Matches (lazy p ∷ items) s g h e =
      run_lazy-Matches p items (run items) (run-Matches items) s g h e
  run-Matches (optional p ∷ items) s g h e = elim (or_else-some _ _ h e) [
    | inl m ↦ (run_one-Matches p items (run items) (run-Matches items) s g h m).1
    | inr m ↦ skip (run-Matches items s g h m)
  ]
  run-Matches (group_start ∷ items) s g h e = open_group (run-Matches items s _ h e)
  run-Matches (group_end name ∷ items) s g h e = close_group (run-Matches items s _ h e)
  run-Matches (same_as name ∷ items) s g h e =
      on_rest-Matches name items (run items) (run-Matches items) s g h _ refl e
  run-Matches (at_end ∷ items) s g h e =
      let (ok, m) = if-some (ends s) _ h e in finish ok (run-Matches items s g h m)

  or_else-left : (a b : Option Groups) → a ≢ none → or_else a b ≢ none
  unfolding or_else
  or_else-left none b h = absurd (h refl)
  or_else-left (some x) b h = h

  or_else-right : (a b : Option Groups) → b ≢ none → or_else a b ≢ none
  unfolding or_else
  or_else-right none b h = h
  or_else-right (some x) b h = λ e. cc e

  taken : (b : Bool) (a : Option Groups) → b ≡ true → a ≢ none → (if b then a else none) ≢ none
  taken true a e h = h
  taken false a e h = cc

  run_greedy_stop :
      (p : Class) (rest : Continuation) (s : String) (g : Groups)
      → rest s g ≢ none
      → run_greedy p rest s g ≢ none
  unfolding run_greedy
  run_greedy_stop p rest String.[] g h = h
  run_greedy_stop p rest (String.◌∷◌ c s) g h = or_else-right _ _ h

  run_lazy_stop :
      (p : Class) (rest : Continuation) (s : String) (g : Groups)
      → rest s g ≢ none
      → run_lazy p rest s g ≢ none
  unfolding run_lazy
  run_lazy_stop p rest String.[] g h = h
  run_lazy_stop p rest (String.◌∷◌ c s) g h = or_else-left _ _ h

  on_rest_again :
      (rest : Continuation) (o : Option String) (t : String) (g : Groups)
      → o ≡ some t
      → rest t g ≢ none
      → on_rest rest o g ≢ none
  unfolding on_rest
  on_rest_again rest none t g e h = cc
  on_rest_again rest (some x) t g e h =
      subst (λ (y : String). rest y g ≢ none) (sym (some-injective _ _ e)) h

  -- Where there is a match, the matcher finds one.
  pub Matches-run :
      {items : List Item} {s : String} {g h : Groups} → Matches items s g h → run items s g ≢ none
  unfolding run run_one run_greedy run_lazy
  Matches-run done = λ e. cc e
  Matches-run (take_one ok m) = taken _ _ ok (Matches-run m)
  Matches-run (greedy_stop {p} {items} {s} {g} m) =
      run_greedy_stop p (run items) s g (Matches-run m)
  Matches-run (greedy_more ok m) = or_else-left _ _ (taken _ _ ok (Matches-run m))
  Matches-run (lazy_stop {p} {items} {s} {g} m) = run_lazy_stop p (run items) s g (Matches-run m)
  Matches-run (lazy_more ok m) = or_else-right _ _ (taken _ _ ok (Matches-run m))
  Matches-run (skip m) = or_else-right _ _ (Matches-run m)
  Matches-run (take_optional ok m) = or_else-left _ _ (taken _ _ ok (Matches-run m))
  Matches-run (open_group m) = Matches-run m
  Matches-run (close_group m) = Matches-run m
  Matches-run (again p m) = on_rest_again _ _ _ _ p (Matches-run m)
  Matches-run (finish ok m) = taken _ _ ok (Matches-run m)

  -- What the matcher answers about a text.
  pub record IsAnswer (items : List Item) (s : String) : Type 0 where
    pub sound : (h : Groups) → run items s no_groups ≡ some h → Matches items s no_groups h
    pub complete : (h : Groups) → run items s no_groups ≡ none → ¬ Matches items s no_groups h

  -- The matcher that runs the expressions for statements implements what an expression means: the
  -- groups that it finds are those of a match, and it finds none only where there is no match at
  -- all.
  pub run-IsAnswer : (items : List Item) (s : String) → IsAnswer items s
  run-IsAnswer items s = record {
    sound = λ h e. run-Matches items s no_groups h e;
    complete = λ h e m. Matches-run m e;
  }
