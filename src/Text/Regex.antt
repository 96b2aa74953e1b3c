-- ===== src/Text/Regex.antt =====
-- Regular expressions as `re` runs them, as far as the source writes them: a sequence of single
-- characters and repetitions, with named groups that do not nest. The matcher goes through the
-- choices in the order that `re` does, and takes the first that leads to the end of the expression.
pub mod Matching
use Prim.Native.Char.{Char, code}
use Prim.Native.String.{◌++◌ as join}
use vault.Base.{
  ℕ, zero, suc, Bool, true, false, not, ◌&&◌, ◌||◌, Option, none, some, String, List, [], ◌∷◌, ◌++◌,
  leb, ◌==◌, if◌then◌else◌, is_none, get_or,
}
use vault.Base.Dict.{Dict, set, get}
use vault.Text.{Unicode, is_space, is_char, is_empty, startswith, removeprefix}

-- One character.
pub data Class : Type 0 where
  -- `\s`, `\S`, `\d`, `[\d,.]`, `[A-Z]`, `.`, and a character that stands for itself
  space non_space digit number_char capital any_char : Class
  exactly : Char → Class

pub data Item : Type 0 where
  one : Class → Item
  -- `x*`, `x*?` and `x?`
  greedy lazy optional : Class → Item
  -- where a group starts, and where the group of a name ends
  group_start : Item
  group_end : String → Item
  -- `(?P=name)` and `$`
  same_as : String → Item
  at_end : Item

-- The groups that are over, and the text since the last start of a group.
pub record Groups : Type 0 where
  pub closed : Dict String
  pub current : String

abbrev pub no_groups : Groups
no_groups = record { closed = []; current = "" }

abbrev pub push : Char → Groups → Groups
push c g = record g { current = join g.current (String.◌∷◌ c "") }

unfoldable pub close : String → Groups → Groups
unfolding set
close name g = record g { closed = set name g.current g.closed }

unfoldable pub or_else : Option Groups → Option Groups → Option Groups
or_else none other = other
or_else (some g) other = some g

abbrev pub Continuation : Type 0
Continuation = String → Groups → Option Groups

unfoldable pub on_rest : Continuation → Option String → Groups → Option Groups
on_rest rest none g = none
on_rest rest (some s) g = rest s g

-- `$`: at the end, or before a newline there.
unfoldable pub ends : String → Bool
ends String.[] = true
ends (String.◌∷◌ c s) = is_char 10 c && is_empty s

module _ ⦃u : Unicode⦄ where
  unfoldable pub belongs : Class → Char → Bool
  belongs space c = is_space c
  belongs non_space c = not (is_space c)
  belongs digit c = not (is_none (u.decimal c))
  belongs number_char c = not (is_none (u.decimal c)) || is_char b',' c || is_char b'.' c
  belongs capital c = leb b'A' (code c) && leb (code c) b'Z'
  belongs any_char c = not (is_char 10 c)
  belongs (exactly d) c = code d == code c

  unfoldable pub run_one : Class → Continuation → Continuation
  unfolding belongs
  run_one p rest String.[] g = none
  run_one p rest (String.◌∷◌ c s) g = if belongs p c then rest s (push c g) else none

  unfoldable pub run_greedy : Class → Continuation → Continuation
  unfolding belongs or_else
  run_greedy p rest String.[] g = rest "" g
  run_greedy p rest (String.◌∷◌ c s) g =
      let longer = run_greedy p rest s (push c g) in
      or_else (if belongs p c then longer else none) (rest (String.◌∷◌ c s) g)

  unfoldable pub run_lazy : Class → Continuation → Continuation
  unfolding belongs or_else
  run_lazy p rest String.[] g = rest "" g
  run_lazy p rest (String.◌∷◌ c s) g =
      let longer = run_lazy p rest s (push c g) in
      or_else (rest (String.◌∷◌ c s) g) (if belongs p c then longer else none)

  -- `pattern.match(s)`
  unfoldable pub run : List Item → Continuation
  unfolding run_one run_greedy run_lazy or_else on_rest removeprefix get ends close
  run [] s g = some g
  run (one p ∷ items) s g = run_one p (run items) s g
  run (greedy p ∷ items) s g = run_greedy p (run items) s g
  run (lazy p ∷ items) s g = run_lazy p (run items) s g
  run (optional p ∷ items) s g = or_else (run_one p (run items) s g) (run items s g)
  run (group_start ∷ items) s g = run items s (record g { current = "" })
  run (group_end name ∷ items) s g = run items s (close name g)
  run (same_as name ∷ items) s g =
      on_rest (run items) (removeprefix (get_or (get name g.closed) "") s) g
  run (at_end ∷ items) s g = if ends s then run items s g else none

  -- `pattern.search(s)`
  unfoldable pub search : List Item → String → Option Groups
  unfolding run or_else
  search items String.[] = run items "" no_groups
  search items (String.◌∷◌ c s) = or_else (run items (String.◌∷◌ c s) no_groups) (search items s)
