-- ===== src/Text/Numbers.antt =====
-- Reading and printing numbers: `int(s)`, the literals of `Decimal(s)`, and the formats of the source.
pub mod Digits
use Prim.Native.Char.{Char, char, code}
use Prim.Native.String.{◌++◌ as join}
use vault.Base.{
  ℕ, zero, suc, ◌+◌, ◌-◌, ◌*◌, ◌/◌, ◌%◌, ◌^◌, Bool, true, false, not, ◌&&◌, ◌||◌, Option, none,
  some, String, ℤ, pos, ◌-ℤ◌, ltb, ◌==◌, magnitude, ltb_ℤ, pos_part, ◌+ℤ◌, if◌then◌else◌, is_none,
  get_or,
}
use vault.Base.Texts.{nth_char}
use vault.Decimal.{Context, Decimal, digits, quantize}
use vault.Text.{Unicode, is_char, is_empty, text_length, strip, remove}

infixl 5 ◌>>=◌
abbrev pub ◌>>=◌ : {A B : Type 0} → Option A → (A → Option B) → Option B
none >>= rest = none
some a >>= rest = rest a

abbrev pub signed : Bool → ℕ → ℤ
signed negative n = if negative then pos 0 -ℤ pos n else pos n

-- What comes before the first character that passes the test, and what comes after it.
unfoldable pub before : (Char → Bool) → String → String
before p String.[] = ""
before p (String.◌∷◌ c s) = let rest = before p s in if p c then "" else String.◌∷◌ c rest

unfoldable pub after : (Char → Bool) → String → Option String
after p String.[] = none
after p (String.◌∷◌ c s) = let rest = after p s in if p c then some s else rest

-- The sign of a number, and what follows it.
unfoldable pub take_sign : String → Bool × String
take_sign String.[] = (false, "")
take_sign (String.◌∷◌ c s) =
    if is_char b'-' c
    then (true, s)
    else if is_char b'+' c
    then (false, s)
    else (false, String.◌∷◌ c s)

pub data Literal : Type 0 where
  -- an infinity or not a number
  special : Literal
  -- a coefficient and a power of ten
  finite : Bool → ℕ → ℤ → Literal

abbrev is_exponent_mark : Char → Bool
is_exponent_mark c = is_char b'e' c || is_char b'E' c

-- The text in upper or lower case, for a second text in lower case.
lower_is : String → String → Bool
lower_is String.[] String.[] = true
lower_is (String.◌∷◌ c s) (String.◌∷◌ d t) =
    (code c == code d || code c + 32 == code d) && lower_is s t
lower_is _ _ = false

module _ ⦃u : Unicode⦄ where
  -- The number that decimal digits make after those read before; none if another character comes.
  unfoldable pub read_digits : String → ℕ → Option ℕ
  read_digits String.[] n = some n
  read_digits (String.◌∷◌ c s) n = u.decimal c >>= λ d. read_digits s (n * 10 + d)

  -- The digits of `int`: one underscore may stand between two digits.
  unfoldable pub read_grouped : String → Bool → ℕ → Option ℕ
  read_grouped String.[] after_digit n = if after_digit then some n else none
  read_grouped (String.◌∷◌ c s) after_digit n = elim (u.decimal c) [
    | some d ↦ read_grouped s true (n * 10 + d)
    | none ↦
        let rest = read_grouped s false n in if after_digit && is_char b'_' c then rest else none
  ]

  -- `int(s)`; a text of more digits than `int` takes is a number here, and is out of the range of
  -- every use in the source.
  unfoldable pub parse_int : String → Option ℤ
  unfolding strip take_sign read_grouped
  parse_int s =
      let (negative, rest) = take_sign (strip s) in
      read_grouped rest false 0 >>= λ n. some (signed negative n)

  -- `NaN` and `sNaN`, with or without digits, and `Inf` and `Infinity`.
  is_special : String → Bool
  unfolding read_digits lower_is before after
  is_special s =
      let letters = before (λ c. not (is_none (u.decimal c))) s in
      let tail = after_letters s in
      (is_empty tail && (lower_is letters "inf" || lower_is letters "infinity"))
      || ((lower_is letters "nan" || lower_is letters "snan") && not (is_none (read_digits tail 0)))
    where
      after_letters : String → String
      after_letters String.[] = ""
      after_letters (String.◌∷◌ c t) =
          let rest = after_letters t in if not (is_none (u.decimal c)) then String.◌∷◌ c t else rest

  -- The power of ten after the mark, if there is a mark.
  exponent_of : Option String → Option ℤ
  unfolding take_sign read_digits
  exponent_of none = some (pos 0)
  exponent_of (some s) =
      let (negative, rest) = take_sign s in
      if is_empty rest then none else (read_digits rest 0 >>= λ n. some (signed negative n))

  read_finite : Bool → String → Option Literal
  unfolding before after read_digits text_length exponent_of
  read_finite negative s =
      let mantissa = before is_exponent_mark s in
      let whole = before (is_char b'.') mantissa in
      let part = get_or (after (is_char b'.') mantissa) "" in
      if is_empty whole && is_empty part
      then none
      else (read_digits (join whole part) 0 >>= λ n. exponent_of (after is_exponent_mark s) >>= λ e.
          some (finite negative n (e -ℤ pos (text_length part))))

  -- `Decimal(s)` of a text without white space. It drops underscores; the limits of the exponent
  -- (10^18 and beyond) are not modelled.
  unfoldable pub parse_literal : String → Option Literal
  unfolding remove take_sign is_special read_finite
  parse_literal s =
      let (negative, rest) = take_sign (remove (is_char b'_') s) in
      if is_special rest then some special else read_finite negative rest

-- The character of a digit.
pub digit_char : ℕ → Char
unfolding nth_char
digit_char n = nth_char "0123456789" n (char 48 tt)

-- `f"{n:0kd}"` of a number of at most k digits, before a text.
unfoldable pub pad : ℕ → ℕ → String → String
unfolding digit_char
pad zero n rest = rest
pad (suc k) n rest = pad k (n / 10) (String.◌∷◌ (digit_char (n % 10)) rest)

-- `str(n)`
unfoldable pub show : ℕ → String → String
unfolding pad
show n rest = pad (digits n + (if n == 0 then 1 else 0)) n rest

-- `f"{n:}"`: three digits to a group. One group takes one unit of fuel; n itself is fuel enough.
unfoldable pub show_grouped : ℕ → ℕ → String → String
unfolding show pad
show_grouped zero n rest = show n rest
show_grouped (suc fuel) n rest =
    let more = show_grouped fuel (n / 1000) (String.◌∷◌ (char 44 tt) (pad 3 (n % 1000) rest)) in
    if ltb n 1000 then show n rest else more

module _ ⦃c : Context⦄ where
  -- `f"{a:,.2f}"`
  unfoldable pub show_amount : Decimal → String
  unfolding quantize show_grouped pad
  show_amount a =
      let cents = magnitude (quantize 2 a) / 10 ^ (c.places - 2) in
      join (if ltb_ℤ a (pos 0) then "-" else "") (
        show_grouped (cents / 100) (cents / 100) (String.◌∷◌ (char 46 tt) (pad 2 (cents % 100) "")))

  -- The value of a literal that is exact to the places of the context: a coefficient times a power
  -- of ten, in units of 10^-places.
  unfoldable pub literal_value : Bool → ℕ → ℤ → Decimal
  literal_value negative n e = signed negative (n * 10 ^ (pos_part (pos c.places +ℤ e)))
