-- ===== src/Text.antt =====
-- Python's `str`, as the source uses it. A text is its code points; `is_space` is `str.isspace` of
-- one of them. What is read off the Unicode tables beyond that is a parameter: the full case folding
-- of a character, and the value of a decimal digit (`\d`, `int` and `Decimal` take any script's).
pub mod Numbers
pub mod Regex
pub mod Lengths
use Prim.Native.Char.{Char, char, code}
use Prim.Native.String.{◌++◌ as join}
use vault.Base.{
  ℕ, zero, suc, ◌-◌, ◌<◌, Bool, true, false, not, ◌&&◌, ◌||◌, Option, none, some, String, List, [],
  ◌∷◌, ◌≡◌, leb, ◌==◌, if◌then◌else◌, str_eq,
}

abbrev pub ascii_decimal : Char → Option ℕ
ascii_decimal c = if leb 48 (code c) && leb (code c) 57 then some (code c - 48) else none

pub record Unicode : Type 0 where
  pub fold : Char → String
  pub decimal : Char → Option ℕ
  pub decimal_ascii : (c : Char) → code c < 128 → decimal c ≡ ascii_decimal c

abbrev pub is_space : Char → Bool
is_space c =
    let n = code c in
    (leb 9 n && leb n 13)
    || (leb 28 n && leb n 32)
    || n == 133
    || n == 160
    || n == 5760
    || (leb 8192 n && leb n 8202)
    || n == 8232
    || n == 8233
    || n == 8239
    || n == 8287
    || n == 12288

abbrev pub is_char : ℕ → Char → Bool
is_char n c = code c == n

abbrev pub is_empty : String → Bool
is_empty String.[] = true
is_empty (String.◌∷◌ c s) = false

-- `len(s)`
unfoldable pub text_length : String → ℕ
text_length String.[] = 0
text_length (String.◌∷◌ c s) = suc (text_length s)

-- `s[:n]`
unfoldable pub take : ℕ → String → String
take zero s = ""
take (suc n) String.[] = ""
take (suc n) (String.◌∷◌ c s) = String.◌∷◌ c (take n s)

unfoldable pub lstrip : String → String
lstrip String.[] = ""
lstrip (String.◌∷◌ c s) = let rest = lstrip s in if is_space c then rest else String.◌∷◌ c s

rstrip : String → String
rstrip String.[] = ""
rstrip (String.◌∷◌ c s) =
    let rest = rstrip s in if is_empty rest && is_space c then "" else String.◌∷◌ c rest

unfoldable pub strip : String → String
unfolding lstrip rstrip
strip s = rstrip (lstrip s)

-- The text without the characters that pass the test: `s.replace(x, "")`.
unfoldable pub remove : (Char → Bool) → String → String
remove p String.[] = ""
remove p (String.◌∷◌ c s) = let rest = remove p s in if p c then rest else String.◌∷◌ c rest

-- `s.replace(",", ".")`
unfoldable pub comma_to_point : String → String
comma_to_point String.[] = ""
comma_to_point (String.◌∷◌ c s) =
    String.◌∷◌ (if is_char b',' c then char 46 tt else c) (comma_to_point s)

unfoldable pub has_char : ℕ → String → Bool
has_char n String.[] = false
has_char n (String.◌∷◌ c s) = is_char n c || has_char n s

-- `s.rfind(x) > s.rfind(y)` of two characters that the text has: x still comes after the last y.
unfoldable pub last_of : ℕ → ℕ → String → Bool
unfolding has_char
last_of x y String.[] = false
last_of x y (String.◌∷◌ c s) =
    let rest = last_of x y s in if has_char y s then rest else has_char x s

-- `s.startswith(t)`
unfoldable pub startswith : String → String → Bool
startswith s String.[] = true
startswith String.[] (String.◌∷◌ d t) = false
startswith (String.◌∷◌ c s) (String.◌∷◌ d t) = code c == code d && startswith s t

-- What follows a prefix of the text, if it has the prefix: `startswith` and `removeprefix`.
unfoldable pub removeprefix : String → String → Option String
removeprefix String.[] s = some s
removeprefix (String.◌∷◌ d t) String.[] = none
removeprefix (String.◌∷◌ d t) (String.◌∷◌ c s) = if code d == code c then removeprefix t s else none

-- `t in s`
unfoldable pub contains : String → String → Bool
unfolding startswith
contains t String.[] = startswith "" t
contains t (String.◌∷◌ c s) = startswith (String.◌∷◌ c s) t || contains t s

push_char : Char → List String → List String
push_char c [] = String.◌∷◌ c "" ∷ []
push_char c (w ∷ ws) = String.◌∷◌ c w ∷ ws

-- `s.split(x)` for a character x
unfoldable pub split_on : (Char → Bool) → String → List String
unfolding push_char
split_on p String.[] = "" ∷ []
split_on p (String.◌∷◌ c s) = let rest = split_on p s in if p c then "" ∷ rest else push_char c rest

drop_empty : List String → List String
drop_empty [] = []
drop_empty (w ∷ ws) = let rest = drop_empty ws in if is_empty w then rest else w ∷ rest

-- `s.split()`
unfoldable pub split : String → List String
unfolding split_on drop_empty
split s = drop_empty (split_on is_space s)

-- `separator.join(parts)`
unfoldable pub join_with : String → List String → String
join_with separator [] = ""
join_with separator (w ∷ []) = w
join_with separator (w ∷ v ∷ ws) = join w (join separator (join_with separator (v ∷ ws)))

-- A character that ends a line.
abbrev pub is_line_end : Char → Bool
is_line_end c =
    let n = code c in
    (leb 10 n && leb n 13) || (leb 28 n && leb n 30) || n == 133 || n == 8232 || n == 8233

-- `\r\n` ends one line; no other pair does.
starts_with_newline : String → Bool
starts_with_newline String.[] = false
starts_with_newline (String.◌∷◌ c s) = is_char 10 c

-- `s.splitlines()`
unfoldable pub splitlines : String → List String
unfolding push_char starts_with_newline
splitlines String.[] = []
splitlines (String.◌∷◌ c s) =
    let rest = splitlines s in
    if is_char 13 c && starts_with_newline s
    then rest
    else if is_line_end c
    then "" ∷ rest
    else push_char c rest

module _ ⦃u : Unicode⦄ where
  -- `s.casefold()`
  unfoldable pub casefold : String → String
  casefold String.[] = ""
  casefold (String.◌∷◌ c s) = join (u.fold c) (casefold s)
