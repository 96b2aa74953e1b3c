-- ===== src/Core/Calendar/Reading.antt =====
-- Dates of Core/Calendar that are printed with the day first, read again.
use Prim.Native.Char.{Char, char}
use vault.Base.{ℕ, ◌+◌, ◌*◌, ◌/◌, ◌%◌, ◌≤◌, ◌<◌, ◌≡◌, refl, ◌∙◌, some, String, arith, subst}
use vault.Text.{Unicode, split_on, has_char}
use vault.Text.Numbers.{pad, digit_char}
use vault.Text.Numbers.Digits.{IsDigit, digit_char-IsDigit, parse_int-two, parse_int-four}
use vault.Core.Calendar.{
  Date, date_of, valid_date, day_first, read_date, from_parts, three_ints, days_in_month,
}
use vault.Core.Calendar.Ordinals.{valid_date-ranges}

abbrev text_of : Char → Char → Char → Char → Char → Char → Char → Char → String
text_of a b d e f g h i = String.◌∷◌ a (
    String.◌∷◌ b (
      String.◌∷◌ (char 47 tt) (
        String.◌∷◌ d (
          String.◌∷◌ e (
            String.◌∷◌ (char 47 tt)
              (String.◌∷◌ f (String.◌∷◌ g (String.◌∷◌ h (String.◌∷◌ i "")))))))))

module _ ⦃u : Unicode⦄ where
  IsDigit-last : (n : ℕ) → IsDigit (n % 10) (digit_char (n % 10))
  IsDigit-last n = digit_char-IsDigit (n % 10) (omega arith)

  short : (n : ℕ) → n < 100 → (n / 10 % 10) * 10 + n % 10 ≡ n
  short n h = omega arith

  long :
      (n : ℕ)
      → n < 10000
      → (((n / 10 / 10 / 10 % 10) * 10 + n / 10 / 10 % 10) * 10 + n / 10 % 10) * 10 + n % 10 ≡ n
  long n h = omega arith

  read_date-digits :
      (y m d : ℕ)
      → y < 10000
      → m < 100
      → d < 100
      → read_date (day_first (date_of y m d)) ≡ valid_date y m d
  unfolding read_date day_first pad split_on has_char from_parts three_ints
  read_date-digits y m d a b l =
      let d1 = IsDigit-last (d / 10) in
      let d2 = IsDigit-last d in
      let m1 = IsDigit-last (m / 10) in
      let m2 = IsDigit-last m in
      let y1 = IsDigit-last (y / 10 / 10 / 10) in
      let y2 = IsDigit-last (y / 10 / 10) in
      let y3 = IsDigit-last (y / 10) in
      let y4 = IsDigit-last y in
      let day = parse_int-two _ _ _ _ d1 d2 in
      let month = parse_int-two _ _ _ _ m1 m2 in
      let year = parse_int-four _ _ _ _ _ _ _ _ y1 y2 y3 y4 in
      rw
        (
          d1.stroke,
          d2.stroke,
          m1.stroke,
          m2.stroke,
          y1.stroke,
          y2.stroke,
          y3.stroke,
          y4.stroke,
          day,
          month,
          year,
          short d l,
          short m b,
          long y a,
        )
        refl

  month-le : (y m : ℕ) → days_in_month y m ≤ 31
  unfolding days_in_month
  month-le y m = ground arith

  -- A date that exists is read from the text that it prints as.
  pub read_date-day_first :
      (y m d : ℕ) (t : Date) → valid_date y m d ≡ some t → read_date (day_first t) ≡ some t
  read_date-day_first y m d t h =
      let (_, years, _, months, _, days, same) = valid_date-ranges y m d t h in
      let most = month-le y m in
      subst (λ (x : Date). read_date (day_first x) ≡ some t) same
        (read_date-digits y m d (omega arith) (omega arith) (omega arith) ∙ h)
