-- ===== src/Text/Numbers/Digits.antt =====
-- Numbers of a fixed width: what Text/Numbers prints with leading zeros, it reads back.
use Prim.Native.Char.{Char, code}
use vault.Base.{ℕ, zero, suc, ◌+◌, ◌*◌, ◌<◌, ◌≡◌, refl, ap, ◌∙◌, false, some, String, pos, arith}
use vault.Base.Texts.{nth_char}
use vault.Text.{Unicode, ascii_decimal, is_space, is_char, strip, lstrip}
use vault.Text.Numbers.{digit_char, parse_int, take_sign, read_grouped}

code-digit_char : (k : ℕ) → k < 10 → code (digit_char k) ≡ 48 + k
unfolding digit_char nth_char
code-digit_char zero h = refl
code-digit_char (suc zero) h = refl
code-digit_char (suc (suc zero)) h = refl
code-digit_char (suc (suc (suc zero))) h = refl
code-digit_char (suc (suc (suc (suc zero)))) h = refl
code-digit_char (suc (suc (suc (suc (suc zero))))) h = refl
code-digit_char (suc (suc (suc (suc (suc (suc zero)))))) h = refl
code-digit_char (suc (suc (suc (suc (suc (suc (suc zero))))))) h = refl
code-digit_char (suc (suc (suc (suc (suc (suc (suc (suc zero)))))))) h = refl
code-digit_char (suc (suc (suc (suc (suc (suc (suc (suc (suc zero))))))))) h = refl
code-digit_char (suc (suc (suc (suc (suc (suc (suc (suc (suc (suc k)))))))))) h =
    absurd (omega arith)

module _ ⦃u : Unicode⦄ where
  -- A character that is read as a digit, and as nothing else.
  pub record IsDigit (k : ℕ) (c : Char) : Type 0 where
    pub space : is_space c ≡ false
    pub stroke : is_char 47 c ≡ false
    pub minus : is_char 45 c ≡ false
    pub plus : is_char 43 c ≡ false
    pub value : u.decimal c ≡ some k

  pub digit_char-IsDigit : (k : ℕ) → k < 10 → IsDigit k (digit_char k)
  digit_char-IsDigit k h =
      let e = code-digit_char k h in
      let low : code (digit_char k) < 128 = omega arith in
      let read : ascii_decimal (digit_char k) ≡ some k = ground arith in
      record {
        space = ground arith;
        stroke = ground arith;
        minus = ground arith;
        plus = ground arith;
        value = u.decimal_ascii (digit_char k) low ∙ read;
      }

  pub parse_int-two :
      (a b : ℕ) (x y : Char)
      → IsDigit a x
      → IsDigit b y
      → parse_int (String.◌∷◌ x (String.◌∷◌ y "")) ≡ some (pos (a * 10 + b))
  unfolding parse_int strip lstrip take_sign read_grouped
  parse_int-two a b x y h k =
      rw (h.space, k.space, h.minus, h.plus, h.value, k.value)
        (ap (λ n. some (pos (n * 10 + b))) (omega arith))

  pub parse_int-four :
      (a b d e : ℕ) (x y z w : Char)
      → IsDigit a x
      → IsDigit b y
      → IsDigit d z
      → IsDigit e w
      → parse_int (String.◌∷◌ x (String.◌∷◌ y (String.◌∷◌ z (String.◌∷◌ w ""))))
        ≡ some (pos (((a * 10 + b) * 10 + d) * 10 + e))
  unfolding parse_int strip lstrip take_sign read_grouped
  parse_int-four a b d e x y z w h k l m =
      rw (h.space, k.space, l.space, m.space, h.minus, h.plus, h.value, k.value, l.value, m.value)
        (ap (λ n. some (pos (((n * 10 + b) * 10 + d) * 10 + e))) (omega arith))
