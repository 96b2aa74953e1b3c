-- ===== src/Text/Lengths.antt =====
-- Lengths of texts.
use Prim.Native.String.append
use Prim.Native.String.{◌++◌ as join}
use vault.Base.{ℕ, zero, suc, ◌+◌, ◌≤◌, ◌≡◌, ap, ◌∙◌, String, arith}
use vault.Text.{text_length, take}

pub text_length-join : (s t : String) → text_length (join s t) ≡ text_length s + text_length t
unfolding text_length
text_length-join String.[] t = ap text_length (append.nil t) ∙ omega arith
text_length-join (String.◌∷◌ c s) t =
    ap text_length (append.cons c s t) ∙ omega (arith, text_length-join s t)

pub text_length-take : (n : ℕ) (s : String) → text_length (take n s) ≤ n
unfolding text_length take
text_length-take zero s = omega arith
text_length-take (suc n) String.[] = omega arith
text_length-take (suc n) (String.◌∷◌ c s) = omega (arith, text_length-take n s)
