-- ===== src/Prelude/Decimal.antt =====
-- Python's `str` of a non-negative integer: its decimal digits, as a text.
use Prim.Native.Char.{Char, code}
use Prim.Native.String.{String}
use ytdlbot.Prelude.Tests.{ltb, if◌then◌else◌}
use Prim.Native.Nat.{ℕ, zero, suc, ◌+◌, ◌-◌, ◌*◌, ◌/◌, ◌%◌, ◌<◌}
use mathlib.Core.Path.{◌≡◌, refl, sym, ap, ◌∙◌}
use native.Mathlib.Omega.{arith}

digit : ℕ → Char
digit zero = "0"
digit (suc zero) = "1"
digit (suc (suc zero)) = "2"
digit (suc (suc (suc zero))) = "3"
digit (suc (suc (suc (suc zero)))) = "4"
digit (suc (suc (suc (suc (suc zero))))) = "5"
digit (suc (suc (suc (suc (suc (suc zero)))))) = "6"
digit (suc (suc (suc (suc (suc (suc (suc zero))))))) = "7"
digit (suc (suc (suc (suc (suc (suc (suc (suc zero)))))))) = "8"
digit _ = "9"

-- The last digit first; every round divides by ten, so `n + 1` rounds are enough.
str_from : ℕ → ℕ → String → String
str_from zero n out = out
str_from (suc fuel) n out =
    let rest = str_from fuel (n / 10) (String.◌∷◌ (digit (n % 10)) out) in
    if ltb n 10 then String.◌∷◌ (digit (n % 10)) out else rest

unfoldable pub str : ℕ → String
unfolding str_from digit
str n = str_from (suc n) n ""

-- Reading the digits back.
value : String → ℕ → ℕ
value String.[] acc = acc
value (String.◌∷◌ c s) acc = value s (acc * 10 + (code c - 48))

code-digit : (d : ℕ) → d < 10 → code (digit d) - 48 ≡ d
unfolding digit
code-digit zero h = refl
code-digit (suc zero) h = refl
code-digit (suc (suc zero)) h = refl
code-digit (suc (suc (suc zero))) h = refl
code-digit (suc (suc (suc (suc zero)))) h = refl
code-digit (suc (suc (suc (suc (suc zero))))) h = refl
code-digit (suc (suc (suc (suc (suc (suc zero)))))) h = refl
code-digit (suc (suc (suc (suc (suc (suc (suc zero))))))) h = refl
code-digit (suc (suc (suc (suc (suc (suc (suc (suc zero)))))))) h = refl
code-digit (suc (suc (suc (suc (suc (suc (suc (suc (suc d))))))))) h = omega arith

value-str_from :
    (fuel n : ℕ) (out : String) → n < fuel → value (str_from fuel n out) 0 ≡ value out n
unfolding str_from value
value-str_from zero n out h = absurd (omega arith)
value-str_from (suc fuel) n out h =
    ground
      (arith, code-digit (n % 10), value-str_from fuel (n / 10) (String.◌∷◌ (digit (n % 10)) out))

value-str : (n : ℕ) → value (str n) 0 ≡ n
unfolding str value
value-str n = value-str_from (suc n) n "" (omega arith)

-- Different numbers are printed differently.
pub str-injective : (m n : ℕ) → str m ≡ str n → m ≡ n
str-injective m n e = sym (value-str m) ∙ ap (λ s. value s 0) e ∙ value-str n

str_example : str 1024 ≡ "1024"
unfolding str
str_example = refl
