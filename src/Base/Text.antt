-- ===== src/Base/Text.antt =====
-- C strings: the bytes before the terminating NUL, with the functions of <string.h> and <ctype.h>
-- that the program calls. A fixed array `char f[n]` that `snprintf` fills keeps the first `n - 1`
-- bytes.
use Prim.Native.Nat.{ℕ, ◌-◌, ◌<◌}
use Prim.Native.Char.{code}
use Prim.Native.String.{String}
use mathlib.Core.Path.{◌≡◌, refl}
use mathlib.Core.Logic.{◌↔◌}
use mathlib.Core.Bool.{Bool, true, false, ◌&&◌}
use mathlib.Core.List.{List, [], ◌∷◌, ◌++◌}
use native.Mathlib.Omega.{arith}
use tiniclaw.Base.Tests.{◌==◌, if◌then◌else◌}
use tiniclaw.Base.Lists.{take, All}

abbrev pub Bytes : Type 0
Bytes = List ℕ

-- The code points of a literal: its bytes, since every literal here is ASCII.
abbrev pub codes : String → Bytes
codes String.[] = []
codes (String.◌∷◌ c s) = code c ∷ codes s

-- A byte of a C string: not NUL, and below 256.
abbrev pub IsText : Bytes → Type 0
IsText = All (λ c. (0 < c) × (c < 256))

-- `strcmp(a, b) == 0`
unfoldable pub str_eq : Bytes → Bytes → Bool
str_eq [] [] = true
str_eq [] (b ∷ bs) = false
str_eq (a ∷ xs) [] = false
str_eq (a ∷ xs) (b ∷ ys) = a == b && str_eq xs ys

-- `strncmp(s, p, strlen(p)) == 0`
unfoldable pub starts_with : Bytes → Bytes → Bool
starts_with [] s = true
starts_with (p ∷ ps) [] = false
starts_with (p ∷ ps) (c ∷ s) = p == c && starts_with ps s

-- `snprintf(f, n, "%s", s)`
abbrev pub clip : ℕ → Bytes → Bytes
clip n s = take (n - 1) s

pub str_eq_iff : (a b : Bytes) → (str_eq a b ≡ true) ↔ (a ≡ b)
unfolding str_eq
str_eq_iff [] [] = (λ h. refl, λ h. refl)
str_eq_iff [] (b ∷ bs) = (λ h. cc, λ h. cc)
str_eq_iff (a ∷ xs) [] = (λ h. cc, λ h. cc)
str_eq_iff (a ∷ xs) (b ∷ ys) =
    (λ h. ground (arith, str_eq_iff xs ys), λ h. ground (arith, str_eq_iff xs ys))

pub str_eq_refl : (a : Bytes) → str_eq a a ≡ true
str_eq_refl a = (str_eq_iff a a).1 refl

pub starts_with-append : (p s : Bytes) → starts_with p (p ++ s) ≡ true
unfolding starts_with
starts_with-append [] s = refl
starts_with-append (c ∷ p) s = ground (arith, starts_with-append p s)

-- A C string ends at its first NUL.
unfoldable pub c_string : Bytes → Bytes
c_string [] = []
c_string (c ∷ s) = let rest = c_string s in if c == 0 then [] else c ∷ rest

pub c_string-text : (s : Bytes) → IsText s → c_string s ≡ s
unfolding c_string
c_string-text [] h = refl
c_string-text (c ∷ s) (hc, h) = ground (arith, c_string-text s h)
