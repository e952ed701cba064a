-- ===== src/Util/Strings/Tests.antt =====
-- The string functions on short texts, and the witnesses of their theorems.
use tiniclaw.Base.{◌≡◌, refl, some, [], ◌∷◌, ◌++◌, codes}
use tiniclaw.Base.Memory.{copy_at}
use tiniclaw.Util.Strings.{strtrim, strlcat, strnlen}

trims : strtrim (some (codes "  a b\n")) ≡ some (codes "a b")
unfolding strtrim
trims = refl

concatenates : strlcat (codes "ab" ++ 0 ∷ 7 ∷ 7 ∷ []) (codes "cde") 5 ≡ (5, codes "abcd" ++ 0 ∷ [])
unfolding strlcat strnlen copy_at
concatenates = refl
