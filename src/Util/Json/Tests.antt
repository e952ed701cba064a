-- ===== src/Util/Json/Tests.antt =====
-- A text with characters to escape, and the witnesses.
use tiniclaw.Base.{◌≡◌, refl, true, some, [], ◌∷◌, codes}
use tiniclaw.Util.Buf.{Buf, Allocator}
use tiniclaw.Util.Json.{chunk, escaped}

abbrev plenty : Allocator
plenty = record { grants = λ n. true; junk = 170 }

abbrev four : Buf
four = record { cells = some (b'a' ∷ 0 ∷ 9 ∷ 9 ∷ []); len = 1; cap = 4 }

escapes : escaped (b'"' ∷ 10 ∷ b'a' ∷ []) ≡ codes "\\\"\\na"
unfolding escaped chunk
escapes = refl
