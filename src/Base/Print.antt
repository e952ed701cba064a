-- ===== src/Base/Print.antt =====
-- The decimal text of an unsigned 64-bit number.
use Prim.Native.Nat.{ℕ, zero, suc, ◌+◌, ◌/◌, ◌%◌}
use mathlib.Core.List.{[], ◌∷◌, ◌++◌}
use tiniclaw.Base.Tests.{ltb, if◌then◌else◌}
use tiniclaw.Base.Text.{Bytes}

-- `%llu`, with fuel for 20 digits.
unfoldable pub print_digits : ℕ → ℕ → Bytes
print_digits zero n = (b'0' + n % 10) ∷ []
print_digits (suc fuel) n =
    let front = print_digits fuel (n / 10) in
    if ltb n 10 then (b'0' + n) ∷ [] else front ++ (b'0' + n % 10) ∷ []

unfoldable pub print_u64 : ℕ → Bytes
print_u64 n = print_digits 19 n
