-- ===== src/Util/Buf/Tests.antt =====
-- The buffers on small texts, and the witness of appending.
use tiniclaw.Base.{◌≡◌, refl, ◌++◌, true, false, some, [], ◌∷◌, codes, arith}
use tiniclaw.Util.Buf.{
  Buf, Allocator, IsValid, append, buf_reset, double_until, realloc_cells, grow, grow_to, put_bytes,
  put_after, text,
}
use tiniclaw.Util.Buf.Append.{Appended, append-Appended}
use tiniclaw.Base.Memory.{copy_at}

abbrev plenty : Allocator
plenty = record { grants = λ n. true; junk = 170 }

abbrev nothing : Allocator
nothing = record { grants = λ n. false; junk = 0 }

abbrev four : Buf
four = record { cells = some (b'a' ∷ 0 ∷ 9 ∷ 9 ∷ []); len = 1; cap = 4 }

four-IsValid : IsValid four
four-IsValid = record { block = (refl, omega arith, refl); sized = omega arith }

append_in_place :
    append plenty 2 four (codes "bc")
    ≡ some (true, record { cells = some (codes "abc" ++ 0 ∷ []); len = 3; cap = 4 })
unfolding append put_bytes copy_at
append_in_place = refl

append_grows :
    append plenty 2 four (codes "bcd")
    ≡ some
        (true, record { cells = some (codes "abcd" ++ 0 ∷ 170 ∷ 170 ∷ 170 ∷ []); len = 4; cap = 8 })
unfolding append grow grow_to double_until put_after put_bytes copy_at realloc_cells
append_grows = refl

append_refused : append nothing 2 four (codes "bcd") ≡ some (false, four)
unfolding append grow grow_to double_until put_after
append_refused = refl

reset_keeps_block : text (buf_reset four) ≡ []
unfolding buf_reset
reset_keeps_block = refl

append-Appended_example : Appended plenty four (codes "bcd") (append plenty 2 four (codes "bcd"))
append-Appended_example =
    append-Appended plenty 2 four (codes "bcd") (omega arith) (omega arith) four-IsValid
      (omega arith)
