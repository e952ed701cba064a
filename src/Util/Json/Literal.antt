-- ===== src/Util/Json/Literal.antt =====
-- The escaper on its buffer: it returns, and what it wrote reads back as the text.
use tiniclaw.Base.{◌≡◌, Bool, true, some, ◌++◌, Bytes}
use tiniclaw.Util.Buf.{Buf, Outcome, IsValid, text}

-- A call that returns: 0 with `s` behind the text, or -1 with some well-formed buffer.
pub record Wrote (b : Buf) (s : Bytes) (r : Outcome) : Type 0 where
  pub ok : Bool
  pub after : Buf
  pub returns : r ≡ some (ok, after)
  pub valid : IsValid after
  pub whole : ok ≡ true → text after ≡ text b ++ s
