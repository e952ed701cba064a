-- ===== src/Tools/Web/Fetched.antt =====
-- What the fetch tool shows of a page.
use tiniclaw.Base.{
  ℕ, zero, suc, ◌<◌, ◌≡◌, refl, ap, ◌∙◌, [], ◌∷◌, ◌++◌, Bytes, codes, c_string, length, set, take,
  ltb, ◌==◌, if◌then◌else◌, if_true, arith,
}
use tiniclaw.Tools.Web.{truncated}

cut :
    (n : ℕ) (page mark : Bytes)
    → n < length page
    → c_string (set page n 0 ++ mark) ≡ c_string (take n page)
unfolding c_string
cut zero [] mark h = elim h [ ]
cut zero (c ∷ page) mark h = refl
cut (suc n) [] mark h = absurd (omega arith)
cut (suc n) (c ∷ page) mark h =
    ap (λ (rest : Bytes). if c == 0 then [] else c ∷ rest) (cut n page mark (omega arith))

-- A page longer than the limit is shown as its first bytes up to the limit, or to its first NUL: the
-- mark that is written behind it is never part of the text.
pub truncated-cut :
    (limit : ℕ) (page : Bytes)
    → limit < length page
    → c_string (truncated limit page) ≡ c_string (take limit page)
unfolding truncated
truncated-cut limit page h =
    ap c_string (if_true (ltb limit (length page)) _ page (ground arith))
    ∙ cut limit page (codes "\n...[truncated]") h
