-- ===== src/Util/Strings/Concat.antt =====
-- `strlcat` keeps the buffer a terminated string of at most `dst_size - 1` bytes, except at size 0.
use tiniclaw.Base.{
  ℕ, zero, suc, ◌+◌, ◌-◌, ◌%◌, ◌^◌, ◌≤◌, ◌<◌, ◌≡◌, ◌≢◌, ◌∙◌, refl, sym, ap, some, [], ◌∷◌, ◌++◌,
  Bytes, length, take, drop, get_elem?, arith, min, ltb, append_assoc, append-nil, Bool-cases,
  ltb→lt, inl, inr, List, length-append, length-take,
}
use tiniclaw.Base.Memory.{copy_at, copy_at_outside, copy_at_parts, length-copy_at}
use tiniclaw.Util.Strings.{strnlen, strlcat}

-- The string that starts a block of memory, if a NUL ends it there: `t`, its NUL, and the rest.
abbrev pub Terminated : Bytes → Bytes → Type 0
Terminated cells t = (rest : Bytes) × (cells ≡ t ++ 0 ∷ rest)

-- No byte of the text is NUL.
abbrev pub Nonzero : Bytes → Type 0
Nonzero [] = Unit
Nonzero (c ∷ s) = (c ≢ 0) × Nonzero s

strnlen_lem :
    (t rest : Bytes) (n : ℕ) → Nonzero t → length t < n → strnlen (t ++ 0 ∷ rest) n ≡ length t
unfolding strnlen
strnlen_lem t rest zero nz h = absurd (omega arith)
strnlen_lem [] rest (suc n) nz h = refl
strnlen_lem (c ∷ t) rest (suc n) nz h =
    ground (arith, nz.0, strnlen_lem t rest n nz.1 (omega arith))

take-append_le : (t ys : Bytes) → take (length t) (t ++ ys) ≡ t
take-append_le [] ys = refl
take-append_le (c ∷ t) ys = ap (λ (l : Bytes). c ∷ l) (take-append_le t ys)

take-min {ℓ} : {A : Type ℓ} (k : ℕ) (xs : List A) → take (min k (length xs)) xs ≡ take k xs
take-min zero xs = ap (λ (n : ℕ). take n xs) (let e : min 0 (length xs) ≡ 0 = omega arith in e)
take-min (suc k) [] = ap (λ (n : ℕ). take n []) (let e : min (suc k) 0 ≡ 0 = omega arith in e)
take-min (suc k) (x ∷ xs) =
    ap (λ (n : ℕ). take n (x ∷ xs))
      (let e : min (suc k) (suc (length xs)) ≡ suc (min k (length xs)) = omega arith in e)
    ∙ ap (λ (l : List _). x ∷ l) (take-min k xs)

-- Overwriting the NUL of a terminated string by more text and a NUL.
append_text :
    (t rest more : Bytes)
    → length t + length more < length (t ++ 0 ∷ rest)
    → Terminated (copy_at (t ++ 0 ∷ rest) (length t) (more ++ 0 ∷ [])) (t ++ more)
append_text t rest more h =
    let cells : Bytes = t ++ 0 ∷ rest in
    let n = length-append more (0 ∷ []) in
    let rear : Bytes = drop (length t + length (more ++ 0 ∷ [])) cells in
    let parts = copy_at_parts cells (length t) (more ++ 0 ∷ []) (omega (arith, n)) in
    let shape : copy_at cells (length t) (more ++ 0 ∷ []) ≡ (t ++ more) ++ 0 ∷ rear =
      parts
      ∙ ap (λ (l : Bytes). l ++ ((more ++ 0 ∷ []) ++ rear)) (take-append_le t (0 ∷ rest))
      ∙ (simp append_assoc) in
    (rear, shape)

-- On a terminated string that fits the stated size, `strlcat` appends what fits below
-- `dst_size - 1` bytes, terminates the result, keeps the block's length, and returns the length
-- that the whole concatenation would have.
pub strlcat_lem :
    (t rest src : Bytes) (dst_size : ℕ)
    → Nonzero t
    → length t < dst_size
    → dst_size ≤ length (t ++ 0 ∷ rest)
    → length (t ++ 0 ∷ rest) + length src < 2 ^ 64
    → let (n, cells) = strlcat (t ++ 0 ∷ rest) src dst_size in
      (n ≡ length t + length src)
      × Terminated cells (t ++ take (dst_size - 1 - length t) src)
      × (length cells ≡ length (t ++ 0 ∷ rest))
unfolding strlcat
strlcat_lem t rest src dst_size nz room backed small =
    let m : Bytes = t ++ 0 ∷ rest in
    let k : ℕ = dst_size - 1 - length t in
    let len = strnlen_lem t rest dst_size nz room in
    let total : (length t + length src) % 2 ^ 64 ≡ length t + length src =
      omega (arith, length-append t (0 ∷ rest)) in
    let last : (dst_size + 2 ^ 64 - 1) % 2 ^ 64 ≡ dst_size - 1 = omega arith in
    let left : (dst_size + 2 ^ 64 - length t + 2 ^ 64 - 1) % 2 ^ 64 ≡ k = omega arith in
    rw (len, total, last, left, take-min k src)
      (elim (Bool-cases (ltb (length t) (dst_size - 1))) [
        | inl more ↦ rw more (
          refl,
          append_text t rest (take k src) (omega (arith, length-take k src, ltb→lt _ _ more)),
          length-copy_at m (length t) (take k src ++ 0 ∷ []),
        )
        | inr full ↦
            let none_left : k ≡ 0 = ground arith in
            rw (full, none_left)
              (refl, (rest, ap (λ (l : Bytes). l ++ 0 ∷ rest) (sym (append-nil t))), refl)
      ])

-- With a stated size of 0 the subtraction wraps, and the source is written to `dst` all the same:
-- its first byte lands in a block that was to hold none.
pub strlcat_zero :
    (d c : ℕ) (dst src : Bytes)
    → length (c ∷ src) < 2 ^ 64 - 1
    → get_elem? (strlcat (d ∷ dst) (c ∷ src) 0).1 0 ≡ some c
unfolding strlcat copy_at
strlcat_zero d c dst src h =
    rw (let e : min (2 ^ 64 - 1) (suc (length src)) ≡ suc (length src) = omega arith in e)
      (copy_at_outside (c ∷ dst) 1 (take (length src) src ++ 0 ∷ []) 0 (inl (omega arith)))
