-- ===== src/Arena/Copies.antt =====
-- What `strdup`, `strndup` and `zalloc` leave in the buffer.
use tiniclaw.Base.{
  ℕ, ◌+◌, ◌%◌, ◌^◌, ◌≤◌, ◌<◌, ◌≡◌, ◌⊎◌, Option, none, some, [], ◌∷◌, ◌++◌, Bytes, arith, leb,
  length, length-append, get_elem?, replicate, length-replicate, Bool-cases, leb→le, inl, inr, refl,
  ap, ◌∙◌, if◌then◌else◌,
}
use tiniclaw.Base.Memory.{copy_at_inside, copy_at_outside, length-copy_at}
use tiniclaw.Arena.{Arena, IsValid, alloc, strdup, zalloc, fill}
use tiniclaw.Arena.Align.{round_up, alloc_exact}

one_aligned : (x : ℕ) → round_up 0 x ≡ x
one_aligned x = omega arith

-- With alignment 1 nothing is skipped.
alloc_bytes :
    (a : Arena) (size : ℕ)
    → IsValid a
    → a.cap + 1 + size ≤ 2 ^ 64
    → alloc a size 1 ≡ (
        if leb (a.pos + size) a.cap
        then (some a.pos, record a { pos = a.pos + size })
        else (none, a))
alloc_bytes a size v fits =
    alloc_exact a size 0 v (omega arith) fits
    ∙ ap
        (λ (x : ℕ).
          if leb (x + size) a.cap then (some x, record a { pos = x + size }) else (none, a))
        (one_aligned a.pos)

-- `r` is what storing `bytes` in a fresh block of `a` returns: with room, the block at the old
-- position, where the bytes stand, and every other byte as it was; else NULL, and nothing changed.
pub record IsCopy (a : Arena) (bytes : Bytes) (r : Option ℕ × Arena) : Type 0 where
  pub pointer : r.0 ≡ (if leb (a.pos + length bytes) a.cap then some a.pos else none)
  pub refused : r.0 ≡ none → r.1 ≡ a
  pub position : r.0 ≡ some a.pos → r.1.pos ≡ a.pos + length bytes
  pub stored :
      (i : ℕ)
      → r.0 ≡ some a.pos
      → i < length bytes
      → get_elem? r.1.buf (a.pos + i) ≡ get_elem? bytes i
  pub kept :
      (j : ℕ) → (j < a.pos) ⊎ (a.pos + length bytes ≤ j) → get_elem? r.1.buf j ≡ get_elem? a.buf j
  pub valid : IsValid r.1

fill-IsCopy :
    (a : Arena) (bytes : Bytes)
    → IsValid a
    → a.cap + 1 + length bytes ≤ 2 ^ 64
    → IsCopy a bytes (fill (alloc a (length bytes) 1) bytes)
unfolding fill
fill-IsCopy a bytes v fits =
    rw (alloc_bytes a (length bytes) v fits) (elim (Bool-cases (leb (a.pos + length bytes) a.cap)) [
      | inl room ↦
          let h : a.pos + length bytes ≤ length a.buf = omega (arith, leb→le _ _ room) in
          rw (room, fill)
            (record {
              pointer = rw room;
              refused = λ e. cc;
              position = λ e. refl;
              stored = λ i e lt. copy_at_inside a.buf a.pos bytes i h lt;
              kept = λ j out. copy_at_outside a.buf a.pos bytes j out;
              valid = record {
                within = leb→le _ _ room;
                backed = rw length-copy_at v.backed;
                sized = v.sized;
              };
            })
      | inr full ↦
          rw (full, fill)
            (record {
              pointer = rw full;
              refused = λ e. refl;
              position = λ e. cc;
              stored = λ i e lt. cc;
              kept = λ j out. refl;
              valid = v;
            })
    ])

-- `strdup` stores the string and its NUL.
pub strdup-IsCopy :
    (a : Arena) (s : Bytes)
    → IsValid a
    → a.cap + 2 + length s ≤ 2 ^ 64
    → IsCopy a (s ++ 0 ∷ []) (strdup a (some s))
unfolding strdup
strdup-IsCopy a s v fits =
    let e : (length s + 1) % 2 ^ 64 ≡ length (s ++ 0 ∷ []) =
      omega (arith, length-append s (0 ∷ [])) in
    rw e (fill-IsCopy a (s ++ 0 ∷ []) v (omega (arith, length-append s (0 ∷ []))))

-- `zalloc` at alignment 1 stores zeros.
pub zalloc-IsCopy :
    (a : Arena) (size : ℕ)
    → IsValid a
    → a.cap + 1 + size ≤ 2 ^ 64
    → IsCopy a (replicate size 0) (zalloc a size 1)
unfolding zalloc
zalloc-IsCopy a size v fits =
    let n : length (replicate {A = ℕ} size 0) ≡ size = length-replicate size 0 in
    rw n at (fill-IsCopy a (replicate size 0) v (omega (arith, n)))
