-- ===== src/Base/Memory.antt =====
-- A block of memory as a list of cells: `memcpy` into it at an offset, and reading back.
use Prim.Native.Nat.{ℕ, zero, suc, ◌+◌, ◌≤◌, ◌<◌}
use mathlib.Core.Path.{◌≡◌, refl, ◌∙◌, ap}
use mathlib.Core.Logic.{◌⊎◌}
use mathlib.Core.Option.{some}
use mathlib.Core.List.{List, [], ◌∷◌, ◌++◌}
use native.Mathlib.Omega.{arith}
use tiniclaw.Base.Lists.{
  take, drop, take-append_left, length, get_elem?, set, length-set, get_elem?-set_self,
  get_elem?-set_ne,
}

module _ {ℓ} {A : Type ℓ} where
  -- Store the cells of the list from index `p` on; a write out of bounds changes nothing.
  unfoldable pub copy_at : List A → ℕ → List A → List A
  copy_at buf p [] = buf
  copy_at buf p (x ∷ xs) = copy_at (set buf p x) (p + 1) xs

  pub length-copy_at : (buf : List A) (p : ℕ) (xs : List A) → length (copy_at buf p xs) ≡ length buf
  unfolding copy_at
  length-copy_at buf p [] = refl
  length-copy_at buf p (x ∷ xs) =
      omega (arith, length-copy_at (set buf p x) (p + 1) xs, length-set buf p x)

  pub copy_at_outside :
      (buf : List A) (p : ℕ) (xs : List A) (j : ℕ)
      → (j < p) ⊎ (p + length xs ≤ j)
      → get_elem? (copy_at buf p xs) j ≡ get_elem? buf j
  unfolding copy_at
  copy_at_outside buf p [] j h = refl
  copy_at_outside buf p (x ∷ xs) j h =
      copy_at_outside (set buf p x) (p + 1) xs j (omega arith)
      ∙ get_elem?-set_ne buf p j x (omega arith)

  pub copy_at_inside :
      (buf : List A) (p : ℕ) (xs : List A) (i : ℕ)
      → p + length xs ≤ length buf
      → i < length xs
      → get_elem? (copy_at buf p xs) (p + i) ≡ get_elem? xs i
  unfolding copy_at
  copy_at_inside buf p [] i h lt = absurd (omega arith)
  copy_at_inside buf p (x ∷ xs) zero h lt = rw (let e : p + 0 ≡ p = omega arith in e) (
      copy_at_outside (set buf p x) (p + 1) xs p (omega arith)
      ∙ get_elem?-set_self buf p x (omega arith))
  copy_at_inside buf p (x ∷ xs) (suc i) h lt =
      rw (let e : p + suc i ≡ (p + 1) + i = omega arith in e) (
        copy_at_inside (set buf p x) (p + 1) xs i (omega (arith, length-set buf p x)) (omega arith))

module _ {ℓ} {A : Type ℓ} where
  copy_at_cons :
      (y : A) (m : List A) (p : ℕ) (xs : List A) → copy_at (y ∷ m) (suc p) xs ≡ y ∷ copy_at m p xs
  unfolding copy_at
  copy_at_cons y m p [] = refl
  copy_at_cons y m p (x ∷ xs) =
      rw (let e : suc p + 1 ≡ suc (p + 1) = omega arith in e)
        (copy_at_cons y (set m p x) (p + 1) xs)

  copy_at_front :
      (m : List A) (xs : List A) → length xs ≤ length m → copy_at m 0 xs ≡ xs ++ drop (length xs) m
  unfolding copy_at
  copy_at_front m [] h = refl
  copy_at_front [] (x ∷ xs) h = absurd (omega arith)
  copy_at_front (y ∷ m) (x ∷ xs) h =
      copy_at_cons x m 0 xs ∙ ap (λ (l : List A). x ∷ l) (copy_at_front m xs (omega arith))

  -- What a copy within bounds leaves: the cells before it, the copied ones, the cells behind.
  pub copy_at_parts :
      (m : List A) (p : ℕ) (xs : List A)
      → p + length xs ≤ length m
      → copy_at m p xs ≡ take p m ++ (xs ++ drop (p + length xs) m)
  copy_at_parts m zero xs h =
      rw (let e : zero + length xs ≡ length xs = omega arith in e)
        (copy_at_front m xs (omega arith))
  copy_at_parts [] (suc p) xs h = absurd (omega arith)
  copy_at_parts (y ∷ m) (suc p) xs h =
      rw (let e : suc p + length xs ≡ suc (p + length xs) = omega arith in e)
        (copy_at_cons y m p xs ∙ ap (λ (l : List A). y ∷ l) (copy_at_parts m p xs (omega arith)))

  pub take-append : (n : ℕ) (xs ys : List A) → n ≡ length xs → take n (xs ++ ys) ≡ xs
  take-append n xs ys e = rw e (take-append_left xs ys)

  pub get_elem?-append :
      (xs : List A) (y : A) (ys : List A) (n : ℕ)
      → n ≡ length xs
      → get_elem? (xs ++ y ∷ ys) n ≡ some y
  get_elem?-append xs y ys n e = rw e (at_end xs)
    where
      at_end : (l : List A) → get_elem? (l ++ y ∷ ys) (length l) ≡ some y
      at_end [] = refl
      at_end (x ∷ l) = at_end l

  pub take-take_append : (n : ℕ) (xs ys : List A) → n ≤ length xs → take n (xs ++ ys) ≡ take n xs
  take-take_append zero xs ys h = refl
  take-take_append (suc n) [] ys h = absurd (omega arith)
  take-take_append (suc n) (x ∷ xs) ys h =
      ap (λ (l : List A). x ∷ l) (take-take_append n xs ys (omega arith))
