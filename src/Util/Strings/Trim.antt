-- ===== src/Util/Strings/Trim.antt =====
-- `strtrim` drops the white space at both ends, and nothing else.
use tiniclaw.Base.{
  ℕ, zero, suc, ◌+◌, ◌<◌, ◌≡◌, ◌∙◌, inl, inr, refl, sym, ap, true, false, some, [], ◌∷◌, ◌++◌,
  Bytes, length, take, drop, get_or, All, arith, Bool-cases, take-append-drop, drop-length,
}
use tiniclaw.Util.Strings.{isspace, skip_spaces, last_kept, cut_end, strtrim}

abbrev pub Space : ℕ → Type 0
Space c = isspace c ≡ true

-- Empty, or beginning with a byte that is not white space.
abbrev pub StartsClean : Bytes → Type 0
StartsClean [] = Unit
StartsClean (c ∷ s) = isspace c ≡ false

-- Empty, or ending with such a byte.
abbrev pub EndsClean : Bytes → Type 0
EndsClean [] = Unit
EndsClean (c ∷ []) = isspace c ≡ false
EndsClean (c ∷ d ∷ s) = EndsClean (d ∷ s)

record Skipped (s out : Bytes) : Type 0 where
  front : Bytes
  spaces : All Space front
  whole : s ≡ front ++ out
  clean : StartsClean out

skip_spaces-Skipped : (s : Bytes) → Skipped s (skip_spaces s)
unfolding skip_spaces
skip_spaces-Skipped [] = record { front = []; spaces = tt; whole = refl; clean = tt }
skip_spaces-Skipped (c ∷ s) = elim (Bool-cases (isspace c)) [
  | inl space ↦
      let r = skip_spaces-Skipped s in
      rw space (record {
        front = c ∷ r.front;
        spaces = (space, r.spaces);
        whole = ap (λ (l : Bytes). c ∷ l) r.whole;
        clean = r.clean;
      })
  | inr other ↦ rw other (record { front = []; spaces = tt; whole = refl; clean = other })
]

-- One cell more, at the end.
take_one_more : (s : Bytes) (n : ℕ) → n < length s → drop n s ≡ get_or s n 0 ∷ drop (n + 1) s
take_one_more [] n h = absurd (omega arith)
take_one_more (c ∷ s) zero h = refl
take_one_more (c ∷ s) (suc n) h =
    rw (let e : suc n + 1 ≡ suc (n + 1) = omega arith in e) (take_one_more s n (omega arith))

EndsClean-take :
    (s : Bytes) (n : ℕ) → n < length s → isspace (get_or s n 0) ≡ false → EndsClean (take (n + 1) s)
EndsClean-take [] n h e = absurd (omega arith)
EndsClean-take (c ∷ s) zero h e = e
EndsClean-take (c ∷ []) (suc n) h e = absurd (omega arith)
EndsClean-take (c ∷ d ∷ s) (suc n) h e =
    rw (let q : suc n + 1 ≡ suc (suc n) = omega arith in q)
      (rw (let q : n + 1 ≡ suc n = omega arith in q) at (EndsClean-take (d ∷ s) n (omega arith) e))

record Cut (s : Bytes) (n : ℕ) : Type 0 where
  tail_spaces : All Space (drop (n + 1) s)
  in_range : n < length s
  clean : EndsClean (take (n + 1) s)

last_kept-Cut :
    (s : Bytes) (end : ℕ)
    → StartsClean s
    → end < length s
    → All Space (drop (end + 1) s)
    → Cut s (last_kept s end)
unfolding last_kept
last_kept-Cut [] zero clean h t = absurd (omega arith)
last_kept-Cut (c ∷ s) zero clean h t = record { tail_spaces = t; in_range = h; clean = clean }
last_kept-Cut s (suc end) clean h t = elim (Bool-cases (isspace (get_or s (suc end) 0))) [
  | inl space ↦
      let more : All Space (drop (end + 1) s) =
        rw (let q : end + 1 ≡ suc end = omega arith in q)
          (rw (take_one_more s (suc end) h) (space, t)) in
      rw space (last_kept-Cut s end clean (omega arith) more)
  | inr other ↦
      rw other
        (record { tail_spaces = t; in_range = h; clean = EndsClean-take s (suc end) h other })
]

-- `out` is the middle of `s`, between white space, and has none at its ends.
pub record Trimmed (s out : Bytes) : Type 0 where
  pub front : Bytes
  pub back : Bytes
  pub whole : s ≡ front ++ (out ++ back)
  pub front_spaces : All Space front
  pub back_spaces : All Space back
  pub starts : StartsClean out
  pub ends : EndsClean out

cut_end-Trimmed : (s out : Bytes) → Skipped s out → Trimmed s (cut_end out)
unfolding cut_end
cut_end-Trimmed s [] k = record {
  front = k.front;
  back = [];
  whole = k.whole;
  front_spaces = k.spaces;
  back_spaces = tt;
  starts = tt;
  ends = tt;
}
cut_end-Trimmed s (c ∷ r) k =
    let n : ℕ = last_kept (c ∷ r) (length r) in
    let none_left : All Space (drop (length r + 1) (c ∷ r)) =
      rw (let e : length r + 1 ≡ suc (length r) = omega arith in e) (rw (drop-length r) tt) in
    let cut = last_kept-Cut (c ∷ r) (length r) k.clean (omega arith) none_left in
    record {
      front = k.front;
      back = drop (n + 1) (c ∷ r);
      whole = k.whole ∙ ap (λ (l : Bytes). k.front ++ l) (sym (take-append-drop (n + 1) (c ∷ r)));
      front_spaces = k.spaces;
      back_spaces = cut.tail_spaces;
      starts = rw (let e : n + 1 ≡ suc n = omega arith in e) k.clean;
      ends = cut.clean;
    }

-- Every string trims to its middle: what is dropped is white space at the two ends, and what stays
-- neither begins nor ends with white space.
pub strtrim-Trimmed : (s : Bytes) → (out : Bytes) × (strtrim (some s) ≡ some out) × Trimmed s out
unfolding strtrim
strtrim-Trimmed s =
    (cut_end (skip_spaces s), refl, cut_end-Trimmed s (skip_spaces s) (skip_spaces-Skipped s))
