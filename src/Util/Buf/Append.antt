-- ===== src/Util/Buf/Append.antt =====
-- Appending returns, for every size that a machine can hold, and keeps the text.
use tiniclaw.Base.{
  ℕ, zero, suc, ◌+◌, ◌-◌, ◌*◌, ◌%◌, ◌^◌, ◌≤◌, ◌<◌, ◌≡◌, ◌∙◌, ap, refl, ◌⊎◌, inl, inr, Bool, true,
  false, Option, none, some, [], ◌∷◌, ◌++◌, append_assoc, Bytes, length, drop, ◌≢◌, take, replicate,
  get_elem?, length-append, length-take, length-replicate, arith, ltb, ◌==◌, if◌then◌else◌,
  Bool-cases, take-all, ltb→lt, lt→ltb,
}
use native.Mathlib.Nat.{pow-suc}
use tiniclaw.Base.Memory.{
  copy_at, copy_at_parts, length-copy_at, take-append, get_elem?-append, take-take_append,
}
use tiniclaw.Util.Buf.{
  Buf, Allocator, Outcome, HasBlock, IsValid, held, text, double_until, realloc_cells, grow,
  put_bytes, put_after, append,
}

double_until_step :
    (fuel c needed : ℕ)
    → c < needed
    → c * 2 < 2 ^ 64
    → double_until (suc fuel) c needed ≡ double_until fuel (c * 2) needed
unfolding double_until
double_until_step fuel c needed less fits =
    rw (lt→ltb c needed less) (ap (λ (t : ℕ). double_until fuel t needed) (omega arith))

-- The loop of `nc_buf_grow` ends at a capacity that is enough, and not more than twice what is
-- needed unless the first one tried was enough.
double_until_ends :
    (fuel c needed : ℕ)
    → 0 < c
    → c ≤ 2 ^ 63
    → needed ≤ 2 ^ 62
    → needed ≤ c * 2 ^ fuel
    → (r : ℕ) × (double_until (suc fuel) c needed ≡ some r)
      × (needed ≤ r)
      × (r ≤ 2 ^ 63)
      × (c ≤ r)
      × ((r ≡ c) ⊎ (r < 2 * needed))
unfolding double_until
double_until_ends zero c needed pos top small enough =
    (c, ground arith, omega arith, omega arith, omega arith, inl refl)
double_until_ends (suc fuel) c needed pos top small enough = elim (Bool-cases (ltb c needed)) [
  | inl less ↦
      let lt : c < needed = ltb→lt c needed less in
      let (r, e, ge, le, up, near) =
        double_until_ends fuel (c * 2) needed (omega arith) (omega arith) small
          (omega (arith, ap (λ (t : ℕ). c * t) (pow-suc 2 fuel))) in
      (
        r,
        double_until_step (suc fuel) c needed lt (omega arith) ∙ e,
        ge,
        le,
        omega arith,
        inr (omega arith),
      )
  | inr more ↦ (c, rw more, ground arith, omega arith, omega arith, inl refl)
]

-- The block that `realloc` returns has the new size, and begins with the old text.
length-realloc_cells :
    (junk : ℕ) (cells : Option Bytes) (len cap n : ℕ)
    → HasBlock cells len cap
    → cap ≤ n
    → length (realloc_cells junk cells n) ≡ n
unfolding realloc_cells
length-realloc_cells junk none len cap n h le = length-replicate n junk
length-realloc_cells junk (some m) len cap n h le = omega (
  arith,
  length-append (take n m) (replicate (n - length m) junk),
  length-take n m,
  length-replicate (n - length m) junk,
)

take-realloc_cells :
    (junk : ℕ) (cells : Option Bytes) (len cap n : ℕ)
    → HasBlock cells len cap
    → cap ≤ n
    → take len (realloc_cells junk cells n) ≡ held cells len
unfolding realloc_cells
take-realloc_cells junk none len cap n h le = rw (h.0)
take-realloc_cells junk (some m) len cap n h le =
    rw (take-all n m (omega arith)) (take-take_append len m _ (omega arith))

-- Writing a text and its NUL behind the text that a block holds.
put_cells :
    (m s : Bytes) (len : ℕ)
    → len + length s + 1 ≤ length m
    → (take (len + length s) (copy_at m len (s ++ 0 ∷ [])) ≡ take len m ++ s)
      × (get_elem? (copy_at m len (s ++ 0 ∷ [])) (len + length s) ≡ some 0)
put_cells m s len h =
    let n = length-append s (0 ∷ []) in
    let parts = copy_at_parts m len (s ++ 0 ∷ []) (omega (arith, n)) in
    let rest : Bytes = drop (len + length (s ++ 0 ∷ [])) m in
    let size : len + length s ≡ length (take len m ++ s) =
      omega (arith, length-append (take len m) s, length-take len m) in
    let shape : copy_at m len (s ++ 0 ∷ []) ≡ (take len m ++ s) ++ 0 ∷ rest =
      parts ∙ simp append_assoc in
    (
      rw shape (take-append (len + length s) (take len m ++ s) (0 ∷ rest) size),
      rw shape (get_elem?-append (take len m ++ s) 0 rest (len + length s) size),
    )

-- The buffer `b'` holds the text of `b` and then `s`, and is well formed.
pub record Holds (b : Buf) (s : Bytes) (b' : Buf) : Type 0 where
  pub texts : text b' ≡ text b ++ s
  pub valid : IsValid b'

put_bytes-Holds :
    (b : Buf) (m s : Bytes)
    → b.cells ≡ some m
    → length m ≡ b.cap
    → b.len + length s + 1 ≤ b.cap
    → b.cap ≤ 2 ^ 63
    → Holds b s (put_bytes b s)
unfolding put_bytes
put_bytes-Holds b m s at size room top =
    let p = put_cells m s b.len (omega arith) in
    let wrap : (b.len + length s) % 2 ^ 64 ≡ b.len + length s = omega arith in
    rw at (
      rw wrap (record {
        texts = p.0;
        valid = record {
          block = (length-copy_at m b.len (s ++ 0 ∷ []) ∙ size, omega arith, p.1);
          sized = top;
        };
      }))

-- What an append comes to: 0 and the longer text; or -1, and the buffer untouched.
pub record Appended (al : Allocator) (b : Buf) (s : Bytes) (r : Outcome) : Type 0 where
  pub ok : Bool
  pub after : Buf
  pub returns : r ≡ some (ok, after)
  pub appended : ok ≡ true → Holds b s after
  pub untouched : ok ≡ false → after ≡ b
  pub refused : ok ≡ false → (n : ℕ) × (al.grants n ≡ false) × (b.len + length s + 1 ≤ n)
  -- at least twice the old capacity, or just enough: growing is amortised
  pub geometric : after.cap ≢ b.cap → b.cap * 2 ≤ after.cap

module _ (al : Allocator) (first : ℕ) where
  grow_returns :
      (b : Buf) (s : Bytes)
      → 0 < first
      → first ≤ 2 ^ 63
      → IsValid b
      → b.len + length s + 1 ≤ 2 ^ 62
      → b.cap < b.len + length s + 1
      → Appended al b s (put_after s (grow al first b (b.len + length s + 1)))
  unfolding grow put_after put_bytes
  grow_returns b s pos top v small short =
      let needed : ℕ = b.len + length s + 1 in
      let c : ℕ = if b.cap == 0 then first else b.cap * 2 % 2 ^ 64 in
      let c_pos : 0 < c = ground arith in
      let c_top : c ≤ 2 ^ 63 = ground arith in
      let c_twice : b.cap * 2 ≤ c = ground arith in
      let (n, e, ge, le, up, near) =
        double_until_ends 63 c needed c_pos c_top small (omega arith) in
      rw e (elim (Bool-cases (al.grants n)) [
        | inl given ↦
            let bigger : Buf = record b {
              cells = some (realloc_cells al.junk b.cells n);
              cap = n;
            } in
            let wide = length-realloc_cells al.junk b.cells b.len b.cap n v.block (omega arith) in
            let same = take-realloc_cells al.junk b.cells b.len b.cap n v.block (omega arith) in
            let h : Holds bigger s (put_bytes bigger s) =
              put_bytes-Holds bigger (realloc_cells al.junk b.cells n) s refl wide ge le in
            rw given (record {
              ok = true;
              after = put_bytes bigger s;
              returns = refl;
              appended = λ q. record {
                texts = h.texts ∙ ap (λ (l : Bytes). l ++ s) same;
                valid = h.valid;
              };
              untouched = λ q. cc;
              refused = λ q. cc;
              geometric = λ q. omega (arith, c_twice, up);
            })
        | inr denied ↦ rw denied (record {
          ok = false;
          after = b;
          returns = refl;
          appended = λ q. cc;
          untouched = λ q. refl;
          refused = λ q. (n, denied, ge);
          geometric = λ q. absurd (q refl);
        })
      ])

  fits_at_once :
      (b : Buf) (s : Bytes)
      → IsValid b
      → b.len + length s + 1 ≤ b.cap
      → Appended al b s (some (true, put_bytes b s))
  unfolding put_bytes
  fits_at_once b s v room = go b.cells refl
    where
      go : (o : Option Bytes) → b.cells ≡ o → Appended al b s (some (true, put_bytes b s))
      go none e = absurd (omega (arith, rw e at v.block))
      go (some m) e =
          let block = rw e at v.block in
          let h = put_bytes-Holds b m s e block.0 room v.sized in
          record {
            ok = true;
            after = put_bytes b s;
            returns = refl;
            appended = λ q. h;
            untouched = λ q. cc;
            refused = λ q. cc;
            geometric = λ q. absurd (q refl);
          }

  -- `append` returns whenever the text stays below 2 ^ 62 bytes: either with the longer text in a
  -- well-formed buffer, or with -1, an untouched buffer and a size that `realloc` refused. A
  -- capacity that changes at least doubles.
  pub append-Appended :
      (b : Buf) (s : Bytes)
      → 0 < first
      → first ≤ 2 ^ 63
      → IsValid b
      → b.len + length s + 1 ≤ 2 ^ 62
      → Appended al b s (append al first b s)
  unfolding append
  append-Appended b s pos top v small =
      let wrap : (b.len + length s + 1) % 2 ^ 64 ≡ b.len + length s + 1 = omega arith in
      rw wrap (elim (Bool-cases (ltb b.cap (b.len + length s + 1))) [
        | inl short ↦ rw short (grow_returns b s pos top v small (ltb→lt _ _ short))
        | inr room ↦ rw room (fits_at_once b s v (ground arith))
      ])
