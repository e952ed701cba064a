-- ===== src/Tools/File/Edit.antt =====
-- What an edit replaces.
use tiniclaw.Base.{
  ℕ, zero, suc, ◌+◌, ◌≤◌, ◌<◌, ◌≡◌, ◌∙◌, ◌⊎◌, inl, inr, refl, sym, ap, Bool, true, false, Option,
  none, some, [], ◌∷◌, ◌++◌, Bytes, codes, clip, c_string, c_string-text, take, drop, length,
  take-append_left, drop-append_left, append_assoc, length-append, ◌&&◌, starts_with, IsText, arith,
  ◌==◌, if◌then◌else◌, Bool-cases,
}
use tiniclaw.Agent.{ToolResult}
use tiniclaw.Tools.File.{
  Disk, Args, read_file, write_file, result_ok, result_err, resolve_path, need, read_at, wrote,
  find_text, edit_at, file_edit_execute,
}

writes :
    (d : Disk) (full content : Bytes)
    → d.writable full ≡ true
    → write_file d full content ≡ some (record d { files = (full, content) ∷ d.files })
unfolding write_file
writes d full content w =
    ap {B = Option Disk}
      (λ (b : Bool). if b then some (record d { files = (full, content) ∷ d.files }) else none) w

drop_nil : (k : ℕ) → drop {A = ℕ} k [] ≡ []
drop_nil zero = refl
drop_nil (suc k) = refl

-- Taking and dropping around a part of a text.
around :
    (s old front back : Bytes) (n : ℕ)
    → s ≡ front ++ (old ++ back)
    → length front ≡ n
    → (take n s ≡ front) × (drop (n + length old) s ≡ back)
around s old front back n whole size =
    let together : length (front ++ old) ≡ n + length old =
      omega (arith, length-append front old) in
    (
      ap (λ (k : ℕ). take k s) (sym size)
          ∙ ap (take (length front)) whole
          ∙ take-append_left front (old ++ back),
      ap (λ (k : ℕ). drop k s) (sym together)
          ∙ ap (drop (length (front ++ old))) (whole ∙ sym (append_assoc front old back))
          ∙ drop-append_left (front ++ old) back,
    )

both : (a b : Bool) → (a && b) ≡ true → (a ≡ true) × (b ≡ true)
both true b h = (refl, h)
both false b h = absurd (cc)

starts_with-split : (p s : Bytes) → starts_with p s ≡ true → s ≡ p ++ drop (length p) s
unfolding starts_with
starts_with-split [] s h = refl
starts_with-split (c ∷ p) [] h = absurd (cc)
starts_with-split (c ∷ p) (x ∷ s) h =
    let (same, rest) = both (c == x) (starts_with p s) h in
    let c_is_x : x ≡ c = ground arith in
    ap (λ (y : ℕ). y ∷ s) c_is_x ∙ ap (λ (l : Bytes). c ∷ l) (starts_with-split p s rest)

-- The first occurrence of a text: what stands before and behind it, and that there is none earlier.
pub record FirstAt (old s : Bytes) (n : ℕ) : Type 0 where
  pub front : Bytes
  pub back : Bytes
  pub whole : s ≡ front ++ (old ++ back)
  pub position : length front ≡ n
  pub first : (k : ℕ) → k < n → starts_with old (drop k s) ≡ false

abbrev pub Absent : Bytes → Bytes → Type 0
Absent old s = (k : ℕ) → k ≤ length s → starts_with old (drop k s) ≡ false

abbrev pub Search : Bytes → Bytes → Option ℕ → Type 0
Search old s none = Absent old s
Search old s (some n) = FirstAt old s n

Search-further :
    (old s : Bytes) (c : ℕ) (o : Option ℕ)
    → starts_with old (c ∷ s) ≡ false
    → Search old s o
    → Search old (c ∷ s) (elim o [ none ↦ none | some n ↦ some (suc n) ])
Search-further old s c none other h = λ k le. later k le
  where
    later : (k : ℕ) → k ≤ suc (length s) → starts_with old (drop k (c ∷ s)) ≡ false
    later zero le = other
    later (suc k) le = h k (omega arith)
Search-further old s c (some n) other h = record {
  front = c ∷ h.front;
  back = h.back;
  whole = ap (λ (l : Bytes). c ∷ l) h.whole;
  position = omega (arith, h.position);
  first = later;
}
  where
    later : (k : ℕ) → k < suc n → starts_with old (drop k (c ∷ s)) ≡ false
    later zero le = other
    later (suc k) le = h.first k (omega arith)

pub find_text_lem : (old s : Bytes) → Search old s (find_text old s)
unfolding find_text
find_text_lem old [] = elim (Bool-cases (starts_with old [])) [
  | inl e ↦ rw e (record {
    front = [];
    back = drop (length old) [];
    whole = starts_with-split old [] e;
    position = refl;
    first = λ k l. absurd (omega arith);
  })
  | inr e ↦ rw e (λ k le. ap (λ (l : Bytes). starts_with old l) (drop_nil k) ∙ e)
]
find_text_lem old (c ∷ s) = elim (Bool-cases (starts_with old (c ∷ s))) [
  | inl e ↦ rw e (record {
    front = [];
    back = drop (length old) (c ∷ s);
    whole = starts_with-split old (c ∷ s) e;
    position = refl;
    first = λ k l. absurd (omega arith);
  })
  | inr e ↦ rw e (Search-further old s c (find_text old s) e (find_text_lem old s))
]

-- Editing a text file that can be read and written, by a non-empty path, replaces the first
-- occurrence of the old text and nothing else; when there is none, it fails and changes nothing.
pub file_edit_lem :
    (dir path full content old new : Bytes) (args : Args) (d : Disk)
    → args (codes "path") ≡ some path
    → args (codes "old_string") ≡ some old
    → args (codes "new_string") ≡ some new
    → resolve_path dir path ≡ some full
    → read_file d full ≡ some content
    → d.writable full ≡ true
    → IsText content
    → (Absent old content
        × (file_edit_execute dir args d ≡ (result_err (codes "old_string not found in file"), d)))
      ⊎ ((n : ℕ) × (f : FirstAt old content n) × ((file_edit_execute dir args d).0.success ≡ true)
          × ((file_edit_execute dir args d).1
              ≡ record d { files = (full, f.front ++ new ++ f.back) ∷ d.files }))
unfolding file_edit_execute need read_at edit_at wrote result_ok
file_edit_lem dir path full content old new args d has_path has_old has_new at_full at_content w
      text =
    let reached : file_edit_execute dir args d
        ≡ edit_at full content old new (find_text old content) d =
      rw (has_path, has_old, has_new, at_full)
        (ap
            (λ (o : Option Bytes).
              need d.error o (λ s. edit_at full s old new (find_text old (c_string s))) d)
            at_content
          ∙ ap (λ (s : Bytes). edit_at full content old new (find_text old s) d)
              (c_string-text content text)) in
    go (find_text old content) (find_text_lem old content) reached
  where
    go :
        (o : Option ℕ)
        → Search old content o
        → file_edit_execute dir args d ≡ edit_at full content old new o d
        → (Absent old content
            × (file_edit_execute dir args d
                ≡ (result_err (codes "old_string not found in file"), d)))
          ⊎ ((n : ℕ) × (f : FirstAt old content n) × ((file_edit_execute dir args d).0.success
                ≡ true)
              × ((file_edit_execute dir args d).1
                  ≡ record d { files = (full, f.front ++ new ++ f.back) ∷ d.files }))
    go none absent e = inl (absent, e)
    go (some n) f e =
        let parts = around content old f.front f.back n f.whole f.position in
        let put : Bytes → Disk = λ s. record d { files = (full, s) ∷ d.files } in
        let done : file_edit_execute dir args d
            ≡ (result_ok (clip 256 (codes "Edited " ++ full)), put (f.front ++ new ++ f.back)) =
          e
          ∙ ap (wrote (codes "Edited " ++ full) d)
              (writes d full (take n content ++ new ++ drop (n + length old) content) w)
          ∙ ap {B = ToolResult × Disk}
              (λ (p : Bytes). (
                result_ok (clip 256 (codes "Edited " ++ full)),
                put (p ++ new ++ drop (n + length old) content),
              ))
              parts.0
          ∙ ap {B = ToolResult × Disk}
              (λ (p : Bytes).
                (result_ok (clip 256 (codes "Edited " ++ full)), put (f.front ++ new ++ p)))
              parts.1 in
        inr (
          n,
          f,
          ap (λ (p : ToolResult × Disk). p.0.success) done,
          ap (λ (p : ToolResult × Disk). p.1) done,
        )
