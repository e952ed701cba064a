-- ===== src/Memory/Markdown/Search.antt =====
-- The search through the files against a description of which files are found.
use tiniclaw.Base.{
  ℕ, zero, suc, ◌+◌, ◌-◌, ◌≤◌, ◌≡◌, ◌≢◌, ◌↔◌, refl, sym, ap, ◌∙◌, ◌⊎◌, inl, inr, Bool, true, false,
  ◌&&◌, Option, none, some, List, [], ◌∷◌, ◌++◌, Bytes, codes, c_string, take, drop, length,
  length-append, drop-append_left, take-append_left, str_eq, str_eq_iff, leb, starts_with,
  starts_with-append, arith, Bool-cases, clash,
}
use tiniclaw.Tools.File.{find_text}
use tiniclaw.Tools.File.Edit.{Search, find_text_lem}
use tiniclaw.Memory.{Entry, core}
use tiniclaw.Memory.Markdown.{
  Folder, is_md, contains, matches, recalled_entry, entry_of, recall_loop, md_recall,
}

-- The file's name is a stem that is not empty, and `.md`.
abbrev pub Named : Bytes → Bytes → Type 0
Named stem name = (stem ≢ []) × (name ≡ stem ++ codes ".md")

-- The query stands somewhere in the text.
abbrev pub Within : Bytes → Bytes → Type 0
Within query s = (front : Bytes) × (back : Bytes) × (s ≡ front ++ (query ++ back))

-- The file is found: by its name, and by what it holds up to its first NUL.
abbrev pub Found : Bytes → Bytes → Bytes → Type 0
Found query name content = ((stem : Bytes) × Named stem name) × Within query (c_string content)

take-drop : (n : ℕ) (s : Bytes) → take n s ++ drop n s ≡ s
take-drop zero s = refl
take-drop (suc n) [] = refl
take-drop (suc n) (c ∷ s) = ap (λ (l : Bytes). c ∷ l) (take-drop n s)

both : (a b : Bool) → (a && b) ≡ true → (a ≡ true) × (b ≡ true)
both true b h = (refl, h)
both false b h = absurd (cc)

pub is_md-Named : (name : Bytes) → is_md name ≡ true → Named (take (length name - 3) name) name
unfolding is_md
is_md-Named name h =
    let (long, ends) = both (leb 4 (length name)) _ h in
    let stem : Bytes = take (length name - 3) name in
    let whole : name ≡ stem ++ codes ".md" =
      sym (take-drop (length name - 3) name)
      ∙ ap (λ (l : Bytes). stem ++ l)
          ((str_eq_iff (drop (length name - 3) name) (codes ".md")).0 ends) in
    (
      λ e.
          let short : length name ≡ 3 =
            ap length (whole ∙ ap (λ (l : Bytes). l ++ codes ".md") e) in
          absurd (ground (arith, short, long)),
      whole,
    )

length-stem : (stem name : Bytes) → Named stem name → length name ≡ length stem + 3
length-stem stem name (some_stem, whole) = ap length whole ∙ length-append stem (codes ".md")

stem_of :
    (stem name : Bytes)
    → Named stem name
    → (take (length name - 3) name ≡ stem) × (drop (length name - 3) name ≡ codes ".md")
stem_of stem name h =
    let at_stem : length name - 3 ≡ length stem = omega (arith, length-stem stem name h) in
    (
      (λ i. take (at_stem i) (h.1 i)) ∙ take-append_left stem (codes ".md"),
      (λ i. drop (at_stem i) (h.1 i)) ∙ drop-append_left stem (codes ".md"),
    )

pos_stem : (stem : Bytes) → stem ≢ [] → 1 ≤ length stem
pos_stem [] h = absurd (h refl)
pos_stem (c ∷ stem) h = omega arith

Named-is_md : (stem name : Bytes) → Named stem name → is_md name ≡ true
unfolding is_md
Named-is_md stem name h =
    let long : leb 4 (length name) ≡ true =
      ground (arith, length-stem stem name h, pos_stem stem h.0) in
    let ends : str_eq (drop (length name - 3) name) (codes ".md") ≡ true =
      (str_eq_iff (drop (length name - 3) name) (codes ".md")).1 (stem_of stem name h).1 in
    ap (λ (b : Bool). b && str_eq (drop (length name - 3) name) (codes ".md")) long ∙ ends

Search-Within :
    (query s : Bytes) (o : Option ℕ)
    → Search query s o
    → (elim o [ none ↦ false | some at_byte ↦ true ] ≡ true) ↔ Within query s
Search-Within query s none absent = (
  λ h. cc,
  λ (front, back, whole).
      let size : length s ≡ length front + length (query ++ back) =
        ap length whole ∙ length-append front (query ++ back) in
      let stands : starts_with query (drop (length front) s) ≡ true =
        ap (λ (l : Bytes). starts_with query (drop (length front) l)) whole
        ∙ ap (starts_with query) (drop-append_left front (query ++ back))
        ∙ starts_with-append query back in
      absurd (clash (sym (absent (length front) (omega (arith, size))) ∙ stands)),
)
Search-Within query s (some n) found = (λ h. (found.front, found.back, found.whole), λ h. refl)

matches_iff : (query s : Bytes) → (matches query s ≡ true) ↔ Within query s
unfolding matches contains
matches_iff [] s = (λ h. ([], s, refl), λ h. refl)
matches_iff (c ∷ query) s =
    Search-Within (c ∷ query) s (find_text (c ∷ query) s) (find_text_lem (c ∷ query) s)

-- What a found file gives: the stem of its name, cut to 255 bytes, for the id and the key.
abbrev pub entry_for : Bytes → Bytes → Entry
entry_for stem content = record {
  id = some (take 255 stem);
  key = take 255 stem;
  content = c_string content;
  category = core;
  timestamp = none;
  session_id = none;
}

-- With room for so many entries, the files in their order: one that is found gives its entry, and one
-- that is not is passed over.
abbrev pub Recalled : Bytes → ℕ → List (Bytes × Bytes) → List Entry → Type 0
Recalled query room [] es = es ≡ []
Recalled query zero (f ∷ fs) es = es ≡ []
Recalled query (suc room) ((name, content) ∷ fs) es =
    ((stem : Bytes) × Named stem name
      × Within query (c_string content)
      × (rest : List Entry) × (es ≡ entry_for stem content ∷ rest)
      × Recalled query room fs rest)
    ⊎ ((¬ Found query name content) × Recalled query (suc room) fs es)

recall_loop-Recalled :
    (query : Bytes) (room : ℕ) (fs : List (Bytes × Bytes))
    → Recalled query room fs (recall_loop query room fs)
unfolding recall_loop recalled_entry entry_of
recall_loop-Recalled query zero [] = refl
recall_loop-Recalled query (suc room) [] = refl
recall_loop-Recalled query zero (f ∷ fs) = refl
recall_loop-Recalled query (suc room) ((name, content) ∷ fs) =
    elim (Bool-cases (is_md name && matches query (c_string content))) [
      | inl e ↦
          let (md, holds) = both (is_md name) _ e in
          rw e (
            inl (
              take (length name - 3) name,
              is_md-Named name md,
              (matches_iff query (c_string content)).0 holds,
              recall_loop query room fs,
              refl,
              recall_loop-Recalled query room fs,
            ))
      | inr e ↦ rw e (
          inr (
            λ ((stem, named), holds).
                let md = Named-is_md stem name named in
                let hit : (is_md name && matches query (c_string content)) ≡ true =
                  ap (λ (b : Bool). b && matches query (c_string content)) md
                  ∙ (matches_iff query (c_string content)).1 holds in
                clash (sym e ∙ hit),
            recall_loop-Recalled query (suc room) fs,
          ))
    ]

-- On a directory that can be listed, the search succeeds and goes through the files in the order of the directory,
-- as long as there is room: one whose name is a stem that is not empty and `.md`, and which has the
-- query somewhere before its first NUL, gives an entry with that content and with the stem, cut to
-- 255 bytes, as its key; every other file is passed over.
pub md_recall-Recalled :
    (query : Bytes) (limit : ℕ) (d : Folder)
    → d.listable ≡ true
    → ((md_recall query limit d).0 ≡ true)
      × Recalled query limit d.files (md_recall query limit d).1
unfolding md_recall
md_recall-Recalled query limit d listable =
    rw listable (refl, recall_loop-Recalled query limit d.files)
