-- ===== src/Memory/Markdown/Refines.antt =====
-- The markdown back end as a map from file names to contents.
use tiniclaw.Base.{
  ◌≡◌, refl, sym, ap, ◌∙◌, Bool, true, false, Option, none, some, List, [], ◌∷◌, ◌++◌, Bytes,
  str_eq, str_eq_iff, if◌then◌else◌, if_true, Bool-cases, inl, inr, clash,
}
use tiniclaw.Memory.{Category}
use tiniclaw.Memory.Markdown.{
  Folder, file_name, put_file, find_file, drop_file, front_matter, md_store, md_get, md_forget,
  found_entry,
}

-- Two tests in either order, where the first answers are the same, or where not both tests hold.
ifs_same :
    {A : Type 0} (x y : Bool) (b c r : A)
    → x ≡ y
    → (if x then c else r) ≡ (if y then c else if x then b else r)
ifs_same true true b c r h = refl
ifs_same true false b c r h = absurd (clash (sym h))
ifs_same false true b c r h = absurd (clash h)
ifs_same false false b c r h = refl

ifs_swap :
    {A : Type 0} (x y : Bool) (b c r : A)
    → (x ≡ true → y ≡ true → ⊥)
    → (if x then b else if y then c else r) ≡ (if y then c else if x then b else r)
ifs_swap true true b c r h = absurd (h refl refl)
ifs_swap true false b c r h = refl
ifs_swap false true b c r h = refl
ifs_swap false false b c r h = refl

apart : (k m n : Bytes) → str_eq k m ≡ false → str_eq k n ≡ true → str_eq m n ≡ true → ⊥
apart k m n e hk hm =
    let same : k ≡ m = (str_eq_iff k n).0 hk ∙ sym ((str_eq_iff m n).0 hm) in
    clash (sym e ∙ (str_eq_iff k m).1 same)

find-put :
    (m n c : Bytes) (fs : List (Bytes × Bytes))
    → find_file n (put_file m c fs) ≡ (if str_eq m n then some c else find_file n fs)
unfolding find_file put_file
find-put m n c [] = refl
find-put m n c ((k, b) ∷ fs) = elim (Bool-cases (str_eq k m)) [
  | inl e ↦
      rw (e, find_file)
        (ifs_same (str_eq k n) (str_eq m n) (some b) (some c) (find_file n fs)
          (ap (λ (t : Bytes). str_eq t n) ((str_eq_iff k m).0 e)))
  | inr e ↦
      rw (e, find_file)
        (ap (λ (r : Option Bytes). if str_eq k n then some b else r) (find-put m n c fs)
          ∙ ifs_swap (str_eq k n) (str_eq m n) (some b) (some c) (find_file n fs) (apart k m n e))
]

-- No name stands twice.
abbrev pub Distinct : List (Bytes × Bytes) → Type 0
Distinct [] = Unit
Distinct ((n, c) ∷ fs) = (find_file n fs ≡ none) × Distinct fs

find-drop :
    (m n : Bytes) (fs : List (Bytes × Bytes))
    → Distinct fs
    → find_file n (drop_file m fs) ≡ (if str_eq m n then none else find_file n fs)
unfolding find_file drop_file
find-drop m n [] h = elim (Bool-cases (str_eq m n)) [ inl e ↦ rw e refl | inr e ↦ rw e refl ]
find-drop m n ((k, b) ∷ fs) (new, h) = elim (Bool-cases (str_eq k m)) [
  | inl e ↦
      rw (e, find_file)
        (gone (str_eq k n) (str_eq m n) (ap (λ (t : Bytes). str_eq t n) ((str_eq_iff k m).0 e))
          (λ hit. ap (λ (t : Bytes). find_file t fs) (sym ((str_eq_iff k n).0 hit)) ∙ new))
  | inr e ↦
      rw (e, find_file)
        (ap (λ (r : Option Bytes). if str_eq k n then some b else r) (find-drop m n fs h)
          ∙ ifs_swap (str_eq k n) (str_eq m n) (some b) none (find_file n fs) (apart k m n e))
]
  where
    gone :
        (x y : Bool)
        → x ≡ y
        → (x ≡ true → find_file n fs ≡ none)
        → find_file n fs ≡ (if y then none else if x then some b else find_file n fs)
    gone true true same new = new refl
    gone true false same new = absurd (clash (sym same))
    gone false true same new = absurd (clash same)
    gone false false same new = refl

put-Distinct : (m c : Bytes) (fs : List (Bytes × Bytes)) → Distinct fs → Distinct (put_file m c fs)
unfolding put_file find_file
put-Distinct m c [] h = (refl, tt)
put-Distinct m c ((k, b) ∷ fs) (new, h) = elim (Bool-cases (str_eq k m)) [
  | inl e ↦ rw e (new, h)
  | inr e ↦ rw e (
    find-put m k c fs
        ∙ ap (λ (x : Bool). if x then some c else find_file k fs) (str_eq-flip m k e)
        ∙ new,
    put-Distinct m c fs h,
  )
]
  where
    str_eq-flip : (m k : Bytes) → str_eq k m ≡ false → str_eq m k ≡ false
    str_eq-flip m k e = elim (Bool-cases (str_eq m k)) [
      | inr no_match ↦ no_match
      | inl hit ↦ absurd (clash (sym e ∙ (str_eq_iff k m).1 (sym ((str_eq_iff m k).0 hit))))
    ]

none_both : (x : Bool) → (if◌then◌else◌ {A = Option Bytes} x none none) ≡ none
none_both true = refl
none_both false = refl

drop-Distinct : (m : Bytes) (fs : List (Bytes × Bytes)) → Distinct fs → Distinct (drop_file m fs)
unfolding drop_file find_file
drop-Distinct m [] h = tt
drop-Distinct m ((k, b) ∷ fs) (new, h) = elim (Bool-cases (str_eq k m)) [
  | inl e ↦ rw e h
  | inr e ↦ rw e (
    find-drop m k fs h
        ∙ ap (λ (r : Option Bytes). if str_eq m k then none else r) new
        ∙ none_both (str_eq m k),
    drop-Distinct m fs h,
  )
]

-- A client's calls.
pub data Op : Type 0 where
  store : Bytes → Bytes → Category → Option Bytes → Op
  forget : Bytes → Op

unfoldable pub run : List Op → Folder → Folder
run [] d = d
run (store key content cat sid ∷ ops) d = run ops (md_store key content cat sid d).1
run (forget key ∷ ops) d = run ops (md_forget key d).1

-- The same calls on a function from file names.
abbrev pub Contents : Type 0
Contents = Bytes → Option Bytes

unfoldable pub replay : List Op → Contents → Contents
replay [] f = f
replay (store key content cat sid ∷ ops) f =
    replay ops (λ n. if str_eq (file_name key) n then some (front_matter sid ++ content) else f n)
replay (forget key ∷ ops) f = replay ops (λ n. if str_eq (file_name key) n then none else f n)

replay_ext :
    (ops : List Op) (f g : Contents)
    → ((n : Bytes) → f n ≡ g n)
    → (n : Bytes) → replay ops f n ≡ replay ops g n
unfolding replay
replay_ext [] f g h n = h n
replay_ext (store key content cat sid ∷ ops) f g h n =
    replay_ext ops _ _
      (λ (n : Bytes).
        ap
          (λ (r : Option Bytes).
            if str_eq (file_name key) n then some (front_matter sid ++ content) else r)
          (h n))
      n
replay_ext (forget key ∷ ops) f g h n =
    replay_ext ops _ _
      (λ (n : Bytes). ap (λ (r : Option Bytes). if str_eq (file_name key) n then none else r) (h n))
      n

stored :
    (key content : Bytes) (cat : Category) (sid : Option Bytes) (d : Folder)
    → d.writable (file_name key) ≡ true
    → (md_store key content cat sid d).1
      ≡ record d { files = put_file (file_name key) (front_matter sid ++ content) d.files }
unfolding md_store
stored key content cat sid d w = ap (λ (r : Bool × Folder). r.1) (if_true _ _ (false, d) w)

run-files :
    (ops : List Op) (d : Folder)
    → ((n : Bytes) → d.writable n ≡ true)
    → Distinct d.files
    → (n : Bytes) → find_file n (run ops d).files ≡ replay ops (λ k. find_file k d.files) n
unfolding run replay md_forget
run-files [] d w h n = refl
run-files (store key content cat sid ∷ ops) d w h n =
    let text : Bytes = front_matter sid ++ content in
    let d' : Folder = record d { files = put_file (file_name key) text d.files } in
    ap (λ (e : Folder). find_file n (run ops e).files)
      (stored key content cat sid d (w (file_name key)))
    ∙ run-files ops d' w (put-Distinct (file_name key) text d.files h) n
    ∙ replay_ext ops _ _ (λ (k : Bytes). find-put (file_name key) k text d.files) n
run-files (forget key ∷ ops) d w h n =
    let d' : Folder = record d { files = drop_file (file_name key) d.files } in
    run-files ops d' w (drop-Distinct (file_name key) d.files h) n
    ∙ replay_ext ops _ _ (λ (k : Bytes). find-drop (file_name key) k d.files h) n

-- In a directory where every file can be written and no name stands twice, after any calls of store
-- and forget, getting a key reads what the same calls leave in a map from file names to contents; so
-- two keys of one file name are one key.
pub md_get-run :
    (ops : List Op) (d : Folder)
    → ((n : Bytes) → d.writable n ≡ true)
    → Distinct d.files
    → (key : Bytes)
    → md_get key (run ops d)
      ≡ found_entry key (replay ops (λ n. find_file n d.files) (file_name key))
unfolding md_get
md_get-run ops d w h key = ap (found_entry key) (run-files ops d w h (file_name key))
