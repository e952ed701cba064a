-- ===== src/Security/Policy/Paths.antt =====
-- Which paths a workspace-only policy lets through.
use tiniclaw.Base.{
  ℕ, ◌≡◌, ◌↔◌, ◌⊎◌, ◌∙◌, inl, inr, refl, sym, ap, Bool, true, false, ◌&&◌, some, [], ◌∷◌, ◌++◌,
  Bytes, codes, length, drop, drop-append_left, IsText, append-nil, starts_with, starts_with-append,
  arith, ==_iff, Bool-cases, clash,
}
use tiniclaw.Security.Policy.{
  SecurityPolicy, finds_null, check_null_byte, ends_component, is_path_allowed,
  check_symlink_escape, workspace_policy,
}

-- No C string contains a NUL.
text_no_null : (s : Bytes) → IsText s → finds_null s ≡ false
unfolding finds_null
text_no_null [] h = refl
text_no_null (c ∷ s) (hc, h) = ground (arith, text_no_null s h)

-- The path is the workspace, or goes on from it with a slash.
abbrev pub Below : Bytes → Bytes → Type 0
Below workspace path = (path ≡ workspace) ⊎ ((rest : Bytes) × (path ≡ workspace ++ b'/' ∷ rest))

prefix_parts : (w p : Bytes) → starts_with w p ≡ true → p ≡ w ++ drop (length w) p
unfolding starts_with
prefix_parts [] p h = refl
prefix_parts (c ∷ w) [] h = cc
prefix_parts (c ∷ w) (d ∷ p) h =
    let e : d ≡ c = ground arith in
    let t : starts_with w p ≡ true = ground arith in cc (e, prefix_parts w p t)

component_end : (w r : Bytes) → (ends_component r ≡ true) → Below w (w ++ r)
unfolding ends_component
component_end w [] h = inl (append-nil w)
component_end w (c ∷ r) h = inr (r, ap (λ (x : ℕ). w ++ x ∷ r) ((==_iff c b'/').0 h))

both : (a b : Bool) → (a && b) ≡ true → (a ≡ true) × (b ≡ true)
both a b h = ground arith

Below-passes :
    (w path : Bytes)
    → Below w path
    → (starts_with w path && ends_component (drop (length w) path)) ≡ true
unfolding ends_component
Below-passes w path (inl e) =
    rw (e ∙ sym (append-nil w)) (rw (starts_with-append w [], drop-append_left w []))
Below-passes w path (inr (rest, e)) =
    rw e (rw (starts_with-append w (b'/' ∷ rest), drop-append_left w (b'/' ∷ rest)))

-- Under a workspace-only policy a path passes exactly when it is the workspace's path or continues
-- it behind a slash; under any other policy every path passes. The policy's list of paths has no
-- part in it, neither where it is set nor where it is NULL.
pub is_path_allowed_iff :
    (p : SecurityPolicy) (workspace path : Bytes)
    → IsText path
    → (is_path_allowed (some p) (some workspace) (some path) ≡ true)
      ↔ ((p.workspace_only ≡ false) ⊎ Below workspace path)
unfolding is_path_allowed check_null_byte
is_path_allowed_iff p w path text =
    rw (text_no_null path text) (elim (Bool-cases p.workspace_only) [
      | inr open_to_all ↦ rw open_to_all (λ h. inl refl, λ h. refl)
      | inl closed ↦ rw closed (
        λ h.
            let (front, behind) = both _ _ h in
            let parts = prefix_parts w path front in
            inr (rw (← parts) at (component_end w (drop (length w) path) behind)),
        λ h. elim h [ inl e ↦ absurd (clash (sym e)) | inr b ↦ Below-passes w path b ],
      )
    ])

-- Nothing looks at `..`: every path that climbs out of the workspace from its own prefix passes the
-- policy, and is no symbolic-link escape either.
pub dot_dot_passes :
    (p : SecurityPolicy) (workspace rest : Bytes)
    → IsText (workspace ++ (codes "/../" ++ rest))
    → (is_path_allowed (some p) (some workspace) (some (workspace ++ (codes "/../" ++ rest)))
        ≡ true)
      × (check_symlink_escape (some workspace) (some (workspace ++ (codes "/../" ++ rest))) ≡ false)
unfolding check_symlink_escape
dot_dot_passes p w rest text =
    let below : Below w (w ++ (codes "/../" ++ rest)) = inr (codes "../" ++ rest, refl) in
    (
      (is_path_allowed_iff p w (w ++ (codes "/../" ++ rest)) text).1 (inr below),
      rw (
          (is_path_allowed_iff workspace_policy w (w ++ (codes "/../" ++ rest)) text).1
            (inr below)),
    )
