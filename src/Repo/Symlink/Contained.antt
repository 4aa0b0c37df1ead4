-- ===== src/Repo/Symlink/Contained.antt =====
-- A target that `ClassifySymlinkTarget` of internal/domain/repository/symlink.go calls contained names a
-- place inside the repository.
use nudge.Base.{
  List, Option, [], any, ap, arith, false, if◌then◌else◌, inl, inr, none, not, refl, some, sym,
  true, ℕ, ◌++◌, ◌||◌, ◌∙◌, ◌∷◌, ◌≡◌,
}
use nudge.Base.Bytes.{Bytes, bytes_eq, codes}
use nudge.Base.Int.{pos, ℤ}
use nudge.Base.Result.{>>=-eq-err, >>=-eq-ok, Result-cases, err, fail_if->>-ok, is_ok, ok}
use nudge.Base.Text.{split}
use nudge.Base.Utf8.{valid_text}
use nudge.Repo.Digest.{Digest}
use nudge.Repo.Path.{RepoPath, validate_repo_path}
use nudge.Repo.Symlink.{
  SymlinkEvidence, SymlinkTargetClass, bound_or, classify_symlink_target, drop_last, enter,
  is_absolute, is_actionable, is_git_admin, is_relative_contained, move, new_symlink_evidence,
  new_symlink_target_ref, parent_of, relative_contained, resolve_target, slash, symlink_evidence,
  symlink_max_components, symlink_max_depth, validate_symlink_evidence, walk,
}

-- Follow one name from a place, given by its names from the root: `none` above the root.
abbrev follow_name : List Bytes → Bytes → Option (List Bytes)
follow_name place c =
    if bytes_eq c (codes ".")
    then some place
    else if bytes_eq c (codes "..")
    then elim place [ [] ↦ none | x ∷ xs ↦ some (drop_last (x ∷ xs)) ]
    else some (place ++ c ∷ [])

-- Follow the names one by one.
abbrev pub follow_names : List Bytes → List Bytes → Option (List Bytes)
follow_names place [] = some place
follow_names place (c ∷ cs) = elim (follow_name place c) [
  | none ↦ none
  | some next ↦ follow_names next cs
]

any-drop_last :
    (xs : List Bytes) → any is_git_admin xs ≡ false → any is_git_admin (drop_last xs) ≡ false
any-drop_last [] h = refl
any-drop_last (x ∷ []) h = refl
any-drop_last (x ∷ y ∷ xs) h = ground (arith, any-drop_last (y ∷ xs))

any-snoc :
    (xs : List Bytes) (c : Bytes)
    → any is_git_admin xs ≡ false
    → is_git_admin c ≡ false
    → any is_git_admin (xs ++ c ∷ []) ≡ false
any-snoc [] c h k = ground arith
any-snoc (x ∷ xs) c h k = ground (arith, any-snoc xs c)

move-follows :
    (stack next : List Bytes) (c : Bytes)
    → is_git_admin c ≡ false
    → bytes_eq c (codes ".") ≡ false
    → any is_git_admin stack ≡ false
    → move stack c ≡ ok next
    → (follow_name stack c ≡ some next) × (any is_git_admin next ≡ false)
unfolding move
move-follows stack next c g n a e = ground (arith, any-drop_last stack, any-snoc stack c)

enter-follows :
    (d : ℕ) (stack next : List Bytes) (c : Bytes)
    → any is_git_admin stack ≡ false
    → enter d stack c ≡ ok next
    → (is_git_admin c ≡ false) × (follow_name stack c ≡ some next) × (any is_git_admin next ≡ false)
unfolding enter
enter-follows d stack next c a e = ground (arith, move-follows stack next c)

walk-follows :
    (d : ℕ) (stack cs place : List Bytes)
    → any is_git_admin stack ≡ false
    → walk d stack cs ≡ ok place
    → (any is_git_admin cs ≡ false)
      × (follow_names stack cs ≡ some place)
      × (any is_git_admin place ≡ false)
unfolding walk
walk-follows d stack [] place a e = ground arith
walk-follows d stack (c ∷ cs) place a e =
    let (next, p, q) = >>=-eq-ok (enter d stack c) (λ next. walk d next cs) e in
    let (g, f, b) = enter-follows d stack next c a p in
    let (gs, fs, bs) = walk-follows d next cs place b q in
    (ground arith, rw (follow_names, f) fs, bs)

resolve_target-walk :
    (path : RepoPath) (target : Bytes) (m n : ℤ) (place : List Bytes)
    → resolve_target path target m n ≡ ok place
    → (any is_git_admin (parent_of path) ≡ false)
      × (walk (bound_or n symlink_max_depth) (parent_of path) (split target slash) ≡ ok place)
      × (is_absolute target ≡ false)
unfolding resolve_target
resolve_target-walk path target m n place e = ground arith

enter-refuses :
    (d : ℕ) (stack : List Bytes) (c : Bytes) (k : SymlinkTargetClass)
    → enter d stack c ≡ err k
    → is_relative_contained k ≡ false
unfolding enter move
enter-refuses d stack c k e = ground arith

walk-refuses :
    (d : ℕ) (stack cs : List Bytes) (k : SymlinkTargetClass)
    → walk d stack cs ≡ err k
    → is_relative_contained k ≡ false
unfolding walk
walk-refuses d stack [] k e = absurd (cc e)
walk-refuses d stack (c ∷ cs) k e = elim (>>=-eq-err (enter d stack c) (λ next. walk d next cs) e) [
  | inl p ↦ enter-refuses d stack c k p
  | inr (next, p, q) ↦ walk-refuses d next cs k q
]

-- A stop is never the class of a contained target.
resolve_target-refuses :
    (path : RepoPath) (target : Bytes) (m n : ℤ) (k : SymlinkTargetClass)
    → resolve_target path target m n ≡ err k
    → is_relative_contained k ≡ false
unfolding resolve_target
resolve_target-refuses path target m n k e =
    ground
      (arith, walk-refuses (bound_or n symlink_max_depth) (parent_of path) (split target slash) k)

contained-resolves :
    (path : RepoPath) (target : Bytes) (m n : ℤ)
    → classify_symlink_target path target m n ≡ relative_contained
    → (place : List Bytes) × (resolve_target path target m n ≡ ok place)
unfolding classify_symlink_target
contained-resolves path target m n h = elim (Result-cases (resolve_target path target m n)) [
  | inl r ↦ r
  | inr (k, p) ↦ absurd (ground (arith, resolve_target-refuses path target m n k p))
]

-- A place in the repository, that no name on the way leads out of or into its administrative directory.
pub record IsInside (path : RepoPath) (target : Bytes) : Type 0 where
  pub place : List Bytes
  pub leads : follow_names (parent_of path) (split target slash) ≡ some place
  pub outside_git : any is_git_admin place ≡ false
  pub path_outside_git : any is_git_admin (parent_of path) ≡ false
  pub target_outside_git : any is_git_admin (split target slash) ≡ false
  pub relative : is_absolute target ≡ false

contained-IsInside :
    (path : RepoPath) (target : Bytes) (m n : ℤ)
    → classify_symlink_target path target m n ≡ relative_contained
    → IsInside path target
contained-IsInside path target m n h =
    let (place, e) = contained-resolves path target m n h in
    let (a, w, r) = resolve_target-walk path target m n place e in
    let (t, f, b) =
      walk-follows (bound_or n symlink_max_depth) (parent_of path) (split target slash) place a w in
    record {
      place = place;
      leads = f;
      outside_git = b;
      path_outside_git = a;
      target_outside_git = t;
      relative = r;
    }

actionable-class :
    (e : SymlinkEvidence) → is_actionable e ≡ true → e.target_class ≡ relative_contained
unfolding is_actionable
actionable-class e a = ground arith

module _ (d : Digest) where
  -- Evidence that `NewSymlinkEvidence` builds and that is actionable is about a link whose target
  -- is relative and leads, name by name from the directory of the link, to a place inside the
  -- repository: it is never above the root on the way, and neither the directory, the names nor
  -- the place has the Git directory, in any case of letters. It keeps the path and the hash of the
  -- target.
  pub new_symlink_evidence-IsInside :
      (path : RepoPath) (target root chain platform version : Bytes) (e : SymlinkEvidence)
      → new_symlink_evidence d path target root chain platform version ≡ ok e
      → is_actionable e ≡ true
      → IsInside path target × (e.path_key ≡ path) × (e.target_hash ≡ d.digest target)
  unfolding new_symlink_evidence is_actionable symlink_evidence new_symlink_target_ref
  new_symlink_evidence-IsInside path target root chain platform version e h a =
      let (t, k) =
        fail_if->>-ok
          (not (is_ok (validate_repo_path path))
            || not (valid_text root)
            || not (valid_text chain)
            || not (valid_text platform)
            || not (valid_text version))
          _ _ h in
      let (u, v, q) =
        >>=-eq-ok
          (validate_symlink_evidence (symlink_evidence d path target root chain platform version))
          (λ _. ok (symlink_evidence d path target root chain platform version)) k in
      let same : symlink_evidence d path target root chain platform version ≡ e = cc in
      (
        contained-IsInside path target (pos symlink_max_components) (pos symlink_max_depth)
            (ap (λ x. x.target_class) same ∙ actionable-class e a),
        sym (ap (λ x. x.path_key) same),
        sym (ap (λ x. x.target_hash) same),
      )
