-- ===== src/Watch/Paths/Inside.antt =====
-- What `pathWithin` of internal/watch/fsnotify.go decides about absolute paths.
use mathlib.Core.List.{reverse_aux}
use mathlib.Core.Path.{subst}
use nudge.Base.{
  All, Bool, Bool-cases, List, [], ap, false, if-both, if◌then◌else◌, inl, inr, refl, sym, true,
  ◌++◌, ◌||◌, ◌↔◌, ◌∙◌, ◌∷◌, ◌≡◌,
}
use nudge.Base.Bytes.{Bytes, bytes_eq, bytes_eq_refl, bytes_eq_sound, codes, is_empty}
use nudge.Base.Text.{split}
use nudge.Watch.Paths.{
  clean, clean_name, clean_names, is_rooted, leads_inside, parent_name, path_within, rel, rel_names,
  step_up, up_from,
}

abbrev NotParent : Bytes → Type 0
NotParent name = bytes_eq name parent_name ≡ false

step_up-NotParent : (names : List Bytes) → All NotParent names → All NotParent (step_up true names)
step_up-NotParent [] h = tt
step_up-NotParent (name ∷ names) (h, hs) =
    if-both (All NotParent) (bytes_eq name parent_name) (λ e. absurd (cc (e, h))) (λ e. hs)

clean_name-NotParent :
    (names : List Bytes) (name : Bytes)
    → All NotParent names
    → All NotParent (clean_name true names name)
unfolding clean_name
clean_name-NotParent names name h =
    if-both (All NotParent) (is_empty name || bytes_eq name (codes ".")) (λ e. h)
      (λ e.
        if-both (All NotParent) (bytes_eq name parent_name) (λ e'. step_up-NotParent names h)
          (λ e'. (e', h)))

reverse_aux-NotParent :
    (names done : List Bytes)
    → All NotParent names
    → All NotParent done
    → All NotParent (reverse_aux names done)
reverse_aux-NotParent [] done h k = k
reverse_aux-NotParent (name ∷ names) done (h, hs) k =
    reverse_aux-NotParent names (name ∷ done) hs (h, k)

clean_names-NotParent :
    (names rest : List Bytes) → All NotParent names → All NotParent (clean_names true names rest)
unfolding clean_names
clean_names-NotParent names [] h = reverse_aux-NotParent names [] h tt
clean_names-NotParent names (name ∷ rest) h =
    clean_names-NotParent (clean_name true names name) rest (clean_name-NotParent names name h)

-- A cleaned absolute path has no step up.
clean-NotParent : (path : Bytes) → is_rooted path ≡ true → All NotParent (clean path).names
unfolding clean
clean-NotParent path e = rw e (clean_names-NotParent [] (split path (codes "/")) tt)

up_from-outside :
    (name : Bytes) (base target : List Bytes)
    → NotParent name
    → leads_inside (up_from (name ∷ base) target) ≡ false
unfolding up_from
up_from-outside name base target h = rw h refl

-- The end of a round of `rel_names`, for a test of the two names.
abbrev InsideOn : Bytes → Bytes → List Bytes → List Bytes → Bool → Type 0
InsideOn a b base target t =
    leads_inside (if t then rel_names base target else up_from (a ∷ base) (b ∷ target)) ≡ true

rel_names-inside :
    (base target : List Bytes)
    → All NotParent base
    → leads_inside (rel_names base target) ≡ true
    → (rest : List Bytes) × (target ≡ base ++ rest)
unfolding rel_names
rel_names-inside [] target h i = (target, refl)
rel_names-inside (a ∷ base) [] (h, hs) i = absurd (cc (i, up_from-outside a base [] h))
rel_names-inside (a ∷ base) (b ∷ target) (h, hs) i = elim (Bool-cases (bytes_eq a b)) [
  | inl e ↦
      let (rest, q) = rel_names-inside base target hs (subst (InsideOn a b base target) e i) in
      let q' = bytes_eq_sound a b e in (rest, cc (q, q'))
  | inr e ↦
      let i' = subst (InsideOn a b base target) e i in
      absurd (cc (i', up_from-outside a base (b ∷ target) h))
]

inside-rel_names :
    (base rest : List Bytes)
    → All NotParent (base ++ rest)
    → leads_inside (rel_names base (base ++ rest)) ≡ true
unfolding rel_names up_from
inside-rel_names [] [] h = refl
inside-rel_names [] (name ∷ rest) (h, hs) = rw h refl
inside-rel_names (a ∷ base) rest (h, hs) = rw (bytes_eq_refl a) (inside-rel_names base rest hs)

rel-rooted :
    (root path : Bytes)
    → is_rooted root ≡ true
    → is_rooted path ≡ true
    → rel (clean root) (clean path) ≡ rel_names (clean root).names (clean path).names
unfolding rel clean
rel-rooted root path h k = rw h (rw k refl)

-- An absolute path, cleaned, is within an absolute root exactly when its names begin with those of
-- the cleaned root.
pub path_within-IsPrefix :
    (root path : Bytes)
    → is_rooted root ≡ true
    → is_rooted path ≡ true
    → (path_within root (clean path) ≡ true)
      ↔ ((rest : List Bytes) × ((clean path).names ≡ (clean root).names ++ rest))
unfolding path_within
path_within-IsPrefix root path h k =
    let p = clean root in
    let q = clean path in
    let e : rel p q ≡ rel_names p.names q.names = rel-rooted root path h k in
    (
      (λ i.
          rel_names-inside p.names q.names (clean-NotParent root h) (ap leads_inside (sym e) ∙ i)),
      λ (rest, i).
          ap leads_inside e
          ∙ subst (λ names. leads_inside (rel_names p.names names) ≡ true) (sym i)
              (inside-rel_names p.names rest (subst (All NotParent) i (clean-NotParent path k))),
    )
