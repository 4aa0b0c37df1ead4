-- ===== src/Watch/Walk/Within.antt =====
-- The walks of internal/watch/fsnotify.go watch no more directories than the bound allows.
use mathlib.Core.Path.{subst}
use nudge.Base.{
  Bool, List, Option, [], arith, false, if-both, length, none, not, some, true, ℕ, ◌<◌, ◌||◌, ◌∷◌,
  ◌≡◌, ◌≤◌,
}
use nudge.Base.Int.{leb_ℤ, pos}
use nudge.Refresh.WatchedSet.{WatchedPath}
use nudge.Watch.{WatchConfig}
use nudge.Watch.Paths.{CleanPath, clean}
use nudge.Watch.Walk.{
  Entries, FileRoot, Files, WalkEntry, Walked, add_dir, add_root, add_roots, add_tree, entry,
  goes_inside, inside_of, no_entries, skip_path, track, tracked, unless_failed, visit, walk_dir,
}

-- At most `m` directories.
abbrev pub Within : ℕ → Walked → Type 0
Within m s = length s.dirs ≤ m

abbrev pub DirsWithin : ℕ → List CleanPath → Type 0
DirsWithin m dirs = length dirs ≤ m

abbrev AddedWithin : ℕ → Bool × List CleanPath → Type 0
AddedWithin m (failed, dirs) = DirsWithin m dirs

track-Within :
    (m : ℕ) (dirs : List CleanPath) (path : CleanPath)
    → length dirs < m
    → DirsWithin m (track dirs path)
track-Within m dirs path h =
    if-both (DirsWithin m) (tracked dirs path) (λ e. omega arith) (λ e. omega arith)

module _ (config : WatchConfig) (m : ℕ) (limit : config.max_watched_directories ≡ pos m) where
  has_room : (n : ℕ) (b : Bool) → leb_ℤ config.max_watched_directories (pos n) || b ≡ false → n < m
  has_room n b e =
      let e' : leb_ℤ (pos m) (pos n) || b ≡ false =
        subst (λ z. leb_ℤ z (pos n) || b ≡ false) limit e in
      ground arith

  add_dir-Within : (e : WalkEntry) (s : Walked) → Within m s → Within m (add_dir config e s)
  add_dir-Within e s h =
      if-both (Within m)
        (leb_ℤ config.max_watched_directories (pos (length s.dirs)) || not e.can_add) (λ t. h)
        (λ t. track-Within m s.dirs (clean e.path) (has_room (length s.dirs) (not e.can_add) t))

  visit-Within :
      (root : WatchedPath) (e : WalkEntry) (s : Walked)
      → Within m s
      → Within m (visit config root e s)
  unfolding visit
  visit-Within root e s h =
      if-both (Within m) e.walk_failed (λ t. h)
        (λ t.
          if-both (Within m) (skip_path config root e || not e.is_dir) (λ t'. h)
            (λ t'. add_dir-Within e s h))

  unless_failed-Within :
      (next : Walked → Walked) (s : Walked)
      → ((s' : Walked) → Within m s' → Within m (next s'))
      → Within m s
      → Within m (unless_failed next s)
  unless_failed-Within next s step h = go s.failed
    where
      go : (t : Bool) → Within m (elim t [ true ↦ s | false ↦ next s ])
      go true = h
      go false = step s h

  inside_of-Within :
      (goes failing : Bool) (inside : Walked → Walked) (s : Walked)
      → ((s' : Walked) → Within m s' → Within m (inside s'))
      → Within m s
      → Within m (inside_of goes failing inside s)
  inside_of-Within false failing inside s step h = h
  inside_of-Within true true inside s step h = h
  inside_of-Within true false inside s step h = step s h

  walk_dir-Within :
      (root : WatchedPath) (es : Entries) (s : Walked)
      → Within m s
      → Within m (walk_dir config root es s)
  unfolding walk_dir
  walk_dir-Within root no_entries s h = h
  walk_dir-Within root (entry e inside next) s h =
      let go_inside : Walked → Walked =
        inside_of (goes_inside config root e) e.read_failed (walk_dir config root inside) in
      let here = visit config root e s in
      unless_failed-Within (walk_dir config root next) (unless_failed go_inside here)
        (walk_dir-Within root next)
        (unless_failed-Within go_inside here
          (λ s' h'.
            inside_of-Within (goes_inside config root e) e.read_failed (walk_dir config root inside)
              s' (walk_dir-Within root inside) h')
          (visit-Within root e s h))

  add_root-Within :
      (root : WatchedPath) (dirs : List CleanPath) (found : Option FileRoot)
      → DirsWithin m dirs
      → DirsWithin m (add_root config root dirs found).1
  add_root-Within root dirs none h = h
  add_root-Within root dirs (some r) h =
      if-both (AddedWithin m) (not r.is_directory) (λ t. h)
        (λ t. walk_dir-Within root r.entries (record { dirs = dirs; count = 0; failed = false }) h)

  pub add_tree-Within :
      (files : Files) (root : WatchedPath) (dirs : List CleanPath)
      → DirsWithin m dirs
      → DirsWithin m (add_tree config files root dirs).1
  unfolding add_tree
  add_tree-Within files root dirs h = add_root-Within root dirs (files root.path) h

  pub add_roots-Within :
      (files : Files) (roots : List WatchedPath) (failed : Bool) (dirs : List CleanPath)
      → DirsWithin m dirs
      → DirsWithin m (add_roots config files roots (failed, dirs)).1
  unfolding add_roots
  add_roots-Within files [] failed dirs h = h
  add_roots-Within files (root ∷ roots) failed dirs h =
      let added = add_tree config files root dirs in
      add_roots-Within files roots (failed || added.0) added.1 (add_tree-Within files root dirs h)
