-- ===== src/Watch/Walk.antt =====
-- internal/watch/fsnotify.go: the walk that watches the directories of the roots.
pub mod Within
use nudge.Base.{
  Bool, List, Option, [], any, false, if◌then◌else◌, length, none, not, some, suc, true, ℕ, ◌&&◌,
  ◌==◌, ◌||◌, ◌∷◌,
}
use nudge.Base.Bytes.{Bytes, bytes_eq, codes}
use nudge.Base.Int.{leb_ℤ, pos}
use nudge.Refresh.WatchedSet.{WatchPathKind, WatchedPath, WatchedSet, worktree_root_kind}
use nudge.Watch.{WatchConfig}
use nudge.Watch.Paths.{CleanPath, clean, path_eq, path_within, rel}

-- What `filepath.WalkDir` meets, in its order: an entry, what is inside it, and the entries after
-- it. The walk or the reading of a directory can fail, and so can the backend's `Add`.
pub record WalkEntry : Type 0 where
  pub path : Bytes
  pub is_dir : Bool
  pub is_symlink : Bool
  pub walk_failed : Bool
  pub read_failed : Bool
  pub can_add : Bool

pub data Entries : Type 0 where
  no_entries : Entries
  entry : WalkEntry → Entries → Entries → Entries

-- What `os.Stat` says of a path, and the walk from it.
pub record FileRoot : Type 0 where
  pub is_directory : Bool
  pub entries : Entries

abbrev pub Files : Type 0
Files = Bytes → Option FileRoot

-- The directories watched so far, the directories of this walk, and whether it failed.
pub record Walked : Type 0 where
  pub dirs : List CleanPath
  pub count : ℕ
  pub failed : Bool

abbrev pub is_worktree_root : WatchPathKind → Bool
is_worktree_root worktree_root_kind = true
is_worktree_root _ = false

abbrev pub starts_with_git : Option (List Bytes) → Bool
starts_with_git (some (name ∷ names)) = bytes_eq name (codes ".git")
starts_with_git _ = false

-- `ignored`.
abbrev pub ignored : WatchConfig → CleanPath → Bool
ignored config path = any (λ root. path_within root path) config.ignored_roots

-- `skipPath`.
unfoldable pub skip_path : WatchConfig → WatchedPath → WalkEntry → Bool
skip_path config root e =
    ignored config (clean e.path)
    || is_worktree_root root.kind && starts_with_git (rel (clean root.path) (clean e.path))
    || e.is_symlink

abbrev pub tracked : List CleanPath → CleanPath → Bool
tracked dirs path = any (path_eq path) dirs

-- An entry of the map, which is set again when it is there.
abbrev pub track : List CleanPath → CleanPath → List CleanPath
track dirs path = if tracked dirs path then dirs else path ∷ dirs

abbrev pub failed_walk : Walked → Walked
failed_walk s = record s { failed = true }

-- A directory that is not skipped.
abbrev pub add_dir : WatchConfig → WalkEntry → Walked → Walked
add_dir config e s =
    if leb_ℤ config.max_watched_directories (pos (length s.dirs)) || not e.can_add
    then record s { count = suc s.count; failed = true }
    else record s { count = suc s.count; dirs = track s.dirs (clean e.path) }

-- The function that `addTreeLocked` walks with.
unfoldable pub visit : WatchConfig → WatchedPath → WalkEntry → Walked → Walked
visit config root e s =
    if e.walk_failed
    then failed_walk s
    else if skip_path config root e || not e.is_dir
    then s
    else add_dir config e s

abbrev pub unless_failed : (Walked → Walked) → Walked → Walked
unless_failed next s = elim s.failed [ true ↦ s | false ↦ next s ]

-- The walk goes into a directory that is not skipped.
abbrev pub goes_inside : WatchConfig → WatchedPath → WalkEntry → Bool
goes_inside config root e = e.is_dir && not (skip_path config root e)

abbrev pub inside_of : Bool → Bool → (Walked → Walked) → Walked → Walked
inside_of false read_failed inside s = s
inside_of true true inside s = failed_walk s
inside_of true false inside s = inside s

unfoldable pub walk_dir : WatchConfig → WatchedPath → Entries → Walked → Walked
walk_dir config root no_entries s = s
walk_dir config root (entry e inside next) s = unless_failed (walk_dir config root next) (
    unless_failed
      (inside_of (goes_inside config root e) e.read_failed (walk_dir config root inside))
      (visit config root e s))

-- `addTreeLocked`: the directories watched after it, and whether it failed.
abbrev pub whole_walk : Walked → Bool × List CleanPath
whole_walk s = (s.failed || s.count == 0, s.dirs)

abbrev pub add_root :
    WatchConfig → WatchedPath → List CleanPath → Option FileRoot → Bool × List CleanPath
add_root config root dirs none = (true, dirs)
add_root config root dirs (some r) =
    if not r.is_directory
    then (true, dirs)
    else whole_walk
        (walk_dir config root r.entries (record { dirs = dirs; count = 0; failed = false }))

unfoldable pub add_tree : WatchConfig → Files → WatchedPath → List CleanPath → Bool × List CleanPath
add_tree config files root dirs = add_root config root dirs (files root.path)

-- The loop of `rebuildLocked`, which goes on after a root that failed.
unfoldable pub add_roots :
    WatchConfig → Files → List WatchedPath → Bool × List CleanPath → Bool × List CleanPath
add_roots config files [] (failed, dirs) = (failed, dirs)
add_roots config files (root ∷ roots) (failed, dirs) =
    let added = add_tree config files root dirs in
    add_roots config files roots (failed || added.0, added.1)

-- `rebuildLocked`.
abbrev pub rebuild : WatchConfig → Files → WatchedSet → Bool × List CleanPath
rebuild config files set = add_roots config files set.paths (false, [])
