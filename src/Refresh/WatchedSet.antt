-- ===== src/Refresh/WatchedSet.antt =====
-- internal/app/change_hints.go: the set of paths that a watcher covers, and its identity.
use nudge.Base.{
  Bool, List, [], all, any, false, if◌then◌else◌, is_nil, not, true, ◌&&◌, ◌++◌, ◌==◌, ◌||◌, ◌∷◌,
}
use nudge.Base.Bytes.{Bytes, bytes_eq, bytes_ltb, codes, is_empty}
use nudge.Base.Result.{Result, fail_if, ok, ◌>>=◌, ◌>>◌}
use nudge.Base.Text.{split}
use nudge.Refresh.Reasons.{RefreshError, invalid_watched_set}
use nudge.Repo.Digest.{Digest}

pub data WatchPathKind : Type 0 where
  worktree_root_kind worktree_git_kind common_git_kind : WatchPathKind
  watch_path_other : Bytes → WatchPathKind

abbrev pub watch_path_kind_text : WatchPathKind → Bytes
watch_path_kind_text worktree_root_kind = codes "worktree_root"
watch_path_kind_text worktree_git_kind = codes "worktree_git"
watch_path_kind_text common_git_kind = codes "common_git"
watch_path_kind_text (watch_path_other s) = s

abbrev pub known_path_kind : WatchPathKind → Bool
known_path_kind (watch_path_other s) = false
known_path_kind _ = true

pub record WatchedPath : Type 0 where
  pub path : Bytes
  pub kind : WatchPathKind

pub record WatchedSet : Type 0 where
  pub repository_id : Bytes
  pub worktree_id : Bytes
  pub worktree_root : Bytes
  pub worktree_git_dir : Bytes
  pub common_git_dir : Bytes
  pub paths : List WatchedPath
  pub watched_set_id : Bytes

-- `filepath.IsAbs(p) && filepath.Clean(p) == p` on Unix: the root, or names that are not empty, not
-- "." and not "..", each after a slash.
abbrev pub plain_name : Bytes → Bool
plain_name name =
    not (is_empty name) && not (bytes_eq name (codes ".")) && not (bytes_eq name (codes ".."))

unfoldable pub is_clean_absolute : Bytes → Bool
is_clean_absolute [] = false
is_clean_absolute (c ∷ s) = c == b'/' && (is_empty s || all plain_name (split s (codes "/")))

-- `WatchedPath.validate`.
abbrev pub validate_watched_path : WatchedPath → Result RefreshError (Unit {0})
validate_watched_path p = do
  fail_if (is_empty p.path || not (is_clean_absolute p.path)) invalid_watched_set
  fail_if (not (known_path_kind p.kind)) invalid_watched_set

-- The order of `finalize`, and `sort.Slice` by it.
abbrev pub path_less : WatchedPath → WatchedPath → Bool
path_less p q =
    if bytes_eq p.path q.path
    then bytes_ltb (watch_path_kind_text p.kind) (watch_path_kind_text q.kind)
    else bytes_ltb p.path q.path

unfoldable pub insert_path : WatchedPath → List WatchedPath → List WatchedPath
insert_path p [] = p ∷ []
insert_path p (q ∷ qs) =
    let rest = insert_path p qs in if path_less q p then q ∷ rest else p ∷ (q ∷ qs)

unfoldable pub sort_paths : List WatchedPath → List WatchedPath
sort_paths [] = []
sort_paths (p ∷ ps) = insert_path p (sort_paths ps)

-- The loop of `finalize` over the sorted paths, with the paths seen.
unfoldable pub watched_paths_accepted :
    List Bytes → List WatchedPath → Result RefreshError (Unit {0})
watched_paths_accepted seen [] = ok tt
watched_paths_accepted seen (p ∷ ps) =
    validate_watched_path p
    >> (fail_if (any (bytes_eq p.path) seen) invalid_watched_set
        >> watched_paths_accepted (p.path ∷ seen) ps)

-- `writeIdentityPart`: a part, ended by a zero byte.
abbrev pub identity_part : Bytes → Bytes
identity_part value = value ++ 0 ∷ []

unfoldable pub paths_text : List WatchedPath → Bytes
paths_text [] = []
paths_text (p ∷ ps) =
    identity_part p.path ++ (identity_part (watch_path_kind_text p.kind) ++ paths_text ps)

-- The text that `watchedSetIdentity` hashes.
unfoldable pub watched_set_text : WatchedSet → Bytes
watched_set_text s =
    identity_part s.repository_id
    ++ (identity_part s.worktree_id
        ++ (identity_part s.worktree_root
            ++ (identity_part s.worktree_git_dir
                ++ (identity_part s.common_git_dir ++ paths_text s.paths))))

module _ (d : Digest) where
  -- The set with its identity, `watchedSetIdentity`.
  abbrev pub identified : WatchedSet → WatchedSet
  identified s = record s { watched_set_id = d.digest (watched_set_text s) }

  -- `finalize`.
  unfoldable pub finalize : WatchedSet → Result RefreshError WatchedSet
  finalize s = do
    fail_if
        (is_empty s.repository_id
          || is_empty s.worktree_id
          || is_empty s.worktree_root
          || is_empty s.worktree_git_dir
          || is_empty s.common_git_dir)
        invalid_watched_set
    fail_if
        (not (
          is_clean_absolute s.worktree_root
          && is_clean_absolute s.worktree_git_dir
          && is_clean_absolute s.common_git_dir))
        invalid_watched_set
    fail_if (is_nil s.paths) invalid_watched_set
    watched_paths_accepted [] (sort_paths s.paths)
    ok (identified (record s { paths = sort_paths s.paths }))

  -- `WatchedSet.Validate`.
  unfoldable pub validate_watched_set : WatchedSet → Result RefreshError (Unit {0})
  validate_watched_set s = do
    final ← finalize s
    fail_if (not (bytes_eq s.watched_set_id final.watched_set_id)) invalid_watched_set
