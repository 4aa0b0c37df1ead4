-- ===== src/Watch/Events.antt =====
-- internal/watch/fsnotify.go: `Start`, `Replace`, and what the owner goroutine does with an event.
use nudge.Base.{Bool, List, Option, false, if◌then◌else◌, none, not, some, true, ◌&&◌, ◌||◌}
use nudge.Base.Bytes.{Bytes}
use nudge.Base.Result.{Result, err, fail_if, ok, ◌>>◌}
use nudge.Refresh.Reasons.{
  RefreshError, RefreshReason, filesystem_change, head_changed, watched_root_replaced,
  watcher_closed, watcher_error, watcher_overflow,
}
use nudge.Refresh.Scheduler.{WatchHint}
use nudge.Refresh.WatchedSet.{WatchedPath, WatchedSet, validate_watched_set, worktree_root_kind}
use nudge.Repo.Digest.{Digest}
use nudge.Watch.{
  FileWatcher, WatchError, backend_failed, context_ended, emit, end_run, invalid_set,
  watched_set_incomplete, watcher_ended, watcher_not_started, watcher_started,
}
use nudge.Watch.Paths.{CleanPath, clean, path_text, path_within}
use nudge.Watch.Walk.{FileRoot, Files, add_tree, ignored, rebuild, tracked}

-- `fsnotify.Event`, with the operations that the watcher reads.
pub record FileEvent : Type 0 where
  pub name : Bytes
  pub create : Bool
  pub write : Bool
  pub remove : Bool
  pub rename : Bool
  pub chmod : Bool

abbrev pub has_operation : FileEvent → Bool
has_operation e = e.create || e.write || e.remove || e.rename || e.chmod

abbrev pub lost_hint : WatchedSet → RefreshReason → WatchHint
lost_hint set reason = record { watched_set = set; reason = reason; truth_lost = true }

-- `classifyEvent`: the reason and the loss of truth, for an event that is relevant.
unfoldable pub classify_event : FileEvent → WatchedSet → Bool → Option (RefreshReason × Bool)
classify_event e set is_tracked =
    if not (has_operation e)
    then none
    else if is_tracked && (e.remove || e.rename)
    then some (watched_root_replaced, true)
    else if path_within set.worktree_git_dir (clean e.name)
        || path_within set.common_git_dir (clean e.name)
    then some (head_changed, false)
    else some (filesystem_change, false)

abbrev pub is_directory_at : Option FileRoot → Bool
is_directory_at none = false
is_directory_at (some r) = r.is_directory

abbrev pub event_root : CleanPath → WatchedPath
event_root path = record { path = path_text path; kind = worktree_root_kind }

-- The watcher after the tree of a directory that was made.
abbrev pub tree_added : FileWatcher → RefreshReason → Bool × List CleanPath → FileWatcher
tree_added w reason (true, dirs) =
    emit (record w { watched_dirs = dirs }) (lost_hint w.watched_set watcher_error)
tree_added w reason (false, dirs) =
    emit (record w { watched_dirs = dirs })
      (record { watched_set = w.watched_set; reason = reason; truth_lost = false })

unfoldable pub relevant_event :
    Files → FileWatcher → FileEvent → Option (RefreshReason × Bool) → FileWatcher
relevant_event files w e none = w
relevant_event files w e (some (reason, lost)) =
    if ignored w.config (clean e.name)
    then w
    else if lost
    then emit w (lost_hint w.watched_set reason)
    else if e.create && is_directory_at (files (path_text (clean e.name)))
    then tree_added w reason (add_tree w.config files (event_root (clean e.name)) w.watched_dirs)
    else emit w (record { watched_set = w.watched_set; reason = reason; truth_lost = false })

-- `handleEvent`.
unfoldable pub handle_event : Files → FileWatcher → FileEvent → FileWatcher
handle_event files w e =
    relevant_event files w e
      (classify_event e w.watched_set (tracked w.watched_dirs (clean e.name)))

-- An error of the backend, in `run`.
abbrev pub handle_error : FileWatcher → Bool → FileWatcher
handle_error w overflow =
    emit w (lost_hint w.watched_set (if overflow then watcher_overflow else watcher_error))

-- The channels of the backend were closed, in `run`, with its context cancelled or not.
abbrev pub handle_shutdown : FileWatcher → Bool → FileWatcher
handle_shutdown w cancelled =
    end_run (if cancelled then w else emit w (lost_hint w.watched_set watcher_closed))

abbrev pub set_error : Result RefreshError (Unit {0}) → Result WatchError (Unit {0})
set_error (ok u) = ok tt
set_error (err e) = err (invalid_set e)

-- The watcher with the roots of a set watched; a failure is told by a hint.
abbrev pub covered : FileWatcher → WatchedSet → Bool × List CleanPath → FileWatcher
covered w set (true, dirs) =
    emit (record w { watched_set = set; watched_dirs = dirs; started = true })
      (lost_hint set watcher_error)
covered w set (false, dirs) = record w { watched_set = set; watched_dirs = dirs; started = true }

abbrev pub rebuilt :
    FileWatcher → WatchedSet → Bool × List CleanPath → Option WatchError × FileWatcher
rebuilt w set (failed, dirs) =
    (if failed then some watched_set_incomplete else none, covered w set (failed, dirs))

module _ (d : Digest) where
  -- `Start`, with the backend that `fsnotify.NewWatcher` made or not.
  unfoldable pub start : Files → Bool → FileWatcher → WatchedSet → Result WatchError FileWatcher
  start files has_backend w set = do
    set_error (validate_watched_set d set)
    fail_if w.closed watcher_ended
    fail_if w.started watcher_started
    fail_if (not has_backend) backend_failed
    ok (covered w set (rebuild w.config files set))

  -- `Replace`: refused, or a changed watcher with the error that is returned.
  unfoldable pub replace :
      Files → Bool → FileWatcher → WatchedSet → Result WatchError (Option WatchError × FileWatcher)
  replace files ended w set = do
    set_error (validate_watched_set d set)
    fail_if w.closed watcher_ended
    fail_if (not w.started) watcher_not_started
    fail_if ended context_ended
    ok (rebuilt w set (rebuild w.config files set))
