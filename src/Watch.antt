-- ===== src/Watch.antt =====
-- internal/watch/fsnotify.go: the watcher's bounds, its queue of hints, and the delivery of a hint.
pub mod Paths
pub mod Walk
pub mod Events
pub mod Delivered
pub mod Limited
pub mod Bounded
use Paths.{CleanPath}
use nudge.Base.{
  Bool, List, Option, [], all, false, if◌then◌else◌, leb, length, ltb, none, not, some, true, ℕ,
  ◌++◌, ◌+◌, ◌-◌, ◌||◌, ◌∷◌,
}
use nudge.Base.Bytes.{Bytes}
use nudge.Base.Int.{eqb_ℤ, ltb_ℤ, negsuc, pos, ℤ}
use nudge.Base.Result.{Result, fail_if, ok, ◌>>=◌, ◌>>◌}
use nudge.Refresh.Reasons.{RefreshError}
use nudge.Refresh.Scheduler.{WatchHint}
use nudge.Refresh.WatchedSet.{WatchedSet, is_clean_absolute}

pub data WatchError : Type 0 where
  invalid_config watcher_not_started watcher_started watcher_ended : WatchError
  watched_set_incomplete backend_failed context_ended : WatchError
  invalid_set : RefreshError → WatchError

-- `Config`.
pub record WatchConfig : Type 0 where
  pub hint_buffer : ℤ
  pub max_watched_directories : ℤ
  pub ignored_roots : List Bytes

-- `Config.normalized`.
abbrev pub or_default : ℤ → ℤ → ℤ
or_default value fallback = if eqb_ℤ value (pos 0) then fallback else value

abbrev pub with_default_bounds : WatchConfig → WatchConfig
with_default_bounds c = record c {
  hint_buffer = or_default c.hint_buffer (pos 128);
  max_watched_directories = or_default c.max_watched_directories (pos 100_000);
}

unfoldable pub normalized : WatchConfig → Result WatchError WatchConfig
normalized config = do
  let c = with_default_bounds config
  fail_if
      (ltb_ℤ c.hint_buffer (pos 1)
        || ltb_ℤ (pos 4096) c.hint_buffer
        || ltb_ℤ c.max_watched_directories (pos 1)
        || ltb_ℤ (pos 1_000_000) c.max_watched_directories)
      invalid_config
  fail_if (not (all is_clean_absolute c.ignored_roots)) invalid_config
  ok c

-- `FileWatcher`, without the handles of its goroutine. `hints` is the buffer of the channel, the
-- oldest first, and `capacity` the channel's; `hints_closed` is that the channel is closed, and
-- `panicked` that something was sent on it since; `watched_dirs` is a set.
pub record FileWatcher : Type 0 where
  pub config : WatchConfig
  pub hints : List WatchHint
  pub capacity : ℕ
  pub watched_set : WatchedSet
  pub watched_dirs : List CleanPath
  pub started : Bool
  pub closed : Bool
  pub hints_closed : Bool
  pub panicked : Bool

-- The zero value of `app.WatchedSet`.
abbrev pub no_set : WatchedSet
no_set = record {
  repository_id = [];
  worktree_id = [];
  worktree_root = [];
  worktree_git_dir = [];
  common_git_dir = [];
  paths = [];
  watched_set_id = [];
}

abbrev pub size_of : ℤ → ℕ
size_of (pos n) = n
size_of (negsuc n) = 0

abbrev pub empty_watcher : WatchConfig → FileWatcher
empty_watcher c = record {
  config = c;
  hints = [];
  capacity = size_of c.hint_buffer + 1;
  watched_set = no_set;
  watched_dirs = [];
  started = false;
  closed = false;
  hints_closed = false;
  panicked = false;
}

-- `NewFileWatcher`.
unfoldable pub new_file_watcher : WatchConfig → Result WatchError FileWatcher
new_file_watcher config = do c ← normalized config; ok (empty_watcher c)

-- The `select` that sends a hint or drops it. To send on a closed channel panics.
abbrev pub send : FileWatcher → WatchHint → FileWatcher
send w hint =
    if w.hints_closed
    then record w { panicked = true }
    else if ltb (length w.hints) w.capacity
    then record w { hints = w.hints ++ hint ∷ [] }
    else w

-- `emit`.
unfoldable pub emit : FileWatcher → WatchHint → FileWatcher
emit w hint =
    if w.closed
    then w
    else if hint.truth_lost
    then send w hint
    else if leb (w.capacity - 1) (length w.hints)
    then w
    else send w hint

abbrev pub received_from : FileWatcher → List WatchHint → Option WatchHint × FileWatcher
received_from w [] = (none, w)
received_from w (hint ∷ hints) = (some hint, record w { hints = hints })

-- A read of the channel.
abbrev pub receive : FileWatcher → Option WatchHint × FileWatcher
receive w = received_from w w.hints

-- `Close`, which returns when the channel of hints is closed.
abbrev pub close : FileWatcher → FileWatcher
close w = record w { closed = true; hints_closed = true }

-- The owner goroutine returns from `run`, and closes the channel of hints.
abbrev pub end_run : FileWatcher → FileWatcher
end_run w = record w { hints_closed = true }
