-- ===== src/Tests/Watch.antt =====
-- A watcher of one root with two directories.
use nudge.Base.{List, [], false, none, refl, some, true, ℕ, ◌++◌, ◌↔◌, ◌∷◌, ◌≡◌, ◌≤◌}
use nudge.Base.Bytes.{Bytes, bytes_ltb, codes}
use nudge.Base.Int.{pos}
use nudge.Base.Result.{ok}
use nudge.Base.Text.{split}
use nudge.Refresh.Reasons.{filesystem_change, head_changed, watcher_error}
use nudge.Refresh.Scheduler.{WatchHint}
use nudge.Refresh.WatchedSet.{
  finalize, insert_path, is_clean_absolute, sort_paths, validate_watched_set,
  watched_paths_accepted,
}
use nudge.Tests.Digests.{zero_digest, zeros}
use nudge.Tests.Refresh.{root_path, watched}
use nudge.Watch.{
  FileWatcher, WatchConfig, emit, empty_watcher, end_run, new_file_watcher, normalized,
}
use nudge.Watch.Bounded.{
  WatchInput, cancel_input, close_input, error_input, read_input, replaced_or, shutdown_input,
  start_input, watch_inputs, watch_inputs-IsLimited,
}
use nudge.Watch.Delivered.{
  IsReserved, close_step, emit_step, handed, loses_truth, queue_steps, receive_step,
  truth_lost-IsDelivered,
}
use nudge.Watch.Events.{classify_event, lost_hint, replace}
use nudge.Watch.Limited.{IsLimited}
use nudge.Watch.Paths.{
  clean, clean_name, clean_names, names_eq, names_text, path_text, path_within, rel, rel_names,
  up_from,
}
use nudge.Watch.Paths.Inside.{path_within-IsPrefix}
use nudge.Watch.Walk.{
  Entries, Files, WalkEntry, add_roots, add_tree, entry, no_entries, skip_path, visit, walk_dir,
}

abbrev small_config : WatchConfig
small_config = record {
  hint_buffer = pos 1;
  max_watched_directories = pos 1;
  ignored_roots = codes "/w/tmp" ∷ [];
}

abbrev small_watcher : FileWatcher
small_watcher = empty_watcher small_config

small_watcher-new : new_file_watcher small_config ≡ ok small_watcher
unfolding new_file_watcher normalized is_clean_absolute split
small_watcher-new = refl

abbrev lost : WatchHint
lost = lost_hint watched watcher_error

abbrev change : WatchHint
change = record { watched_set = watched; reason = filesystem_change; truth_lost = false }

-- An ordinary hint takes the one place for it; the next is dropped, and a loss of truth is not.
queued :
    (queue_steps (emit_step change ∷ emit_step change ∷ []) small_watcher).1.hints ≡ change ∷ []
unfolding queue_steps emit
queued = refl

last_handed :
    handed (emit_step change ∷ emit_step change ∷ emit_step lost ∷ receive_step ∷ []) small_watcher
    ≡ change ∷ lost ∷ []
unfolding queue_steps emit
last_handed = refl

open_then : (queue_steps (emit_step change ∷ emit_step change ∷ []) small_watcher).1.closed ≡ false
unfolding queue_steps emit
open_then = refl

channel_then :
    (queue_steps (emit_step change ∷ emit_step change ∷ []) small_watcher).1.hints_closed ≡ false
unfolding queue_steps emit
channel_then = refl

truth_lost-IsDelivered_example :
    IsReserved (queue_steps (emit_step change ∷ emit_step change ∷ []) small_watcher).1
    × (loses_truth (
          handed
            (receive_step ∷ emit_step change ∷ close_step ∷ [])
            (emit (queue_steps (emit_step change ∷ emit_step change ∷ []) small_watcher).1 lost))
        ≡ true)
truth_lost-IsDelivered_example =
    truth_lost-IsDelivered small_config small_watcher (emit_step change ∷ emit_step change ∷ [])
      (receive_step ∷ emit_step change ∷ close_step ∷ []) lost small_watcher-new open_then
      channel_then refl

abbrev dir_entry : Bytes → WalkEntry
dir_entry path = record {
  path = path;
  is_dir = true;
  is_symlink = false;
  walk_failed = false;
  read_failed = false;
  can_add = true;
}

-- /w has the directories tmp, which is ignored, .git and a.
abbrev w_entries : Entries
w_entries =
    entry (dir_entry (codes "/w"))
      (entry (dir_entry (codes "/w/tmp")) no_entries (
        entry (dir_entry (codes "/w/.git")) no_entries
          (entry (dir_entry (codes "/w/a")) no_entries no_entries)))
      no_entries

abbrev w_files : Files
w_files path = some (record { is_directory = true; entries = w_entries })

abbrev roomy_config : WatchConfig
roomy_config = record small_config { max_watched_directories = pos 9 }

walked :
    add_tree roomy_config w_files root_path []
    ≡ (false, clean (codes "/w/a") ∷ clean (codes "/w") ∷ [])
unfolding add_tree walk_dir visit skip_path path_within rel rel_names up_from clean clean_names
    clean_name names_eq split
walked = refl

-- The bound of one directory fails the walk.
bounded_walk : add_tree small_config w_files root_path [] ≡ (true, clean (codes "/w") ∷ [])
unfolding add_tree walk_dir visit skip_path path_within rel rel_names up_from clean clean_names
    clean_name names_eq split
bounded_walk = refl

abbrev started_inputs : List WatchInput
started_inputs =
    start_input w_files true watched
    ∷ error_input true
    ∷ read_input
    ∷ shutdown_input false
    ∷ cancel_input
    ∷ close_input
    ∷ []

watch_inputs-IsLimited_example :
    (m : ℕ) × (m ≤ 1_000_000) × IsLimited m (watch_inputs zero_digest started_inputs small_watcher)
watch_inputs-IsLimited_example =
    watch_inputs-IsLimited zero_digest small_config small_watcher started_inputs small_watcher-new

path_within-IsPrefix_example :
    (path_within (codes "/w/../g") (clean (codes "/g/./refs")) ≡ true) ↔ (
      (rest : List Bytes) × ((clean (codes "/g/./refs")).names
        ≡ (clean (codes "/w/../g")).names ++ rest))
path_within-IsPrefix_example = path_within-IsPrefix (codes "/w/../g") (codes "/g/./refs") refl refl

clean_text : path_text (clean (codes "//a/./b/../c/")) ≡ codes "/a/c"
unfolding clean clean_names clean_name split names_text
clean_text = refl

clean_relative : path_text (clean (codes "a/../../b")) ≡ codes "../b"
unfolding clean clean_names clean_name split names_text
clean_relative = refl

sibling : path_within (codes "/w/a") (clean (codes "/w/ab")) ≡ false
unfolding path_within rel rel_names up_from clean clean_names clean_name split
sibling = refl

head_event :
    classify_event
      (record {
        name = codes "/g/HEAD";
        create = false;
        write = true;
        remove = false;
        rename = false;
        chmod = false;
      })
      watched
      false
    ≡ some (head_changed, false)
unfolding classify_event path_within rel rel_names up_from clean clean_names clean_name split
head_event = refl

-- The channel of hints is closed when the goroutine ends, and a later `Replace` that watches nothing
-- sends on it.
abbrev ended_watcher : FileWatcher
ended_watcher = end_run (record small_watcher { started = true })

abbrev no_files : Files
no_files path = none

replaced_after_end :
    (replaced_or ended_watcher (replace zero_digest no_files false ended_watcher watched)).panicked
    ≡ true
unfolding replace validate_watched_set finalize watched_paths_accepted sort_paths insert_path
    is_clean_absolute split bytes_ltb zeros emit add_roots add_tree
replaced_after_end = refl
