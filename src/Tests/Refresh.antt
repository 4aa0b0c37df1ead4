-- ===== src/Tests/Refresh.antt =====
-- A scheduler with one set of watched paths.
use nudge.Base.{
  List, [], arith, false, is_some, length, map, none, refl, some, true, ◌-◌, ◌^◌, ◌∷◌, ◌≡◌, ◌≤◌,
}
use nudge.Base.Bytes.{bytes_ltb, codes}
use nudge.Base.Int.{pos, ◌+ℤ◌}
use nudge.Base.Result.{ok}
use nudge.Base.Text.{split}
use nudge.Refresh.Calls.{
  SchedulerCall, complete_call, due_call, hint_call, run_calls, scheduler_step,
}
use nudge.Refresh.Calls.Kept.{IsKept}
use nudge.Refresh.Calls.Noted.{submit_hint-IsKept}
use nudge.Refresh.Calls.Requests.{AreNumbered, run_calls-AreNumbered}
use nudge.Refresh.Calls.Valid.{IsScheduling}
use nudge.Refresh.Reasons.{
  filesystem_change, reason_eq, reasons_from_bits, reasons_of, refresh_reason_bit,
  valid_refresh_reason,
}
use nudge.Refresh.Scheduler.{
  RefreshRequest, RefreshScheduler, WatchHint, add_reason, complete_refresh,
  default_refresh_scheduler_config, due, due_from, emitted, idle_scheduler, next_due, request,
  set_watched_set, submit_at, submit_hint, validate_hint, validate_scheduler_config,
}
use nudge.Refresh.Scheduler.DueTimes.{IsTimed, due-next_due, has_come}
use nudge.Refresh.WatchedSet.{
  WatchedPath, WatchedSet, common_git_kind, finalize, insert_path, is_clean_absolute, sort_paths,
  validate_watched_set, watched_paths_accepted, worktree_root_kind,
}
use nudge.Tests.Digests.{zero_digest, zeros}

abbrev pub root_path : WatchedPath
root_path = record { path = codes "/w"; kind = worktree_root_kind }

abbrev git_path : WatchedPath
git_path = record { path = codes "/g"; kind = common_git_kind }

abbrev pub watched : WatchedSet
watched = record {
  repository_id = codes "r";
  worktree_id = codes "w";
  worktree_root = codes "/w";
  worktree_git_dir = codes "/w/.git";
  common_git_dir = codes "/g";
  paths = root_path ∷ git_path ∷ [];
  watched_set_id = zeros 64;
}

watched-valid : validate_watched_set zero_digest watched ≡ ok tt
unfolding validate_watched_set finalize watched_paths_accepted sort_paths insert_path
    is_clean_absolute split bytes_ltb zeros
watched-valid = refl

dotted_root : is_clean_absolute (codes "/a/../b") ≡ false
unfolding is_clean_absolute split
dotted_root = refl

abbrev file_hint : WatchHint
file_hint = record { watched_set = watched; reason = filesystem_change; truth_lost = true }

abbrev scheduler : RefreshScheduler
scheduler = idle_scheduler default_refresh_scheduler_config

scheduler-IsScheduling : IsScheduling zero_digest scheduler
scheduler-IsScheduling = record {
  valid_set = tt;
  bits_fit = omega arith;
  ticket = λ e. absurd (cc e);
}

abbrev after_hint : RefreshScheduler
after_hint =
    add_reason (record scheduler { set = some watched; last_refresh_at = pos 5 }) (pos 5)
      filesystem_change true

accepted_hint : submit_hint zero_digest scheduler (pos 5) file_hint ≡ ok after_hint
unfolding submit_hint submit_at set_watched_set validate_hint valid_refresh_reason
    refresh_reason_bit reason_eq validate_watched_set finalize watched_paths_accepted sort_paths
    insert_path is_clean_absolute split bytes_ltb zeros
accepted_hint = refl

-- Not due before the quiet delay, and once after it.
quiet_then_due :
    (due after_hint (pos 200_000_004) ≡ (after_hint, none))
    × (map
          (λ (r : RefreshRequest). r.reasons)
          (run_calls zero_digest after_hint (
            due_call (pos 200_000_005)
            ∷ due_call (pos 900_000_000)
            ∷ complete_call (pos 900_000_001) 1
            ∷ due_call (pos 900_000_002)
            ∷ [])).0
        ≡ (filesystem_change ∷ []) ∷ [])
unfolding due due_from add_reason refresh_reason_bit reason_eq run_calls scheduler_step
    complete_refresh request emitted reasons_from_bits reasons_of ◌+ℤ◌
quiet_then_due = (refl, refl)

submit_hint-IsKept_example :
    IsKept filesystem_change true
      (run_calls zero_digest after_hint (due_call (pos 9) ∷ [])).0
      (run_calls zero_digest after_hint (due_call (pos 9) ∷ [])).1
submit_hint-IsKept_example =
    submit_hint-IsKept zero_digest scheduler after_hint (pos 5) file_hint (due_call (pos 9) ∷ [])
      accepted_hint

abbrev some_calls : List SchedulerCall
some_calls = hint_call (pos 5) file_hint ∷ due_call (pos 900_000_000) ∷ []

run_calls-AreNumbered_example :
    AreNumbered zero_digest 0 (run_calls zero_digest scheduler some_calls).0
    × (length (run_calls zero_digest scheduler some_calls).0 ≤ 1)
    × IsScheduling zero_digest (run_calls zero_digest scheduler some_calls).1
run_calls-AreNumbered_example =
    run_calls-AreNumbered zero_digest scheduler some_calls scheduler-IsScheduling (omega arith)

scheduler-IsTimed : IsTimed scheduler
unfolding validate_scheduler_config
scheduler-IsTimed = record {
  delays = refl;
  first = omega arith;
  last = omega arith;
  refreshed = omega arith;
}

due-next_due_example :
    is_some (due scheduler (pos 7)).1 ≡ has_come (next_due scheduler (pos 7)) (pos 7)
due-next_due_example = due-next_due scheduler (pos 7) scheduler-IsTimed

-- The number after the last of 64 bits is zero.
wrapped_number : (emitted (record scheduler { sequence = 2 ^ 64 - 1 }) (pos 5)).sequence ≡ 0
unfolding emitted
wrapped_number = refl
