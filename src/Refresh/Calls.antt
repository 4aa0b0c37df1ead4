-- ===== src/Refresh/Calls.antt =====
-- internal/app/change_hints.go: a scheduler over the calls that its coordinator makes. A call that
-- fails leaves the scheduler as it is.
pub mod Valid
pub mod Kept
pub mod Noted
pub mod Untouched
pub mod Requests
use nudge.Base.{Bool, List, Option, [], none, some, ℕ, ◌∷◌}
use nudge.Base.Result.{Result, err, ok}
use nudge.Base.Time.{Time}
use nudge.Refresh.Reasons.{RefreshError}
use nudge.Refresh.Scheduler.{
  RefreshRequest, RefreshScheduler, WatchHint, complete_refresh, due, set_focused, set_watched_set,
  submit_hint,
}
use nudge.Refresh.WatchedSet.{WatchedSet}
use nudge.Repo.Digest.{Digest}

pub data SchedulerCall : Type 0 where
  set_call : Time → WatchedSet → SchedulerCall
  focus_call : Time → Bool → Bool → SchedulerCall
  hint_call : Time → WatchHint → SchedulerCall
  due_call : Time → SchedulerCall
  complete_call : Time → ℕ → SchedulerCall

abbrev pub Outcome : Type 0
Outcome = RefreshScheduler × Option RefreshRequest

abbrev pub or_same : RefreshScheduler → Result RefreshError RefreshScheduler → Outcome
or_same s (ok s') = (s', none)
or_same s (err e) = (s, none)

abbrev pub emit : Option RefreshRequest → List RefreshRequest → List RefreshRequest
emit none rs = rs
emit (some r) rs = r ∷ rs

module _ (d : Digest) where
  unfoldable pub scheduler_step : RefreshScheduler → SchedulerCall → Outcome
  scheduler_step s (set_call now set) = or_same s (set_watched_set d s now set)
  scheduler_step s (focus_call now focused local) = or_same s (set_focused s now focused local)
  scheduler_step s (hint_call now hint) = or_same s (submit_hint d s now hint)
  scheduler_step s (due_call now) = due s now
  scheduler_step s (complete_call now ticket) = or_same s (complete_refresh s now ticket)

  -- The requests that are emitted in the course of some calls, and the scheduler after them.
  unfoldable pub run_calls :
      RefreshScheduler → List SchedulerCall → List RefreshRequest × RefreshScheduler
  run_calls s [] = ([], s)
  run_calls s (call ∷ calls) =
      let (s', r) = scheduler_step s call in
      let (rs, last) = run_calls s' calls in (emit r rs, last)
