-- ===== src/Refresh/Calls/Noted.antt =====
-- A hint that the scheduler of internal/app/change_hints.go accepts is noted, and stays so.
use mathlib.Core.Path.{subst}
use nudge.Base.{
  Bool, List, Option, [], arith, false, if◌then◌else◌, none, not, refl, some, sym, true, ◌||◌, ◌∷◌,
  ◌≡◌,
}
use nudge.Base.Bytes.{bytes_eq}
use nudge.Base.Result.{>>=-eq-ok, Result, fail_if->>-ok, fails, ok}
use nudge.Base.Time.{Time, is_zero}
use nudge.Refresh.Calls.{SchedulerCall, run_calls}
use nudge.Refresh.Calls.Kept.{IsKept, run_calls-IsKept}
use nudge.Refresh.Calls.Untouched.{and_bits, pending_with}
use nudge.Refresh.Reasons.{
  Bits, RefreshError, RefreshReason, invalid_watch_hint, non_zero, or_bits, reason_eq,
  refresh_reason_bit, valid_refresh_reason, watched_set_changed,
}
use nudge.Refresh.Scheduler.{
  RefreshScheduler, WatchHint, add_reason, set_watched_set, submit_at, submit_hint, validate_hint,
  with_reason,
}
use nudge.Refresh.WatchedSet.{WatchedSet}
use nudge.Repo.Digest.{Digest}

-- The reason that a hint is noted with: its own, or that the set has changed when the hint is about
-- another set than the scheduler's. The truth is lost with it in the second case.
abbrev pub stale : WatchHint → Option WatchedSet → Bool
stale hint none = false
stale hint (some set) = not (bytes_eq set.watched_set_id hint.watched_set.watched_set_id)

abbrev pub noted_reason : RefreshScheduler → WatchHint → RefreshReason
noted_reason s hint = if stale hint s.set then watched_set_changed else hint.reason

abbrev pub noted_loss : RefreshScheduler → WatchHint → Bool
noted_loss s hint = stale hint s.set || hint.truth_lost

and_own : (x a : Bits) → non_zero x ≡ true → non_zero (and_bits x (or_bits a x)) ≡ true
and_own [] a h = absurd (cc h)
and_own (true ∷ x) [] h = refl
and_own (false ∷ x) [] h = and_own x [] h
and_own (true ∷ x) (true ∷ a) h = refl
and_own (true ∷ x) (false ∷ a) h = refl
and_own (false ∷ x) (b ∷ a) h = and_own x a h

added-pending :
    (s : RefreshScheduler) (now : Time) (reason : RefreshReason) (lost : Bool)
    → valid_refresh_reason reason ≡ true
    → pending_with reason lost (add_reason s now reason lost) ≡ true
unfolding add_reason valid_refresh_reason
added-pending s now reason lost v =
    let e : add_reason s now reason lost ≡ with_reason s now reason lost = rw v refl in
    subst (λ x. pending_with reason lost x ≡ true) (sym e)
      (rw (and_own (refresh_reason_bit reason) s.pending_bits v) (ground arith))

watched_set_changed-valid : valid_refresh_reason watched_set_changed ≡ true
unfolding valid_refresh_reason refresh_reason_bit reason_eq
watched_set_changed-valid = refl

module _ (d : Digest) where
  hint-reason :
      (hint : WatchHint)
      → fails (validate_hint d hint) ≡ false
      → valid_refresh_reason hint.reason ≡ true
  unfolding validate_hint
  hint-reason hint h = ground (arith, h)

  noted_pending :
      (s s' : RefreshScheduler) (now : Time) (hint : WatchHint) (o : Option WatchedSet)
      → valid_refresh_reason hint.reason ≡ true
      → submit_at d s now hint o ≡ ok s'
      → pending_with
          (if stale hint o then watched_set_changed else hint.reason)
          (stale hint o || hint.truth_lost)
          s'
        ≡ true
  unfolding submit_at
  noted_pending s s' now hint none v e =
      let (s1, e1, e2) =
        >>=-eq-ok (set_watched_set d s now hint.watched_set)
          (λ s1. ok (add_reason s1 now hint.reason hint.truth_lost)) e in
      let e3 : add_reason s1 now hint.reason hint.truth_lost ≡ s' = cc e2 in
      subst (λ x. pending_with hint.reason hint.truth_lost x ≡ true) e3
        (added-pending s1 now hint.reason hint.truth_lost v)
  noted_pending s s' now hint (some set) v e =
      go (not (bytes_eq set.watched_set_id hint.watched_set.watched_set_id)) e
    where
      go :
          (t : Bool)
          → ◌≡◌ {A = Result RefreshError RefreshScheduler}
              (if t
                then ok (add_reason s now watched_set_changed true)
                else ok (add_reason s now hint.reason hint.truth_lost))
              (ok s')
          → pending_with (if t then watched_set_changed else hint.reason) (t || hint.truth_lost) s'
            ≡ true
      go true h =
          let e3 : add_reason s now watched_set_changed true ≡ s' = cc h in
          subst (λ x. pending_with watched_set_changed true x ≡ true) e3
            (added-pending s now watched_set_changed true watched_set_changed-valid)
      go false h =
          let e3 : add_reason s now hint.reason hint.truth_lost ≡ s' = cc h in
          subst (λ x. pending_with hint.reason hint.truth_lost x ≡ true) e3
            (added-pending s now hint.reason hint.truth_lost v)

  -- No accepted hint is lost: whatever calls follow, its reason is given by a request that they
  -- emit, or is pending at their end; so is the loss of truth when the hint has it. A hint about
  -- another set than the scheduler's is noted as a change of the set with a loss of truth.
  pub submit_hint-IsKept :
      (s s' : RefreshScheduler) (now : Time) (hint : WatchHint) (calls : List SchedulerCall)
      → submit_hint d s now hint ≡ ok s'
      → IsKept
          (noted_reason s hint)
          (noted_loss s hint)
          (run_calls d s' calls).0
          (run_calls d s' calls).1
  unfolding submit_hint
  submit_hint-IsKept s s' now hint calls e =
      let (t, e1) =
        fail_if->>-ok (is_zero now || fails (validate_hint d hint)) invalid_watch_hint
          (submit_at d s now hint s.set) e in
      run_calls-IsKept d (noted_reason s hint) (noted_loss s hint) s' calls
        (noted_pending s s' now hint s.set (hint-reason hint (ground (arith, t))) e1)
