-- ===== src/Refresh/Calls/Kept.antt =====
-- No hint to the scheduler of internal/app/change_hints.go is lost.
use mathlib.Core.Path.{subst}
use nudge.Base.{
  Bool, List, [], any, arith, false, inl, inr, map, none, not, refl, some, sym, true, ◌&&◌, ◌==◌,
  ◌||◌, ◌∷◌, ◌≡◌, ◌⊎◌,
}
use nudge.Base.Result.{Result, err, fail_if, ok, ◌>>◌}
use nudge.Base.Time.{Time, is_zero}
use nudge.Refresh.Calls.{
  Outcome, SchedulerCall, complete_call, due_call, emit, focus_call, hint_call, or_same, run_calls,
  scheduler_step, set_call,
}
use nudge.Refresh.Calls.Untouched.{
  Keeps, aged-IsUntouched, and_bits, focus-Keeps, pending_with, set-Keeps, submit-Keeps,
}
use nudge.Refresh.Reasons.{
  Bits, RefreshError, RefreshReason, non_zero, reason_eq, reasons_from_bits, reasons_of,
  refresh_not_active, refresh_reason_bit, refresh_reason_order,
}
use nudge.Refresh.Scheduler.{
  RefreshRequest, RefreshScheduler, aged, complete_refresh, completed, due, request,
}
use nudge.Refresh.Scheduler.Cases.{due-cases}
use nudge.Refresh.WatchedSet.{WatchedSet}
use nudge.Repo.Digest.{Digest}

-- A request gives the reason, and the loss of truth where it was lost.
abbrev pub carries : RefreshReason → Bool → RefreshRequest → Bool
carries reason lost r = any (λ v. reason_eq v reason) r.reasons && (not lost || r.truth_lost)

-- The reason is pending, or a request among some gave it.
abbrev pub IsKept : RefreshReason → Bool → List RefreshRequest → RefreshScheduler → Type 0
IsKept reason lost rs s =
    (any (carries reason lost) rs ≡ true) ⊎ (pending_with reason lost s ≡ true)

any-reasons_of :
    (p : RefreshReason → Bool) (bits : Bits) (rs : List RefreshReason)
    → non_zero (and_bits (map p rs) bits) ≡ true
    → any p (reasons_of bits rs) ≡ true
unfolding reasons_of
any-reasons_of p [] [] h = absurd (cc h)
any-reasons_of p [] (r ∷ rs) h = absurd (cc h)
any-reasons_of p (b ∷ bits) [] h = absurd (cc h)
any-reasons_of p (true ∷ bits) (r ∷ rs) h = ground (arith, any-reasons_of p bits rs)
any-reasons_of p (false ∷ bits) (r ∷ rs) h = ground (arith, any-reasons_of p bits rs)

first_implies : (a b c : Bool) → (a ≡ true → b ≡ true) → (a && c) ≡ true → (b && c) ≡ true
first_implies true b c f h = rw (f refl) h
first_implies false b c f h = absurd (cc h)

request-carries :
    (s : RefreshScheduler) (set : WatchedSet) (now : Time) (reason : RefreshReason) (lost : Bool)
    → pending_with reason lost s ≡ true
    → carries reason lost (request s set now) ≡ true
unfolding request reasons_from_bits refresh_reason_bit
request-carries s set now reason lost h =
    first_implies (non_zero (and_bits (refresh_reason_bit reason) s.pending_bits))
      (any (λ v. reason_eq v reason) (reasons_of s.pending_bits refresh_reason_order))
      (not lost || s.pending_truth_lost)
      (any-reasons_of (λ v. reason_eq v reason) s.pending_bits refresh_reason_order) h

module _ (d : Digest) (reason : RefreshReason) (lost : Bool) where
  abbrev StepKeeps : Outcome → Type 0
  StepKeeps (s', none) = pending_with reason lost s' ≡ true
  StepKeeps (s', some r) = carries reason lost r ≡ true

  untouched-Keeps :
      (s : RefreshScheduler) (r : Result RefreshError RefreshScheduler)
      → Keeps s r
      → pending_with reason lost s ≡ true
      → StepKeeps (or_same s r)
  untouched-Keeps s (ok s') k p = k.kept reason lost p
  untouched-Keeps s (err e) k p = p

  due-Keeps :
      (s : RefreshScheduler) (now : Time)
      → pending_with reason lost s ≡ true
      → StepKeeps (due s now)
  due-Keeps s now p = elim (due-cases s now) [
    | inl q ↦ quiet (due s now) q.same q.silent
    | inr em ↦ subst StepKeeps (sym em.emits) (
        request-carries (aged s now) em.of_set now reason lost
          ((aged-IsUntouched s now).kept reason lost p))
  ]
    where
      quiet : (o : Outcome) → (o.0 ≡ s) ⊎ (o.0 ≡ aged s now) → o.1 ≡ none → StepKeeps o
      quiet (s', none) (inl e) n = subst (λ x. pending_with reason lost x ≡ true) (sym e) p
      quiet (s', none) (inr e) n =
          subst (λ x. pending_with reason lost x ≡ true) (sym e)
            ((aged-IsUntouched s now).kept reason lost p)
      quiet (s', some r) e n = absurd (cc n)

  step-Keeps :
      (s : RefreshScheduler) (call : SchedulerCall)
      → pending_with reason lost s ≡ true
      → StepKeeps (scheduler_step d s call)
  unfolding scheduler_step complete_refresh
  step-Keeps s (set_call now set) p = untouched-Keeps s _ (set-Keeps d s now set) p
  step-Keeps s (focus_call now focused local) p =
      untouched-Keeps s _ (focus-Keeps s now focused local) p
  step-Keeps s (hint_call now hint) p = untouched-Keeps s _ (submit-Keeps d s now hint) p
  step-Keeps s (due_call now) p = due-Keeps s now p
  step-Keeps s (complete_call now ticket) p =
      go (is_zero now || not s.active || ticket == 0 || not (ticket == s.active_ticket))
    where
      go : (t : Bool) → StepKeeps (or_same s (fail_if t refresh_not_active >> ok (completed s)))
      go true = p
      go false = p

  run_on :
      (calls : List SchedulerCall) (o : Outcome)
      → StepKeeps o
      → (pending_with reason lost o.0 ≡ true
          → IsKept reason lost (run_calls d o.0 calls).0 (run_calls d o.0 calls).1)
      → IsKept reason lost (emit o.1 (run_calls d o.0 calls).0) (run_calls d o.0 calls).1
  run_on calls (s', none) k rest = rest k
  run_on calls (s', some r) k rest = inl (rw k refl)

  pub run_calls-IsKept :
      (s : RefreshScheduler) (calls : List SchedulerCall)
      → pending_with reason lost s ≡ true
      → IsKept reason lost (run_calls d s calls).0 (run_calls d s calls).1
  unfolding run_calls
  run_calls-IsKept s [] p = inr p
  run_calls-IsKept s (call ∷ calls) p =
      run_on calls (scheduler_step d s call) (step-Keeps s call p)
        (run_calls-IsKept (scheduler_step d s call).0 calls)
