-- ===== src/Refresh/Calls/Requests.antt =====
-- The requests that the scheduler of internal/app/change_hints.go emits in the course of any calls.
use mathlib.Core.Path.{subst}
use nudge.Base.{
  Bool, List, [], ap, arith, false, if◌then◌else◌, inl, inr, length, none, not, refl, some, sym,
  true, ℕ, ◌+◌, ◌<◌, ◌==◌, ◌^◌, ◌||◌, ◌∙◌, ◌∷◌, ◌≡◌, ◌≤◌, ◌⊎◌,
}
use nudge.Base.Result.{Result, err, fail_if, ok, ◌>>◌}
use nudge.Base.Time.{Time, before, is_zero}
use nudge.Refresh.Calls.{
  Outcome, SchedulerCall, complete_call, due_call, emit, focus_call, hint_call, or_same, run_calls,
  scheduler_step, set_call,
}
use nudge.Refresh.Calls.Untouched.{
  IsUntouched, Keeps, aged-IsUntouched, focus-Keeps, pending_with, set-Keeps, submit-Keeps,
}
use nudge.Refresh.Calls.Valid.{
  IsScheduling, IsValidSet, aged-IsScheduling, reasons_of-some, step-IsScheduling,
}
use nudge.Refresh.Reasons.{
  RefreshError, non_zero, reasons_from_bits, refresh_not_active, refresh_reason_order,
}
use nudge.Refresh.Reasons.Ordered.{reasons_from_bits-accepted}
use nudge.Refresh.Scheduler.{
  RefreshRequest, RefreshScheduler, aged, complete_refresh, completed, due, emitted, next_sequence,
  request, validate_request,
}
use nudge.Refresh.Scheduler.Cases.{due-cases}
use nudge.Refresh.WatchedSet.{WatchedSet, validate_watched_set}
use nudge.Repo.Digest.{Digest}

-- The requests that a scheduler may emit before one is completed.
abbrev pub room : RefreshScheduler → ℕ
room s = if s.active then 0 else 1

abbrev pub completions : List SchedulerCall → ℕ
completions [] = 0
completions (complete_call now ticket ∷ calls) = 1 + completions calls
completions (set_call now set ∷ calls) = completions calls
completions (focus_call now focused local ∷ calls) = completions calls
completions (hint_call now hint ∷ calls) = completions calls
completions (due_call now ∷ calls) = completions calls

-- There are numbers left for the requests that may be emitted before, and with, some completions.
abbrev pub HasNumbers : RefreshScheduler → ℕ → Type 0
HasNumbers s n = s.sequence + (n + room s) < 2 ^ 64

completions-cons :
    (call : SchedulerCall) (calls : List SchedulerCall)
    → completions (call ∷ calls) ≡ completions (call ∷ []) + completions calls
completions-cons (complete_call now ticket) calls = omega arith
completions-cons (set_call now set) calls = omega arith
completions-cons (focus_call now focused local) calls = omega arith
completions-cons (hint_call now hint) calls = omega arith
completions-cons (due_call now) calls = omega arith

module _ (d : Digest) where
  -- A request is valid and is numbered behind the one before.
  pub record IsNext (before_number : ℕ) (r : RefreshRequest) : Type 0 where
    pub accepted : validate_request d r ≡ ok tt
    pub numbered : r.sequence ≡ before_number + 1

  request-accepted :
      (s : RefreshScheduler) (set : WatchedSet) (now : Time)
      → IsScheduling d s
      → validate_watched_set d set ≡ ok tt
      → is_zero now ≡ false
      → non_zero s.pending_bits ≡ true
      → s.sequence + 1 < 2 ^ 64
      → IsNext s.sequence (request s set now)
  unfolding request validate_request reasons_from_bits
  request-accepted s set now i v t p b =
      let some_reason = reasons_of-some s.pending_bits refresh_reason_order i.bits_fit p in
      let ordered = reasons_from_bits-accepted s.pending_bits in
      let number : next_sequence s.sequence ≡ s.sequence + 1 = omega arith in
      let nonzero : (next_sequence s.sequence == 0) ≡ false = ground (arith, number) in
      record { accepted = ground (arith, some_reason, ordered, v, t, nonzero); numbered = number }

  -- What a call emits: nothing, or the next request of an idle scheduler, which is active then.
  abbrev Emits : SchedulerCall → RefreshScheduler → Outcome → Type 0
  Emits call s (s', none) =
      (s'.sequence ≡ s.sequence) × (room s' ≤ room s + completions (call ∷ []))
  Emits call s (s', some r) =
      IsNext s.sequence r × (room s ≡ 1) × (room s' ≡ 0) × (s'.sequence ≡ r.sequence)

  silent-Emits :
      (call : SchedulerCall) (s s' : RefreshScheduler) → IsUntouched s s' → Emits call s (s', none)
  silent-Emits call s s' h = (h.same_sequence, ground (arith, h.same_active))

  or_same-Emits :
      (call : SchedulerCall) (s : RefreshScheduler) (r : Result RefreshError RefreshScheduler)
      → Keeps s r
      → Emits call s (or_same s r)
  or_same-Emits call s (ok s') h = silent-Emits call s s' h
  or_same-Emits call s (err e) h = (refl, omega arith)

  one_number :
      (s s' : RefreshScheduler)
      → s.active ≡ false
      → s'.sequence ≡ s.sequence
      → HasNumbers s 0
      → s'.sequence + 1 < 2 ^ 64
  one_number s s' e q b = let r : room s ≡ 1 = rw e refl in omega (arith, q, b, r)

  due-Emits :
      (s : RefreshScheduler) (now : Time)
      → IsScheduling d s
      → HasNumbers s 0
      → Emits (due_call now) s (due s now)
  unfolding emitted request
  due-Emits s now i b = elim (due-cases s now) [
    | inl q ↦ quiet (due s now) q.same q.silent
    | inr em ↦
        let a = aged-IsUntouched s now in
        let j = aged-IsScheduling d s now i in
        let next =
          request-accepted (aged s now) em.of_set now j
            (subst (IsValidSet d) em.watched i.valid_set) em.timed em.pending
            (one_number s (aged s now) em.inactive a.same_sequence b) in
        subst (Emits (due_call now) s) (sym em.emits) (
          record {
            accepted = next.accepted;
            numbered = next.numbered ∙ ap (λ n. n + 1) a.same_sequence;
          },
          ground (arith, em.inactive),
          refl,
          refl,
        )
  ]
    where
      quiet : (o : Outcome) → (o.0 ≡ s) ⊎ (o.0 ≡ aged s now) → o.1 ≡ none → Emits (due_call now) s o
      quiet (s', none) (inl e) n = silent-Emits (due_call now) s s' (record {
        same_sequence = ap (λ x. x.sequence) e;
        same_active = ap (λ x. x.active) e;
        kept = λ r lost p. subst (λ x. pending_with r lost x ≡ true) (sym e) p;
      })
      quiet (s', none) (inr e) n =
          silent-Emits (due_call now) s s' (subst (IsUntouched s) (sym e) (aged-IsUntouched s now))
      quiet (s', some r) e n = absurd (cc n)

  step-Emits :
      (s : RefreshScheduler) (call : SchedulerCall)
      → IsScheduling d s
      → HasNumbers s 0
      → Emits call s (scheduler_step d s call)
  unfolding scheduler_step complete_refresh
  step-Emits s (set_call now set) i b = or_same-Emits (set_call now set) s _ (set-Keeps d s now set)
  step-Emits s (focus_call now focused local) i b =
      or_same-Emits (focus_call now focused local) s _ (focus-Keeps s now focused local)
  step-Emits s (hint_call now hint) i b =
      or_same-Emits (hint_call now hint) s _ (submit-Keeps d s now hint)
  step-Emits s (due_call now) i b = due-Emits s now i b
  step-Emits s (complete_call now ticket) i b =
      go (is_zero now || not s.active || ticket == 0 || not (ticket == s.active_ticket))
    where
      go :
          (t : Bool)
          → Emits
              (complete_call now ticket)
              s
              (or_same s (fail_if t refresh_not_active >> ok (completed s)))
      go true = (refl, omega arith)
      go false = (refl, omega arith)

  -- The requests are valid and numbered one after the other.
  abbrev pub AreNumbered : ℕ → List RefreshRequest → Type 0
  AreNumbered n [] = Unit
  AreNumbered n (r ∷ rs) = IsNext n r × AreNumbered r.sequence rs

  abbrev Runs : ℕ → ℕ → List RefreshRequest × RefreshScheduler → Type 0
  Runs n bound (rs, last) = AreNumbered n rs × (length rs ≤ bound) × IsScheduling d last

  run_on :
      (call : SchedulerCall) (calls : List SchedulerCall) (s : RefreshScheduler) (o : Outcome)
      → Emits call s o
      → IsScheduling d o.0
      → HasNumbers s (completions (call ∷ calls))
      → (IsScheduling d o.0
          → HasNumbers o.0 (completions calls)
          → Runs o.0.sequence (completions calls + room o.0) (run_calls d o.0 calls))
      → Runs s.sequence
          (completions (call ∷ calls) + room s)
          (emit o.1 (run_calls d o.0 calls).0, (run_calls d o.0 calls).1)
  run_on call calls s (s', none) e i b rest =
      let count = completions-cons call calls in
      let (numbered, bound, last) = rest i (omega (arith, e.0, e.1, b, count)) in
      (
        subst (λ n. AreNumbered n (run_calls d s' calls).0) e.0 numbered,
        omega (arith, bound, e.1, count),
        last,
      )
  run_on call calls s (s', some r) e i b rest =
      let (next, before, after, same) = e in
      let count = completions-cons call calls in
      let number = next.numbered in
      let (numbered, bound, last) = rest i (omega (arith, number, before, after, same, b, count)) in
      (
        (next, subst (λ n. AreNumbered n (run_calls d s' calls).0) same numbered),
        omega (arith, bound, before, after, count),
        last,
      )

  -- From a scheduler with a valid set, bits of reasons only, and the number of the last request as
  -- its ticket while it is active, with a number below 2^64 left for each call to `Complete` among
  -- the calls and for one request more when it is idle, any calls emit requests that `Validate`
  -- accepts, numbered one after the other; at most one more than the calls to `Complete` among
  -- them when the scheduler is idle, and no more than these when it is active. The scheduler at
  -- their end is again such a scheduler.
  pub run_calls-AreNumbered :
      (s : RefreshScheduler) (calls : List SchedulerCall)
      → IsScheduling d s
      → HasNumbers s (completions calls)
      → AreNumbered s.sequence (run_calls d s calls).0
        × (length (run_calls d s calls).0 ≤ completions calls + room s)
        × IsScheduling d (run_calls d s calls).1
  unfolding run_calls
  run_calls-AreNumbered s [] i b = (tt, omega arith, i)
  run_calls-AreNumbered s (call ∷ calls) i b =
      run_on call calls s (scheduler_step d s call) (step-Emits s call i (omega (arith, b)))
        (step-IsScheduling d s call i) b (run_calls-AreNumbered (scheduler_step d s call).0 calls)
