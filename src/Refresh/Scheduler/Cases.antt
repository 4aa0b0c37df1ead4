-- ===== src/Refresh/Scheduler/Cases.antt =====
-- What `Due` of internal/app/change_hints.go does.
use nudge.Base.{
  Bool, Bool-cases, Option, ap, arith, false, inl, inr, none, not, refl, some, true, ◌||◌, ◌∙◌, ◌≡◌,
  ◌⊎◌,
}
use nudge.Base.Time.{Time, is_zero}
use nudge.Refresh.Reasons.{non_zero}
use nudge.Refresh.Scheduler.{
  RefreshScheduler, age_due, aged, due, due_from, emitted, have_set, held, request,
}
use nudge.Refresh.WatchedSet.{WatchedSet}

-- Nothing is due; the age may be noted.
pub record IsQuiet (s : RefreshScheduler) (now : Time) : Type 0 where
  pub same : ((due s now).0 ≡ s) ⊎ ((due s now).0 ≡ aged s now)
  pub silent : (due s now).1 ≡ none

-- A request is emitted for all that is pending.
pub record IsEmitting (s : RefreshScheduler) (now : Time) : Type 0 where
  pub of_set : WatchedSet
  pub watched : s.set ≡ some of_set
  pub inactive : s.active ≡ false
  pub timed : is_zero now ≡ false
  pub pending : non_zero (aged s now).pending_bits ≡ true
  pub emits : due s now ≡ (emitted (aged s now) now, some (request (aged s now) of_set now))

pending_when :
    (by_age : Bool) (s : RefreshScheduler) (now : Time)
    → held by_age s now ≡ false
    → non_zero s.pending_bits ≡ true
pending_when by_age s now h = ground (arith, h)

due_from-cases :
    (s : RefreshScheduler) (now : Time) (o : Option WatchedSet)
    → s.set ≡ o
    → s.active ≡ false
    → is_zero now ≡ false
    → due s now ≡ due_from (age_due s now) (aged s now) now o
    → IsQuiet s now ⊎ IsEmitting s now
unfolding due_from
due_from-cases s now none w a t e =
    inl (record { same = inr (ap (λ o. o.0) e); silent = ap (λ o. o.1) e })
due_from-cases s now (some set) w a t e =
    elim (Bool-cases (held (age_due s now) (aged s now) now)) [
      | inl k ↦ inl (quiet (e ∙ rw k refl))
      | inr k ↦ inr (record {
        of_set = set;
        watched = w;
        inactive = a;
        timed = t;
        pending = pending_when (age_due s now) (aged s now) now k;
        emits = e ∙ rw k refl;
      })
    ]
  where
    quiet : due s now ≡ (aged s now, none) → IsQuiet s now
    quiet q = record { same = inr (ap (λ o. o.0) q); silent = ap (λ o. o.1) q }

pub due-cases : (s : RefreshScheduler) (now : Time) → IsQuiet s now ⊎ IsEmitting s now
unfolding due
due-cases s now = elim (Bool-cases (not (have_set s) || s.active || is_zero now)) [
  | inl k ↦
      inl (record { same = inl (ap (λ o. o.0) (stopped k)); silent = ap (λ o. o.1) (stopped k) })
  | inr k ↦ due_from-cases s now s.set refl (ground (arith, k)) (ground (arith, k)) (goes k)
]
  where
    stopped : (not (have_set s) || s.active || is_zero now) ≡ true → due s now ≡ (s, none)
    stopped k = rw k refl

    goes :
        (not (have_set s) || s.active || is_zero now) ≡ false
        → due s now ≡ due_from (age_due s now) (aged s now) now s.set
    goes k = rw k refl
