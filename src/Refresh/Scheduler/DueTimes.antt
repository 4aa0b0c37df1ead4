-- ===== src/Refresh/Scheduler/DueTimes.antt =====
-- `NextDue` and `Due` of internal/app/change_hints.go agree on when a request is due.
use nudge.Base.{
  Bool, Option, [], ap, arith, false, if◌then◌else◌, is_some, none, not, refl, some, sym, true,
  ◌&&◌, ◌||◌, ◌∙◌, ◌∷◌, ◌≡◌,
}
use nudge.Base.Int.{+ℤ_parts, pos, ℤ, ◌+ℤ◌, ◌<ℤ◌, ◌≤ℤ◌}
use nudge.Base.Result.{fail_if-ok, ok}
use nudge.Base.Time.{Time, before, is_zero}
use nudge.Refresh.Reasons.{
  Bits, invalid_refresh_scheduler, maximum_age, non_zero, or_bits, reason_eq, refresh_reason_bit,
}
use nudge.Refresh.Scheduler.{
  RefreshRequest, RefreshScheduler, RefreshSchedulerConfig, age_at, age_due, aged, ages, due,
  due_from, have_set, held, hints_due, maximum_at, next_due, note_age, quiet_at, sooner,
  validate_scheduler_config,
}
use nudge.Refresh.WatchedSet.{WatchedSet}

-- The time is set, and has come.
abbrev pub has_come : Time → Time → Bool
has_come at now = not (is_zero at) && not (before now at)

-- The times of a scheduler are not before the zero time, and its delays are accepted.
pub record IsTimed (s : RefreshScheduler) : Type 0 where
  pub delays : validate_scheduler_config s.config ≡ ok tt
  pub first : pos 0 ≤ℤ s.first_hint_at
  pub last : pos 0 ≤ℤ s.last_hint_at
  pub refreshed : pos 0 ≤ℤ s.last_refresh_at

sooner_of : Bool → Time → Time → Time
sooner_of pending quiet maximum =
    if pending then (if before maximum quiet then maximum else quiet) else pos 0

hints-come :
    (pending : Bool) (now quiet maximum : Time)
    → pos 0 <ℤ quiet
    → pos 0 <ℤ maximum
    → has_come (sooner_of pending quiet maximum) now
      ≡ (pending && not (before now quiet && before now maximum))
unfolding sooner_of
hints-come true now quiet maximum q m = ground arith
hints-come false now quiet maximum q m = refl

sooner-come :
    (hints age now : Time)
    → pos 0 <ℤ age
    → has_come (sooner hints age) now ≡ (not (before now age) || has_come hints now)
sooner-come hints age now a = ground arith

positive-sum : (a b : ℤ) → pos 0 ≤ℤ a → pos 0 <ℤ b → pos 0 <ℤ (a +ℤ b)
positive-sum a b h k = omega (arith, +ℤ_parts a b, h, k)

-- A request is due by the hints.
abbrev pub hints_come : RefreshScheduler → Time → Bool
hints_come s now =
    non_zero s.pending_bits && not (before now (quiet_at s) && before now (maximum_at s))

-- The scheduler can emit.
abbrev pub can_emit : RefreshScheduler → Time → Bool
can_emit s now = not (not (have_set s) || s.active || is_zero now)

-- A time that is none when the scheduler cannot emit.
come_unless :
    (stopped : Bool) (at now : Time) {come : Bool}
    → has_come at now ≡ come
    → has_come (if stopped then pos 0 else at) now ≡ (not stopped && come)
come_unless true at now h = refl
come_unless false at now h = h

come_by_age :
    (aging : Bool) (hints age now : Time) {come : Bool}
    → pos 0 <ℤ age
    → has_come hints now ≡ come
    → has_come (if aging then sooner hints age else hints) now
      ≡ (aging && not (before now age) || come)
come_by_age true hints age now a h =
    sooner-come hints age now a ∙ ap (λ c. not (before now age) || c) h
come_by_age false hints age now a h = h

-- Accepted delays are positive.
delays-positive :
    (c : RefreshSchedulerConfig)
    → validate_scheduler_config c ≡ ok tt
    → (pos 0 <ℤ c.quiet_delay) × (pos 0 <ℤ c.maximum_delay) × (pos 0 <ℤ c.focused_maximum_age)
unfolding validate_scheduler_config
delays-positive c h =
    let k = fail_if-ok _ invalid_refresh_scheduler h in
    (ground (arith, k), ground (arith, k), ground (arith, k))

next_due-comes :
    (s : RefreshScheduler) (now : Time)
    → IsTimed s
    → has_come (next_due s now) now ≡ (can_emit s now && (age_due s now || hints_come s now))
unfolding next_due sooner_of
next_due-comes s now t =
    let (q, m, a) = delays-positive s.config t.delays in
    come_unless (not (have_set s) || s.active || is_zero now) _ now (
      come_by_age (ages s) (hints_due s) (age_at s) now
        (positive-sum s.last_refresh_at s.config.focused_maximum_age t.refreshed a)
        (hints-come (non_zero s.pending_bits) now (quiet_at s) (maximum_at s)
          (positive-sum s.last_hint_at s.config.quiet_delay t.last q)
          (positive-sum s.first_hint_at s.config.maximum_delay t.first m)))

non_zero-or : (a b : Bits) → non_zero b ≡ true → non_zero (or_bits a b) ≡ true
non_zero-or [] b h = h
non_zero-or (x ∷ a) [] h = absurd (cc h)
non_zero-or (x ∷ a) (y ∷ b) h = ground (arith, non_zero-or a b)

maximum_age-bit : non_zero (refresh_reason_bit maximum_age) ≡ true
unfolding refresh_reason_bit reason_eq
maximum_age-bit = refl

aged-held :
    (s : RefreshScheduler) (now : Time)
    → not (held (age_due s now) (aged s now) now) ≡ (age_due s now || hints_come s now)
aged-held s now = go (age_due s now)
  where
    go : (t : Bool) → not (held t (if t then note_age s now else s) now) ≡ (t || hints_come s now)
    go true = rw (non_zero-or s.pending_bits (refresh_reason_bit maximum_age) maximum_age-bit) refl
    go false = ground arith

due_from-some :
    (by_age : Bool) (s : RefreshScheduler) (now : Time) (set : WatchedSet)
    → is_some (due_from by_age s now (some set)).1 ≡ not (held by_age s now)
unfolding due_from
due_from-some by_age s now set = ground arith

-- What is emitted, unless the scheduler cannot emit.
some_unless :
    (stopped : Bool) (s : RefreshScheduler) (o : RefreshScheduler × Option RefreshRequest)
    {come : Bool}
    → (stopped ≡ false → is_some o.1 ≡ come)
    → is_some (if stopped then (s, none) else o).1 ≡ (not stopped && come)
some_unless true s o h = refl
some_unless false s o h = h refl

due-comes :
    (s : RefreshScheduler) (now : Time)
    → is_some (due s now).1 ≡ (can_emit s now && (age_due s now || hints_come s now))
unfolding due
due-comes s now =
    some_unless (not (have_set s) || s.active || is_zero now) s _
      (λ k. go s.set (ground (arith, k)))
  where
    go :
        (o : Option WatchedSet)
        → is_some o ≡ true
        → is_some (due_from (age_due s now) (aged s now) now o).1
          ≡ (age_due s now || hints_come s now)
    go none h = absurd (cc h)
    go (some set) h = due_from-some (age_due s now) (aged s now) now set ∙ aged-held s now

-- For a scheduler with accepted delays and no time before the zero time, `Due` emits a request
-- exactly when the time that `NextDue` names, which is not the zero time, has come.
pub due-next_due :
    (s : RefreshScheduler) (now : Time)
    → IsTimed s
    → is_some (due s now).1 ≡ has_come (next_due s now) now
due-next_due s now t = due-comes s now ∙ sym (next_due-comes s now t)
