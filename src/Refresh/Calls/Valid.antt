-- ===== src/Refresh/Calls/Valid.antt =====
-- The state and the requests of the scheduler of internal/app/change_hints.go, after any calls.
use mathlib.Core.Path.{subst}
use nudge.Base.{
  Bool, List, Option, [], arith, false, if◌then◌else◌, inl, inr, is_nil, length, none, not, refl,
  some, suc, sym, true, zero, ℕ, ◌==◌, ◌||◌, ◌∷◌, ◌≡◌, ◌≤◌,
}
use nudge.Base.Bytes.{bytes_eq}
use nudge.Base.Result.{>>=-eq-ok, Result, err, fail_if->>-ok, fails, ok}
use nudge.Base.Time.{Time, is_zero}
use nudge.Refresh.Calls.{
  SchedulerCall, complete_call, due_call, focus_call, hint_call, or_same, scheduler_step, set_call,
}
use nudge.Refresh.Reasons.{
  Bits, RefreshError, RefreshReason, invalid_watch_hint, invalid_watched_set, maximum_age, non_zero,
  or_bits, reasons_of, refresh_not_active, refresh_reason_bit, watched_set_changed,
}
use nudge.Refresh.Scheduler.{
  RefreshScheduler, WatchHint, add_reason, age_due, aged, complete_refresh, completed, due, emitted,
  focused_as, have_set, install, note_age, set_focused, set_watched_set, submit_at, submit_hint,
  validate_hint,
}
use nudge.Refresh.Scheduler.Cases.{due-cases}
use nudge.Refresh.WatchedSet.{WatchedSet, validate_watched_set}
use nudge.Repo.Digest.{Digest}

-- The bits fit the reasons.
abbrev pub FitsBits : Bits → Type 0
FitsBits bits = length bits ≤ 15

length-or_bits :
    (width : ℕ) (a b : Bits) → length a ≤ width → length b ≤ width → length (or_bits a b) ≤ width
length-or_bits width [] b h k = k
length-or_bits width (x ∷ a) [] h k = h
length-or_bits zero (x ∷ a) (y ∷ b) h k = absurd (omega arith)
length-or_bits (suc width) (x ∷ a) (y ∷ b) h k =
    omega (arith, length-or_bits width a b (omega arith) (omega arith))

length-bit : (r : RefreshReason) → FitsBits (refresh_reason_bit r)
unfolding refresh_reason_bit
length-bit r = omega arith

-- Bits that fit give a reason.
pub reasons_of-some :
    (bits : Bits) (rs : List RefreshReason)
    → length bits ≤ length rs
    → non_zero bits ≡ true
    → is_nil (reasons_of bits rs) ≡ false
unfolding reasons_of
reasons_of-some [] rs h k = absurd (cc k)
reasons_of-some (b ∷ bits) [] h k = absurd (omega arith)
reasons_of-some (true ∷ bits) (r ∷ rs) h k = refl
reasons_of-some (false ∷ bits) (r ∷ rs) h k = reasons_of-some bits rs (omega arith) k

module _ (d : Digest) where
  abbrev pub IsValidSet : Option WatchedSet → Type 0
  IsValidSet none = Unit
  IsValidSet (some set) = validate_watched_set d set ≡ ok tt

  -- The set is valid, the bits are those of reasons, and the ticket is that of the last request
  -- while it is active.
  pub record IsScheduling (s : RefreshScheduler) : Type 0 where
    pub valid_set : IsValidSet s.set
    pub bits_fit : FitsBits s.pending_bits
    pub ticket : s.active ≡ true → s.active_ticket ≡ s.sequence

  either_way :
      (t : Bool) (s s' : RefreshScheduler)
      → IsScheduling s
      → IsScheduling s'
      → IsScheduling (if t then s else s')
  either_way true s s' i j = i
  either_way false s s' i j = j

  add-IsScheduling :
      (s : RefreshScheduler) (now : Time) (r : RefreshReason) (truth_lost : Bool)
      → IsScheduling s
      → IsScheduling (add_reason s now r truth_lost)
  unfolding add_reason
  add-IsScheduling s now r truth_lost i =
      either_way (not (non_zero (refresh_reason_bit r))) s _ i (record {
        valid_set = i.valid_set;
        bits_fit =
            length-or_bits 15 s.pending_bits (refresh_reason_bit r) i.bits_fit (length-bit r);
        ticket = i.ticket;
      })

  install-IsScheduling :
      (s : RefreshScheduler) (now : Time) (set : WatchedSet) (o : Option WatchedSet)
      → validate_watched_set d set ≡ ok tt
      → IsScheduling s
      → IsScheduling (install s now set o)
  install-IsScheduling s now set none v i = record {
    valid_set = v;
    bits_fit = i.bits_fit;
    ticket = i.ticket;
  }
  install-IsScheduling s now set (some old) v i =
      either_way (bytes_eq old.watched_set_id set.watched_set_id) s _ i (
        add-IsScheduling (record s { set = some set }) now watched_set_changed true
          (record { valid_set = v; bits_fit = i.bits_fit; ticket = i.ticket }))

  set-IsScheduling :
      (s : RefreshScheduler) (now : Time) (set : WatchedSet) {s' : RefreshScheduler}
      → IsScheduling s
      → set_watched_set d s now set ≡ ok s'
      → IsScheduling s'
  unfolding set_watched_set
  set-IsScheduling s now set i e =
      let (t, e1) = fail_if->>-ok (is_zero now) invalid_watched_set _ e in
      let (u, v, e2) =
        >>=-eq-ok (validate_watched_set d set) (λ _. ok (install s now set s.set)) e1 in
      subst IsScheduling (cc e2) (install-IsScheduling s now set s.set v i)

  submit_at-IsScheduling :
      (s : RefreshScheduler) (now : Time) (hint : WatchHint) (o : Option WatchedSet)
      {s' : RefreshScheduler}
      → IsScheduling s
      → submit_at d s now hint o ≡ ok s'
      → IsScheduling s'
  unfolding submit_at
  submit_at-IsScheduling s now hint none i e =
      let (s1, e1, e2) =
        >>=-eq-ok (set_watched_set d s now hint.watched_set)
          (λ s1. ok (add_reason s1 now hint.reason hint.truth_lost)) e in
      let e3 : add_reason s1 now hint.reason hint.truth_lost ≡ _ = cc e2 in
      subst IsScheduling e3 (
        add-IsScheduling s1 now hint.reason hint.truth_lost
          (set-IsScheduling s now hint.watched_set i e1))
  submit_at-IsScheduling s now hint (some set) i e =
      let same = bytes_eq set.watched_set_id hint.watched_set.watched_set_id in
      subst IsScheduling (which (not same) _ _ e) (
        either_way (not same) _ _ (add-IsScheduling s now watched_set_changed true i)
          (add-IsScheduling s now hint.reason hint.truth_lost i))
    where
      which :
          (t : Bool) (a b : RefreshScheduler) {c : RefreshScheduler}
          → ◌≡◌ {A = Result RefreshError RefreshScheduler} (if t then ok a else ok b) (ok c)
          → (if t then a else b) ≡ c
      which true a b h = cc h
      which false a b h = cc h

  submit-IsScheduling :
      (s : RefreshScheduler) (now : Time) (hint : WatchHint) {s' : RefreshScheduler}
      → IsScheduling s
      → submit_hint d s now hint ≡ ok s'
      → IsScheduling s'
  unfolding submit_hint
  submit-IsScheduling s now hint i e =
      let (t, e1) =
        fail_if->>-ok (is_zero now || fails (validate_hint d hint)) invalid_watch_hint
          (submit_at d s now hint s.set) e in
      submit_at-IsScheduling s now hint s.set i e1

  -- A call that only answers keeps what every accepted result keeps.
  or_same-IsScheduling :
      (s : RefreshScheduler) (r : Result RefreshError RefreshScheduler)
      → IsScheduling s
      → ((s' : RefreshScheduler) → r ≡ ok s' → IsScheduling s')
      → IsScheduling (or_same s r).0
  or_same-IsScheduling s (ok s') i h = h s' refl
  or_same-IsScheduling s (err e) i h = i

  pub aged-IsScheduling :
      (s : RefreshScheduler) (now : Time) → IsScheduling s → IsScheduling (aged s now)
  aged-IsScheduling s now i =
      either_way (age_due s now) (note_age s now) s
        (record {
          valid_set = i.valid_set;
          bits_fit =
              length-or_bits 15 s.pending_bits (refresh_reason_bit maximum_age) i.bits_fit
                (length-bit maximum_age);
          ticket = i.ticket;
        })
        i

  pub due-IsScheduling :
      (s : RefreshScheduler) (now : Time) → IsScheduling s → IsScheduling (due s now).0
  unfolding emitted
  due-IsScheduling s now i = elim (due-cases s now) [
    | inl q ↦ elim q.same [
      | inl e ↦ subst IsScheduling (sym e) i
      | inr e ↦ subst IsScheduling (sym e) (aged-IsScheduling s now i)
    ]
    | inr em ↦
        let j = aged-IsScheduling s now i in
        subst (λ o. IsScheduling o.0) (sym em.emits)
          (record { valid_set = j.valid_set; bits_fit = omega arith; ticket = λ _. refl })
  ]

  pub step-IsScheduling :
      (s : RefreshScheduler) (call : SchedulerCall)
      → IsScheduling s
      → IsScheduling (scheduler_step d s call).0
  unfolding scheduler_step set_focused complete_refresh
  step-IsScheduling s (set_call now set) i =
      or_same-IsScheduling s _ i (λ s' e. set-IsScheduling s now set i e)
  step-IsScheduling s (focus_call now focused local) i = or_same-IsScheduling s _ i λ s' e.
      let (t, e1) =
        fail_if->>-ok (is_zero now || not (have_set s)) invalid_watched_set
          (ok (focused_as s now focused local)) e in
      let e2 : focused_as s now focused local ≡ s' = cc e1 in
      subst IsScheduling e2
        (record { valid_set = i.valid_set; bits_fit = i.bits_fit; ticket = i.ticket })
  step-IsScheduling s (hint_call now hint) i =
      or_same-IsScheduling s _ i (λ s' e. submit-IsScheduling s now hint i e)
  step-IsScheduling s (due_call now) i = due-IsScheduling s now i
  step-IsScheduling s (complete_call now ticket) i = or_same-IsScheduling s _ i λ s' e.
      let (t, e1) =
        fail_if->>-ok
          (is_zero now || not s.active || ticket == 0 || not (ticket == s.active_ticket))
          refresh_not_active (ok (completed s)) e in
      let e2 : completed s ≡ s' = cc e1 in
      subst IsScheduling e2
        (record { valid_set = i.valid_set; bits_fit = i.bits_fit; ticket = λ k. cc k })
