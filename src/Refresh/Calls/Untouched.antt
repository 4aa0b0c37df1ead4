-- ===== src/Refresh/Calls/Untouched.antt =====
-- What only `Due` and `Complete` of internal/app/change_hints.go change.
use nudge.Base.{
  Bool, Option, [], arith, false, if◌then◌else◌, none, not, refl, some, true, ◌&&◌, ◌||◌, ◌∙◌, ◌∷◌,
  ◌≡◌,
}
use nudge.Base.Bytes.{bytes_eq}
use nudge.Base.Result.{Result, err, fail_if, fails, ok, ◌>>=◌, ◌>>◌}
use nudge.Base.Time.{Time, is_zero}
use nudge.Refresh.Calls.{or_same}
use nudge.Refresh.Reasons.{
  Bits, RefreshError, RefreshReason, invalid_watch_hint, invalid_watched_set, maximum_age, non_zero,
  or_bits, refresh_reason_bit, watched_set_changed,
}
use nudge.Refresh.Scheduler.{
  RefreshScheduler, WatchHint, add_reason, age_due, aged, have_set, install, note_age, set_focused,
  set_watched_set, submit_at, submit_hint, validate_hint,
}
use nudge.Refresh.WatchedSet.{WatchedSet, validate_watched_set}
use nudge.Repo.Digest.{Digest}

abbrev pub and_bits : Bits → Bits → Bits
and_bits [] ys = []
and_bits (x ∷ xs) [] = []
and_bits (x ∷ xs) (y ∷ ys) = (x && y) ∷ and_bits xs ys

-- A reason is pending, and with it the loss of truth where it was lost.
abbrev pub pending_bits_with : RefreshReason → Bool → Bits → Bool → Bool
pending_bits_with reason lost bits truth_lost =
    non_zero (and_bits (refresh_reason_bit reason) bits) && (not lost || truth_lost)

abbrev pub pending_with : RefreshReason → Bool → RefreshScheduler → Bool
pending_with reason lost s = pending_bits_with reason lost s.pending_bits s.pending_truth_lost

-- The last number, and whether a request is active, are as before; what was pending is pending.
pub record IsUntouched (s s' : RefreshScheduler) : Type 0 where
  pub same_sequence : s'.sequence ≡ s.sequence
  pub same_active : s'.active ≡ s.active
  pub kept :
      (reason : RefreshReason) (lost : Bool)
      → pending_with reason lost s ≡ true
      → pending_with reason lost s' ≡ true

and_bits-or_bits :
    (x a b : Bits) → non_zero (and_bits x a) ≡ true → non_zero (and_bits x (or_bits a b)) ≡ true
and_bits-or_bits [] a b h = h
and_bits-or_bits (c ∷ x) [] b h = absurd (cc h)
and_bits-or_bits (c ∷ x) (y ∷ a) [] h = h
and_bits-or_bits (c ∷ x) (y ∷ a) (z ∷ b) h = ground (arith, and_bits-or_bits x a b)

-- More bits and more losses of truth keep what is pending.
pub pending-or_bits :
    (reason : RefreshReason) (lost : Bool) (a b : Bits) (t u : Bool)
    → pending_bits_with reason lost a t ≡ true
    → pending_bits_with reason lost (or_bits a b) (t || u) ≡ true
pending-or_bits reason lost a b t u h =
    ground (arith, and_bits-or_bits (refresh_reason_bit reason) a b)

untouched : (s : RefreshScheduler) → IsUntouched s s
untouched s = record { same_sequence = refl; same_active = refl; kept = λ reason lost p. p }

one_of :
    (t : Bool) (s a b : RefreshScheduler)
    → IsUntouched s a
    → IsUntouched s b
    → IsUntouched s (if t then a else b)
one_of true s a b h k = h
one_of false s a b h k = k

pub add-IsUntouched :
    (s : RefreshScheduler) (now : Time) (r : RefreshReason) (truth_lost : Bool)
    → IsUntouched s (add_reason s now r truth_lost)
unfolding add_reason
add-IsUntouched s now r truth_lost =
    one_of (not (non_zero (refresh_reason_bit r))) s s _ (untouched s) (record {
      same_sequence = refl;
      same_active = refl;
      kept = λ reason lost.
          pending-or_bits reason lost s.pending_bits (refresh_reason_bit r) s.pending_truth_lost
            truth_lost;
    })

pub aged-IsUntouched : (s : RefreshScheduler) (now : Time) → IsUntouched s (aged s now)
aged-IsUntouched s now =
    one_of (age_due s now) s (note_age s now) s
      (record { same_sequence = refl; same_active = refl; kept = more_bits }) (untouched s)
  where
    more_bits :
        (reason : RefreshReason) (lost : Bool)
        → pending_with reason lost s ≡ true
        → pending_with reason lost (note_age s now) ≡ true
    more_bits reason lost p = ground (
      arith,
      and_bits-or_bits (refresh_reason_bit reason) s.pending_bits (refresh_reason_bit maximum_age),
      p,
    )

install-IsUntouched :
    (s : RefreshScheduler) (now : Time) (set : WatchedSet) (o : Option WatchedSet)
    → IsUntouched s (install s now set o)
install-IsUntouched s now set none = record {
  same_sequence = refl;
  same_active = refl;
  kept = λ reason lost p. p;
}
install-IsUntouched s now set (some old) =
    let h = add-IsUntouched (record s { set = some set }) now watched_set_changed true in
    one_of (bytes_eq old.watched_set_id set.watched_set_id) s s _ (untouched s)
      (record { same_sequence = h.same_sequence; same_active = h.same_active; kept = h.kept })

-- An accepted result is as its scheduler was.
abbrev pub Keeps : RefreshScheduler → Result RefreshError RefreshScheduler → Type 0
Keeps s (ok s') = IsUntouched s s'
Keeps s (err e) = Unit

Keeps-guard :
    (t : Bool) (e : RefreshError) (s : RefreshScheduler) (r : Result RefreshError RefreshScheduler)
    → Keeps s r
    → Keeps s (fail_if t e >> r)
Keeps-guard true e s r h = tt
Keeps-guard false e s r h = h

pub or_same-IsUntouched :
    (s : RefreshScheduler) (r : Result RefreshError RefreshScheduler)
    → Keeps s r
    → IsUntouched s (or_same s r).0
or_same-IsUntouched s (ok s') h = h
or_same-IsUntouched s (err e) h = untouched s

module _ (d : Digest) where
  Keeps-check :
      (r : Result RefreshError (Unit {0})) (s s' : RefreshScheduler)
      → IsUntouched s s'
      → Keeps s (r >> ok s')
  Keeps-check (ok u) s s' h = h
  Keeps-check (err e) s s' h = tt

  pub set-Keeps :
      (s : RefreshScheduler) (now : Time) (set : WatchedSet) → Keeps s (set_watched_set d s now set)
  unfolding set_watched_set
  set-Keeps s now set = Keeps-guard (is_zero now) invalid_watched_set s _ (
      Keeps-check (validate_watched_set d set) s (install s now set s.set)
        (install-IsUntouched s now set s.set))

  Keeps-add :
      (s : RefreshScheduler) (r : Result RefreshError RefreshScheduler) (now : Time)
      (reason : RefreshReason) (truth_lost : Bool)
      → Keeps s r
      → Keeps s (r >>= λ s'. ok (add_reason s' now reason truth_lost))
  Keeps-add s (ok s') now reason truth_lost h =
      let k = add-IsUntouched s' now reason truth_lost in
      record {
        same_sequence = k.same_sequence ∙ h.same_sequence;
        same_active = k.same_active ∙ h.same_active;
        kept = λ r lost p. k.kept r lost (h.kept r lost p);
      }
  Keeps-add s (err e) now reason truth_lost h = tt

  one_result :
      (t : Bool) (s : RefreshScheduler) (a b : Result RefreshError RefreshScheduler)
      → Keeps s a
      → Keeps s b
      → Keeps s (if t then a else b)
  one_result true s a b h k = h
  one_result false s a b h k = k

  submit_at-Keeps :
      (s : RefreshScheduler) (now : Time) (hint : WatchHint) (o : Option WatchedSet)
      → Keeps s (submit_at d s now hint o)
  unfolding submit_at
  submit_at-Keeps s now hint none =
      Keeps-add s (set_watched_set d s now hint.watched_set) now hint.reason hint.truth_lost
        (set-Keeps s now hint.watched_set)
  submit_at-Keeps s now hint (some set) =
      one_result (not (bytes_eq set.watched_set_id hint.watched_set.watched_set_id)) s _ _
        (add-IsUntouched s now watched_set_changed true)
        (add-IsUntouched s now hint.reason hint.truth_lost)

  pub submit-Keeps :
      (s : RefreshScheduler) (now : Time) (hint : WatchHint) → Keeps s (submit_hint d s now hint)
  unfolding submit_hint
  submit-Keeps s now hint =
      Keeps-guard (is_zero now || fails (validate_hint d hint)) invalid_watch_hint s _
        (submit_at-Keeps s now hint s.set)

pub focus-Keeps :
    (s : RefreshScheduler) (now : Time) (focused local : Bool)
    → Keeps s (set_focused s now focused local)
unfolding set_focused
focus-Keeps s now focused local =
    Keeps-guard (is_zero now || not (have_set s)) invalid_watched_set s _
      (record { same_sequence = refl; same_active = refl; kept = λ reason lost p. p })
