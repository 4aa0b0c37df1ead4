-- ===== src/Refresh/Scheduler.antt =====
-- internal/app/change_hints.go: `RefreshScheduler`, which merges hints and emits one request at a
-- time. A `time.Duration` is the signed number of nanoseconds that a time moves by.
pub mod Cases
pub mod DueTimes
use nudge.Base.{
  Bool, List, Option, [], false, if◌then◌else◌, is_nil, is_some, none, not, some, true, ℕ, ◌%◌,
  ◌&&◌, ◌+◌, ◌==◌, ◌^◌, ◌||◌,
}
use nudge.Base.Bytes.{bytes_eq}
use nudge.Base.Int.{eqb_ℤ, leb_ℤ, ltb_ℤ, pos, ℤ, ◌+ℤ◌}
use nudge.Base.Result.{Result, fail_if, fails, ok, ◌>>=◌, ◌>>◌}
use nudge.Base.Time.{Time, before, is_zero}
use nudge.Refresh.Reasons.{
  Bits, RefreshError, RefreshReason, bits_eq, invalid_refresh_request, invalid_refresh_scheduler,
  invalid_watch_hint, invalid_watched_set, maximum_age, non_zero, or_bits, reasons_accepted,
  reasons_from_bits, refresh_not_active, refresh_reason_bit, valid_refresh_reason,
  watched_set_changed,
}
use nudge.Refresh.WatchedSet.{WatchedSet, validate_watched_set}
use nudge.Repo.Digest.{Digest}

-- `WatchHint`.
pub record WatchHint : Type 0 where
  pub watched_set : WatchedSet
  pub reason : RefreshReason
  pub truth_lost : Bool

pub record RefreshRequest : Type 0 where
  pub watched_set : WatchedSet
  pub reasons : List RefreshReason
  pub truth_lost : Bool
  pub requested_at : Time
  pub sequence : ℕ

pub record RefreshSchedulerConfig : Type 0 where
  pub quiet_delay : ℤ
  pub maximum_delay : ℤ
  pub focused_maximum_age : ℤ

-- `haveSet` is that `set` is present; `sequence` and `active_ticket` are below 2 ^ 64.
pub record RefreshScheduler : Type 0 where
  pub config : RefreshSchedulerConfig
  pub set : Option WatchedSet
  pub focused : Bool
  pub local_session : Bool
  pub pending_bits : Bits
  pub pending_truth_lost : Bool
  pub first_hint_at : Time
  pub last_hint_at : Time
  pub last_refresh_at : Time
  pub active : Bool
  pub active_ticket : ℕ
  pub sequence : ℕ

-- `DefaultRefreshSchedulerConfig`.
abbrev pub default_refresh_scheduler_config : RefreshSchedulerConfig
default_refresh_scheduler_config = record {
  quiet_delay = pos 200_000_000;
  maximum_delay = pos 2_000_000_000;
  focused_maximum_age = pos 30_000_000_000;
}

-- `RefreshSchedulerConfig.validate`.
unfoldable pub validate_scheduler_config : RefreshSchedulerConfig → Result RefreshError (Unit {0})
validate_scheduler_config c =
    fail_if
      (leb_ℤ c.quiet_delay (pos 0)
        || ltb_ℤ c.maximum_delay c.quiet_delay
        || leb_ℤ c.focused_maximum_age (pos 0)
        || ltb_ℤ (pos 30_000_000_000) c.focused_maximum_age)
      invalid_refresh_scheduler

abbrev pub unset_config : RefreshSchedulerConfig → Bool
unset_config c =
    eqb_ℤ c.quiet_delay (pos 0)
    && eqb_ℤ c.maximum_delay (pos 0)
    && eqb_ℤ c.focused_maximum_age (pos 0)

abbrev pub idle_scheduler : RefreshSchedulerConfig → RefreshScheduler
idle_scheduler config = record {
  config = config;
  set = none;
  focused = false;
  local_session = false;
  pending_bits = [];
  pending_truth_lost = false;
  first_hint_at = pos 0;
  last_hint_at = pos 0;
  last_refresh_at = pos 0;
  active = false;
  active_ticket = 0;
  sequence = 0;
}

-- `NewRefreshScheduler`.
unfoldable pub new_refresh_scheduler : RefreshSchedulerConfig → Result RefreshError RefreshScheduler
new_refresh_scheduler c =
    let config = if unset_config c then default_refresh_scheduler_config else c in
    validate_scheduler_config config >> ok (idle_scheduler config)

-- The scheduler with a reason, noted now.
abbrev pub with_reason : RefreshScheduler → Time → RefreshReason → Bool → RefreshScheduler
with_reason s now reason truth_lost = record s {
  first_hint_at = if non_zero s.pending_bits then s.first_hint_at else now;
  last_hint_at = now;
  pending_bits = or_bits s.pending_bits (refresh_reason_bit reason);
  pending_truth_lost = s.pending_truth_lost || truth_lost;
}

-- `add`.
unfoldable pub add_reason : RefreshScheduler → Time → RefreshReason → Bool → RefreshScheduler
add_reason s now reason truth_lost =
    if not (non_zero (refresh_reason_bit reason)) then s else with_reason s now reason truth_lost

-- The times at which a request is due.
abbrev pub quiet_at : RefreshScheduler → Time
quiet_at s = s.last_hint_at +ℤ s.config.quiet_delay

abbrev pub maximum_at : RefreshScheduler → Time
maximum_at s = s.first_hint_at +ℤ s.config.maximum_delay

abbrev pub age_at : RefreshScheduler → Time
age_at s = s.last_refresh_at +ℤ s.config.focused_maximum_age

abbrev pub ages : RefreshScheduler → Bool
ages s = s.focused && s.local_session

abbrev pub have_set : RefreshScheduler → Bool
have_set s = is_some s.set

abbrev pub hints_due : RefreshScheduler → Time
hints_due s =
    if non_zero s.pending_bits
    then (if before (maximum_at s) (quiet_at s) then maximum_at s else quiet_at s)
    else pos 0

abbrev pub sooner : Time → Time → Time
sooner due age_due = if is_zero due || before age_due due then age_due else due

-- `NextDue`; the zero time is that nothing is due.
unfoldable pub next_due : RefreshScheduler → Time → Time
next_due s now =
    if not (have_set s) || s.active || is_zero now
    then pos 0
    else if ages s
    then sooner (hints_due s) (age_at s)
    else hints_due s

-- The age is due.
abbrev pub age_due : RefreshScheduler → Time → Bool
age_due s now = ages s && not (before now (age_at s))

-- `Due` notes the reason of the age.
abbrev pub note_age : RefreshScheduler → Time → RefreshScheduler
note_age s now =
    let bits = or_bits s.pending_bits (refresh_reason_bit maximum_age) in
    record s {
      pending_bits = bits;
      first_hint_at =
          if bits_eq bits (refresh_reason_bit maximum_age) then now else s.first_hint_at;
      last_hint_at = now;
    }

abbrev pub aged : RefreshScheduler → Time → RefreshScheduler
aged s now = if age_due s now then note_age s now else s

-- `s.sequence++`.
abbrev pub next_sequence : ℕ → ℕ
next_sequence n = (n + 1) % 2 ^ 64

-- The request for what is pending, and the scheduler after it.
unfoldable pub request : RefreshScheduler → WatchedSet → Time → RefreshRequest
request s set now = record {
  watched_set = set;
  reasons = reasons_from_bits s.pending_bits;
  truth_lost = s.pending_truth_lost;
  requested_at = now;
  sequence = next_sequence s.sequence;
}

unfoldable pub emitted : RefreshScheduler → Time → RefreshScheduler
emitted s now = record s {
  sequence = next_sequence s.sequence;
  active_ticket = next_sequence s.sequence;
  active = true;
  last_refresh_at = now;
  pending_bits = [];
  pending_truth_lost = false;
  first_hint_at = pos 0;
  last_hint_at = pos 0;
}

-- Nothing is pending, or neither the age nor a delay has passed.
abbrev pub held : Bool → RefreshScheduler → Time → Bool
held by_age s now =
    not (non_zero s.pending_bits)
    || not by_age && before now (quiet_at s) && before now (maximum_at s)

-- `Due` after the age, for the scheduler's set.
unfoldable pub due_from :
    Bool → RefreshScheduler → Time → Option WatchedSet → RefreshScheduler × Option RefreshRequest
due_from by_age s now none = (s, none)
due_from by_age s now (some set) =
    if not (non_zero s.pending_bits)
      || not by_age && before now (quiet_at s) && before now (maximum_at s)
    then (s, none)
    else (emitted s now, some (request s set now))

-- `Due`; the ticket is the sequence number of the request.
unfoldable pub due : RefreshScheduler → Time → RefreshScheduler × Option RefreshRequest
due s now =
    if not (have_set s) || s.active || is_zero now
    then (s, none)
    else due_from (age_due s now) (aged s now) now s.set

abbrev pub completed : RefreshScheduler → RefreshScheduler
completed s = record s { active = false; active_ticket = 0 }

-- `Complete`.
unfoldable pub complete_refresh : RefreshScheduler → Time → ℕ → Result RefreshError RefreshScheduler
complete_refresh s now ticket =
    fail_if (is_zero now || not s.active || ticket == 0 || not (ticket == s.active_ticket))
      refresh_not_active
    >> ok (completed s)

abbrev pub focused_as : RefreshScheduler → Time → Bool → Bool → RefreshScheduler
focused_as s now focused local_session = record s {
  focused = focused;
  local_session = local_session;
  last_refresh_at =
      if focused && local_session && is_zero s.last_refresh_at then now else s.last_refresh_at;
}

-- `SetFocused`.
unfoldable pub set_focused :
    RefreshScheduler → Time → Bool → Bool → Result RefreshError RefreshScheduler
set_focused s now focused local_session =
    fail_if (is_zero now || not (have_set s)) invalid_watched_set
    >> ok (focused_as s now focused local_session)

-- The install of a valid set.
abbrev pub install : RefreshScheduler → Time → WatchedSet → Option WatchedSet → RefreshScheduler
install s now set none = record s { set = some set; last_refresh_at = now }
install s now set (some old) =
    if bytes_eq old.watched_set_id set.watched_set_id
    then s
    else add_reason (record s { set = some set }) now watched_set_changed true

module _ (d : Digest) where
  -- `WatchHint.Validate` and `RefreshRequest.Validate`.
  unfoldable pub validate_hint : WatchHint → Result RefreshError (Unit {0})
  validate_hint h =
      fail_if (fails (validate_watched_set d h.watched_set) || not (valid_refresh_reason h.reason))
        invalid_watch_hint

  unfoldable pub validate_request : RefreshRequest → Result RefreshError (Unit {0})
  validate_request r = do
    fail_if
        (fails (validate_watched_set d r.watched_set)
          || is_zero r.requested_at
          || r.sequence == 0
          || is_nil r.reasons)
        invalid_refresh_request
    fail_if (not (reasons_accepted none r.reasons)) invalid_refresh_request

  -- `SetWatchedSet`.
  unfoldable pub set_watched_set :
      RefreshScheduler → Time → WatchedSet → Result RefreshError RefreshScheduler
  set_watched_set s now set = do
    fail_if (is_zero now) invalid_watched_set
    validate_watched_set d set
    ok (install s now set s.set)

  -- `SubmitHint` for a valid hint, by the scheduler's set.
  unfoldable pub submit_at :
      RefreshScheduler → Time → WatchHint → Option WatchedSet → Result RefreshError RefreshScheduler
  submit_at s now hint none = set_watched_set s now hint.watched_set >>= λ s'.
      ok (add_reason s' now hint.reason hint.truth_lost)
  submit_at s now hint (some set) =
      if not (bytes_eq set.watched_set_id hint.watched_set.watched_set_id)
      then ok (add_reason s now watched_set_changed true)
      else ok (add_reason s now hint.reason hint.truth_lost)

  -- `SubmitHint`.
  unfoldable pub submit_hint :
      RefreshScheduler → Time → WatchHint → Result RefreshError RefreshScheduler
  submit_hint s now hint = do
    fail_if (is_zero now || fails (validate_hint hint)) invalid_watch_hint
    submit_at s now hint s.set
