-- ===== src/Watch/Bounded.antt =====
-- The bounds of internal/watch/fsnotify.go, over everything that a watcher is told.
use mathlib.Core.Path.{subst}
use nudge.Base.{
  Bool, List, Option, [], all, ap, arith, false, if-both, if◌then◌else◌, not, refl, sym, true, ℕ,
  ◌&&◌, ◌+◌, ◌||◌, ◌∙◌, ◌∷◌, ◌≡◌, ◌≤◌,
}
use nudge.Base.Int.{ltb_ℤ, negsuc, pos, ℤ}
use nudge.Base.Result.{>>-both, >>=-eq-ok, Result, err, fail_if, fail_if->>-ok, ok, ◌>>◌}
use nudge.Refresh.Reasons.{watcher_closed}
use nudge.Refresh.WatchedSet.{WatchedSet, is_clean_absolute, validate_watched_set}
use nudge.Repo.Digest.{Digest}
use nudge.Watch.{
  FileWatcher, WatchConfig, WatchError, backend_failed, close, context_ended, emit, empty_watcher,
  end_run, invalid_config, new_file_watcher, normalized, receive, size_of, watcher_ended,
  watcher_not_started, watcher_started, with_default_bounds,
}
use nudge.Watch.Events.{
  FileEvent, handle_error, handle_event, handle_shutdown, lost_hint, replace, set_error, start,
}
use nudge.Watch.Limited.{
  IsLimited, covered-IsLimited, emit-IsLimited, ended-IsLimited, handle_event-IsLimited,
  rebuild-DirsWithin, received_from-IsLimited,
}
use nudge.Watch.Walk.{Files, rebuild}

-- What a watcher is told, with the files that it finds then. A refused call changes nothing.
pub data WatchInput : Type 0 where
  start_input replace_input : Files → Bool → WatchedSet → WatchInput
  event_input : Files → FileEvent → WatchInput
  error_input : Bool → WatchInput
  shutdown_input : Bool → WatchInput
  cancel_input read_input close_input : WatchInput

abbrev pub started_or : FileWatcher → Result WatchError FileWatcher → FileWatcher
started_or w (ok w') = w'
started_or w (err e) = w

abbrev pub replaced_or :
    FileWatcher → Result WatchError (Option WatchError × FileWatcher) → FileWatcher
replaced_or w (ok (e, w')) = w'
replaced_or w (err e) = w

-- A bound that the configuration accepts.
accepted-pos :
    (k : ℕ) (n : ℤ)
    → ltb_ℤ n (pos 1) ≡ false
    → ltb_ℤ (pos k) n ≡ false
    → (m : ℕ) × (n ≡ pos m) × (m ≤ k)
accepted-pos k (pos m) h h' = (m, refl, ground arith)
accepted-pos k (negsuc m) h h' = absurd (ground arith)

abbrev bounds_test : WatchConfig → Bool
bounds_test c =
    ltb_ℤ c.hint_buffer (pos 1)
    || ltb_ℤ (pos 4096) c.hint_buffer
    || ltb_ℤ c.max_watched_directories (pos 1)
    || ltb_ℤ (pos 1_000_000) c.max_watched_directories

four-false :
    (a b c d : Bool)
    → a || b || c || d ≡ false
    → (a ≡ false) × (b ≡ false) × (c ≡ false) × (d ≡ false)
four-false false false false d e = (refl, refl, refl, e)
four-false true b c d e = absurd (cc e)
four-false false true c d e = absurd (cc e)
four-false false false true d e = absurd (cc e)

new-IsLimited :
    (config : WatchConfig) (w : FileWatcher)
    → new_file_watcher config ≡ ok w
    → (m : ℕ) × (m ≤ 1_000_000) × IsLimited m w
unfolding new_file_watcher normalized
new-IsLimited config w e =
    let (c, e1, e2) = >>=-eq-ok (normalized config) _ e in
    let e3 : empty_watcher c ≡ w = cc e2 in
    let d = with_default_bounds config in
    let roots_test = not (all is_clean_absolute d.ignored_roots) in
    let rest : Result WatchError WatchConfig = fail_if roots_test invalid_config >> ok d in
    let (t, e4) = fail_if->>-ok (bounds_test d) invalid_config rest e1 in
    let (t', e5) = fail_if->>-ok roots_test invalid_config (ok d) e4 in
    let e6 : d ≡ c = cc e5 in
    let (t1, t2, t3, t4) =
      four-false (ltb_ℤ d.hint_buffer (pos 1)) (ltb_ℤ (pos 4096) d.hint_buffer)
        (ltb_ℤ d.max_watched_directories (pos 1)) (ltb_ℤ (pos 1_000_000) d.max_watched_directories)
        t in
    let (m, e7, i) = accepted-pos 1_000_000 d.max_watched_directories t3 t4 in
    let (n, e8, i') = accepted-pos 4096 d.hint_buffer t1 t2 in
    (
      m,
      i,
      subst (IsLimited m) (ap empty_watcher e6 ∙ e3) (record {
        limit = e7;
        dirs = omega arith;
        room = subst (λ z. size_of z + 1 ≤ 4097) (sym e8) (omega arith);
        reserved = record { fits = omega arith; reserved = λ f. absurd (omega arith) };
      }),
    )

-- The owner goroutine reads the backend from `Start` until it ends.
abbrev pub while_running : FileWatcher → FileWatcher → FileWatcher
while_running w next = if w.started && not w.hints_closed then next else w

while_running-IsLimited :
    (m : ℕ) (w next : FileWatcher)
    → IsLimited m w
    → IsLimited m next
    → IsLimited m (while_running w next)
while_running-IsLimited m w next b n =
    if-both (IsLimited m) (w.started && not w.hints_closed) (λ t. n) (λ t. b)

module _ (d : Digest) where
  start-IsLimited :
      (m : ℕ) (files : Files) (has_backend : Bool) (w : FileWatcher) (set : WatchedSet)
      → IsLimited m w
      → IsLimited m (started_or w (start d files has_backend w set))
  unfolding start
  start-IsLimited m files has_backend w set b =
      let roots = rebuild w.config files set in
      let next = covered-IsLimited m w set roots.0 roots.1 b (rebuild-DirsWithin m w files set b) in
      let Holds : Result WatchError FileWatcher → Type 0 = λ r. IsLimited m (started_or w r) in
      let failing = λ (e : WatchError). b in
      >>-both Holds (set_error (validate_watched_set d set)) failing (
        >>-both Holds (fail_if w.closed watcher_ended) failing (
          >>-both Holds (fail_if w.started watcher_started) failing
            (>>-both Holds (fail_if (not has_backend) backend_failed) failing next)))

  replace-IsLimited :
      (m : ℕ) (files : Files) (ended : Bool) (w : FileWatcher) (set : WatchedSet)
      → IsLimited m w
      → IsLimited m (replaced_or w (replace d files ended w set))
  unfolding replace
  replace-IsLimited m files ended w set b =
      let roots = rebuild w.config files set in
      let next = covered-IsLimited m w set roots.0 roots.1 b (rebuild-DirsWithin m w files set b) in
      let Holds : Result WatchError (Option WatchError × FileWatcher) → Type 0 =
        λ r. IsLimited m (replaced_or w r) in
      let failing = λ (e : WatchError). b in
      >>-both Holds (set_error (validate_watched_set d set)) failing (
        >>-both Holds (fail_if w.closed watcher_ended) failing (
          >>-both Holds (fail_if (not w.started) watcher_not_started) failing
            (>>-both Holds (fail_if ended context_ended) failing next)))

  abbrev pub watch_input : WatchInput → FileWatcher → FileWatcher
  watch_input (start_input files has_backend set) w = started_or w (start d files has_backend w set)
  watch_input (replace_input files ended set) w = replaced_or w (replace d files ended w set)
  watch_input (event_input files e) w = while_running w (handle_event files w e)
  watch_input (error_input overflow) w = while_running w (handle_error w overflow)
  watch_input (shutdown_input cancelled) w = while_running w (handle_shutdown w cancelled)
  watch_input cancel_input w = while_running w (end_run w)
  watch_input read_input w = (receive w).1
  watch_input close_input w = close w

  unfoldable pub watch_inputs : List WatchInput → FileWatcher → FileWatcher
  watch_inputs [] w = w
  watch_inputs (i ∷ inputs) w = watch_inputs inputs (watch_input i w)

  watch_input-IsLimited :
      (m : ℕ) (i : WatchInput) (w : FileWatcher) → IsLimited m w → IsLimited m (watch_input i w)
  watch_input-IsLimited m (start_input files has_backend set) w b =
      start-IsLimited m files has_backend w set b
  watch_input-IsLimited m (replace_input files ended set) w b =
      replace-IsLimited m files ended w set b
  watch_input-IsLimited m (event_input files e) w b =
      while_running-IsLimited m w _ b (handle_event-IsLimited m files w e b)
  watch_input-IsLimited m (error_input overflow) w b =
      while_running-IsLimited m w _ b (emit-IsLimited m w _ b)
  watch_input-IsLimited m (shutdown_input cancelled) w b =
      let next : FileWatcher =
        if cancelled then w else emit w (lost_hint w.watched_set watcher_closed) in
      let next_limited : IsLimited m next =
        if-both (IsLimited m) cancelled (λ t. b) (λ t. emit-IsLimited m w _ b) in
      while_running-IsLimited m w (end_run next) b (ended-IsLimited m next next_limited)
  watch_input-IsLimited m cancel_input w b =
      while_running-IsLimited m w (end_run w) b (ended-IsLimited m w b)
  watch_input-IsLimited m read_input w b = received_from-IsLimited m w w.hints refl b
  watch_input-IsLimited m close_input w b =
      ended-IsLimited m (record w { closed = true })
        (record {
          limit = b.limit;
          dirs = b.dirs;
          room = b.room;
          reserved = record { fits = b.reserved.fits; reserved = b.reserved.reserved };
        })

  inputs-IsLimited :
      (m : ℕ) (inputs : List WatchInput) (w : FileWatcher)
      → IsLimited m w
      → IsLimited m (watch_inputs inputs w)
  unfolding watch_inputs
  inputs-IsLimited m [] w b = b
  inputs-IsLimited m (i ∷ inputs) w b =
      inputs-IsLimited m inputs (watch_input i w) (watch_input-IsLimited m i w b)

-- Whatever a new watcher is told, and whatever the file system answers, it never watches more
-- directories than its configuration allows, which is one million at most, and its queue of hints
-- stays within its capacity, of at most 4,097.
pub watch_inputs-IsLimited :
    (d : Digest) (config : WatchConfig) (w : FileWatcher) (inputs : List WatchInput)
    → new_file_watcher config ≡ ok w
    → (m : ℕ) × (m ≤ 1_000_000) × IsLimited m (watch_inputs d inputs w)
watch_inputs-IsLimited d config w inputs e =
    let (m, i, b) = new-IsLimited config w e in (m, i, inputs-IsLimited d m inputs w b)
