-- ===== src/Watch/Delivered.antt =====
-- The queue of hints of internal/watch/fsnotify.go: hints are handed on in order, and its last place
-- is kept for the loss of truth.
use mathlib.Core.Path.{subst}
use nudge.Base.{
  Bool, List, Option, [], any, ap, append-nil, append_assoc, arith, false, if-both, inl, inr, leb,
  length, length-append, ltb, none, refl, some, suc, sym, true, ◌++◌, ◌-◌, ◌<◌, ◌||◌, ◌∙◌, ◌∷◌, ◌≡◌,
  ◌≤◌, ◌⊎◌,
}
use nudge.Base.Result.{>>=-eq-ok, ok}
use nudge.Refresh.Scheduler.{WatchHint}
use nudge.Watch.{
  FileWatcher, WatchConfig, close, emit, empty_watcher, end_run, new_file_watcher, normalized,
  receive, received_from, send,
}

-- What happens to the queue, in any order.
pub data QueueStep : Type 0 where
  emit_step : WatchHint → QueueStep
  receive_step close_step end_step : QueueStep

abbrev pub queue_step : QueueStep → FileWatcher → Option WatchHint × FileWatcher
queue_step (emit_step hint) w = (none, emit w hint)
queue_step receive_step w = receive w
queue_step close_step w = (none, close w)
queue_step end_step w = (none, end_run w)

abbrev pub taken : Option WatchHint → List WatchHint → List WatchHint
taken none hints = hints
taken (some hint) hints = hint ∷ hints

-- The hints that are read during some steps, and the watcher after them.
unfoldable pub queue_steps : List QueueStep → FileWatcher → List WatchHint × FileWatcher
queue_steps [] w = ([], w)
queue_steps (s ∷ steps) w =
    let rest = queue_steps steps (queue_step s w).1 in (taken (queue_step s w).0 rest.0, rest.1)

-- The hints that are read during some steps, and those still queued after them.
abbrev pub handed : List QueueStep → FileWatcher → List WatchHint
handed steps w = (queue_steps steps w).0 ++ (queue_steps steps w).1.hints

abbrev pub loses_truth : List WatchHint → Bool
loses_truth = any (λ hint. hint.truth_lost)

-- A queue within its capacity that is full only with a loss of truth in it.
pub record IsReserved (w : FileWatcher) : Type 0 where
  pub fits : length w.hints ≤ w.capacity
  pub reserved : length w.hints ≡ w.capacity → loses_truth w.hints ≡ true

or_assoc : (a b c : Bool) → a || (b || c) ≡ (a || b) || c
or_assoc true b c = refl
or_assoc false b c = refl

loses_truth-append :
    (hints more : List WatchHint)
    → loses_truth (hints ++ more) ≡ loses_truth hints || loses_truth more
loses_truth-append [] more = refl
loses_truth-append (hint ∷ hints) more =
    rw (loses_truth-append hints more) (or_assoc hint.truth_lost _ _)

-- A watcher with a loss of truth in its queue.
abbrev Lossy : FileWatcher → Type 0
Lossy w = loses_truth w.hints ≡ true

sent-lost :
    (hints : List WatchHint) (hint : WatchHint)
    → hint.truth_lost ≡ true
    → loses_truth (hints ++ hint ∷ []) ≡ true
sent-lost [] hint e = rw e refl
sent-lost (first ∷ hints) hint e = rw (sent-lost hints hint e) (ground arith)

sent-loses :
    (w : FileWatcher) (hint : WatchHint)
    → hint.truth_lost ≡ true ⊎ suc (length w.hints) < w.capacity
    → length (w.hints ++ hint ∷ []) ≡ w.capacity
    → loses_truth (w.hints ++ hint ∷ []) ≡ true
sent-loses w hint (inl e) f = sent-lost w.hints hint e
sent-loses w hint (inr i) f =
    let e = length-append w.hints (hint ∷ []) in absurd (omega (arith, e, i, f))

send-IsReserved :
    (w : FileWatcher) (hint : WatchHint)
    → IsReserved w
    → hint.truth_lost ≡ true ⊎ suc (length w.hints) < w.capacity
    → IsReserved (send w hint)
send-IsReserved w hint r h =
    if-both IsReserved w.hints_closed (λ e. record { fits = r.fits; reserved = r.reserved })
      (λ e'.
        if-both IsReserved (ltb (length w.hints) w.capacity)
          (λ e. record {
            fits = rw (length-append w.hints (hint ∷ [])) (ground arith);
            reserved = λ full_queue. sent-loses w hint h full_queue;
          })
          (λ e. r))

pub emit-IsReserved : (w : FileWatcher) (hint : WatchHint) → IsReserved w → IsReserved (emit w hint)
unfolding emit
emit-IsReserved w hint r =
    if-both IsReserved w.closed (λ e. r)
      (λ e.
        if-both IsReserved hint.truth_lost (λ e'. send-IsReserved w hint r (inl e'))
          (λ e'.
            if-both IsReserved (leb (w.capacity - 1) (length w.hints)) (λ i. r)
              (λ i. send-IsReserved w hint r (inr (ground arith)))))

pub received_from-IsReserved :
    (w : FileWatcher) (hints : List WatchHint)
    → w.hints ≡ hints
    → IsReserved w
    → IsReserved (received_from w hints).1
received_from-IsReserved w [] e r = r
received_from-IsReserved w (hint ∷ hints) e r =
    let short_of : suc (length hints) ≤ w.capacity =
      subst (λ hs. length hs ≤ w.capacity) e r.fits in
    record { fits = omega arith; reserved = λ f. absurd (omega arith) }

queue_step-IsReserved :
    (s : QueueStep) (w : FileWatcher) → IsReserved w → IsReserved (queue_step s w).1
queue_step-IsReserved (emit_step hint) w r = emit-IsReserved w hint r
queue_step-IsReserved receive_step w r = received_from-IsReserved w w.hints refl r
queue_step-IsReserved close_step w r = record { fits = r.fits; reserved = r.reserved }
queue_step-IsReserved end_step w r = record { fits = r.fits; reserved = r.reserved }

queue_steps-IsReserved :
    (steps : List QueueStep) (w : FileWatcher) → IsReserved w → IsReserved (queue_steps steps w).1
unfolding queue_steps
queue_steps-IsReserved [] w r = r
queue_steps-IsReserved (s ∷ steps) w r =
    queue_steps-IsReserved steps (queue_step s w).1 (queue_step-IsReserved s w r)

-- The queue of the second watcher is that of the first with more at its end.
abbrev Extends : FileWatcher → FileWatcher → Type 0
Extends w w' = (more : List WatchHint) × (w'.hints ≡ w.hints ++ more)

emit-hints : (w : FileWatcher) (hint : WatchHint) → Extends w (emit w hint)
unfolding emit
emit-hints w hint =
    let stays : Extends w w = ([], sym (append-nil w.hints)) in
    let sent : Extends w (send w hint) =
      if-both (Extends w) w.hints_closed (λ e. ([], sym (append-nil w.hints)))
        (λ e'.
          if-both (Extends w) (ltb (length w.hints) w.capacity) (λ e. (hint ∷ [], refl))
            (λ e. stays)) in
    if-both (Extends w) w.closed (λ e. stays)
      (λ e.
        if-both (Extends w) hint.truth_lost (λ e'. sent)
          (λ e'.
            if-both (Extends w) (leb (w.capacity - 1) (length w.hints)) (λ i. stays) (λ i. sent)))

received_from-hints :
    (w : FileWatcher) (hints : List WatchHint)
    → w.hints ≡ hints
    → (more : List WatchHint) × (taken (received_from w hints).0 (received_from w hints).1.hints
        ≡ w.hints ++ more)
received_from-hints w [] e = ([], sym (append-nil w.hints))
received_from-hints w (hint ∷ hints) e = ([], sym e ∙ sym (append-nil w.hints))

taken-append :
    (o : Option WatchHint) (hints more : List WatchHint)
    → taken o (hints ++ more) ≡ taken o hints ++ more
taken-append none hints more = refl
taken-append (some hint) hints more = refl

queue_step-hints :
    (s : QueueStep) (w : FileWatcher)
    → (more : List WatchHint) × (taken (queue_step s w).0 (queue_step s w).1.hints
        ≡ w.hints ++ more)
queue_step-hints (emit_step hint) w = emit-hints w hint
queue_step-hints receive_step w = received_from-hints w w.hints refl
queue_step-hints close_step w = ([], sym (append-nil w.hints))
queue_step-hints end_step w = ([], sym (append-nil w.hints))

queue_steps-hints :
    (steps : List QueueStep) (w : FileWatcher)
    → (more : List WatchHint) × (handed steps w ≡ w.hints ++ more)
unfolding queue_steps
queue_steps-hints [] w = ([], sym (append-nil w.hints))
queue_steps-hints (s ∷ steps) w =
    let w' = (queue_step s w).1 in
    let (more, e) = queue_steps-hints steps w' in
    let (first_more, e') = queue_step-hints s w in
    (
      first_more ++ more,
      sym (taken-append (queue_step s w).0 (queue_steps steps w').0 (queue_steps steps w').1.hints)
          ∙ ap (taken (queue_step s w).0) e
          ∙ taken-append (queue_step s w).0 w'.hints more
          ∙ ap (λ hs. hs ++ more) e'
          ∙ append_assoc w.hints first_more more,
    )

pub new-IsReserved :
    (config : WatchConfig) (w : FileWatcher) → new_file_watcher config ≡ ok w → IsReserved w
unfolding new_file_watcher
new-IsReserved config w e =
    let (c, e1, e2) = >>=-eq-ok (normalized config) _ e in
    let e3 : empty_watcher c ≡ w = cc e2 in
    subst IsReserved e3 (record { fits = omega arith; reserved = λ f. absurd (omega arith) })

emit-loses :
    (w : FileWatcher) (hint : WatchHint)
    → IsReserved w
    → w.closed ≡ false
    → w.hints_closed ≡ false
    → hint.truth_lost ≡ true
    → loses_truth (emit w hint).hints ≡ true
unfolding emit
emit-loses w hint r e e2 lost =
    if-both Lossy w.closed (λ e'. absurd (cc (e, e')))
      (λ e'.
        if-both Lossy hint.truth_lost
          (λ l.
            if-both Lossy w.hints_closed (λ e'. absurd (cc (e2, e')))
              (λ e'.
                if-both Lossy (ltb (length w.hints) w.capacity) (λ i. sent-lost w.hints hint lost)
                  (λ i. let f = r.fits in r.reserved (ground arith))))
          (λ l. absurd (cc (l, lost))))

-- A loss of truth that is emitted while the watcher and its channel are open is never dropped
-- silently: whatever was emitted and read before and after it, and wherever the watcher is closed
-- or its goroutine ends later, a hint with a loss of truth is among those read later and those
-- still queued. The queue is within its capacity, and when it is full it holds such a hint:
-- ordinary hints never take the last place.
pub truth_lost-IsDelivered :
    (config : WatchConfig) (w : FileWatcher) (earlier later : List QueueStep) (hint : WatchHint)
    → new_file_watcher config ≡ ok w
    → (queue_steps earlier w).1.closed ≡ false
    → (queue_steps earlier w).1.hints_closed ≡ false
    → hint.truth_lost ≡ true
    → IsReserved (queue_steps earlier w).1
      × (loses_truth (handed later (emit (queue_steps earlier w).1 hint)) ≡ true)
truth_lost-IsDelivered config w earlier later hint e is_open has_channel lost =
    let w' = (queue_steps earlier w).1 in
    let r : IsReserved w' = queue_steps-IsReserved earlier w (new-IsReserved config w e) in
    let (more, e') = queue_steps-hints later (emit w' hint) in
    (
      r,
      ap loses_truth e'
          ∙ loses_truth-append (emit w' hint).hints more
          ∙ rw (emit-loses w' hint r is_open has_channel lost) refl,
    )
