-- ===== src/Watch/Limited.antt =====
-- The steps of internal/watch/fsnotify.go keep the watcher within its bounds.
use nudge.Base.{
  Bool, List, Option, [], arith, false, if-both, leb, length, ltb, none, some, true, ℕ, ◌&&◌, ◌-◌,
  ◌∷◌, ◌≡◌, ◌≤◌,
}
use nudge.Base.Int.{pos}
use nudge.Refresh.Reasons.{RefreshReason, watcher_error}
use nudge.Refresh.Scheduler.{WatchHint}
use nudge.Refresh.WatchedSet.{WatchedSet}
use nudge.Watch.{FileWatcher, emit, end_run, received_from, send}
use nudge.Watch.Delivered.{IsReserved, emit-IsReserved, received_from-IsReserved}
use nudge.Watch.Events.{
  FileEvent, covered, event_root, handle_event, is_directory_at, lost_hint, relevant_event,
  tree_added,
}
use nudge.Watch.Paths.{CleanPath, clean, path_text}
use nudge.Watch.Walk.{Files, add_tree, ignored, rebuild}
use nudge.Watch.Walk.Within.{DirsWithin, add_roots-Within, add_tree-Within}

-- A watcher that watches at most `m` directories, its bound, and whose queue is within its own.
pub record IsLimited (m : ℕ) (w : FileWatcher) : Type 0 where
  pub limit : w.config.max_watched_directories ≡ pos m
  pub dirs : length w.watched_dirs ≤ m
  pub room : w.capacity ≤ 4097
  pub reserved : IsReserved w

-- What a hint leaves alone.
abbrev Sized : ℕ → FileWatcher → Type 0
Sized m w =
    (w.config.max_watched_directories ≡ pos m) × (length w.watched_dirs ≤ m) × (w.capacity ≤ 4097)

emit-Sized : (m : ℕ) (w : FileWatcher) (hint : WatchHint) → Sized m w → Sized m (emit w hint)
unfolding emit
emit-Sized m w hint h =
    let sent : Sized m (send w hint) =
      if-both (Sized m) w.hints_closed (λ e. h)
        (λ e'. if-both (Sized m) (ltb (length w.hints) w.capacity) (λ e. h) (λ e. h)) in
    if-both (Sized m) w.closed (λ e. h)
      (λ e.
        if-both (Sized m) hint.truth_lost (λ l. sent)
          (λ l. if-both (Sized m) (leb (w.capacity - 1) (length w.hints)) (λ i. h) (λ i. sent)))

pub emit-IsLimited :
    (m : ℕ) (w : FileWatcher) (hint : WatchHint) → IsLimited m w → IsLimited m (emit w hint)
unfolding emit
emit-IsLimited m w hint b =
    let (limit, dirs, room) = emit-Sized m w hint (b.limit, b.dirs, b.room) in
    record { limit = limit; dirs = dirs; room = room; reserved = emit-IsReserved w hint b.reserved }

-- With other directories, and for another set.
covering-IsLimited :
    (m : ℕ) (w : FileWatcher) (set : WatchedSet) (dirs : List CleanPath)
    → IsLimited m w
    → DirsWithin m dirs
    → IsLimited m (record w { watched_set = set; watched_dirs = dirs; started = true })
covering-IsLimited m w set dirs b h = record {
  limit = b.limit;
  dirs = h;
  room = b.room;
  reserved = record { fits = b.reserved.fits; reserved = b.reserved.reserved };
}

pub covered-IsLimited :
    (m : ℕ) (w : FileWatcher) (set : WatchedSet) (failed : Bool) (dirs : List CleanPath)
    → IsLimited m w
    → DirsWithin m dirs
    → IsLimited m (covered w set (failed, dirs))
covered-IsLimited m w set true dirs b h =
    emit-IsLimited m (record w { watched_set = set; watched_dirs = dirs; started = true })
      (lost_hint set watcher_error) (covering-IsLimited m w set dirs b h)
covered-IsLimited m w set false dirs b h = covering-IsLimited m w set dirs b h

tree_added-IsLimited :
    (m : ℕ) (w : FileWatcher) (reason : RefreshReason) (failed : Bool) (dirs : List CleanPath)
    → IsLimited m w
    → DirsWithin m dirs
    → IsLimited m (tree_added w reason (failed, dirs))
tree_added-IsLimited m w reason failed dirs b h = go failed
  where
    added_dirs : IsLimited m (record w { watched_dirs = dirs })
    added_dirs = record {
      limit = b.limit;
      dirs = h;
      room = b.room;
      reserved = record { fits = b.reserved.fits; reserved = b.reserved.reserved };
    }

    go : (t : Bool) → IsLimited m (tree_added w reason (t, dirs))
    go true = emit-IsLimited m (record w { watched_dirs = dirs }) _ added_dirs
    go false = emit-IsLimited m (record w { watched_dirs = dirs }) _ added_dirs

relevant_event-IsLimited :
    (m : ℕ) (files : Files) (w : FileWatcher) (e : FileEvent)
    (found : Option (RefreshReason × Bool))
    → IsLimited m w
    → IsLimited m (relevant_event files w e found)
unfolding relevant_event
relevant_event-IsLimited m files w e none b = b
relevant_event-IsLimited m files w e (some (reason, lost)) b =
    let added = add_tree w.config files (event_root (clean e.name)) w.watched_dirs in
    if-both (IsLimited m) (ignored w.config (clean e.name)) (λ t. b)
      (λ t.
        if-both (IsLimited m) lost (λ l. emit-IsLimited m w (lost_hint w.watched_set reason) b)
          (λ l.
            if-both (IsLimited m) (e.create && is_directory_at (files (path_text (clean e.name))))
              (λ c. tree_added-IsLimited m w reason added.0 added.1 b (
                add_tree-Within w.config m b.limit files (event_root (clean e.name)) w.watched_dirs
                  b.dirs))
              (λ c. emit-IsLimited m w _ b)))

pub handle_event-IsLimited :
    (m : ℕ) (files : Files) (w : FileWatcher) (e : FileEvent)
    → IsLimited m w
    → IsLimited m (handle_event files w e)
unfolding handle_event
handle_event-IsLimited m files w e b = relevant_event-IsLimited m files w e _ b

pub rebuild-DirsWithin :
    (m : ℕ) (w : FileWatcher) (files : Files) (set : WatchedSet)
    → IsLimited m w
    → DirsWithin m (rebuild w.config files set).1
rebuild-DirsWithin m w files set b =
    add_roots-Within w.config m b.limit files set.paths false [] (omega arith)

pub received_from-IsLimited :
    (m : ℕ) (w : FileWatcher) (hints : List WatchHint)
    → w.hints ≡ hints
    → IsLimited m w
    → IsLimited m (received_from w hints).1
received_from-IsLimited m w [] e b = b
received_from-IsLimited m w (hint ∷ hints) e b = record {
  limit = b.limit;
  dirs = b.dirs;
  room = b.room;
  reserved = received_from-IsReserved w (hint ∷ hints) e b.reserved;
}

pub ended-IsLimited : (m : ℕ) (w : FileWatcher) → IsLimited m w → IsLimited m (end_run w)
ended-IsLimited m w b = record {
  limit = b.limit;
  dirs = b.dirs;
  room = b.room;
  reserved = record { fits = b.reserved.fits; reserved = b.reserved.reserved };
}
