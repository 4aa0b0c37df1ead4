-- ===== src/Review/Thread/Calls.antt =====
-- What any sequence of calls does to a thread of internal/domain/review/thread.go.
use Prim.Native.Char.{code}
use nudge.Base.{List, Option, [], ap, append-nil, sym, ◌++◌, ◌∙◌, ◌∷◌, ◌≡◌}
use nudge.Base.Bytes.{Bytes}
use nudge.Base.Int.{◌≤ℤ◌}
use nudge.Base.Result.{Result, ok}
use nudge.Base.Time.{Time}
use nudge.Review.Anchor.{AnchorState}
use nudge.Review.Thread.{
  ConversationState, ProposalState, ReviewThread, ThreadStatus, append_message_id,
  attach_provider_conversation, mark_read, mark_unread, read, reopen, resolution_open,
  resolution_resolved, resolve, set_anchor_state, set_conversation, set_proposal, status, unread,
  validate_thread,
}
use nudge.Review.Thread.Dated.{
  IsDated, append_message_id-IsDated, attach_provider_conversation-IsDated,
  set_anchor_state-IsDated, set_conversation-IsDated, set_proposal-IsDated, set_read-IsDated,
  set_resolution-IsDated,
}
use nudge.Review.Thread.Valid.{IsThread-validate_thread}
use nudge.Review.Values.{ReviewError}

pub data ThreadCall : Type 0 where
  resolves reopens marks_read marks_unread : ThreadCall
  sets_conversation : ConversationState → Bytes → Bytes → ThreadCall
  sets_proposal : ProposalState → Option Bytes → ThreadCall
  sets_anchor_state : AnchorState → ThreadCall
  attaches_provider_conversation appends_message : Bytes → ThreadCall

-- A call of a method, at a time.
unfoldable pub thread_call : ReviewThread → ThreadCall → Time → Result ReviewError ReviewThread
thread_call t resolves now = resolve t now
thread_call t reopens now = reopen t now
thread_call t marks_read now = mark_read t now
thread_call t marks_unread now = mark_unread t now
thread_call t (sets_conversation s phase code) now = set_conversation t s phase code now
thread_call t (sets_proposal s id) now = set_proposal t s id now
thread_call t (sets_anchor_state s) now = set_anchor_state t s now
thread_call t (attaches_provider_conversation id) now = attach_provider_conversation t id now
thread_call t (appends_message id) now = append_message_id t id now

-- The status after a call: each method writes its own axis.
abbrev pub own_axis : ThreadCall → ThreadStatus → ThreadStatus
own_axis resolves s = record s { resolution = resolution_resolved }
own_axis reopens s = record s { resolution = resolution_open }
own_axis marks_read s = record s { read_state = read }
own_axis marks_unread s = record s { read_state = unread }
own_axis (sets_conversation c phase code) s = record s {
  conversation = c;
  failure_phase = phase;
  error_code = code;
}
own_axis (sets_proposal p id) s = record s { proposal = p }
own_axis (sets_anchor_state a) s = record s { anchor = a }
own_axis (attaches_provider_conversation id) s = s
own_axis (appends_message id) s = s

-- The message identifiers that a call adds.
abbrev pub added : ThreadCall → List Bytes
added (appends_message id) = id ∷ []
added _ = []

pub record IsChanged (t t' : ReviewThread) (c : ThreadCall) (now : Time) : Type 0 where
  pub valid : validate_thread t' ≡ ok tt
  pub axes : status t' ≡ own_axis c (status t)
  pub same_id : (t'.id ≡ t.id) × (t'.session_id ≡ t.session_id)
  pub grown : t'.messages ≡ t.messages ++ added c
  pub dated : (t'.updated_at ≡ now) × (t.updated_at ≤ℤ now)
  pub same_creation : t'.created_at ≡ t.created_at

-- What a method has changed, from the fields that it sets.
changed :
    (t t' : ReviewThread) (c : ThreadCall) (now : Time)
    → IsDated t t' now
    → status t' ≡ own_axis c (status t)
    → (t'.id ≡ t.id) × (t'.session_id ≡ t.session_id)
    → t'.messages ≡ t.messages ++ added c
    → t'.created_at ≡ t.created_at
    → IsChanged t t' c now
changed t t' c now d a i m r = record {
  valid = IsThread-validate_thread t' d.is_thread;
  axes = a;
  same_id = i;
  grown = m;
  dated = (d.time_of_call, d.is_later);
  same_creation = r;
}

-- A call that is granted leaves a valid thread, changes the axis of the status that the method is
-- named for and no other, adds a message only where it says so and at the end, and dates the
-- thread with the call, which is not before its last change.
pub thread_call-IsChanged :
    (t t' : ReviewThread) (c : ThreadCall) (now : Time)
    → thread_call t c now ≡ ok t'
    → IsChanged t t' c now
unfolding thread_call resolve reopen mark_read mark_unread
thread_call-IsChanged t t' resolves now e =
    let (d, q) = set_resolution-IsDated t t' resolution_resolved now e in
    changed t t' resolves now d (ap status q) (ap (λ x. x.id) q, ap (λ x. x.session_id) q)
      (ap (λ x. x.messages) q ∙ sym (append-nil t.messages)) (ap (λ x. x.created_at) q)
thread_call-IsChanged t t' reopens now e =
    let (d, q) = set_resolution-IsDated t t' resolution_open now e in
    changed t t' reopens now d (ap status q) (ap (λ x. x.id) q, ap (λ x. x.session_id) q)
      (ap (λ x. x.messages) q ∙ sym (append-nil t.messages)) (ap (λ x. x.created_at) q)
thread_call-IsChanged t t' marks_read now e =
    let (d, q) = set_read-IsDated t t' read now e in
    changed t t' marks_read now d (ap status q) (ap (λ x. x.id) q, ap (λ x. x.session_id) q)
      (ap (λ x. x.messages) q ∙ sym (append-nil t.messages)) (ap (λ x. x.created_at) q)
thread_call-IsChanged t t' marks_unread now e =
    let (d, q) = set_read-IsDated t t' unread now e in
    changed t t' marks_unread now d (ap status q) (ap (λ x. x.id) q, ap (λ x. x.session_id) q)
      (ap (λ x. x.messages) q ∙ sym (append-nil t.messages)) (ap (λ x. x.created_at) q)
thread_call-IsChanged t t' (sets_conversation s p code) now e =
    let (d, q) = set_conversation-IsDated t t' s p code now e in
    changed t t' (sets_conversation s p code) now d (ap status q)
      (ap (λ x. x.id) q, ap (λ x. x.session_id) q)
      (ap (λ x. x.messages) q ∙ sym (append-nil t.messages)) (ap (λ x. x.created_at) q)
thread_call-IsChanged t t' (sets_proposal s id) now e =
    let (d, q) = set_proposal-IsDated t t' s id now e in
    changed t t' (sets_proposal s id) now d (ap status q)
      (ap (λ x. x.id) q, ap (λ x. x.session_id) q)
      (ap (λ x. x.messages) q ∙ sym (append-nil t.messages)) (ap (λ x. x.created_at) q)
thread_call-IsChanged t t' (sets_anchor_state s) now e =
    let (d, q) = set_anchor_state-IsDated t t' s now e in
    changed t t' (sets_anchor_state s) now d (ap status q)
      (ap (λ x. x.id) q, ap (λ x. x.session_id) q)
      (ap (λ x. x.messages) q ∙ sym (append-nil t.messages)) (ap (λ x. x.created_at) q)
thread_call-IsChanged t t' (attaches_provider_conversation id) now e =
    let (d, q) = attach_provider_conversation-IsDated t t' id now e in
    changed t t' (attaches_provider_conversation id) now d (ap status q)
      (ap (λ x. x.id) q, ap (λ x. x.session_id) q)
      (ap (λ x. x.messages) q ∙ sym (append-nil t.messages)) (ap (λ x. x.created_at) q)
thread_call-IsChanged t t' (appends_message id) now e =
    let (d, q) = append_message_id-IsDated t t' id now e in
    changed t t' (appends_message id) now d (ap status q)
      (ap (λ x. x.id) q, ap (λ x. x.session_id) q) (ap (λ x. x.messages) q)
      (ap (λ x. x.created_at) q)
