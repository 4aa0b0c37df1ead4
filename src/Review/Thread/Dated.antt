-- ===== src/Review/Thread/Dated.antt =====
-- What each method of internal/domain/review/thread.go leaves.
use nudge.Base.{Bool, Option, [], arith, false, not, some, sym, ◌++◌, ◌||◌, ◌∷◌, ◌≡◌}
use nudge.Base.Bytes.{Bytes}
use nudge.Base.Int.{◌≤ℤ◌}
use nudge.Base.Result.{fail_if->>-ok, fail_if-eq-ok, fails, is_ok-unit, ok}
use nudge.Base.Time.{Time, before, is_zero}
use nudge.Review.Anchor.{AnchorState, validate_anchor_state}
use nudge.Review.Thread.{
  ConversationState, ProposalState, ReadState, ResolutionState, ReviewThread, append_message_id,
  attach_provider_conversation, bad_link, has_id, refused, set_anchor_state, set_conversation,
  set_proposal, set_read, set_resolution, validate_conversation, validate_proposal_state,
  validate_read_state, validate_resolution, validate_thread,
}
use nudge.Review.Thread.Valid.{
  IsThread, messages_accepted-snoc, validate_anchor-state, validate_thread-IsThread,
}
use nudge.Review.Values.{valid_domain_id, valid_optional_metadata}

-- A guard that lets the call pass.
pub passed :
    (t : ReviewThread) (bad : Bool) (now : Time)
    → refused t bad now ≡ false
    → IsThread t × (bad ≡ false) × (is_zero now ≡ false) × (before now t.updated_at ≡ false)
passed t bad now h = (
  validate_thread-IsThread t (is_ok-unit (validate_thread t) (ground arith)),
  ground arith,
  ground arith,
  ground arith,
)

pub not_before : (c u n : Time) → before u c ≡ false → before n u ≡ false → before n c ≡ false
not_before c u n h k = ground arith

-- The thread that a method leaves is changed as the call says, if it is valid.
pub record IsDated (t t' : ReviewThread) (now : Time) : Type 0 where
  pub time_of_call : t'.updated_at ≡ now
  pub is_later : t.updated_at ≤ℤ now
  pub is_thread : IsThread t'

pub set_resolution-IsDated :
    (t t' : ReviewThread) (s : ResolutionState) (now : Time)
    → set_resolution t s now ≡ ok t'
    → IsDated t t' now × (t' ≡ record t { resolution = s; updated_at = now })
unfolding set_resolution
set_resolution-IsDated t t' s now e =
    let (h, k) = fail_if-eq-ok (refused t (fails (validate_resolution s)) now) _ e in
    let (v, b, z, u) = passed t (fails (validate_resolution s)) now h in
    rw (sym k) (ground (arith, not_before t.created_at t.updated_at now))

pub set_read-IsDated :
    (t t' : ReviewThread) (s : ReadState) (now : Time)
    → set_read t s now ≡ ok t'
    → IsDated t t' now × (t' ≡ record t { read_state = s; updated_at = now })
unfolding set_read
set_read-IsDated t t' s now e =
    let (h, k) = fail_if-eq-ok (refused t (fails (validate_read_state s)) now) _ e in
    let (v, b, z, u) = passed t (fails (validate_read_state s)) now h in
    rw (sym k) (ground (arith, not_before t.created_at t.updated_at now))

pub set_conversation-IsDated :
    (t t' : ReviewThread) (s : ConversationState) (p c : Bytes) (now : Time)
    → set_conversation t s p c now ≡ ok t'
    → IsDated t t' now
      × (t' ≡ record t { conversation = s; failure_phase = p; error_code = c; updated_at = now })
unfolding set_conversation
set_conversation-IsDated t t' s p c now e =
    let (h, k) =
      fail_if-eq-ok
        (refused t
          (fails (validate_conversation s)
            || not (valid_optional_metadata p)
            || not (valid_optional_metadata c))
          now)
        _ e in
    let (v, b, z, u) =
      passed t
        (fails (validate_conversation s)
          || not (valid_optional_metadata p)
          || not (valid_optional_metadata c))
        now h in
    rw (sym k) (ground (arith, not_before t.created_at t.updated_at now))

pub set_proposal-IsDated :
    (t t' : ReviewThread) (s : ProposalState) (id : Option Bytes) (now : Time)
    → set_proposal t s id now ≡ ok t'
    → IsDated t t' now × (t' ≡ record t { proposal = s; latest_proposal_id = id; updated_at = now })
unfolding set_proposal
set_proposal-IsDated t t' s id now e =
    let (h, k) =
      fail_if-eq-ok (refused t (fails (validate_proposal_state s) || bad_link id) now) _ e in
    let (v, b, z, u) = passed t (fails (validate_proposal_state s) || bad_link id) now h in
    rw (sym k) (ground (arith, not_before t.created_at t.updated_at now))

pub set_anchor_state-IsDated :
    (t t' : ReviewThread) (s : AnchorState) (now : Time)
    → set_anchor_state t s now ≡ ok t'
    → IsDated t t' now
      × (t' ≡ record t { anchor = record t.anchor { state = s }; updated_at = now })
unfolding set_anchor_state
set_anchor_state-IsDated t t' s now e =
    let (h, k) = fail_if-eq-ok (refused t (fails (validate_anchor_state s)) now) _ e in
    let (v, b, z, u) = passed t (fails (validate_anchor_state s)) now h in
    rw (sym k)
      (ground (arith, not_before t.created_at t.updated_at now, validate_anchor-state t.anchor s))

pub attach_provider_conversation-IsDated :
    (t t' : ReviewThread) (id : Bytes) (now : Time)
    → attach_provider_conversation t id now ≡ ok t'
    → IsDated t t' now × (t' ≡ record t { provider_conversation_id = some id; updated_at = now })
unfolding attach_provider_conversation
attach_provider_conversation-IsDated t t' id now e =
    let (h, k) = fail_if-eq-ok (refused t (not (valid_domain_id id)) now) _ e in
    let (v, b, z, u) = passed t (not (valid_domain_id id)) now h in
    rw (sym k) (ground (arith, not_before t.created_at t.updated_at now))

pub append_message_id-IsDated :
    (t t' : ReviewThread) (id : Bytes) (now : Time)
    → append_message_id t id now ≡ ok t'
    → IsDated t t' now × (t' ≡ record t { messages = t.messages ++ id ∷ []; updated_at = now })
unfolding append_message_id
append_message_id-IsDated t t' id now e =
    let (h, m) = fail_if->>-ok (refused t (not (valid_domain_id id)) now) _ _ e in
    let (n, k) = fail_if-eq-ok (has_id t.messages id) _ m in
    let (v, b, z, u) = passed t (not (valid_domain_id id)) now h in
    rw (sym k) (
      ground
        (arith, not_before t.created_at t.updated_at now, messages_accepted-snoc [] t.messages id))
