-- ===== src/Review/Thread.antt =====
-- internal/domain/review/thread.go, with the thread enums of status.go: one concern of a review and its
-- independent status axes. A method on a pointer is a function from the thread to the changed thread.
pub mod Valid
pub mod Dated
pub mod Calls
use Prim.Native.Char.{code}
use nudge.Base.{Bool, List, Option, [], any, none, not, some, true, ◌&&◌, ◌++◌, ◌||◌, ◌∷◌}
use nudge.Base.Bytes.{Bytes, bytes_eq, is_empty}
use nudge.Base.Result.{Result, err, fail_if, fails, ok, present_and, ◌>>=◌, ◌>>◌}
use nudge.Base.Time.{Time, before, is_zero}
use nudge.Base.Utf8.{valid_utf8}
use nudge.Review.Anchor.{AnchorState, CodeAnchor, validate_anchor, validate_anchor_state}
use nudge.Review.Values.{
  ReviewError, invalid_review_thread, invalid_state, invalid_status_transition, valid_domain_id,
  valid_optional_metadata,
}

pub data ResolutionState : Type 0 where
  resolution_open resolution_resolved : ResolutionState
  resolution_other : Bytes → ResolutionState

-- `ResolutionState.Validate`.
abbrev pub validate_resolution : ResolutionState → Result ReviewError (Unit {0})
validate_resolution (resolution_other s) = err invalid_state
validate_resolution _ = ok tt

pub data ConversationState : Type 0 where
  conversation_idle conversation_streaming conversation_awaiting_runtime_approval :
      ConversationState
  conversation_failed : ConversationState
  conversation_other : Bytes → ConversationState

-- `ConversationState.Validate`.
abbrev pub validate_conversation : ConversationState → Result ReviewError (Unit {0})
validate_conversation (conversation_other s) = err invalid_state
validate_conversation _ = ok tt

pub data ProposalState : Type 0 where
  proposal_none proposal_generating proposal_ready proposal_stale : ProposalState
  proposal_applying proposal_applied proposal_rejected proposal_failed : ProposalState
  proposal_other : Bytes → ProposalState

-- `ProposalState.Validate`.
abbrev pub validate_proposal_state : ProposalState → Result ReviewError (Unit {0})
validate_proposal_state (proposal_other s) = err invalid_state
validate_proposal_state _ = ok tt

pub data ReadState : Type 0 where
  read unread : ReadState
  read_other : Bytes → ReadState

-- `ReadState.Validate`.
abbrev pub validate_read_state : ReadState → Result ReviewError (Unit {0})
validate_read_state (read_other s) = err invalid_state
validate_read_state _ = ok tt

pub record ReviewThread : Type 0 where
  pub id : Bytes
  pub session_id : Bytes
  pub anchor : CodeAnchor
  pub title : Bytes
  pub resolution : ResolutionState
  pub conversation : ConversationState
  pub proposal : ProposalState
  pub read_state : ReadState
  pub provider_conversation_id : Option Bytes
  pub latest_proposal_id : Option Bytes
  pub messages : List Bytes
  pub failure_phase : Bytes
  pub error_code : Bytes
  pub created_at : Time
  pub updated_at : Time

pub record ThreadStatus : Type 0 where
  pub resolution : ResolutionState
  pub conversation : ConversationState
  pub proposal : ProposalState
  pub anchor : AnchorState
  pub read_state : ReadState
  pub failure_phase : Bytes
  pub error_code : Bytes

-- `ReviewThread.Status`.
abbrev pub status : ReviewThread → ThreadStatus
status t = record {
  resolution = t.resolution;
  conversation = t.conversation;
  proposal = t.proposal;
  anchor = t.anchor.state;
  read_state = t.read_state;
  failure_phase = t.failure_phase;
  error_code = t.error_code;
}

-- `seen[id]` exists.
abbrev pub has_id : List Bytes → Bytes → Bool
has_id seen id = any (λ known. bytes_eq known id) seen

-- The loop over the messages of a thread, with the identifiers seen so far.
unfoldable pub messages_accepted : List Bytes → List Bytes → Bool
messages_accepted seen [] = true
messages_accepted seen (id ∷ ids) =
    valid_domain_id id && not (has_id seen id) && messages_accepted (id ∷ seen) ids

abbrev pub bad_identity : ReviewThread → Bool
bad_identity t =
    not (valid_domain_id t.id)
    || not (valid_domain_id t.session_id)
    || is_zero t.created_at
    || is_zero t.updated_at
    || before t.updated_at t.created_at

abbrev pub bad_axes : ReviewThread → Bool
bad_axes t =
    fails (validate_resolution t.resolution)
    || fails (validate_conversation t.conversation)
    || fails (validate_proposal_state t.proposal)
    || fails (validate_anchor_state t.anchor.state)
    || fails (validate_read_state t.read_state)

abbrev pub bad_title : ReviewThread → Bool
bad_title t = not (is_empty t.title) && not (valid_utf8 t.title)

-- `id != nil && !validDomainID(*id)`.
abbrev pub bad_link : Option Bytes → Bool
bad_link = present_and (λ id. not (valid_domain_id id))

abbrev pub bad_failure : ReviewThread → Bool
bad_failure t =
    not (valid_optional_metadata t.failure_phase) || not (valid_optional_metadata t.error_code)

-- `ReviewThread.Validate`; every error wraps `ErrInvalidReviewThread`.
unfoldable pub validate_thread : ReviewThread → Result ReviewError (Unit {0})
validate_thread t = do
  fail_if (bad_identity t) invalid_review_thread
  fail_if (fails (validate_anchor t.anchor)) invalid_review_thread
  fail_if (bad_axes t) invalid_review_thread
  fail_if (bad_title t) invalid_review_thread
  fail_if (bad_link t.provider_conversation_id) invalid_review_thread
  fail_if (bad_link t.latest_proposal_id) invalid_review_thread
  fail_if (not (messages_accepted [] t.messages)) invalid_review_thread
  fail_if (bad_failure t) invalid_review_thread

-- `NewReviewThread`.
unfoldable pub new_review_thread : ReviewThread → Result ReviewError ReviewThread
new_review_thread t = validate_thread t >> ok t

-- `NewOpenReviewThread`.
unfoldable pub new_open_review_thread :
    Bytes → Bytes → CodeAnchor → Time → Result ReviewError ReviewThread
new_open_review_thread id session_id anchor now = new_review_thread (record {
  id = id;
  session_id = session_id;
  anchor = anchor;
  title = [];
  resolution = resolution_open;
  conversation = conversation_idle;
  proposal = proposal_none;
  read_state = unread;
  provider_conversation_id = none;
  latest_proposal_id = none;
  messages = [];
  failure_phase = [];
  error_code = [];
  created_at = now;
  updated_at = now;
})

-- The guard of every method: a valid thread, an acceptable argument and a time that does not go back.
abbrev pub refused : ReviewThread → Bool → Time → Bool
refused t bad now = fails (validate_thread t) || bad || is_zero now || before now t.updated_at

-- `setResolution`.
unfoldable pub set_resolution :
    ReviewThread → ResolutionState → Time → Result ReviewError ReviewThread
set_resolution t state now =
    fail_if (refused t (fails (validate_resolution state)) now) invalid_status_transition
    >> ok (record t { resolution = state; updated_at = now })

-- `Resolve`.
unfoldable pub resolve : ReviewThread → Time → Result ReviewError ReviewThread
resolve t now = set_resolution t resolution_resolved now

-- `Reopen`.
unfoldable pub reopen : ReviewThread → Time → Result ReviewError ReviewThread
reopen t now = set_resolution t resolution_open now

-- `setRead`.
unfoldable pub set_read : ReviewThread → ReadState → Time → Result ReviewError ReviewThread
set_read t state now =
    fail_if (refused t (fails (validate_read_state state)) now) invalid_status_transition
    >> ok (record t { read_state = state; updated_at = now })

-- `MarkRead`.
unfoldable pub mark_read : ReviewThread → Time → Result ReviewError ReviewThread
mark_read t now = set_read t read now

-- `MarkUnread`.
unfoldable pub mark_unread : ReviewThread → Time → Result ReviewError ReviewThread
mark_unread t now = set_read t unread now

-- `SetConversation`.
unfoldable pub set_conversation :
    ReviewThread → ConversationState → Bytes → Bytes → Time → Result ReviewError ReviewThread
set_conversation t state phase code now =
    fail_if
      (refused t
        (fails (validate_conversation state)
          || not (valid_optional_metadata phase)
          || not (valid_optional_metadata code))
        now)
      invalid_status_transition
    >> ok (record t {
      conversation = state;
      failure_phase = phase;
      error_code = code;
      updated_at = now;
    })

-- `SetProposal`.
unfoldable pub set_proposal :
    ReviewThread → ProposalState → Option Bytes → Time → Result ReviewError ReviewThread
set_proposal t state proposal_id now =
    fail_if (refused t (fails (validate_proposal_state state) || bad_link proposal_id) now)
      invalid_status_transition
    >> ok (record t { proposal = state; latest_proposal_id = proposal_id; updated_at = now })

-- `SetAnchorState`.
unfoldable pub set_anchor_state :
    ReviewThread → AnchorState → Time → Result ReviewError ReviewThread
set_anchor_state t state now =
    fail_if (refused t (fails (validate_anchor_state state)) now) invalid_status_transition
    >> ok (record t { anchor = record t.anchor { state = state }; updated_at = now })

-- `AttachProviderConversation`.
unfoldable pub attach_provider_conversation :
    ReviewThread → Bytes → Time → Result ReviewError ReviewThread
attach_provider_conversation t id now =
    fail_if (refused t (not (valid_domain_id id)) now) invalid_status_transition
    >> ok (record t { provider_conversation_id = some id; updated_at = now })

-- `AppendMessageID`.
unfoldable pub append_message_id : ReviewThread → Bytes → Time → Result ReviewError ReviewThread
append_message_id t id now =
    fail_if (refused t (not (valid_domain_id id)) now) invalid_status_transition
    >> (fail_if (has_id t.messages id) invalid_status_transition
        >> ok (record t { messages = t.messages ++ id ∷ []; updated_at = now }))
