-- ===== src/Review/Message.antt =====
-- internal/domain/review/message.go, with the message enums of status.go: one transcript item. A method
-- on a pointer is a function from the message to the changed message; the pointer is never nil.
pub mod Valid
pub mod Calls
use Prim.Native.Char.{code}
use nudge.Base.{Bool, Option, [], false, is_some, none, not, some, true, ℕ, ◌&&◌, ◌++◌, ◌==◌, ◌||◌}
use nudge.Base.Bytes.{Bytes}
use nudge.Base.Result.{Result, err, fail_if, fails, ok, present_and, ◌>>=◌, ◌>>◌}
use nudge.Base.Time.{Time, before, is_zero}
use nudge.Base.Utf8.{valid_utf8}
use nudge.Review.Thread.{status}
use nudge.Review.Values.{
  ReviewError, invalid_message, invalid_state, invalid_status_transition, valid_domain_id,
  valid_metadata, valid_optional_metadata,
}

pub data MessageStatus : Type 0 where
  message_pending message_streaming message_completed message_failed : MessageStatus
  message_cancelled : MessageStatus
  message_other : Bytes → MessageStatus

-- `MessageStatus.Validate`.
abbrev pub validate_message_status : MessageStatus → Result ReviewError (Unit {0})
validate_message_status (message_other s) = err invalid_state
validate_message_status _ = ok tt

pub data MessageRole : Type 0 where
  role_user role_assistant role_system role_tool : MessageRole
  role_other : Bytes → MessageRole

-- `MessageRole.Validate`.
abbrev pub validate_message_role : MessageRole → Result ReviewError (Unit {0})
validate_message_role (role_other s) = err invalid_state
validate_message_role _ = ok tt

pub record Message : Type 0 where
  pub id : Bytes
  pub thread_id : Bytes
  pub role : MessageRole
  pub content : Bytes
  pub provider_id : Bytes
  pub status : MessageStatus
  pub ordinal : ℕ
  pub created_at : Time
  pub updated_at : Time
  pub completed_at : Option Time
  pub failure_phase : Bytes
  pub error_code : Bytes

abbrev pub is_pending : MessageStatus → Bool
is_pending message_pending = true
is_pending _ = false

abbrev pub is_streaming : MessageStatus → Bool
is_streaming message_streaming = true
is_streaming _ = false

-- `terminal` of `Message.Validate`.
abbrev pub is_terminal : MessageStatus → Bool
is_terminal message_completed = true
is_terminal message_failed = true
is_terminal message_cancelled = true
is_terminal _ = false

-- The test of the time at which a message has ended.
abbrev pub misdated : Message → Bool
misdated m =
    present_and (λ t. is_zero t || before t m.created_at || before t m.updated_at) m.completed_at

abbrev pub same : Bool → Bool → Bool
same true b = b
same false b = not b

-- `Message.Validate`.
unfoldable pub validate_message : Message → Result ReviewError (Unit {0})
validate_message m = do
  fail_if
      (not (valid_domain_id m.id)
        || not (valid_domain_id m.thread_id)
        || fails (validate_message_role m.role)
        || fails (validate_message_status m.status)
        || m.ordinal == 0
        || is_zero m.created_at
        || is_zero m.updated_at
        || before m.updated_at m.created_at
        || not (valid_utf8 m.content)
        || not (valid_optional_metadata m.provider_id)
        || not (valid_optional_metadata m.failure_phase)
        || not (valid_optional_metadata m.error_code))
      invalid_message
  fail_if (not (same (is_terminal m.status) (is_some m.completed_at))) invalid_message
  fail_if
      (present_and (λ t. is_zero t || before t m.created_at || before t m.updated_at)
        m.completed_at)
      invalid_message

-- `NewMessage`.
unfoldable pub new_message : Message → Result ReviewError Message
new_message m = validate_message m >> ok m

-- `NewPendingMessage`.
unfoldable pub new_pending_message :
    Bytes → Bytes → MessageRole → ℕ → Time → Result ReviewError Message
new_pending_message id thread_id role ordinal now = new_message (record {
  id = id;
  thread_id = thread_id;
  role = role;
  content = [];
  provider_id = [];
  status = message_pending;
  ordinal = ordinal;
  created_at = now;
  updated_at = now;
  completed_at = none;
  failure_phase = [];
  error_code = [];
})

-- `validTransitionTime`.
abbrev pub valid_transition_time : Time → Time → Bool
valid_transition_time previous next = not (is_zero next) && not (before next previous)

-- `BeginStreaming`.
unfoldable pub begin_streaming : Message → Time → Result ReviewError Message
begin_streaming m now = do
  fail_if
      (fails (validate_message m)
        || not (is_pending m.status)
        || not (valid_transition_time m.updated_at now))
      invalid_status_transition
  ok (record m { status = message_streaming; updated_at = now })

-- `AppendContent`.
unfoldable pub append_content : Message → Bytes → Time → Result ReviewError Message
append_content m delta now = do
  fail_if
      (fails (validate_message m)
        || not (is_streaming m.status)
        || not (valid_transition_time m.updated_at now)
        || not (valid_utf8 delta))
      invalid_status_transition
  ok (record m { content = m.content ++ delta; updated_at = now })

-- `Complete`.
unfoldable pub complete : Message → Time → Result ReviewError Message
complete m now = do
  fail_if
      (fails (validate_message m)
        || not (is_pending m.status) && not (is_streaming m.status)
        || not (valid_transition_time m.updated_at now))
      invalid_status_transition
  ok (record m { status = message_completed; updated_at = now; completed_at = some now })

-- `Fail`.
unfoldable pub fail : Message → Bytes → Bytes → Time → Result ReviewError Message
fail m phase code now = do
  fail_if
      (fails (validate_message m)
        || not (is_pending m.status) && not (is_streaming m.status)
        || not (valid_metadata phase)
        || not (valid_metadata code)
        || not (valid_transition_time m.updated_at now))
      invalid_status_transition
  ok (record m {
    status = message_failed;
    failure_phase = phase;
    error_code = code;
    updated_at = now;
    completed_at = some now;
  })

-- `Cancel`.
unfoldable pub cancel : Message → Time → Result ReviewError Message
cancel m now = do
  fail_if
      (fails (validate_message m)
        || not (is_pending m.status) && not (is_streaming m.status)
        || not (valid_transition_time m.updated_at now))
      invalid_status_transition
  ok (record m { status = message_cancelled; updated_at = now; completed_at = some now })
