-- ===== src/Review/Message/Valid.antt =====
-- When a message of internal/domain/review/message.go is valid, and which changes keep it so.
use Prim.Native.Char.{code}
use nudge.Base.{Option, arith, false, is_some, none, some, true, ◌==◌, ◌≡◌}
use nudge.Base.Bytes.{Bytes}
use nudge.Base.Result.{is_ok, ok}
use nudge.Base.Time.{Time, before, is_zero}
use nudge.Base.Utf8.{valid_utf8}
use nudge.Review.Message.{
  Message, MessageStatus, is_terminal, misdated, same, valid_transition_time, validate_message,
  validate_message_role, validate_message_status,
}
use nudge.Review.Values.{valid_domain_id, valid_optional_metadata}

-- The conditions of `Message.Validate`, one by one.
pub record IsMessage (m : Message) : Type 0 where
  pub has_id : valid_domain_id m.id ≡ true
  pub has_thread : valid_domain_id m.thread_id ≡ true
  pub has_role : is_ok (validate_message_role m.role) ≡ true
  pub has_status : is_ok (validate_message_status m.status) ≡ true
  pub has_ordinal : (m.ordinal == 0) ≡ false
  pub created : is_zero m.created_at ≡ false
  pub updated : is_zero m.updated_at ≡ false
  pub in_order : before m.updated_at m.created_at ≡ false
  pub has_content : valid_utf8 m.content ≡ true
  pub has_provider : valid_optional_metadata m.provider_id ≡ true
  pub has_phase : valid_optional_metadata m.failure_phase ≡ true
  pub has_code : valid_optional_metadata m.error_code ≡ true
  pub ended : same (is_terminal m.status) (is_some m.completed_at) ≡ true
  pub end_dated : misdated m ≡ false

pub validate_message-IsMessage : (m : Message) → validate_message m ≡ ok tt → IsMessage m
unfolding validate_message
validate_message-IsMessage m h = ground arith

pub IsMessage-validate_message : (m : Message) → IsMessage m → validate_message m ≡ ok tt
unfolding validate_message
IsMessage-validate_message m v = ground arith

-- The message after a call: every method sets some of these fields.
abbrev pub advance : Message → MessageStatus → Bytes → Option Time → Bytes → Bytes → Time → Message
advance m s text ended phase code now = record m {
  status = s;
  content = text;
  failure_phase = phase;
  error_code = code;
  updated_at = now;
  completed_at = ended;
}

not_before : (c u n : Time) → before u c ≡ false → before n u ≡ false → before n c ≡ false
not_before c u n h k = ground arith

-- A change of these fields keeps a message valid when the new values fit together.
pub advance-valid :
    (m : Message) (s : MessageStatus) (text : Bytes) (ended : Option Time) (p c : Bytes)
    (now : Time)
    → IsMessage m
    → valid_transition_time m.updated_at now ≡ true
    → is_ok (validate_message_status s) ≡ true
    → valid_utf8 text ≡ true
    → (valid_optional_metadata p ≡ true) × (valid_optional_metadata c ≡ true)
    → same (is_terminal s) (is_some ended) ≡ true
    → misdated (advance m s text ended p c now) ≡ false
    → validate_message (advance m s text ended p c now) ≡ ok tt
advance-valid m s text ended p c now v t w x q k d = IsMessage-validate_message _ (record {
  has_id = v.has_id;
  has_thread = v.has_thread;
  has_role = v.has_role;
  has_status = w;
  has_ordinal = v.has_ordinal;
  created = v.created;
  updated = ground arith;
  in_order = not_before m.created_at m.updated_at now v.in_order (ground arith);
  has_content = x;
  has_provider = v.has_provider;
  has_phase = q.0;
  has_code = q.1;
  ended = k;
  end_dated = d;
})

pub not_ended_yet :
    (m : Message) → IsMessage m → is_terminal m.status ≡ false → m.completed_at ≡ none
not_ended_yet m v h = ground arith

pub ended_now :
    (m : Message) (s : MessageStatus) (text p c : Bytes) (now : Time)
    → IsMessage m
    → valid_transition_time m.updated_at now ≡ true
    → misdated (advance m s text (some now) p c now) ≡ false
ended_now m s text p c now v t = ground (arith, not_before m.created_at m.updated_at now v.in_order)
