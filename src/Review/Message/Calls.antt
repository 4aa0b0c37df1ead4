-- ===== src/Review/Message/Calls.antt =====
-- What any sequence of calls does to a message of internal/domain/review/message.go.
use Prim.Native.Char.{code}
use nudge.Base.{
  Option, [], append-nil, arith, false, not, refl, some, sym, true, ◌&&◌, ◌++◌, ◌||◌, ◌≡◌,
}
use nudge.Base.Bytes.{Bytes}
use nudge.Base.Int.{◌≤ℤ◌}
use nudge.Base.Result.{Result, fail_if-eq-ok, fails, is_ok, is_ok-unit, ok}
use nudge.Base.Time.{Time}
use nudge.Base.Utf8.{valid_utf8, valid_utf8-append}
use nudge.Review.Message.{
  Message, MessageStatus, append_content, begin_streaming, cancel, complete, fail, is_pending,
  is_streaming, is_terminal, message_cancelled, message_completed, message_failed,
  message_streaming, valid_transition_time, validate_message, validate_message_status,
}
use nudge.Review.Message.Valid.{
  IsMessage, advance, advance-valid, ended_now, not_ended_yet, validate_message-IsMessage,
}
use nudge.Review.Values.{ReviewError, valid_metadata, valid_optional_metadata}

pub data MessageCall : Type 0 where
  begins completes cancels : MessageCall
  appends : Bytes → MessageCall
  fails_with : Bytes → Bytes → MessageCall

-- A call of a method, at a time.
unfoldable pub call : Message → MessageCall → Time → Result ReviewError Message
call m begins now = begin_streaming m now
call m completes now = complete m now
call m cancels now = cancel m now
call m (appends delta) now = append_content m delta now
call m (fails_with phase code) now = fail m phase code now

-- What a call that is granted keeps and changes.
pub record IsAdvanced (m m' : Message) (now : Time) : Type 0 where
  pub valid : validate_message m' ≡ ok tt
  pub not_ended : is_terminal m.status ≡ false
  pub same_id : m'.id ≡ m.id
  pub same_thread : m'.thread_id ≡ m.thread_id
  pub same_ordinal : m'.ordinal ≡ m.ordinal
  pub dated : m'.updated_at ≡ now
  pub later : m.updated_at ≤ℤ now
  pub content_kept : (s : Bytes) × (m'.content ≡ m.content ++ s)

-- What every method asks for.
abbrev IsGranted : Message → Time → Type 0
IsGranted m now =
    IsMessage m × (valid_transition_time m.updated_at now ≡ true) × (is_terminal m.status ≡ false)

advance-IsAdvanced :
    (m : Message) (s : MessageStatus) (text : Bytes) (ended : Option Time) (p c : Bytes)
    (now : Time)
    → validate_message (advance m s text ended p c now) ≡ ok tt
    → IsGranted m now
    → ((tail : Bytes) × (text ≡ m.content ++ tail))
    → IsAdvanced m (advance m s text ended p c now) now
advance-IsAdvanced m s text ended p c now v g x = record {
  valid = v;
  not_ended = g.2;
  same_id = refl;
  same_thread = refl;
  same_ordinal = refl;
  dated = refl;
  later = ground (arith, g.1);
  content_kept = x;
}

validated-IsGranted :
    (m : Message) (now : Time)
    → is_ok (validate_message m) ≡ true
    → valid_transition_time m.updated_at now ≡ true
    → is_terminal m.status ≡ false
    → IsGranted m now
validated-IsGranted m now v t k =
    (validate_message-IsMessage m (is_ok-unit (validate_message m) v), t, k)

-- A method that leaves the message open.
advance_open :
    (m m' : Message) (s : MessageStatus) (tail : Bytes) (now : Time)
    → IsGranted m now
    → is_ok (validate_message_status s) ≡ true
    → is_terminal s ≡ false
    → valid_utf8 tail ≡ true
    → advance m s (m.content ++ tail) m.completed_at m.failure_phase m.error_code now ≡ m'
    → IsAdvanced m m' now
advance_open m m' s tail now g w k x e =
    let v = g.0 in
    let n = not_ended_yet m v g.2 in
    rw (sym e) (
      advance-IsAdvanced m s (m.content ++ tail) m.completed_at m.failure_phase m.error_code now
        (advance-valid m s (m.content ++ tail) m.completed_at m.failure_phase m.error_code now v g.1
          w (valid_utf8-append m.content tail v.has_content x) (v.has_phase, v.has_code)
          (ground (arith, n)) (ground (arith, n)))
        g (tail, refl))

-- A method that ends the message.
advance_end :
    (m m' : Message) (s : MessageStatus) (p c : Bytes) (now : Time)
    → IsGranted m now
    → is_ok (validate_message_status s) ≡ true
    → is_terminal s ≡ true
    → (valid_optional_metadata p ≡ true) × (valid_optional_metadata c ≡ true)
    → advance m s m.content (some now) p c now ≡ m'
    → IsAdvanced m m' now
advance_end m m' s p c now g w k q e =
    let v = g.0 in
    rw (sym e) (
      advance-IsAdvanced m s m.content (some now) p c now
        (advance-valid m s m.content (some now) p c now v g.1 w v.has_content q (ground arith)
          (ended_now m s m.content p c now v g.1))
        g ([], sym (append-nil m.content)))

metadata-optional : (s : Bytes) → valid_metadata s ≡ true → valid_optional_metadata s ≡ true
unfolding valid_metadata valid_optional_metadata
metadata-optional s h = ground arith

open-IsGranted :
    (m : Message) (now : Time)
    → fails (validate_message m)
        || not (is_pending m.status) && not (is_streaming m.status)
        || not (valid_transition_time m.updated_at now)
      ≡ false
    → IsGranted m now
open-IsGranted m now h = validated-IsGranted m now (ground arith) (ground arith) (ground arith)

begin_streaming-IsAdvanced :
    (m m' : Message) (now : Time) → begin_streaming m now ≡ ok m' → IsAdvanced m m' now
unfolding begin_streaming valid_utf8
begin_streaming-IsAdvanced m m' now e =
    let (h, k) = fail_if-eq-ok _ _ e in
    advance_open m m' message_streaming [] now
      (validated-IsGranted m now (ground arith) (ground arith) (ground arith)) refl refl refl
      (rw (append-nil m.content) k)

append_content-IsAdvanced :
    (m m' : Message) (s : Bytes) (now : Time) → append_content m s now ≡ ok m' → IsAdvanced m m' now
unfolding append_content
append_content-IsAdvanced m m' s now e =
    let (h, k) = fail_if-eq-ok _ _ e in
    advance_open m m' m.status s now
      (validated-IsGranted m now (ground arith) (ground arith) (ground arith)) (ground arith)
      (ground arith) (ground arith) k

complete-IsAdvanced : (m m' : Message) (now : Time) → complete m now ≡ ok m' → IsAdvanced m m' now
unfolding complete
complete-IsAdvanced m m' now e =
    let (h, k) = fail_if-eq-ok _ _ e in
    let g = open-IsGranted m now h in
    advance_end m m' message_completed m.failure_phase m.error_code now g refl refl
      (g.0.has_phase, g.0.has_code) k

cancel-IsAdvanced : (m m' : Message) (now : Time) → cancel m now ≡ ok m' → IsAdvanced m m' now
unfolding cancel
cancel-IsAdvanced m m' now e =
    let (h, k) = fail_if-eq-ok _ _ e in
    let g = open-IsGranted m now h in
    advance_end m m' message_cancelled m.failure_phase m.error_code now g refl refl
      (g.0.has_phase, g.0.has_code) k

fail-IsAdvanced :
    (m m' : Message) (p c : Bytes) (now : Time) → fail m p c now ≡ ok m' → IsAdvanced m m' now
unfolding fail
fail-IsAdvanced m m' p c now e =
    let (h, k) = fail_if-eq-ok _ _ e in
    advance_end m m' message_failed p c now
      (validated-IsGranted m now (ground arith) (ground arith) (ground arith)) refl refl
      (metadata-optional p (ground arith), metadata-optional c (ground arith)) k

-- A call that is granted leaves a valid message, dated with the call, with the same identity and
-- with the text it had, possibly followed by more. A terminal message grants no call, and no call
-- goes back in time.
pub call-IsAdvanced :
    (m m' : Message) (c : MessageCall) (now : Time) → call m c now ≡ ok m' → IsAdvanced m m' now
unfolding call
call-IsAdvanced m m' begins now e = begin_streaming-IsAdvanced m m' now e
call-IsAdvanced m m' completes now e = complete-IsAdvanced m m' now e
call-IsAdvanced m m' cancels now e = cancel-IsAdvanced m m' now e
call-IsAdvanced m m' (appends s) now e = append_content-IsAdvanced m m' s now e
call-IsAdvanced m m' (fails_with p c) now e = fail-IsAdvanced m m' p c now e
