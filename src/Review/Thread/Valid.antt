-- ===== src/Review/Thread/Valid.antt =====
-- When a thread of internal/domain/review/thread.go is valid, and which changes keep it so.
use nudge.Base.{Bool, List, [], arith, false, not, refl, true, ◌++◌, ◌∷◌, ◌≡◌}
use nudge.Base.Bytes.{Bytes, bytes_eq}
use nudge.Base.Result.{fail_if, fails, is_ok, ok, ◌>>◌}
use nudge.Base.Time.{before, is_zero}
use nudge.Review.Anchor.{AnchorState, CodeAnchor, validate_anchor, validate_anchor_state}
use nudge.Review.Thread.{
  ReviewThread, bad_axes, bad_failure, bad_identity, bad_link, bad_title, has_id, messages_accepted,
  validate_conversation, validate_proposal_state, validate_read_state, validate_resolution,
  validate_thread,
}
use nudge.Review.Values.{
  ReviewError, invalid_review_thread, valid_domain_id, valid_optional_metadata,
}

-- The conditions of `ReviewThread.Validate`, one by one.
pub record IsThread (t : ReviewThread) : Type 0 where
  pub has_thread_id : valid_domain_id t.id ≡ true
  pub has_session : valid_domain_id t.session_id ≡ true
  pub created : is_zero t.created_at ≡ false
  pub updated : is_zero t.updated_at ≡ false
  pub in_order : before t.updated_at t.created_at ≡ false
  pub has_anchor : is_ok (validate_anchor t.anchor) ≡ true
  pub has_resolution : is_ok (validate_resolution t.resolution) ≡ true
  pub has_conversation : is_ok (validate_conversation t.conversation) ≡ true
  pub has_proposal : is_ok (validate_proposal_state t.proposal) ≡ true
  pub has_anchor_state : is_ok (validate_anchor_state t.anchor.state) ≡ true
  pub has_read_state : is_ok (validate_read_state t.read_state) ≡ true
  pub has_title : bad_title t ≡ false
  pub has_provider : bad_link t.provider_conversation_id ≡ false
  pub has_latest : bad_link t.latest_proposal_id ≡ false
  pub has_messages : messages_accepted [] t.messages ≡ true
  pub has_phase : valid_optional_metadata t.failure_phase ≡ true
  pub has_code : valid_optional_metadata t.error_code ≡ true

eight_guards :
    (a b c d e f g h : Bool) (x : ReviewError)
    → fail_if a x
        >> (fail_if b x
            >> (fail_if c x
                >> (fail_if d x >> (fail_if e x >> (fail_if f x >> (fail_if g x >> fail_if h x))))))
      ≡ ok tt
    → (a ≡ false)
      × (b ≡ false)
      × (c ≡ false)
      × (d ≡ false)
      × (e ≡ false)
      × (f ≡ false)
      × (g ≡ false)
      × (h ≡ false)
eight_guards a b c d e f g h x k = ground arith

identity_parts :
    (t : ReviewThread)
    → bad_identity t ≡ false
    → (valid_domain_id t.id ≡ true)
      × (valid_domain_id t.session_id ≡ true)
      × (is_zero t.created_at ≡ false)
      × (is_zero t.updated_at ≡ false)
      × (before t.updated_at t.created_at ≡ false)
identity_parts t h = ground arith

axes_parts :
    (t : ReviewThread)
    → bad_axes t ≡ false
    → (is_ok (validate_resolution t.resolution) ≡ true)
      × (is_ok (validate_conversation t.conversation) ≡ true)
      × (is_ok (validate_proposal_state t.proposal) ≡ true)
      × (is_ok (validate_anchor_state t.anchor.state) ≡ true)
      × (is_ok (validate_read_state t.read_state) ≡ true)
axes_parts t h = ground arith

failure_parts :
    (t : ReviewThread)
    → bad_failure t ≡ false
    → (valid_optional_metadata t.failure_phase ≡ true)
      × (valid_optional_metadata t.error_code ≡ true)
failure_parts t h = ground arith

not-eq-false : (b : Bool) → not b ≡ false → b ≡ true
not-eq-false b h = ground arith

pub validate_thread-IsThread : (t : ReviewThread) → validate_thread t ≡ ok tt → IsThread t
unfolding validate_thread
validate_thread-IsThread t k =
    let (a, b, c, d, e, f, g, h) =
      eight_guards (bad_identity t) (fails (validate_anchor t.anchor)) (bad_axes t) (bad_title t)
        (bad_link t.provider_conversation_id) (bad_link t.latest_proposal_id)
        (not (messages_accepted [] t.messages)) (bad_failure t) invalid_review_thread k in
    let ids = identity_parts t a in
    let axes = axes_parts t c in
    record {
      has_thread_id = ids.0;
      has_session = ids.1;
      created = ids.2;
      updated = ids.3;
      in_order = ids.4;
      has_anchor = not-eq-false (is_ok (validate_anchor t.anchor)) b;
      has_resolution = axes.0;
      has_conversation = axes.1;
      has_proposal = axes.2;
      has_anchor_state = axes.3;
      has_read_state = axes.4;
      has_title = d;
      has_provider = e;
      has_latest = f;
      has_messages = not-eq-false (messages_accepted [] t.messages) g;
      has_phase = (failure_parts t h).0;
      has_code = (failure_parts t h).1;
    }

pub IsThread-validate_thread : (t : ReviewThread) → IsThread t → validate_thread t ≡ ok tt
unfolding validate_thread
IsThread-validate_thread t v = ground arith

-- Only the fields of the status are not read when the anchor is checked.
pub validate_anchor-state :
    (a : CodeAnchor) (s : AnchorState)
    → validate_anchor (record a { state = s }) ≡ validate_anchor a
unfolding validate_anchor
validate_anchor-state a s = refl

any-snoc :
    (known : List Bytes) (new id : Bytes)
    → has_id known id ≡ false
    → bytes_eq new id ≡ false
    → has_id (new ∷ known) id ≡ false
any-snoc known new id h k = ground arith

-- A new identifier that was not seen and is not in the list can be put at its end.
pub messages_accepted-snoc :
    (seen ids : List Bytes) (id : Bytes)
    → messages_accepted seen ids ≡ true
    → valid_domain_id id ≡ true
    → has_id seen id ≡ false
    → has_id ids id ≡ false
    → messages_accepted seen (ids ++ id ∷ []) ≡ true
unfolding messages_accepted
messages_accepted-snoc seen [] id h v k n = ground arith
messages_accepted-snoc seen (a ∷ ids) id h v k n =
    ground (arith, messages_accepted-snoc (a ∷ seen) ids id)
