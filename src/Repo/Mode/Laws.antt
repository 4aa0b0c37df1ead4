-- ===== src/Repo/Mode/Laws.antt =====
-- A transition that `NewModeTransition` builds is the evidence that `Validate` asks for.
use nudge.Base.{arith, length, refl, true, ℕ, ◌==◌, ◌↔◌, ◌≡◌}
use nudge.Base.Bytes.{Bytes, bytes_eq_refl}
use nudge.Base.Result.{ok}
use nudge.Repo.Digest.{Digest, valid_sha256}
use nudge.Repo.Mode.{
  GitModeClass, ModeTransition, ModeTransitionKind, classify_git_mode, executable_off,
  executable_on, git_mode_policy_version, mode_class_eq, new_mode_transition, regular_executable,
  regular_non_executable, transition_hash, transition_kind, transition_kind_eq, transition_text,
  tree, type_changed, unchanged, unsupported, unsupported_move, validate_mode_transition,
}

transition_kind_eq_refl : (k : ModeTransitionKind) → transition_kind_eq k k ≡ true
transition_kind_eq_refl unchanged = refl
transition_kind_eq_refl executable_on = refl
transition_kind_eq_refl executable_off = refl
transition_kind_eq_refl type_changed = refl
transition_kind_eq_refl unsupported_move = refl

mode_class_eq_refl : (c : GitModeClass) → mode_class_eq c c ≡ true
mode_class_eq_refl regular_non_executable = refl
mode_class_eq_refl regular_executable = refl
mode_class_eq_refl GitModeClass.symlink = refl
mode_class_eq_refl GitModeClass.gitlink = refl
mode_class_eq_refl tree = refl
mode_class_eq_refl unsupported = refl

unchanged_iff :
    (old new : ℕ)
    → (transition_kind old new (classify_git_mode old) (classify_git_mode new) ≡ unchanged)
      ↔ (old ≡ new)
unfolding transition_kind
unchanged_iff old new = ground arith

sha256-length : (s : Bytes) → valid_sha256 s ≡ true → (length s == 64) ≡ true
unfolding valid_sha256
sha256-length s h = ground arith

module _ (d : Digest) where
  -- A transition that `NewModeTransition` builds between two modes keeps both modes, is unchanged
  -- only between equal modes, and is the evidence that `Validate` accepts.
  pub new_mode_transition-valid :
      (old new : ℕ) (t : ModeTransition)
      → new_mode_transition d old new ≡ ok t
      → (t.old_mode ≡ old)
        × (t.new_mode ≡ new)
        × ((t.kind ≡ unchanged) ↔ (old ≡ new))
        × (validate_mode_transition d t ≡ ok tt)
  unfolding new_mode_transition validate_mode_transition transition_hash
  new_mode_transition-valid old new t e = ground (
    arith,
    transition_kind_eq_refl t.kind,
    mode_class_eq_refl (classify_git_mode old),
    mode_class_eq_refl (classify_git_mode new),
    bytes_eq_refl t.evidence_hash,
    bytes_eq_refl git_mode_policy_version,
    unchanged_iff old new,
    d.digest_form (
        transition_text git_mode_policy_version old new (classify_git_mode old)
          (classify_git_mode new)
          (transition_kind old new (classify_git_mode old) (classify_git_mode new))),
    sha256-length t.evidence_hash,
  )
