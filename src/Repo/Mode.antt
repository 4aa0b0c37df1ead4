-- ===== src/Repo/Mode.antt =====
-- internal/domain/repository/mode.go: the semantic class of a Git tree mode, and the relation of two.
pub mod Laws
use nudge.Base.{Bool, [], false, if◌then◌else◌, length, not, true, ℕ, ◌&&◌, ◌++◌, ◌==◌, ◌||◌, ◌∷◌}
use nudge.Base.Bytes.{Bytes, bytes_eq, codes}
use nudge.Base.Result.{Result, err, fail_if, is_ok, ok, ◌>>◌}
use nudge.Base.Text.{format_uint}
use nudge.Repo.Digest.{Digest}
use nudge.Repo.Path.{RepoError, invalid_git_mode, invalid_mode_transition}

pub data GitModeClass : Type 0 where
  regular_non_executable regular_executable symlink gitlink tree unsupported : GitModeClass

abbrev pub mode_class_eq : GitModeClass → GitModeClass → Bool
mode_class_eq regular_non_executable regular_non_executable = true
mode_class_eq regular_executable regular_executable = true
mode_class_eq symlink symlink = true
mode_class_eq gitlink gitlink = true
mode_class_eq tree tree = true
mode_class_eq unsupported unsupported = true
mode_class_eq _ _ = false

pub data ModeTransitionKind : Type 0 where
  unchanged executable_on executable_off type_changed unsupported_move : ModeTransitionKind

abbrev pub transition_kind_eq : ModeTransitionKind → ModeTransitionKind → Bool
transition_kind_eq unchanged unchanged = true
transition_kind_eq executable_on executable_on = true
transition_kind_eq executable_off executable_off = true
transition_kind_eq type_changed type_changed = true
transition_kind_eq unsupported_move unsupported_move = true
transition_kind_eq _ _ = false

-- `ClassifyGitMode`.
unfoldable pub classify_git_mode : ℕ → GitModeClass
classify_git_mode mode =
    if mode == 0o100644
    then regular_non_executable
    else if mode == 0o100755
    then regular_executable
    else if mode == 0o120000
    then GitModeClass.symlink
    else if mode == 0o160000
    then GitModeClass.gitlink
    else if mode == 0o040000
    then tree
    else unsupported

-- `ValidateGitMode`.
unfoldable pub validate_git_mode : ℕ → Result RepoError (Unit {0})
unfolding classify_git_mode
validate_git_mode mode =
    fail_if (mode_class_eq (classify_git_mode mode) unsupported) invalid_git_mode

pub record ModeTransition : Type 0 where
  pub policy_version : Bytes
  pub old_mode : ℕ
  pub new_mode : ℕ
  pub old_class : GitModeClass
  pub new_class : GitModeClass
  pub kind : ModeTransitionKind
  pub evidence_hash : Bytes

-- The `switch` of `NewModeTransition`.
unfoldable pub transition_kind : ℕ → ℕ → GitModeClass → GitModeClass → ModeTransitionKind
transition_kind old new old_class new_class =
    if old == new
    then unchanged
    else if mode_class_eq old_class regular_non_executable
        && mode_class_eq new_class regular_executable
    then executable_on
    else if mode_class_eq old_class regular_executable
        && mode_class_eq new_class regular_non_executable
    then executable_off
    else if not (mode_class_eq old_class new_class)
    then type_changed
    else unsupported_move

abbrev pub git_mode_policy_version : Bytes
git_mode_policy_version = codes "v1"

class_text : GitModeClass → Bytes
class_text regular_non_executable = codes "regular_non_executable"
class_text regular_executable = codes "regular_executable"
class_text symlink = codes "symlink"
class_text gitlink = codes "gitlink"
class_text tree = codes "tree"
class_text unsupported = codes "unsupported"

kind_text : ModeTransitionKind → Bytes
kind_text unchanged = codes "unchanged"
kind_text executable_on = codes "executable_on"
kind_text executable_off = codes "executable_off"
kind_text type_changed = codes "type_changed"
kind_text unsupported_move = codes "unsupported"

abbrev nul_ended : Bytes → Bytes
nul_ended s = s ++ 0 ∷ []

-- The text that `modeTransitionHash` hashes, over the fields of the transition but its hash.
unfoldable pub transition_text :
    Bytes → ℕ → ℕ → GitModeClass → GitModeClass → ModeTransitionKind → Bytes
unfolding class_text kind_text
transition_text version old new old_class new_class kind =
    nul_ended version
    ++ (nul_ended (format_uint 8 old)
        ++ (nul_ended (format_uint 8 new)
            ++ (nul_ended (class_text old_class)
                ++ (nul_ended (class_text new_class) ++ nul_ended (kind_text kind)))))

module _ (d : Digest) where
  -- `modeTransitionHash`.
  unfoldable pub transition_hash :
      Bytes → ℕ → ℕ → GitModeClass → GitModeClass → ModeTransitionKind → Bytes
  transition_hash version old new old_class new_class kind =
      d.digest (transition_text version old new old_class new_class kind)

  -- `NewModeTransition`.
  unfoldable pub new_mode_transition : ℕ → ℕ → Result RepoError ModeTransition
  new_mode_transition old new =
      let old_class = classify_git_mode old in
      let new_class = classify_git_mode new in
      let kind = transition_kind old new old_class new_class in
      fail_if (not (is_ok (validate_git_mode old)) || not (is_ok (validate_git_mode new)))
        invalid_mode_transition
      >> ok (record {
        policy_version = git_mode_policy_version;
        old_mode = old;
        new_mode = new;
        old_class = old_class;
        new_class = new_class;
        kind = kind;
        evidence_hash = transition_hash git_mode_policy_version old new old_class new_class kind;
      })

  abbrev agrees : ModeTransition → Result RepoError ModeTransition → Bool
  agrees t (ok expected) =
      transition_kind_eq expected.kind t.kind && bytes_eq t.evidence_hash expected.evidence_hash
  agrees t (err e) = false

  -- `ModeTransition.Validate`. A class or kind outside the constants is no value of the model.
  unfoldable pub validate_mode_transition : ModeTransition → Result RepoError (Unit {0})
  validate_mode_transition t =
      fail_if
        (not (bytes_eq t.policy_version git_mode_policy_version)
          || not (is_ok (validate_git_mode t.old_mode))
          || not (is_ok (validate_git_mode t.new_mode))
          || not (mode_class_eq t.old_class (classify_git_mode t.old_mode))
          || not (mode_class_eq t.new_class (classify_git_mode t.new_mode))
          || not (length t.evidence_hash == 64))
        invalid_mode_transition
      >> fail_if (not (agrees t (new_mode_transition t.old_mode t.new_mode)))
          invalid_mode_transition
