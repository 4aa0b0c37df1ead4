-- ===== src/Repo/Symlink.antt =====
-- internal/domain/repository/symlink.go: the lexical class of a link's target, and the evidence of it.
pub mod Contained
use nudge.Base.{
  Bool, List, [], any, false, if◌then◌else◌, length, ltb, not, take, true, ℕ, ◌&&◌, ◌*◌, ◌++◌, ◌==◌,
  ◌||◌, ◌∷◌,
}
use nudge.Base.Bytes.{Bytes, bytes_eq, codes, has_byte, is_empty}
use nudge.Base.Int.{negsuc, pos, ℤ}
use nudge.Base.Result.{Result, err, fail_if, is_ok, ok, ◌>>=◌, ◌>>◌}
use nudge.Base.Text.{split}
use nudge.Base.Utf8.{valid_text}
use nudge.Repo.Digest.{Digest}
use nudge.Repo.Path.{
  RepoError, RepoPath, invalid_symlink_evidence, new_repo_path, validate_repo_path,
}

pub data SymlinkTargetClass : Type 0 where
  relative_contained absolute lexically_escaping git_admin_alias : SymlinkTargetClass
  unrepresentable containment_unknown : SymlinkTargetClass
  class_other : Bytes → SymlinkTargetClass

-- `SymlinkTargetClass.Validate`.
abbrev pub validate_target_class : SymlinkTargetClass → Result RepoError (Unit {0})
validate_target_class (class_other s) = err invalid_symlink_evidence
validate_target_class _ = ok tt

abbrev pub is_relative_contained : SymlinkTargetClass → Bool
is_relative_contained relative_contained = true
is_relative_contained _ = false

abbrev pub symlink_inline_preview_max : ℕ
symlink_inline_preview_max = 4 * 1024

abbrev pub symlink_max_components : ℕ
symlink_max_components = 256

abbrev pub symlink_max_depth : ℕ
symlink_max_depth = 128

abbrev pub symlink_primitive_version : Bytes
symlink_primitive_version = codes "v1"

-- `bytes.EqualFold(c, ".git")`: no other rune folds to one of these letters.
abbrev pub is_git_admin : Bytes → Bool
is_git_admin (a ∷ b ∷ c ∷ d ∷ []) =
    a == b'.' && (b == b'g' || b == b'G') && (c == b'i' || c == b'I') && (d == b't' || d == b'T')
is_git_admin _ = false

-- `stack[:len(stack)-1]`.
abbrev pub drop_last : List Bytes → List Bytes
drop_last [] = []
drop_last (x ∷ []) = []
drop_last (x ∷ y ∷ xs) = x ∷ drop_last (y ∷ xs)

abbrev is_nil : List Bytes → Bool
is_nil [] = true
is_nil (x ∷ xs) = false

-- The `switch` on a component: the new stack, or the class that is returned.
unfoldable pub move : List Bytes → Bytes → Result SymlinkTargetClass (List Bytes)
move stack c =
    if bytes_eq c (codes "..")
    then (fail_if (is_nil stack) lexically_escaping >> ok (drop_last stack))
    else ok (stack ++ c ∷ [])

-- A round of the loop over the components.
unfoldable pub enter : ℕ → List Bytes → Bytes → Result SymlinkTargetClass (List Bytes)
enter max_depth stack c =
    fail_if (is_empty c) unrepresentable
    >> (fail_if (is_git_admin c) git_admin_alias
        >> (if bytes_eq c (codes ".") then ok stack else do
          next ← move stack c
          fail_if (ltb max_depth (length next)) unrepresentable
          ok next))

-- The loop over the components.
unfoldable pub walk : ℕ → List Bytes → List Bytes → Result SymlinkTargetClass (List Bytes)
walk max_depth stack [] = ok stack
walk max_depth stack (c ∷ cs) = enter max_depth stack c >>= λ next. walk max_depth next cs

-- A bound, or its default when it is not positive.
abbrev bound_or : ℤ → ℕ → ℕ
bound_or (pos n) default = if n == 0 then default else n
bound_or (negsuc n) default = default

abbrev second_is : ℕ → Bytes → Bool
second_is b [] = false
second_is b (x ∷ []) = false
second_is b (x ∷ y ∷ s) = y == b

-- `target[0]` is a separator, or the target starts like a drive.
abbrev pub is_absolute : Bytes → Bool
is_absolute [] = false
is_absolute (c ∷ s) = c == b'/' || c == b'\\' || second_is b':' (c ∷ s)

abbrev pub slash : Bytes
slash = codes "/"

-- The directory of a path, from the root of the repository.
unfoldable pub parent_of : RepoPath → List Bytes
parent_of path = drop_last (split path slash)

-- `ClassifySymlinkTarget`, as the class that stops it or the place that the target names.
unfoldable pub resolve_target : RepoPath → Bytes → ℤ → ℤ → Result SymlinkTargetClass (List Bytes)
resolve_target path target max_components max_depth = do
  fail_if (not (is_ok (validate_repo_path path))) containment_unknown
  fail_if (is_empty target || has_byte 0 target) unrepresentable
  fail_if (is_absolute target) absolute
  fail_if (has_byte b'\\' target) unrepresentable
  fail_if (any is_git_admin (parent_of path)) git_admin_alias
  fail_if (ltb (bound_or max_components symlink_max_components) (length (split target slash)))
      unrepresentable
  walk (bound_or max_depth symlink_max_depth) (parent_of path) (split target slash)

-- `ClassifySymlinkTarget`.
unfoldable pub classify_symlink_target : RepoPath → Bytes → ℤ → ℤ → SymlinkTargetClass
classify_symlink_target path target max_components max_depth =
    elim (resolve_target path target max_components max_depth) [
      | ok place ↦ relative_contained
      | err k ↦ k
    ]

pub record SymlinkTargetRef : Type 0 where
  pub target_hash : Bytes
  pub target_length : ℕ
  pub inline_preview : Bytes

pub record SymlinkEvidence : Type 0 where
  pub path_key : RepoPath
  pub target_hash : Bytes
  pub target_length : ℕ
  pub target_class : SymlinkTargetClass
  pub root_identity : Bytes
  pub parent_chain_hash : Bytes
  pub platform : Bytes
  pub primitive_version : Bytes
  pub reason_code : Bytes

-- `symlinkReason`.
unfoldable pub symlink_reason : SymlinkTargetClass → Bytes
symlink_reason absolute = codes "symlink_absolute"
symlink_reason lexically_escaping = codes "symlink_lexically_escaping"
symlink_reason git_admin_alias = codes "symlink_git_admin_alias"
symlink_reason unrepresentable = codes "symlink_unrepresentable"
symlink_reason containment_unknown = codes "symlink_containment_unknown"
symlink_reason relative_contained = []
symlink_reason (class_other s) = []

-- `validSymlinkReason`.
unfoldable pub valid_symlink_reason : Bytes → Bool
valid_symlink_reason value = any (bytes_eq value) (
    codes "symlink_absolute"
    ∷ codes "symlink_lexically_escaping"
    ∷ codes "symlink_git_admin_alias"
    ∷ codes "symlink_unrepresentable"
    ∷ codes "symlink_containment_unknown"
    ∷ codes "symlink_platform_unavailable"
    ∷ codes "symlink_reparse_unsupported"
    ∷ codes "symlink_stale"
    ∷ [])

-- `validContentHash` of content.go.
abbrev pub valid_content_hash : Bytes → Bool
valid_content_hash value = not (is_empty value) && valid_text value

-- `SymlinkEvidence.Validate`.
unfoldable pub validate_symlink_evidence : SymlinkEvidence → Result RepoError (Unit {0})
validate_symlink_evidence e = do
  fail_if
      (not (is_ok (new_repo_path e.path_key))
        || not (valid_content_hash e.target_hash)
        || not (is_ok (validate_target_class e.target_class))
        || not (valid_text e.root_identity)
        || not (valid_text e.parent_chain_hash)
        || not (valid_text e.platform)
        || not (valid_text e.primitive_version))
      invalid_symlink_evidence
  fail_if
      (if is_relative_contained e.target_class
        then not (is_empty e.reason_code)
        else not (valid_symlink_reason e.reason_code))
      invalid_symlink_evidence

-- `SymlinkEvidence.IsActionable`.
unfoldable pub is_actionable : SymlinkEvidence → Bool
is_actionable e =
    is_ok (validate_symlink_evidence e)
    && is_relative_contained e.target_class
    && bytes_eq e.primitive_version symlink_primitive_version
    && is_empty e.reason_code

module _ (d : Digest) where
  -- `NewSymlinkTargetRef`.
  unfoldable pub new_symlink_target_ref : Bytes → SymlinkTargetRef
  new_symlink_target_ref target = record {
    target_hash = d.digest target;
    target_length = length target;
    inline_preview = take symlink_inline_preview_max target;
  }

  -- The evidence that `NewSymlinkEvidence` fills in.
  unfoldable pub symlink_evidence :
      RepoPath → Bytes → Bytes → Bytes → Bytes → Bytes → SymlinkEvidence
  unfolding new_symlink_target_ref
  symlink_evidence path target root chain platform version =
      let r = new_symlink_target_ref target in
      let k =
        classify_symlink_target path target (pos symlink_max_components) (pos symlink_max_depth) in
      record {
        path_key = path;
        target_hash = r.target_hash;
        target_length = r.target_length;
        target_class = k;
        root_identity = root;
        parent_chain_hash = chain;
        platform = platform;
        primitive_version = version;
        reason_code = symlink_reason k;
      }

  -- `NewSymlinkEvidence`.
  unfoldable pub new_symlink_evidence :
      RepoPath → Bytes → Bytes → Bytes → Bytes → Bytes → Result RepoError SymlinkEvidence
  new_symlink_evidence path target root chain platform version =
      let e = symlink_evidence path target root chain platform version in
      fail_if
        (not (is_ok (validate_repo_path path))
          || not (valid_text root)
          || not (valid_text chain)
          || not (valid_text platform)
          || not (valid_text version))
        invalid_symlink_evidence
      >> (validate_symlink_evidence e >> ok e)
