-- ===== src/Review/Intent.antt =====
-- internal/domain/review/proposal.go: the change that a user has confirmed, and its expected paths.
pub mod Sorted
use nudge.Base.{
  Bool, List, Option, [], any, length, ltb, none, not, some, ℕ, ◌*◌, ◌+◌, ◌==◌, ◌||◌, ◌∷◌,
}
use nudge.Base.Bytes.{Bytes, bytes_eq, bytes_ltb, is_empty}
use nudge.Base.Result.{Result, fail_if, fails, ok, present_and, ◌>>=◌, ◌>>◌}
use nudge.Base.Time.{Time, is_zero}
use nudge.Base.Utf8.{valid_utf8}
use nudge.Repo.Path.{RepoPath, validate_repo_path}
use nudge.Review.Values.{ReviewError, invalid_proposal}
use nudge.Review.Workspace.{GenerationProvenance, validate_provenance}

abbrev pub max_proposal_summary_bytes : ℕ
max_proposal_summary_bytes = 64 * 1024

abbrev pub max_proposal_expected_paths : ℕ
max_proposal_expected_paths = 5000

abbrev pub max_proposal_expected_path_bytes : ℕ
max_proposal_expected_path_bytes = 16 * 1024

abbrev pub max_proposal_expected_path_total_bytes : ℕ
max_proposal_expected_path_total_bytes = 512 * 1024

pub record ProposalIntent : Type 0 where
  pub id : Bytes
  pub thread_id : Bytes
  pub summary : Bytes
  pub expected_paths : List RepoPath
  pub anchor_version_id : ℕ
  pub confirmed_against : GenerationProvenance
  pub confirmed_at : Time

-- `index > 0 && string(previous) >= string(key)`; there is a previous key exactly after the first.
abbrev pub out_of_order : Option RepoPath → RepoPath → Bool
out_of_order previous key = present_and (λ p. not (bytes_ltb p key)) previous

-- The loop over the expected paths, with the total so far, the keys seen and the previous one. The
-- total is at most one path over the limit, far from the end of a 64-bit `int`.
unfoldable pub paths_accepted :
    ℕ → List RepoPath → Option RepoPath → List RepoPath → Result ReviewError (Unit {0})
paths_accepted total seen previous [] = ok tt
paths_accepted total seen previous (path ∷ paths) =
    fail_if (fails (validate_repo_path path) || ltb max_proposal_expected_path_bytes (length path))
      invalid_proposal
    >> (fail_if (ltb max_proposal_expected_path_total_bytes (total + length path)) invalid_proposal
        >> (fail_if (any (λ k. bytes_eq k path) seen || out_of_order previous path) invalid_proposal
            >> paths_accepted (total + length path) (path ∷ seen) (some path) paths))

-- `ProposalIntent.Validate`.
unfoldable pub validate_intent : ProposalIntent → Result ReviewError (Unit {0})
validate_intent i = do
  fail_if
      (is_empty i.id
        || is_empty i.thread_id
        || is_empty i.summary
        || not (valid_utf8 i.summary)
        || ltb max_proposal_summary_bytes (length i.summary)
        || i.anchor_version_id == 0
        || is_zero i.confirmed_at)
      invalid_proposal
  validate_provenance i.confirmed_against
  fail_if (ltb max_proposal_expected_paths (length i.expected_paths)) invalid_proposal
  paths_accepted 0 [] none i.expected_paths

-- `NewProposalIntent`; the copy of the paths is the value itself.
unfoldable pub new_proposal_intent : ProposalIntent → Result ReviewError ProposalIntent
new_proposal_intent i = validate_intent i >> ok i
