-- ===== src/Repo/Rename/Laws.antt =====
-- When rename evidence of internal/domain/repository/rename.go is built, and for which paths.
use mathlib.Core.Path.{subst}
use nudge.Base.{
  Bool, Bool-cases, ap, arith, false, inl, inr, not, refl, sym, true, ℕ, ◌||◌, ◌↔◌, ◌∙◌, ◌≡◌, ◌≢◌,
  ◌≤◌, ◌⊎◌,
}
use nudge.Base.Bytes.{Bytes, bytes_eq, bytes_eq_refl, bytes_eq_sound}
use nudge.Base.Result.{
  Result-cases, fail_if, fail_if->>-ok, is_ok, is_ok-unit, is_ok-value, map_result, ok, ◌>>◌,
}
use nudge.Repo.Digest.{Digest, digest_text}
use nudge.Repo.Path.{RepoPath, invalid_rename_evidence, validate_repo_path}
use nudge.Repo.Rename.{
  ChangeKind, RenameEvidence, bad_score, change_added, change_copied, change_deleted,
  change_modified, change_other, change_renamed, change_type_changed, change_untracked, is_move,
  matches_paths, new_rename_evidence, rename_evidence_hash, rename_text, validate_rename,
}

-- What rename evidence is about: two different paths of the repository, a policy version, a score
-- from 60 to 100, and a rename or a copy.
pub record IsMoved (version similarity : ℕ) (kind : ChangeKind) (old_path new_path : RepoPath)
    : Type 0 where
  pub from_path : validate_repo_path old_path ≡ ok tt
  pub to_path : validate_repo_path new_path ≡ ok tt
  pub apart : old_path ≢ new_path
  pub versioned : 1 ≤ version
  pub least : 60 ≤ similarity
  pub most : similarity ≤ 100
  pub moved : (kind ≡ change_renamed) ⊎ (kind ≡ change_copied)

is_move-cases :
    (kind : ChangeKind) → is_move kind ≡ true → (kind ≡ change_renamed) ⊎ (kind ≡ change_copied)
is_move-cases change_renamed h = inl refl
is_move-cases change_copied h = inr refl
is_move-cases change_added h = absurd (cc h)
is_move-cases change_modified h = absurd (cc h)
is_move-cases change_deleted h = absurd (cc h)
is_move-cases change_type_changed h = absurd (cc h)
is_move-cases change_untracked h = absurd (cc h)
is_move-cases (change_other s) h = absurd (cc h)

moves-is_move :
    (kind : ChangeKind) → (kind ≡ change_renamed) ⊎ (kind ≡ change_copied) → is_move kind ≡ true
moves-is_move kind (inl e) = ap is_move e
moves-is_move kind (inr e) = ap is_move e

bytes_eq-apart : (s t : Bytes) → s ≢ t → bytes_eq s t ≡ false
bytes_eq-apart s t n = elim (Bool-cases (bytes_eq s t)) [
  | inl e ↦ absurd (n (bytes_eq_sound s t e))
  | inr e ↦ e
]

apart-bytes_eq : (s t : Bytes) → bytes_eq s t ≡ false → s ≢ t
apart-bytes_eq s t h e =
    let same : bytes_eq s t ≡ true = subst (λ x. bytes_eq s x ≡ true) e (bytes_eq_refl s) in
    absurd (cc (h, same))

module _ (d : Digest) where
  abbrev evidence : ℕ → ℕ → ChangeKind → RepoPath → RepoPath → RenameEvidence
  evidence version similarity kind old_path new_path = record {
    policy_version = version;
    similarity_percent = similarity;
    kind = kind;
    evidence_hash = rename_evidence_hash d version similarity kind old_path new_path;
  }

  built :
      (version similarity : ℕ) (kind : ChangeKind) (old_path new_path : RepoPath)
      → IsMoved version similarity kind old_path new_path
      → new_rename_evidence d version similarity kind old_path new_path
        ≡ ok (evidence version similarity kind old_path new_path)
  unfolding new_rename_evidence validate_rename rename_evidence_hash
  built version similarity kind old_path new_path m =
      let (a, b) = digest_text d (rename_text version similarity kind old_path new_path) in
      ground (
        arith,
        a,
        b,
        m.from_path,
        m.to_path,
        m.versioned,
        m.least,
        m.most,
        bytes_eq-apart old_path new_path m.apart,
        moves-is_move kind m.moved,
      )

  matched :
      (version similarity : ℕ) (kind : ChangeKind) (old_path new_path : RepoPath)
      → IsMoved version similarity kind old_path new_path
      → matches_paths d (evidence version similarity kind old_path new_path) old_path new_path
        ≡ true
  unfolding matches_paths validate_rename rename_evidence_hash
  matched version similarity kind old_path new_path m =
      let (a, b) = digest_text d (rename_text version similarity kind old_path new_path) in
      ground (
        arith,
        a,
        b,
        m.from_path,
        m.to_path,
        m.versioned,
        m.least,
        m.most,
        bytes_eq-apart old_path new_path m.apart,
        moves-is_move kind m.moved,
        bytes_eq_refl (rename_evidence_hash d version similarity kind old_path new_path),
      )

  needs :
      (version similarity : ℕ) (kind : ChangeKind) (old_path new_path : RepoPath)
      {e : RenameEvidence}
      → new_rename_evidence d version similarity kind old_path new_path ≡ ok e
      → IsMoved version similarity kind old_path new_path
  unfolding new_rename_evidence
  needs version similarity kind old_path new_path h =
      let (t, rest) =
        fail_if->>-ok
          (not (is_ok (validate_repo_path old_path))
            || not (is_ok (validate_repo_path new_path))
            || bytes_eq old_path new_path
            || bad_score version similarity kind)
          invalid_rename_evidence
          (fail_if
              (not (is_ok (validate_rename (evidence version similarity kind old_path new_path))))
              invalid_rename_evidence
            >> ok (evidence version similarity kind old_path new_path))
          h in
      record {
        from_path = is_ok-unit (validate_repo_path old_path) (ground (arith, t));
        to_path = is_ok-unit (validate_repo_path new_path) (ground (arith, t));
        apart = apart-bytes_eq old_path new_path (ground (arith, t));
        versioned = ground (arith, t);
        least = ground (arith, t);
        most = ground (arith, t);
        moved = is_move-cases kind (ground (arith, t));
      }

  -- What evidence says of its making, and whether it is accepted for two paths.
  abbrev pub contents : RepoPath → RepoPath → RenameEvidence → ℕ × ℕ × ChangeKind × Bool
  contents old_path new_path e =
      (e.policy_version, e.similarity_percent, e.kind, matches_paths d e old_path new_path)

  contents-built :
      (version similarity : ℕ) (kind : ChangeKind) (old_path new_path : RepoPath)
      → IsMoved version similarity kind old_path new_path
      → contents old_path new_path (evidence version similarity kind old_path new_path)
        ≡ (version, similarity, kind, true)
  contents-built version similarity kind old_path new_path m =
      ap (λ b. (version, similarity, kind, b)) (matched version similarity kind old_path new_path m)

  contents-result :
      (version similarity : ℕ) (kind : ChangeKind) (old_path new_path : RepoPath)
      → map_result
          (contents old_path new_path)
          (new_rename_evidence d version similarity kind old_path new_path)
        ≡ map_result
            (λ e. (version, similarity, kind, true))
            (new_rename_evidence d version similarity kind old_path new_path)
  contents-result version similarity kind old_path new_path =
      let new = new_rename_evidence d version similarity kind old_path new_path in
      elim (Result-cases new) [
        | inl (e, q) ↦
            let m = needs version similarity kind old_path new_path q in
            let b = built version similarity kind old_path new_path m in
            let c = contents-built version similarity kind old_path new_path m in
            ap (map_result (contents old_path new_path)) b
            ∙ ap ok c
            ∙ sym (ap (map_result (λ x. (version, similarity, kind, true))) b)
        | inr (e, q) ↦
            ap (map_result (contents old_path new_path)) q
            ∙ sym (ap (map_result (λ x. (version, similarity, kind, true))) q)
      ]

  -- `NewRenameEvidence` builds evidence exactly for two different paths of the repository, a
  -- policy version from one on, a score from 60 to 100, and a rename or a copy. The evidence then
  -- has that version, score and kind, and `MatchesPaths` accepts it for these paths.
  pub new_rename_evidence-matches :
      (version similarity : ℕ) (kind : ChangeKind) (old_path new_path : RepoPath)
      → ((is_ok (new_rename_evidence d version similarity kind old_path new_path) ≡ true)
          ↔ IsMoved version similarity kind old_path new_path)
        × (map_result
              (contents old_path new_path)
              (new_rename_evidence d version similarity kind old_path new_path)
            ≡ map_result
                (λ e. (version, similarity, kind, true))
                (new_rename_evidence d version similarity kind old_path new_path))
  new_rename_evidence-matches version similarity kind old_path new_path =
      let new = new_rename_evidence d version similarity kind old_path new_path in
      (
        (
          (λ h.
              let (e, q) = is_ok-value new h in needs version similarity kind old_path new_path q),
          λ m. ap is_ok (built version similarity kind old_path new_path m),
        ),
        contents-result version similarity kind old_path new_path,
      )
