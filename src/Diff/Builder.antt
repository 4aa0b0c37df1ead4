-- ===== src/Diff/Builder.antt =====
-- internal/diff: the records that the parser fills in while it reads one file section. Offsets and
-- counts are never negative, so numbers; an unset pointer or offset is `none`.
use nudge.Base.{Bool, List, Option, ℕ}
use nudge.Base.Bytes.{Bytes}
use nudge.Repo.Hunk.{DiffHunk, DiffLine, DiffLineKind}
use nudge.Repo.Path.{ObjectId, RepoPath}

abbrev pub patch_index_version : ℕ
patch_index_version = 1

pub record PatchHunkIndex : Type 0 where
  pub version : ℕ
  pub id : Bytes
  pub offset : ℕ
  pub size : ℕ  -- Length
  pub base_start : ℕ
  pub base_count : ℕ
  pub head_start : ℕ
  pub head_count : ℕ
  pub rows : ℕ
  pub sha256 : Bytes

pub record PatchLine : Type 0 where
  pub offset : ℕ
  pub end : ℕ
  pub text : Bytes
  pub terminated : Bool

pub record HunkBuilder : Type 0 where
  pub index : PatchHunkIndex
  pub header : Bytes
  pub base_seen : ℕ
  pub head_seen : ℕ
  pub rows : ℕ
  pub lines : List DiffLine
  pub last_content_index : Option ℕ
  pub last_content_kind : Option DiffLineKind
  pub base_no_newline_seen : Bool
  pub head_no_newline_seen : Bool

pub record SectionBuilder : Type 0 where
  pub start : ℕ
  pub header_len : ℕ
  pub last_end : ℕ
  pub old_path : Option RepoPath
  pub new_path : Option RepoPath
  pub rename_from : Option RepoPath
  pub rename_to : Option RepoPath
  pub copy_from : Option RepoPath
  pub copy_to : Option RepoPath
  pub old_mode : ℕ
  pub new_mode : ℕ
  pub index_mode : ℕ
  pub old_mode_set : Bool
  pub new_mode_set : Bool
  pub index_mode_set : Bool
  pub old_object : Option ObjectId
  pub new_object : Option ObjectId
  pub binary : Bool
  pub binary_start : Option ℕ
  pub binary_complete : Bool
  pub metadata_bytes : ℕ
  pub hunk : Option HunkBuilder
  pub hunks : List PatchHunkIndex
  pub diff_hunks : List DiffHunk
  pub collect : Bool
  pub total_rows : ℕ
  pub similarity_percent : ℕ
  pub similarity_set : Bool
