-- ===== src/Client/Executor/Edit.antt =====
-- editTask and writeTask of internal/akira-client/executor/executor.go, over a disk that maps a file to
-- its content. Which file a path stands for, and which calls fail, is the operating system's matter; a
-- failed write is taken to leave the files as they were. Permissions are not modelled.
use akira_mcp.Base.{
  ℕ, zero, suc, ◌-◌, Bool, true, false, not, ◌&&◌, [], ◌∷◌, ◌++◌, Option, none, some, ◌==◌, list_eq,
  nat_eq, if◌then◌else◌, ltb, length,
}
use akira_mcp.Base.Map.{Map, lookup, insert}
use akira_mcp.Base.Text.{Text, has_prefix}
use akira_mcp.Client.Executor.{TaskResult, status_ok, err_result}

-- pb.EditFileRequest
pub record EditFileRequest : Type 0 where
  pub path : Text
  pub old_str : Text
  pub new_str : Text
  pub replace_all : Bool

-- pb.WriteFileRequest
pub record WriteFileRequest : Type 0 where
  pub path : Text
  pub content : Text
  pub create_dirs : Bool

-- bytes.Replace of a non-empty text, all occurrences that do not overlap from the left, at most
-- `most` of them, and how many they were. `skip` counts the bytes of an occurrence still to pass over.
unfoldable pub replace_from : Text → Text → ℕ → ℕ → Text → Text × ℕ
replace_from old new most skip [] = ([], 0)
replace_from old new most (suc skip) (c ∷ s) = replace_from old new most skip s
replace_from old new zero zero (c ∷ s) = let (t, n) = replace_from old new zero zero s in (c ∷ t, n)
replace_from old new (suc most) zero (c ∷ s) =
    let here = replace_from old new most (length old - 1) s in
    let later = replace_from old new (suc most) zero s in
    if has_prefix (c ∷ s) old then (new ++ here.0, suc here.1) else (c ∷ later.0, later.1)

-- bytes.Count, bytes.Replace and bytes.ReplaceAll; a text has no more occurrences than bytes.
abbrev pub count : Text → Text → ℕ
count s old = (replace_from old [] (length s) 0 s).1

abbrev pub replace : Text → Text → Text → ℕ → Text
replace s old new most = (replace_from old new most 0 s).0

abbrev pub replace_all : Text → Text → Text → Text
replace_all s old new = replace s old new (length s)

-- The texts that the source formats, by what they say, and what the operating system does.
pub record Platform : Type 0 where
  pub empty_old : Text
  pub same_new : Text
  pub not_found : Text → Text
  pub found_many : ℕ → Text → Text
  pub replaced : ℕ → Text
  pub read_error : Text → Text
  -- the error of os.MkdirAll for the directory of a path, if it fails
  pub make_dirs : Text → Option Text
  -- the error of os.WriteFile for a path, if it fails, after MkdirAll or without it
  pub write_error : (made : Bool) → Text → Option Text
  -- the file that a path stands for, links followed
  pub file_of : Text → Text

module _ (e : Platform) where
  abbrev pub write_back : Bool → Text → Text → Text → Map Text Text → Map Text Text × TaskResult
  write_back made path content stdout disk = elim (e.write_error made path) [
    | some error ↦ (disk, err_result error)
    | none ↦ (
      insert (e.file_of path) content disk,
      record {
        status = status_ok;
        stdout = stdout;
        error = [];
        total_lines = 0;
        truncated = false;
      },
    )
  ]

  -- editTask
  unfoldable pub edit_task : EditFileRequest → Map Text Text → Map Text Text × TaskResult
  edit_task t disk =
      if t.old_str == []
      then (disk, err_result e.empty_old)
      else if t.old_str == t.new_str
      then (disk, err_result e.same_new)
      else elim (lookup (e.file_of t.path) disk) [
        | none ↦ (disk, err_result (e.read_error t.path))
        | some content ↦
            let n = count content t.old_str in
            if n == 0
            then (disk, err_result (e.not_found t.path))
            else if ltb 1 n && not t.replace_all
            then (disk, err_result (e.found_many n t.path))
            else if t.replace_all
            then write_back false t.path (replace_all content t.old_str t.new_str) (e.replaced n)
                disk
            else write_back false t.path (replace content t.old_str t.new_str 1) (e.replaced 1) disk
      ]

  -- writeTask
  unfoldable pub write_task : WriteFileRequest → Map Text Text → Map Text Text × TaskResult
  write_task t disk =
      if t.create_dirs
      then elim (e.make_dirs t.path) [
        | some error ↦ (disk, err_result error)
        | none ↦ write_back true t.path t.content [] disk
      ]
      else write_back false t.path t.content [] disk
