-- ===== src/Client/Executor/Walk.antt =====
-- globTask and listTask of internal/akira-client/executor/executor.go. filepath.WalkDir goes through
-- a tree that stands for the directory, its entries in their lexical order; a path is relative to the
-- directory of the task, and `full` is filepath.Join of the two.
use akira_mcp.Base.{
  ℕ, suc, ◌+◌, Bool, true, false, List, [], ◌∷◌, ◌++◌, Option, none, some, ◌==◌, list_eq, nat_eq,
  if◌then◌else◌, ltb, length, max,
}
use akira_mcp.Base.Text.{Text, trim_prefix}
use akira_mcp.Client.Executor.{TaskResult, status_ok, err_result, Answer, gives, fails_with}
use akira_mcp.Client.Executor.Glob.{match_any_glob}
use akira_mcp.Client.Executor.Braces.{variants, too_many, crashes, out_of_fuel, expand_braces}

-- maxGlobResults and maxListEntries
abbrev pub max_glob_results : ℕ
max_glob_results = 1000

abbrev pub max_list_entries : ℕ
max_list_entries = 1000

-- What a directory holds. A locked directory is one whose entries cannot be read.
pub data Tree : Type 0 where
  empty : Tree
  file : (name : Text) → Tree → Tree
  dir : (name : Text) (children : Tree) → Tree → Tree
  locked : (name error : Text) → Tree → Tree

-- The relative path of an entry; the directory of the task has the empty one.
abbrev pub child : Text → Text → Text
child [] name = name
child (c ∷ at) name = c ∷ at ++ b'/' ∷ name

-- What the callbacks add to: the lines of the answer, and how many there were to be.
pub record Found : Type 0 where
  pub out : List Text
  pub total : ℕ

abbrev pub add : ℕ → Option Text → Found → Found
add limit none f = f
add limit (some line) f = record {
  out = if ltb (length f.out) limit then f.out ++ line ∷ [] else f.out;
  total = suc f.total;
}

module _ (limit : ℕ) (pick : Text → Bool → Option Text) (skip : Text → Bool) where
  -- WalkDir with a callback that picks a line for a path, or none, and answers SkipDir at the
  -- directories that are to be skipped. An error of the walk comes to the callback, which returns it.
  unfoldable pub walk : Text → Tree → Found → Answer Found
  walk at empty f = gives f
  walk at (file name rest) f = walk at rest (add limit (pick (child at name) false) f)
  walk at (dir name children rest) f =
      let path = child at name in
      let seen = add limit (pick path true) f in
      let skipped = walk at rest seen in
      if skip path then skipped else elim (walk path children seen) [
        | gives g ↦ walk at rest g
        | fails_with error ↦ fails_with error
      ]
  walk at (locked name error rest) f =
      let path = child at name in
      let skipped = walk at rest (add limit (pick path true) f) in
      if skip path then skipped else fails_with error

-- strings.Join(lines, "\n")
abbrev pub join_lines : List Text → Text
join_lines [] = []
join_lines (line ∷ []) = line
join_lines (line ∷ next ∷ lines) = line ++ b'\n' ∷ join_lines (next ∷ lines)

abbrev pub listing : Answer Found → TaskResult
listing (fails_with error) = err_result error
listing (gives f) = record {
  status = status_ok;
  stdout = join_lines f.out;
  error = [];
  total_lines = f.total;
  truncated = ltb (length f.out) f.total;
}

abbrev pub nothing_found : Found
nothing_found = record { out = []; total = 0 }

abbrev pub walk_root : ℕ → (Text → Bool → Option Text) → (Text → Bool) → Answer Tree → Answer Found
walk_root limit pick skip (fails_with error) = fails_with error
walk_root limit pick skip (gives tree) = walk limit pick skip [] tree nothing_found

abbrev pub glob_pick : (Text → Text → Bool) → (Text → Text) → List Text → Text → Bool → Option Text
glob_pick segment full patterns path is_dir =
    if match_any_glob segment patterns path then some (full path) else none

abbrev pub never : Text → Bool
never path = false

abbrev pub without_root : Text → Text
without_root pattern = trim_prefix (trim_prefix pattern (b'/' ∷ [])) (b'.' ∷ b'/' ∷ [])

-- globTask. `none`: the run panics or does not end.
unfoldable pub glob_task :
    (Text → Text → Bool) → (Text → Text) → Text → Text → Answer Tree → Option TaskResult
unfolding walk
glob_task segment full too_many_error pattern root =
    let given = without_root pattern in
    elim (expand_braces (suc (length given)) given) [
      | variants patterns ↦
          some (listing (walk_root max_glob_results (glob_pick segment full patterns) never root))
      | too_many ↦ some (err_result too_many_error)
      | crashes ↦ none
      | out_of_fuel ↦ none
    ]

-- strings.Count(path, "/")
unfoldable pub count_slashes : Text → ℕ
count_slashes [] = 0
count_slashes (c ∷ s) = let rest = count_slashes s in if c == b'/' then suc rest else rest

abbrev pub too_deep : ℕ → Text → Bool
too_deep depth path = ltb depth (count_slashes path + 1)

abbrev pub list_pick : ℕ → Text → Bool → Option Text
list_pick depth path is_dir =
    if too_deep depth path then none else some (if is_dir then path ++ b'/' ∷ [] else path)

-- listTask. A depth that is not positive is 0 here.
unfoldable pub list_task : ℕ → Answer Tree → TaskResult
unfolding walk count_slashes
list_task depth root =
    let limit = max depth 1 in
    listing (walk_root max_list_entries (list_pick limit) (too_deep limit) root)
