-- ===== src/Client/Executor/GlobTests.antt =====
-- Small patterns, trees and tasks, and the executor's theorems on them.
use akira_mcp.Base.{
  ℕ, ◌≢◌, suc, ◌≡◌, ◌⊎◌, Bool, true, false, List, [], ◌∷◌, ◌++◌, map, max, none, some, ◌==◌,
  list_eq, nat_eq, length, arith, refl,
}
use akira_mcp.Base.Map.{Map, lookup, insert, erase}
use akira_mcp.Base.Text.{Text, bytes, has_prefix, trim_prefix}
use akira_mcp.Server.Mcp.{edit_file_task}
use akira_mcp.Client.Executor.{TaskResult, gives, fails_with, status_ok, status_timeout}
use akira_mcp.Client.Executor.Braces.{
  variants, crashes, close_brace, split_commas, cut_dots, read_digits, atoi, digits_of, itoa,
  range_alts, number_alts, bounds_alts, brace_range, brace_alts, collect, expand_braces,
}
use akira_mcp.Client.Executor.Expansion.{Ends, expand_braces-Ends}
use akira_mcp.Client.Executor.Variants.{join, RangeOutcome, expand_words, range_outcomes}
use akira_mcp.Client.Executor.Walk.{
  Tree, walk, empty, file, dir, locked, never, glob_task, without_root, max_glob_results, list_task,
  max_list_entries, count_slashes,
}
use akira_mcp.Client.Executor.Listings.{entries, readable, Answers}
use akira_mcp.Client.Executor.Selection.{Selects, glob_task_answer}
use akira_mcp.Client.Executor.Depth.{Named, shown, list_task_levels}
use akira_mcp.Client.Executor.Edit.{Platform, replace_from, edit_task}
use akira_mcp.Client.Executor.Execute.{Report, Machine, run_payload, execute, timeout_text}
use akira_mcp.Client.Executor.Effects.{execute_effects}

nested :
    expand_braces 12 (bytes "a{b,{c,d}}e") ≡ variants (bytes "abe" ∷ bytes "ace" ∷ bytes "ade" ∷ [])
unfolding expand_braces close_brace brace_alts collect split_commas brace_range cut_dots bounds_alts
    number_alts range_alts atoi itoa read_digits digits_of list_eq nat_eq
nested = refl

unpaired : expand_braces 10 (bytes "{a{b,c}}") ≡ variants (bytes "{ab}" ∷ bytes "{ac}" ∷ [])
unfolding expand_braces close_brace brace_alts collect split_commas brace_range cut_dots bounds_alts
    number_alts range_alts atoi itoa read_digits digits_of list_eq nat_eq
unpaired = refl

falling : expand_braces 10 (bytes "{1..-1}") ≡ variants (bytes "1" ∷ bytes "0" ∷ bytes "-1" ∷ [])
unfolding expand_braces close_brace brace_alts collect split_commas brace_range cut_dots bounds_alts
    number_alts range_alts atoi itoa read_digits digits_of list_eq nat_eq
falling = refl

-- A pattern that stops the client.
fatal_pattern : expand_braces 40 (bytes "{-9223372036854775808..0}") ≡ crashes
unfolding expand_braces close_brace brace_alts collect split_commas brace_range cut_dots bounds_alts
    number_alts range_alts atoi itoa read_digits digits_of list_eq nat_eq
fatal_pattern = refl

expand_braces-Ends_example : Ends (expand_braces 12 (bytes "a{b,{c,d}}e"))
expand_braces-Ends_example = expand_braces-Ends 12 (bytes "a{b,{c,d}}e") (omega arith)

expand_words_example :
    expand_braces 12 (bytes "*." ++ b'{' ∷ join (bytes "go" ∷ bytes "md" ∷ []) ++ b'}' ∷ [])
    ≡ variants (map (λ u. bytes "*." ++ u ++ []) (bytes "go" ∷ bytes "md" ∷ []))
expand_words_example =
    expand_words 12 (bytes "*.") [] (bytes "go") (bytes "md") [] (ground arith) (ground arith)
      (ground arith) (omega arith) (omega arith)

lowest : atoi (bytes "-9223372036854775808") ≡ some 0
unfolding atoi read_digits nat_eq
lowest = refl

zero_is : atoi (bytes "0") ≡ some 9223372036854775808
unfolding atoi read_digits nat_eq
zero_is = refl

range_outcomes_example :
    RangeOutcome 0 9223372036854775808 (number_alts (bytes "-9223372036854775808") (bytes "0"))
range_outcomes_example =
    range_outcomes (bytes "-9223372036854775808") (bytes "0") 0 9223372036854775808 lowest zero_is
      (omega arith)

-- A directory with a file and a directory that holds a file.
abbrev tree : Tree
tree = file (bytes "a.go") (dir (bytes "d") (file (bytes "b.go") empty) empty)

-- path.Match for the patterns used here
abbrev segment : Text → Text → Bool
segment pattern name = pattern == name

abbrev full : Text → Text
full path = bytes "/r/" ++ path

abbrev pattern : Text
pattern = bytes "./{a.go,**/b.go}"

abbrev patterns : List Text
patterns = bytes "a.go" ∷ bytes "**/b.go" ∷ []

pattern_expands :
    expand_braces (suc (length (without_root pattern))) (without_root pattern) ≡ variants patterns
unfolding expand_braces close_brace brace_alts collect split_commas brace_range cut_dots bounds_alts
    number_alts range_alts atoi itoa read_digits digits_of list_eq nat_eq trim_prefix has_prefix
pattern_expands = refl

tree_opens : readable never [] tree ≡ true
unfolding readable
tree_opens = refl

glob_task_answer_example :
    (res : TaskResult) × (lines : List Text) × (glob_task segment full [] pattern (gives tree)
      ≡ some res)
    × Selects segment full patterns (entries [] tree) lines
    × Answers max_glob_results lines res
glob_task_answer_example =
    glob_task_answer segment full [] pattern tree patterns pattern_expands tree_opens

-- The same directory with one that is locked, below the depth that is asked for.
abbrev deep_tree : Tree
deep_tree = file (bytes "a.go") (dir (bytes "d") (locked (bytes "x") (bytes "denied") empty) empty)

deep_tree-Named : Named deep_tree
unfolding count_slashes nat_eq
deep_tree-Named =
    let name : (c : ℕ) (cs : Text) → c ∷ cs ≢ [] = λ c cs e. cc in
    ((name _ _, refl), ((name _ _, refl), (((name _ _, refl), tt), tt)))

lists : list_task 1 (gives deep_tree) ≡ record {
  status = status_ok;
  stdout = bytes "a.go" ++ b'\n' ∷ bytes "d/";
  error = [];
  total_lines = 2;
  truncated = false;
}
unfolding list_task count_slashes nat_eq walk
lists = refl

list_task_levels_example :
    Answers max_list_entries (shown (max 1 1) [] deep_tree) (list_task 1 (gives deep_tree))
list_task_levels_example = list_task_levels 1 deep_tree deep_tree-Named (tt, tt)

abbrev platform : Platform
platform = record {
  empty_old = [];
  same_new = [];
  not_found = λ path. path;
  found_many = λ n path. path;
  replaced = λ n. [];
  read_error = λ path. path;
  make_dirs = λ path. none;
  write_error = λ made path. none;
  file_of = λ path. path;
}

abbrev machine : Machine
machine = record {
  disk = (bytes "f", bytes "old text") ∷ (bytes "g", bytes "kept") ∷ [];
  open_file = λ path. fails_with [];
  run_shell = λ cmd. ([], record { stdout = []; stderr = []; exit_code = none; error = none });
  directory = λ path. gives tree;
  full_path = λ path rel. full rel;
  segment = segment;
  platform = platform;
  ended = λ n. false;
  context_error = [];
  too_many_error = [];
}

-- The disk and the report after an edit that took too long.
abbrev disk_after : Map Text Text
disk_after = (bytes "f", bytes "new text") ∷ (bytes "g", bytes "kept") ∷ []

abbrev report : Report
report = record {
  task_id = bytes "t1";
  result = record {
    status = status_timeout;
    stdout = [];
    error = timeout_text;
    total_lines = 0;
    truncated = false;
  };
  exit_code = some 0;
  stderr = [];
}

edits :
    execute machine []
      (bytes "t1")
      true
      (some (edit_file_task (bytes "f") (bytes "old") (bytes "new") false))
    ≡ some (disk_after, report)
unfolding execute run_payload edit_task replace_from has_prefix lookup insert erase list_eq nat_eq
edits = refl

execute_effects_example :
    (report.task_id ≡ bytes "t1")
    × (((true ≡ false) × (report.result.status ≢ status_timeout))
        ⊎ ((true ≡ true)
            × (report.result.status ≡ status_timeout)
            × (report.result.error ≡ timeout_text)))
    × ((bytes "g" ≡ bytes "f") ⊎ (lookup (bytes "g") disk_after ≡ lookup (bytes "g") machine.disk))
execute_effects_example =
    execute_effects machine [] (bytes "t1") true
      (edit_file_task (bytes "f") (bytes "old") (bytes "new") false) disk_after report (bytes "g")
      edits
