-- ===== src/Client/Executor/Tests.antt =====
-- Small files, patterns and edits, and the executor's theorems on them.
use akira_mcp.Base.{
  ◌≡◌, ◌⊎◌, List, [], ◌∷◌, ◌++◌, none, some, true, false, arith, refl, list_eq, nat_eq, flatten,
  length, ◌==◌,
}
use akira_mcp.Base.Map.{Map, lookup, insert}
use akira_mcp.Base.Text.{Text, bytes, has_prefix}
use akira_mcp.Client.Executor.{status_ok, status_error, gives}
use akira_mcp.Client.Executor.Read.{
  ReadFileRequest, cut_lines, overflows, read_task, read_lines, add_line,
}
use akira_mcp.Client.Executor.Loop.{clip}
use akira_mcp.Client.Executor.Window.{lines_of, lines_asked, read_window}
use akira_mcp.Client.Executor.Glob.{match_segments}
use akira_mcp.Client.Executor.Matches.{Matches, match_segments_decides}
use akira_mcp.Client.Executor.Edit.{EditFileRequest, Platform, replace_from, count, edit_task}
use akira_mcp.Client.Executor.Edits.{edit_task_once}

abbrev newline : Text
newline = 10 ∷ []

abbrev file : Text
file = bytes "a" ++ newline ++ bytes "bc" ++ newline ++ bytes "d"

abbrev window : ReadFileRequest
window = record { path = bytes "f"; offset = 2; limit = 5; max_bytes = 4 }

reads : read_task (λ path. gives file) (λ n. false) [] window ≡ record {
  status = status_ok;
  stdout = bytes "bc" ++ newline ++ bytes "d";
  error = [];
  total_lines = 3;
  truncated = false;
}
unfolding read_task read_lines add_line cut_lines nat_eq
reads = refl

read_window_example : read_task (λ path. gives file) (λ n. false) [] window ≡ record {
  status = status_ok;
  stdout = clip window (flatten (lines_asked window file));
  error = [];
  total_lines = length (lines_of file);
  truncated = overflows window (length (flatten (lines_asked window file)));
}
read_window_example = read_window (λ path. gives file) (λ n. false) [] file window refl (λ n. refl)

abbrev pattern_segments : List Text
pattern_segments = bytes "**" ∷ bytes "a" ∷ []

abbrev path_segments : List Text
path_segments = bytes "x" ∷ bytes "a" ∷ []

match_segments_decides_example :
    ((match_segments (λ p s. p == s) pattern_segments path_segments ≡ true)
      × Matches (λ p s. p == s) pattern_segments path_segments)
    ⊎ ((match_segments (λ p s. p == s) pattern_segments path_segments ≡ false)
        × ¬ Matches (λ p s. p == s) pattern_segments path_segments)
match_segments_decides_example =
    match_segments_decides (λ p s. p == s) pattern_segments path_segments

abbrev platform : Platform
platform = record {
  empty_old = [];
  same_new = [];
  not_found = λ p. p;
  found_many = λ n p. p;
  replaced = λ n. n ∷ [];
  read_error = λ p. p;
  make_dirs = λ path. none;
  write_error = λ made path. none;
  file_of = λ path. path;
}

abbrev disk : Map Text Text
disk = (bytes "f", bytes "xaby") ∷ []

abbrev edit : EditFileRequest
edit = record { path = bytes "f"; old_str = bytes "ab"; new_str = bytes "c"; replace_all = false }

there : lookup (bytes "f") disk ≡ some (bytes "xaby")
unfolding lookup list_eq nat_eq
there = refl

edits : (edit_task platform edit disk).1.status ≡ status_ok
unfolding edit_task replace_from has_prefix lookup insert list_eq nat_eq
edits = refl

edit_task_once_example :
    (front : Text) × (back : Text) × (bytes "xaby" ≡ front ++ (bytes "ab" ++ back))
    × (count (bytes "xaby") (bytes "ab") ≡ 1)
    × (lookup (bytes "f") (edit_task platform edit disk).0 ≡ some (front ++ (bytes "c" ++ back)))
    × (lookup (bytes "g") (edit_task platform edit disk).0 ≡ lookup (bytes "g") disk)
edit_task_once_example =
    edit_task_once platform edit disk (bytes "xaby") (bytes "g") refl there edits (ground arith)

-- The file does not have the text.
abbrev bad_edit : EditFileRequest
bad_edit = record edit { old_str = bytes "q" }

refuses : (edit_task platform bad_edit disk).1.status ≡ status_error
unfolding edit_task replace_from has_prefix lookup insert list_eq nat_eq
refuses = refl
