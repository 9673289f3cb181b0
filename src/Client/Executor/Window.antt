-- ===== src/Client/Executor/Window.antt =====
-- What readTask (executor.go) answers: the window of the file that was asked for.
use akira_mcp.Base.{
  ℕ, ◌-◌, ◌≡◌, inr, Bool, false, List, [], ◌∷◌, ◌++◌, some, ◌==◌, list_eq, nat_eq, nat_eq,
  if◌then◌else◌, length, take, drop, flatten, max, arith, refl, subst,
}
use akira_mcp.Base.Text.{Text}
use akira_mcp.Client.Executor.{status_ok, Answer, gives}
use akira_mcp.Client.Executor.Read.{
  ReadFileRequest, Window, start, cut_lines, prepend, overflows, add_line, read_lines, add_last,
  result_of, read_task,
}
use akira_mcp.Client.Executor.Loop.{add_all, pick, clip, Done, add_all-window}

-- The lines of a text: those that end in a newline, and what is left, if that is not empty.
abbrev pub and_last : List Text → Text → List Text
and_last ls [] = ls
and_last ls (c ∷ s) = ls ++ (c ∷ s) ∷ []

abbrev pub lines_of : Text → List Text
lines_of s = let (ls, rest) = cut_lines s in and_last ls rest

-- The lines from `offset` on, at most `limit` of them.
abbrev pub lines_asked : ReadFileRequest → Text → List Text
lines_asked t s =
    let from = drop (max t.offset 1 - 1) (lines_of s) in
    if t.limit == 0 then from else take t.limit from

read_lines-never :
    (t : ReadFileRequest) (ended : ℕ → Bool) (ls : List Text) (w : Window)
    → ((n : ℕ) → ended n ≡ false)
    → read_lines t ended ls w ≡ some (add_all t ls w)
unfolding read_lines add_all
read_lines-never t ended [] w h = refl
read_lines-never t ended (l ∷ ls) w h =
    ground (arith, h (add_line t l w).total, read_lines-never t ended ls (add_line t l w) h)

add_all-and_last :
    (t : ReadFileRequest) (ls : List Text) (rest : Text) (w : Window)
    → add_last t rest (add_all t ls w) ≡ add_all t (and_last ls rest) w
unfolding add_all
add_all-and_last t ls [] w = refl
add_all-and_last t [] (c ∷ rest) w = refl
add_all-and_last t (l ∷ ls) (c ∷ rest) w = add_all-and_last t ls (c ∷ rest) (add_line t l w)

pick-start :
    (t : ReadFileRequest) (ls : List Text)
    → pick t start ls ≡ (
        if t.limit == 0
        then drop (max t.offset 1 - 1) ls
        else take t.limit (drop (max t.offset 1 - 1) ls))
pick-start t ls = let whole : t.limit - 0 ≡ t.limit = omega arith in rw whole refl

read_window-fields :
    (content : Text) (w : Window) (t : ReadFileRequest)
    → Done t w (flatten (lines_asked t content)) (length (lines_of content))
    → result_of w ≡ record {
      status = status_ok;
      stdout = clip t (flatten (lines_asked t content));
      error = [];
      total_lines = length (lines_of content);
      truncated = overflows t (length (flatten (lines_asked t content)));
    }
read_window-fields content w t d = rw (d.0, d.1, d.2) refl

-- A read of a file, under a context that does not end: it succeeds with the text of the lines from
-- `offset` (from 1 on, 0 being taken for 1), at most `limit` of them unless that is 0, cut to its first
-- `max_bytes` bytes unless that is 0. It counts all the lines of the file, and it says `truncated` exactly if the
-- cut took something away.
pub read_window :
    (open_file : Text → Answer Text) (ended : ℕ → Bool) (context_error content : Text)
    (t : ReadFileRequest)
    → open_file t.path ≡ gives content
    → ((n : ℕ) → ended n ≡ false)
    → read_task open_file ended context_error t ≡ record {
      status = status_ok;
      stdout = clip t (flatten (lines_asked t content));
      error = [];
      total_lines = length (lines_of content);
      truncated = overflows t (length (flatten (lines_asked t content)));
    }
unfolding read_task
read_window open_file ended context_error content t opened never =
    let (ls, rest) = cut_lines content in
    let asked : pick t start (lines_of content) ≡ lines_asked t content =
      pick-start t (lines_of content) in
    let all = add_all-window t (lines_of content) start (refl, inr (omega arith)) in
    let all' : Done t (add_all t (lines_of content) start) (flatten (lines_asked t content))
        (length (lines_of content)) =
      subst
        (λ ls. Done t (add_all t (lines_of content) start) (flatten ls) (length (lines_of content)))
        asked (all.0, omega (arith, all.1), all.2) in
    rw (opened, read_lines-never t ended ls start never, read_task)
      (read_window-fields content (add_last t rest (add_all t ls start)) t
        (rw (add_all-and_last t ls rest start) all'))

flatten-newline :
    (c : ℕ) (ls : List Text) (rest : Text)
    → flatten (and_last ((c ∷ []) ∷ ls) rest) ≡ c ∷ flatten (and_last ls rest)
flatten-newline c ls [] = refl
flatten-newline c ls (d ∷ rest) = refl

flatten-prepend :
    (c : ℕ) (ls : List Text) (rest : Text)
    → let (ms, rest') = prepend c (ls, rest) in
      flatten (and_last ms rest') ≡ c ∷ flatten (and_last ls rest)
flatten-prepend c [] [] = refl
flatten-prepend c [] (d ∷ rest) = refl
flatten-prepend c (l ∷ ls) [] = refl
flatten-prepend c (l ∷ ls) (d ∷ rest) = refl

-- The lines of a text make up the text.
pub lines_of-flatten : (s : Text) → flatten (lines_of s) ≡ s
unfolding cut_lines
lines_of-flatten [] = refl
lines_of-flatten (c ∷ s) =
    let (ls, rest) = cut_lines s in
    ground (arith, lines_of-flatten s, flatten-newline c ls rest, flatten-prepend c ls rest)
