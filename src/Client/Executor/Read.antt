-- ===== src/Client/Executor/Read.antt =====
-- readTask of internal/akira-client/executor/executor.go. The sizes of a request are numbers from 0 on;
-- the source treats a negative one as it treats 0.
use akira_mcp.Base.{
  ℕ, suc, ◌+◌, ◌-◌, Bool, true, false, ◌&&◌, ◌||◌, List, [], ◌∷◌, ◌++◌, Option, none, some, ◌==◌,
  list_eq, nat_eq, if◌then◌else◌, ltb, leb, length, take, max,
}
use akira_mcp.Base.Text.{Text}
use akira_mcp.Client.Executor.{TaskResult, status_ok, err_result, Answer, gives, fails_with}

-- pb.ReadFileRequest
pub record ReadFileRequest : Type 0 where
  pub path : Text
  pub offset : ℕ
  pub limit : ℕ
  pub max_bytes : ℕ

-- The variables of the loop.
pub record Window : Type 0 where
  pub out : Text
  pub lines : ℕ
  pub total : ℕ
  pub truncated : Bool

abbrev pub start : Window
start = record { out = []; lines = 0; total = 0; truncated = false }

abbrev pub prepend : ℕ → List Text × Text → List Text × Text
prepend c ([], rest) = ([], c ∷ rest)
prepend c (l ∷ ls, rest) = ((c ∷ l) ∷ ls, rest)

-- bufio.Reader.ReadString('\n'), call after call: the lines with their newline, and what is after
-- the last newline.
unfoldable pub cut_lines : Text → List Text × Text
cut_lines [] = ([], [])
cut_lines (c ∷ s) =
    let (ls, rest) = cut_lines s in if c == 10 then ((c ∷ []) ∷ ls, rest) else prepend c (ls, rest)

-- The line is in the window asked for.
abbrev pub wanted : ReadFileRequest → Window → Bool
wanted t w = leb (max t.offset 1) (suc w.total) && (t.limit == 0 || ltb w.lines t.limit)

abbrev pub overflows : ReadFileRequest → ℕ → Bool
overflows t n = ltb 0 t.max_bytes && ltb t.max_bytes n

-- The body of the loop, for a line that is not empty.
unfoldable pub add_line : ReadFileRequest → Text → Window → Window
add_line t line w =
    if wanted t w
    then (if overflows t (length w.out + length line)
        then record {
          out = w.out ++ take (t.max_bytes - length w.out) line;
          lines = w.lines;
          total = suc w.total;
          truncated = true;
        }
        else record {
          out = w.out ++ line;
          lines = suc w.lines;
          total = suc w.total;
          truncated = w.truncated;
        })
    else record w { total = suc w.total }

-- The loop over the lines that end in a newline; `ended n` tells that the context is over after the
-- n-th of them.
unfoldable pub read_lines : ReadFileRequest → (ℕ → Bool) → List Text → Window → Option Window
unfolding add_line
read_lines t ended [] w = some w
read_lines t ended (line ∷ lines) w =
    let w' = add_line t line w in
    let rest = read_lines t ended lines w' in if ended w'.total then none else rest

-- The last line, without a newline; there is none if the file ends in one.
abbrev pub add_last : ReadFileRequest → Text → Window → Window
add_last t [] w = w
add_last t (c ∷ line) w = add_line t (c ∷ line) w

abbrev pub result_of : Window → TaskResult
result_of w = record {
  status = status_ok;
  stdout = w.out;
  error = [];
  total_lines = w.total;
  truncated = w.truncated;
}

abbrev pub read_result : Text → ReadFileRequest → Text → Option Window → TaskResult
read_result context_error t rest none = err_result context_error
read_result context_error t rest (some w) = result_of (add_last t rest w)

-- readTask
unfoldable pub read_task : (Text → Answer Text) → (ℕ → Bool) → Text → ReadFileRequest → TaskResult
read_task open_file ended context_error t = elim (open_file t.path) [
  | fails_with e ↦ err_result e
  | gives content ↦
      let (lines, rest) = cut_lines content in
      read_result context_error t rest (read_lines t ended lines start)
]
