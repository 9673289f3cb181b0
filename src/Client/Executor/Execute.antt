-- ===== src/Client/Executor/Execute.antt =====
-- Execute and execTask of internal/akira-client/executor/executor.go, over the tasks of the other
-- modules. What the operating system does is a `Machine`.
use akira_mcp.Base.{ℕ, Bool, false, [], Option, none, some, if◌then◌else◌}
use akira_mcp.Base.Map.{Map}
use akira_mcp.Base.Text.{Text, bytes}
use akira_mcp.Server.Mcp.{
  Payload, exec_task, read_file_task, write_file_task, edit_file_task, glob_task, list_task,
}
use akira_mcp.Client.Executor.{
  TaskResult, status_ok, status_error, status_timeout, err_result, Answer,
}
use akira_mcp.Client.Executor.Read.{read_task}
use akira_mcp.Client.Executor.Edit.{Platform, edit_task, write_task}
use akira_mcp.Client.Executor.Walk
use akira_mcp.Client.Executor.Walk.{Tree}

-- A finished process; a process that did not exit by itself has no exit code (Go gives -1), and
-- `error` is what Run returned.
pub record Process : Type 0 where
  pub stdout : Text
  pub stderr : Text
  pub exit_code : Option ℕ
  pub error : Option Text

-- pb.TaskResult, whole, without the duration
pub record Report : Type 0 where
  pub task_id : Text
  pub result : TaskResult
  pub exit_code : Option ℕ
  pub stderr : Text

pub record Machine : Type 0 where
  pub disk : Map Text Text
  pub open_file : Text → Answer Text
  -- the disk after a command, and the process
  pub run_shell : Text → Map Text Text × Process
  pub directory : Text → Answer Tree
  pub full_path : Text → Text → Text
  pub segment : Text → Text → Bool
  pub platform : Platform
  pub ended : ℕ → Bool
  pub context_error : Text
  pub too_many_error : Text

abbrev pub plain_report : TaskResult → Report
plain_report res = record { task_id = []; result = res; exit_code = some 0; stderr = [] }

-- execTask
abbrev pub run_process : Process → Report
run_process p = record {
  task_id = [];
  exit_code = p.exit_code;
  stderr = p.stderr;
  result = record {
    status = elim p.error [ none ↦ status_ok | some _ ↦ status_error ];
    stdout = p.stdout;
    error = elim p.error [ none ↦ [] | some e ↦ e ];
    total_lines = 0;
    truncated = false;
  };
}

abbrev keep_disk : Machine → Report → Option (Map Text Text × Report)
keep_disk m r = some (m.disk, r)

abbrev of_disk : Map Text Text × TaskResult → Option (Map Text Text × Report)
of_disk r = some (r.0, plain_report r.1)

-- The switch of Execute: the disk afterwards and the result; `none` as in globTask.
unfoldable pub run_payload : Machine → Payload → Option (Map Text Text × Report)
run_payload m (exec_task cmd) = some ((m.run_shell cmd).0, run_process (m.run_shell cmd).1)
run_payload m (read_file_task path max_bytes offset limit) = keep_disk m (
    plain_report (
      read_task m.open_file m.ended m.context_error
        (record { path = path; max_bytes = max_bytes; offset = offset; limit = limit })))
run_payload m (write_file_task path content create_dirs) = of_disk (
    write_task m.platform (record { path = path; content = content; create_dirs = create_dirs })
      m.disk)
run_payload m (edit_file_task path old_str new_str replace_all) = of_disk (
    edit_task m.platform
      (record { path = path; old_str = old_str; new_str = new_str; replace_all = replace_all })
      m.disk)
run_payload m (glob_task path pattern) =
    elim (Walk.glob_task m.segment (m.full_path path) m.too_many_error pattern (m.directory path)) [
      | none ↦ none
      | some res ↦ keep_disk m (plain_report res)
    ]
run_payload m (list_task path depth) =
    keep_disk m (plain_report (Walk.list_task depth (m.directory path)))

abbrev pub mark : Text → Bool → Text → Report → Report
mark task_id timed_out timeout_text r = record r {
  task_id = task_id;
  result =
      if timed_out
      then record r.result { status = status_timeout; error = timeout_text }
      else r.result;
}

-- "task timed out"
abbrev pub timeout_text : Text
timeout_text = bytes "task timed out"

-- Execute. `timed_out` is whether ctx has ended after the task; the payload is missing where its type
-- is unknown, and `unknown_error` is the text for this.
unfoldable pub execute :
    Machine → Text → Text → Bool → Option Payload → Option (Map Text Text × Report)
unfolding run_payload
execute m unknown_error task_id timed_out none =
    keep_disk m (mark task_id timed_out timeout_text (plain_report (err_result unknown_error)))
execute m unknown_error task_id timed_out (some payload) = elim (run_payload m payload) [
  | none ↦ none
  | some (disk, r) ↦ some (disk, mark task_id timed_out timeout_text r)
]
