-- ===== src/Client/Executor.antt =====
-- internal/akira-client/executor/executor.go: the tasks on files. A read of a file and a write to it
-- are calls of the operating system, which may fail with an error text.
pub mod Read
pub mod Loop
pub mod Window
pub mod Glob
pub mod Braces
pub mod Numerals
pub mod Expansion
pub mod Variants
pub mod Walk
pub mod Listings
pub mod Depth
pub mod Execute
pub mod Effects
pub mod Matches
pub mod Selection
pub mod Edit
pub mod Edits
mod Tests
mod GlobTests
use akira_mcp.Base.{ℕ, List, [], Bool, true, false, Option, none, some}
use akira_mcp.Base.Map.{Map}
use akira_mcp.Base.Text.{Text}

-- pb.TaskResult_Status, as far as the executor sets it
pub data Status : Type 0 where
  status_ok status_error status_timeout : Status

-- pb.TaskResult, as far as the tasks on files set it
pub record TaskResult : Type 0 where
  pub status : Status
  pub stdout : Text
  pub error : Text
  pub total_lines : ℕ
  pub truncated : Bool

-- errResult
abbrev pub err_result : Text → TaskResult
err_result error = record {
  status = status_error;
  stdout = [];
  error = error;
  total_lines = 0;
  truncated = false;
}

-- What a call of the operating system answers.
pub data Answer (A : Type 0) : Type 0 where
  gives : A → Answer A
  fails_with : (error : Text) → Answer A
