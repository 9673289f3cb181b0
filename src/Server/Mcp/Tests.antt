-- ===== src/Server/Mcp/Tests.antt =====
-- A call of a tool, and the theorems on whom it reaches.
use akira_mcp.Base.{
  ◌≡◌, ◌≢◌, ◌⊎◌, List, [], ◌∷◌, ◌==◌, none, some, true, false, inl, inr, refl, list_eq, nat_eq,
  if◌then◌else◌,
}
use akira_mcp.Base.Text.{Text, bytes, contains_byte, has_prefix, to_lower, trim_space}
use akira_mcp.Server.Pool.{connection_id_of, connection_not_found, user_prefix}
use akira_mcp.Server.Mcp.{Config, Task, TaskResult, SendError, pool_error, Call, exec_call}
use akira_mcp.Server.Mcp.Tools.{call_tool}
use akira_mcp.Server.Mcp.Isolation.{tools_reach_own}
use akira_mcp.Server.Mcp.Validate.{
  Parsed, token, unknown_kid, invalid_token, TokenValidator, cut_space, bearer_token,
  refresh_key_set, check_token, validate, validate_all,
}
use akira_mcp.Server.Mcp.Tokens.{Apart, Admits, validate_sound, validate_all-Apart}

no_colon : contains_byte b':' (bytes "u") ≡ false
unfolding contains_byte nat_eq
no_colon = refl

abbrev cfg : Config
cfg = record { task_timeout_ms = 1000; read_max_bytes = 100 }

abbrev answer : TaskResult
answer = record {
  ok = true;
  exit_code = bytes "0";
  stdout = bytes "hi";
  stderr = [];
  error = [];
  duration_ms = 1;
  total_lines = 0;
  truncated = false;
}

-- One server has a machine of the user alone, the other one of everybody.
abbrev own_only : Text → Task → SendError ⊎ TaskResult
own_only id task =
    if has_prefix id (user_prefix (bytes "u"))
    then inr answer
    else inl (pool_error connection_not_found)

abbrev all_users : Text → Task → SendError ⊎ TaskResult
all_users id task = inr answer

own_alike :
    (client_id : Text) (task : Task)
    → contains_byte b':' client_id ≡ false
    → own_only (connection_id_of (bytes "u") client_id) task
      ≡ all_users (connection_id_of (bytes "u") client_id) task
unfolding has_prefix nat_eq
own_alike client_id task h = refl

abbrev call : Call
call = exec_call (some (bytes "pc")) (some (bytes "ls")) 0

tools_reach_own_example :
    call_tool cfg (bytes "u") [] own_only call ≡ call_tool cfg (bytes "u") [] all_users call
tools_reach_own_example = tools_reach_own cfg (bytes "u") [] own_only all_users own_alike call

-- Tokens are single letters, and a set of keys is the list of those that it knows.
abbrev parse : List Text → Text → Parsed
parse keys raw =
    if raw == bytes "bad"
    then invalid_token
    else if keys == []
    then unknown_kid
    else token (record { subject = some (bytes "u1"); typ = some (bytes "access") })

abbrev validator : TokenValidator (List Text)
validator = record { keys = []; last_refresh = none; refreshes = [] }

abbrev header : Text
header = bytes "bEARER  t"

-- The keys are old, and the refresh gets new ones.
admits : (validate parse 5 (some (bytes "k" ∷ [])) header validator).1 ≡ inr (bytes "u1")
unfolding validate bearer_token cut_space to_lower trim_space refresh_key_set check_token list_eq
    nat_eq
admits = refl

validate_sound_example :
    let w = (validate parse 5 (some (bytes "k" ∷ [])) header validator).0 in
    (bearer_token header ≢ []) × Admits parse w.keys (bearer_token header) (bytes "u1")
validate_sound_example =
    validate_sound parse 5 (some (bytes "k" ∷ [])) header (bytes "u1") validator admits

validate_all-Apart_example :
    Apart (validate_all parse ((5, (none, header)) ∷ (6, (none, header)) ∷ []) validator).refreshes
validate_all-Apart_example =
    validate_all-Apart parse [] ((5, (none, header)) ∷ (6, (none, header)) ∷ [])
