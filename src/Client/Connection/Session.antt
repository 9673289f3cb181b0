-- ===== src/Client/Connection/Session.antt =====
-- run.go and session.go: one session, the loop that reconnects, and the heartbeat. The peers are
-- arguments: what Connect and each Recv of a session return, and what each Heartbeat returns.
use akira_mcp.Base.{
  ℕ, suc, ◌*◌, Bool, true, false, ◌&&◌, ◌||◌, not, List, [], ◌∷◌, ◌++◌, Option, none, some, ◌==◌,
  list_eq, nat_eq, if◌then◌else◌, ltb, ◌⊎◌, inl, inr,
}
use akira_mcp.Base.Text.{Text}
use akira_mcp.Rpc.{
  Code, RpcError, status, other_error, unauthenticated, permission_denied, RegisterRequest,
  RegisterResponse, ServerMessage, register_ack, task, empty_payload,
}

-- Config, without the address and the TLS settings, which only reach gRPC. Times are in nanoseconds, and
-- a delay that is not positive is 0.
pub record Config : Type 0 where
  pub client_id : Text
  pub connect_key : Text
  pub retry_delay : ℕ

abbrev pub second : ℕ
second = 1000000000

-- defaultRetryDelay
abbrev pub default_retry_delay : ℕ
default_retry_delay = 3 * second

-- defaultHeartbeatMs
abbrev pub default_heartbeat_ms : ℕ
default_heartbeat_ms = 30000

-- minHeartbeatTimeout
abbrev pub min_heartbeat_timeout : ℕ
min_heartbeat_timeout = 5 * second

abbrev pub is_fatal_code : Code → Bool
is_fatal_code unauthenticated = true
is_fatal_code permission_denied = true
is_fatal_code _ = false

-- isFatalConnectError
unfoldable pub is_fatal_connect_error : RpcError → Bool
is_fatal_connect_error (status code) = is_fatal_code code
is_fatal_connect_error other_error = false

-- The request of runSession; the host name and the platform are what the system says.
abbrev pub register_request : Config → Text → Text → RegisterRequest
register_request cfg hostname platform = record {
  client_id = cfg.client_id;
  hostname = hostname;
  platform = platform;
  connect_key = cfg.connect_key;
}

-- What a session meets: the error of Connect, or the messages of the stream up to an error of Recv.
pub data Script (Task : Type 0) : Type 0 where
  refused : RpcError → Script Task
  stream : List (ServerMessage Task) → RpcError → Script Task

-- What a session leaves: its error, the connection id, the heartbeat interval that the server set,
-- once the session is registered, and the tasks that it started, in order.
pub record Session (Task : Type 0) : Type 0 where
  pub error : RpcError
  pub conn_id : Option Text
  pub heartbeat : Option ℕ
  pub started : List Task

-- How Run ends: a wrong configuration, a refusal that no retry changes, the end of ctx; or it goes
-- on beyond the sessions that are given.
pub data End : Type 0 where
  no_client_id no_connect_key : End
  gives_up : RpcError → End
  cancelled running : End

-- A session of Run, and whether ctx has ended by its end, and by the end of the pause after it.
pub record Attempt (Task : Type 0) : Type 0 where
  pub script : Script Task
  pub ends_session : Bool
  pub ends_pause : Bool

-- connID.Store, where the ack carries an id
abbrev pub store_id : RegisterResponse → Option Text → Option Text
store_id ack id = elim ack.connection_id [ [] ↦ id | _ ∷ _ ↦ some ack.connection_id ]

module _ {Task : Type 0} where
  -- The loop of runSession that receives tasks.
  unfoldable pub tasks_of : List (ServerMessage Task) → List Task
  tasks_of [] = []
  tasks_of (task t ∷ msgs) = t ∷ tasks_of msgs
  tasks_of (register_ack _ ∷ msgs) = tasks_of msgs
  tasks_of (empty_payload ∷ msgs) = tasks_of msgs

  abbrev pub unregistered : RpcError → Option Text → Session Task
  unregistered err id = record { error = err; conn_id = id; heartbeat = none; started = [] }

  -- runSession
  unfoldable pub run_session : Script Task → Option Text → Session Task
  unfolding tasks_of
  run_session (refused err) id = unregistered err id
  run_session (stream [] err) id = unregistered err id
  run_session (stream (register_ack ack ∷ msgs) err) id = record {
    error = err;
    conn_id = store_id ack id;
    heartbeat = some ack.heartbeat_interval_ms;
    started = tasks_of msgs;
  }
  run_session (stream (task _ ∷ msgs) err) id = unregistered other_error id
  run_session (stream (empty_payload ∷ msgs) err) id = unregistered other_error id

  -- The loop of Run, with the tasks that it started.
  unfoldable pub run_loop : List (Attempt Task) → Option Text → End × List Task
  unfolding run_session is_fatal_connect_error
  run_loop [] id = (running, [])
  run_loop (a ∷ attempts) id =
      let s = run_session a.script id in
      let rest = run_loop attempts s.conn_id in
      if not a.ends_session && is_fatal_connect_error s.error
      then (gives_up s.error, s.started)
      else if a.ends_session || a.ends_pause
      then (cancelled, s.started)
      else (rest.0, s.started ++ rest.1)

  -- Run
  unfoldable pub run_client : Config → List (Attempt Task) → End × List Task
  unfolding run_loop
  run_client cfg attempts =
      if cfg.client_id == []
      then (no_client_id, [])
      else if cfg.connect_key == []
      then (no_connect_key, [])
      else run_loop attempts none

-- The pause of Run and of submitLoop.
abbrev pub retry_of : Config → ℕ
retry_of cfg = if cfg.retry_delay == 0 then default_retry_delay else cfg.retry_delay

-- heartbeat: its interval and the timeout of one call, in nanoseconds
abbrev pub heartbeat_interval : ℕ → ℕ
heartbeat_interval interval_ms =
    (if interval_ms == 0 then default_heartbeat_ms else interval_ms) * 1000000

abbrev pub heartbeat_timeout : ℕ → ℕ
heartbeat_timeout interval_ms =
    let interval = heartbeat_interval interval_ms in
    if ltb interval min_heartbeat_timeout then min_heartbeat_timeout else interval

-- The loop of heartbeat on what the calls return: the numbers that it sent, and whether it cancels
-- the session. A pong with another number is only logged.
unfoldable pub heartbeat : ℕ → List (RpcError ⊎ ℕ) → List ℕ × Bool
heartbeat seq [] = ([], false)
heartbeat seq (inl err ∷ pongs) = (suc seq ∷ [], true)
heartbeat seq (inr pong ∷ pongs) =
    let rest = heartbeat (suc seq) pongs in (suc seq ∷ rest.0, rest.1)
