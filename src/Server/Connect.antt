-- ===== src/Server/Connect.antt =====
-- internal/akira-server/connection/server/server.go, and storeLookup of cmd/akira-server/main.go.
-- `none` is a nil error where a Code is optional. UserLookup is an argument: what it returns for a
-- key. The session id that Register draws is an argument too.
pub mod Outcomes
pub mod Stream
mod Tests
use akira_mcp.Base.{
  ℕ, Bool, true, false, not, ◌||◌, List, [], ◌∷◌, ◌++◌, Option, none, some, ◌==◌, list_eq, nat_eq,
  if◌then◌else◌, ◌⊎◌, inl, inr,
}
use akira_mcp.Base.Map.{lookup, insert}
use akira_mcp.Base.Text.{Text}
use akira_mcp.Rpc.{
  Code, invalid_argument, unauthenticated, internal, permission_denied, resource_exhausted,
  RegisterRequest, RegisterResponse,
}
use akira_mcp.Auth.Types.{User, Result, ok, err, StoreError, user_not_found}
use akira_mcp.Server.Pool.{
  Pool, PoolError, too_many_connections, ClientInfo, Connection, Message, TaskResult,
  connection_id_of,
}
use akira_mcp.Server.Pool.Pending.{handle_result}
use akira_mcp.Server.Pool.Registry.{register, unregister}
use akira_mcp.Server.Pool.Events.{Event, step}

-- HeartbeatIntervalMs
abbrev pub heartbeat_interval_ms : ℕ
heartbeat_interval_ms = 30000

-- The errors of UserLookup: ErrUnknownConnectKey, and any other.
pub data LookupError : Type 0 where
  unknown_connect_key lookup_failed : LookupError

-- The user id of the key's owner and whether the email is verified.
abbrev pub UserLookup : Type 0
UserLookup = Text → LookupError ⊎ (Text × Bool)

-- storeLookup.LookupConnectKey, on what GetUserByConnectKey returned
abbrev pub lookup_connect_key : Result User → LookupError ⊎ (Text × Bool)
lookup_connect_key (ok user) = inr (user.id, user.email_verified)
lookup_connect_key (err user_not_found) = inl unknown_connect_key
lookup_connect_key (err _) = inl lookup_failed

abbrev pub register_code : PoolError → Code
register_code too_many_connections = resource_exhausted
register_code _ = internal

abbrev pub ack_of : Text → Text → RegisterResponse
ack_of connection_id session_id = record {
  session_id = session_id;
  heartbeat_interval_ms = heartbeat_interval_ms;
  connection_id = connection_id;
}

-- Connect from the owner of the key to the ack: the code that it returns, or the handle of the
-- registered connection and the ack that it sends.
unfoldable pub connect_as :
    Text → RegisterRequest → Text → Pool → Pool × (Code ⊎ (ℕ × RegisterResponse))
connect_as user_id reg session_id p =
    let connection_id = connection_id_of user_id reg.client_id in
    let info : ClientInfo = record {
      connection_id = [];
      client_id = [];
      hostname = reg.hostname;
      platform = reg.platform;
    } in
    let (q, registered) = register connection_id user_id info session_id p in
    elim registered [
      | inl e ↦ (q, inl (register_code e))
      | inr h ↦ (q, inr (h, ack_of connection_id session_id))
    ]

-- Connect up to the ack
unfoldable pub connect :
    UserLookup → Option RegisterRequest → Text → Pool → Pool × (Code ⊎ (ℕ × RegisterResponse))
unfolding connect_as
connect users none session_id p = (p, inl invalid_argument)
connect users (some reg) session_id p =
    if reg.client_id == [] || reg.connect_key == []
    then (p, inl invalid_argument)
    else elim (users reg.connect_key) [
      | inl unknown_connect_key ↦ (p, inl unauthenticated)
      | inl lookup_failed ↦ (p, inl internal)
      | inr (user_id, verified) ↦
          if not verified then (p, inl permission_denied) else connect_as user_id reg session_id p
    ]

-- Where the handler of a registered connection is: at its select, with a message that it has taken
-- from the queue, in Send with it, or returned, its deferred Unregister done.
pub data Handling : Type 0 where
  selecting : Handling
  holding sending : Message → Handling
  returned : Handling

-- The handler of the connection `h`; `sent` is what the stream took after the ack.
pub record Handler : Type 0 where
  pub pool : Pool
  pub handling : Handling
  pub sent : List Message

-- case msg := <-conn.Out()
unfoldable pub take_message : ℕ → Handler → Handler
take_message h s = elim s.handling [
  | selecting ↦ elim (lookup h s.pool.connections) [
    | none ↦ s
    | some c ↦ elim c.out [
      | [] ↦ s
      | msg ∷ rest ↦ record s {
        pool = record s.pool {
          connections = insert h (record c { out = rest }) s.pool.connections;
        };
        handling = holding msg;
      }
    ]
  ]
  | _ ↦ s
]

unfoldable pub is_closed : ℕ → Pool → Bool
is_closed h p = elim (lookup h p.connections) [ none ↦ false | some c ↦ c.closed ]

abbrev pub finish : ℕ → Text → Handler → Handler
finish h connection_id s = record s {
  pool = unregister h connection_id s.pool;
  handling = returned;
}

-- The inner select: where Done is closed, the message is not sent.
unfoldable pub check_done : ℕ → Text → Handler → Handler
check_done h connection_id s = elim s.handling [
  | holding msg ↦
      if is_closed h s.pool then finish h connection_id s else record s { handling = sending msg }
  | _ ↦ s
]

-- The end of Send, with an error or without.
unfoldable pub end_send : ℕ → Text → Bool → Handler → Handler
end_send h connection_id sent s = elim s.handling [
  | sending msg ↦
      if sent
      then record s { handling = selecting; sent = s.sent ++ msg ∷ [] }
      else finish h connection_id s
  | _ ↦ s
]

-- case <-conn.Done()
unfoldable pub see_done : ℕ → Text → Handler → Handler
see_done h connection_id s = elim s.handling [
  | selecting ↦ if is_closed h s.pool then finish h connection_id s else s
  | _ ↦ s
]

-- case <-stream.Context().Done()
unfoldable pub end_context : ℕ → Text → Handler → Handler
end_context h connection_id s = elim s.handling [ selecting ↦ finish h connection_id s | _ ↦ s ]

-- The handler's steps, and those of everything else that uses the pool.
pub data StreamEvent : Type 0 where
  takes checks sees_done ends_context : StreamEvent
  sends : Bool → StreamEvent
  others : Event → StreamEvent

unfoldable pub stream_step : ℕ → Text → Handler → StreamEvent → Handler
stream_step h connection_id s takes = take_message h s
stream_step h connection_id s checks = check_done h connection_id s
stream_step h connection_id s sees_done = see_done h connection_id s
stream_step h connection_id s ends_context = end_context h connection_id s
stream_step h connection_id s (sends sent) = end_send h connection_id sent s
stream_step h connection_id s (others e) = record s { pool = step s.pool e }

unfoldable pub stream_run : ℕ → Text → Handler → List StreamEvent → Handler
unfolding stream_step
stream_run h connection_id s [] = s
stream_run h connection_id s (e ∷ es) =
    stream_run h connection_id (stream_step h connection_id s e) es

-- SubmitResult
unfoldable pub submit_result : Option TaskResult → Pool → Pool × Option Code
submit_result none p = (p, some invalid_argument)
submit_result (some res) p =
    if res.task_id == [] || res.client_id == [] then (p, some invalid_argument) else (
      (handle_result res p).0,
      elim (handle_result res p).1 [ none ↦ none | some e ↦ some permission_denied ],
    )

-- Heartbeat
abbrev pub answer_ping : ℕ → ℕ
answer_ping seq = seq
