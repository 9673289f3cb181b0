-- ===== src/Client/Connection/Submit.antt =====
-- submitLoop of outbox.go with what runs beside it: the pushes of runTask, each in two steps, the
-- acks of runSession, and the end of ctx.
use akira_mcp.Base.{
  ℕ, zero, suc, Bool, true, false, List, [], ◌∷◌, ◌++◌, Option, none, some, if◌then◌else◌,
}
use akira_mcp.Base.Text.{Text}
use akira_mcp.Rpc.{RpcError}
use akira_mcp.Server.Pool.{TaskResult}
use akira_mcp.Client.Connection.Outbox.{
  Outbox, new_outbox, enqueue, wake, stop, peek, pop, permanent_submit_error,
}

-- Where submitLoop is: at its outer select, at the top of its inner loop, in SubmitResult with a
-- result, at its inner select, or returned.
pub data Phase : Type 0 where
  waiting draining : Phase
  sending : TaskResult → Phase
  pausing stopped : Phase

-- What became of a result that left the queue.
pub data Fate : Type 0 where
  acknowledged : Fate
  dropped : RpcError → Fate

-- `wakers` counts the pushes that have queued a result and not yet called wake. `accepted` and
-- `settled` are records of what was queued and of what left the queue, the oldest first.
pub record Sender : Type 0 where
  pub outbox : Outbox
  pub phase : Phase
  pub conn_id : Option Text
  pub wakers : ℕ
  pub cancelled : Bool
  pub accepted : List TaskResult
  pub settled : List (TaskResult × Fate)

abbrev pub new_sender : Sender
new_sender = record {
  outbox = new_outbox;
  phase = waiting;
  conn_id = none;
  wakers = 0;
  cancelled = false;
  accepted = [];
  settled = [];
}

-- The stamp on a result: a connection id, once there is one.
abbrev pub stamp : Option Text → TaskResult → TaskResult
stamp none res = res
stamp (some id) res = record res { client_id = id }

-- The queue holds pointers: the stamp on the first result is seen in the queue.
abbrev pub stamp_first : Option Text → Outbox → Outbox
stamp_first id o = elim o.queue [ [] ↦ o | res ∷ rest ↦ record o { queue = stamp id res ∷ rest } ]

-- push, first step
unfoldable pub begin_push : TaskResult → Sender → Sender
begin_push res s = elim (enqueue res s.outbox).1 [
  | true ↦ record s {
    outbox = (enqueue res s.outbox).0;
    wakers = suc s.wakers;
    accepted = s.accepted ++ res ∷ [];
  }
  | false ↦ s
]

-- push, second step, of one of the pushes that are in it
unfoldable pub end_push : Sender → Sender
end_push s = elim s.wakers [ zero ↦ s | suc n ↦ record s { outbox = wake s.outbox; wakers = n } ]

-- case <-ob.notify
unfoldable pub take_token : Sender → Sender
take_token s = elim s.phase [
  | waiting ↦
      if s.outbox.notify
      then record s { outbox = record s.outbox { notify = false }; phase = draining }
      else s
  | _ ↦ s
]

-- The inner loop, up to the call of SubmitResult.
unfoldable pub begin_submit : Sender → Sender
begin_submit s = elim s.phase [
  | draining ↦ elim (peek s.outbox) [
    | none ↦ record s { phase = waiting }
    | some res ↦ record s {
      outbox = stamp_first s.conn_id s.outbox;
      phase = sending (stamp s.conn_id res);
    }
  ]
  | _ ↦ s
]

abbrev pub settle : TaskResult → Fate → Sender → Sender
settle res fate s = record s {
  outbox = pop s.outbox;
  phase = draining;
  settled = s.settled ++ (res, fate) ∷ [];
}

-- The return, with its deferred stop.
abbrev pub halt : Sender → Sender
halt s = record s { outbox = stop s.outbox; phase = stopped }

-- What the inner loop does with the answer of SubmitResult; `none` is a nil error.
unfoldable pub end_submit : Option RpcError → Sender → Sender
end_submit answer s = elim s.phase [
  | sending res ↦ elim answer [
    | none ↦ settle res acknowledged s
    | some err ↦
        if s.cancelled
        then halt s
        else if permanent_submit_error err
        then settle res (dropped err) s
        else record s { phase = pausing }
  ]
  | _ ↦ s
]

-- case <-time.After(retry)
unfoldable pub end_pause : Sender → Sender
end_pause s = elim s.phase [ pausing ↦ record s { phase = draining } | _ ↦ s ]

-- case <-ctx.Done(), in both selects
unfoldable pub notice : Sender → Sender
notice s = if s.cancelled then elim s.phase [ waiting ↦ halt s | pausing ↦ halt s | _ ↦ s ] else s

pub data Event : Type 0 where
  pushes : TaskResult → Event
  wakes takes begins : Event
  answers : Option RpcError → Event
  elapses : Event
  registers : (connection_id : Text) → Event
  cancels notices gives_up : Event

unfoldable pub step : Sender → Event → Sender
step s (pushes res) = begin_push res s
step s wakes = end_push s
step s takes = take_token s
step s begins = begin_submit s
step s (answers answer) = end_submit answer s
step s elapses = end_pause s
step s (registers id) = record s { conn_id = some id }
step s cancels = record s { cancelled = true }
step s notices = notice s
step s gives_up = record s { outbox = stop s.outbox }

unfoldable pub run : Sender → List Event → Sender
run s [] = s
run s (e ∷ es) = run (step s e) es
