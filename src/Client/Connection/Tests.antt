-- ===== src/Client/Connection/Tests.antt =====
-- A small run of the outbox, and its theorems on it.
use akira_mcp.Base.{◌<◌, ◌≡◌, ◌⊎◌, true, List, [], ◌∷◌, ◌++◌, map, refl}
use akira_mcp.Base.Text.{bytes}
use akira_mcp.Rpc.{status, unavailable, permission_denied}
use akira_mcp.Server.Pool.{TaskResult}
use akira_mcp.Client.Connection.Outbox.{enqueue, wake, permanent_submit_error}
use akira_mcp.Client.Connection.Submit.{
  Event, pushes, wakes, takes, registers, Sender, new_sender, waiting, draining, acknowledged,
  dropped, begin_push, end_push, take_token, step, run,
}
use akira_mcp.Client.Connection.Wakeups.{no_lost_wakeup}
use akira_mcp.Client.Connection.Order.{unsigned, unsigned_of, InFlight, delivered_in_order}
use akira_mcp.Client.Connection.Drain.{Script, play, fates, drains}

abbrev first : TaskResult
first = record { task_id = bytes "t1"; client_id = []; body = bytes "one" }

abbrev second : TaskResult
second = record { task_id = bytes "t2"; client_id = []; body = bytes "two" }

-- A result is queued; its token is taken, and a second result comes before the loop looks.
abbrev events : List Event
events = registers (bytes "u:pc") ∷ pushes first ∷ wakes ∷ takes ∷ pushes second ∷ []

abbrev sender : Sender
sender = run new_sender events

-- The loop has found nothing, and a result is queued whose push has not called wake.
abbrev asleep : List Event
asleep = pushes first ∷ []

asleep_waits : (run new_sender asleep).phase ≡ waiting
unfolding run step begin_push enqueue
asleep_waits = refl

no_lost_wakeup_example :
    let s = run new_sender asleep in
    (s.outbox.queue ≡ []) ⊎ ((s.outbox.notify ≡ true) ⊎ (0 < s.wakers))
no_lost_wakeup_example = no_lost_wakeup asleep asleep_waits

delivered_in_order_example :
    (map unsigned sender.accepted
      ≡ map unsigned_of sender.settled ++ map unsigned sender.outbox.queue)
    × InFlight sender.phase sender.outbox.queue
delivered_in_order_example = delivered_in_order events

-- The first result meets a lost connection and is then taken; the second is refused.
abbrev scripts : List Script
scripts =
    record { retries = status unavailable ∷ []; final = acknowledged }
    ∷ record { retries = []; final = dropped (status permission_denied) }
    ∷ []

queue_is : sender.outbox.queue ≡ first ∷ second ∷ []
unfolding run step begin_push enqueue end_push wake take_token
queue_is = refl

looks : sender.phase ≡ draining
unfolding run step begin_push enqueue end_push wake take_token
looks = refl

drains_example :
    let t = run sender (play scripts) in
    (t.phase ≡ waiting)
    × (t.outbox.queue ≡ [])
    × (t.settled ≡ sender.settled ++ fates sender.conn_id (first ∷ second ∷ []) scripts)
unfolding run step begin_push enqueue end_push wake take_token permanent_submit_error
drains_example =
    drains sender (first ∷ second ∷ []) scripts queue_is looks refl
      (((refl, tt), (tt, (tt, (refl, tt)))))
