-- ===== src/Client/Connection/Order.antt =====
-- outbox.go loses, doubles and reorders no result that it has queued.
use akira_mcp.Base.{
  ◌≡◌, ◌⊎◌, inl, inr, List, [], ◌∷◌, ◌++◌, map, map-append, append_assoc, Option, none, some, arith,
  refl, subst, sym,
}
use akira_mcp.Base.Text.{Text}
use akira_mcp.Rpc.{RpcError}
use akira_mcp.Server.Pool.{TaskResult}
use akira_mcp.Client.Connection.Outbox.{enqueue, wake, stop, peek, pop}
use akira_mcp.Client.Connection.Submit.{
  Phase, sending, Sender, new_sender, Fate, acknowledged, dropped, Event, pushes, wakes, takes,
  begins, answers, elapses, registers, cancels, notices, gives_up, begin_push, end_push, take_token,
  begin_submit, settle, end_submit, end_pause, notice, step, run, stamp,
}

-- A result without its stamp.
abbrev pub unsigned : TaskResult → TaskResult
unsigned res = record res { client_id = [] }

abbrev pub unsigned_of : TaskResult × Fate → TaskResult
unsigned_of entry = unsigned entry.0

unsigned-stamp : (id : Option Text) (res : TaskResult) → unsigned (stamp id res) ≡ unsigned res
unsigned-stamp none res = refl
unsigned-stamp (some id) res = refl

-- The result in SubmitResult is the first of the queue.
abbrev pub InFlight : Phase → List TaskResult → Type 0
InFlight (sending res) queue = (rest : List TaskResult) × (queue ≡ res ∷ rest)
InFlight _ queue = Unit

-- What was queued is what has left the queue, and then what stands in it.
abbrev pub Accounted : Sender → Type 0
Accounted s =
    (map unsigned s.accepted ≡ map unsigned_of s.settled ++ map unsigned s.outbox.queue)
    × InFlight s.phase s.outbox.queue

push-Accounted : (res : TaskResult) (s : Sender) → Accounted s → Accounted (begin_push res s)
unfolding begin_push enqueue
push-Accounted res s h = ground (
  arith,
  h,
  map-append unsigned s.accepted (res ∷ []),
  map-append unsigned s.outbox.queue (res ∷ []),
  append_assoc (map unsigned_of s.settled) (map unsigned s.outbox.queue) (unsigned res ∷ []),
)

begin_submit-Accounted : (s : Sender) → Accounted s → Accounted (begin_submit s)
unfolding begin_submit peek
begin_submit-Accounted s h = ground (arith, h, unsigned-stamp s.conn_id)

settle-Accounted :
    (res : TaskResult) (rest : List TaskResult) (fate : Fate) (s : Sender)
    → s.outbox.queue ≡ res ∷ rest
    → map unsigned s.accepted ≡ map unsigned_of s.settled ++ map unsigned s.outbox.queue
    → Accounted (settle res fate s)
unfolding pop
settle-Accounted res rest fate s q h = ground (
  arith,
  q,
  h,
  map-append unsigned_of s.settled ((res, fate) ∷ []),
  append_assoc (map unsigned_of s.settled) (unsigned res ∷ []) (map unsigned rest),
)

sending-cases :
    (answer : Option RpcError) (s : Sender)
    → (end_submit answer s ≡ s) ⊎ ((res : TaskResult) × (s.phase ≡ sending res))
unfolding end_submit
sending-cases answer s = ground arith

-- What follows an answer, once it is known which result it is for.
answered-Accounted :
    (answer : Option RpcError) (res : TaskResult) (s : Sender)
    → s.phase ≡ sending res
    → Accounted s
    → Accounted (end_submit answer s)
unfolding end_submit stop
answered-Accounted none res s e h =
    let (rest, q) = subst (λ p. InFlight p s.outbox.queue) e h.1 in
    rw (e, end_submit) (settle-Accounted res rest acknowledged s q h.0)
answered-Accounted (some err) res s e h =
    let (rest, q) = subst (λ p. InFlight p s.outbox.queue) e h.1 in
    let settled : Accounted (settle res (dropped err) s) =
      settle-Accounted res rest (dropped err) s q h.0 in
    ground (arith, e, h.0, q, settled)

end_submit-Accounted :
    (answer : Option RpcError) (s : Sender) → Accounted s → Accounted (end_submit answer s)
end_submit-Accounted answer s h = elim (sending-cases answer s) [
  | inl e ↦ subst Accounted (sym e) h
  | inr (res, e) ↦ answered-Accounted answer res s e h
]

step-Accounted : (s : Sender) (e : Event) → Accounted s → Accounted (step s e)
unfolding step
step-Accounted s (pushes res) h = push-Accounted res s h
step-Accounted s wakes h = unfold end_push wake in ground (arith, h)
step-Accounted s takes h = unfold take_token in ground (arith, h)
step-Accounted s begins h = begin_submit-Accounted s h
step-Accounted s (answers a) h = end_submit-Accounted a s h
step-Accounted s elapses h = unfold end_pause in ground (arith, h)
step-Accounted s (registers id) h = h
step-Accounted s cancels h = h
step-Accounted s notices h = unfold notice stop in ground (arith, h)
step-Accounted s gives_up h = unfold stop in h

run-Accounted : (s : Sender) (es : List Event) → Accounted s → Accounted (run s es)
unfolding run
run-Accounted s [] h = h
run-Accounted s (e ∷ es) h = run-Accounted (step s e) es (step-Accounted s e h)

-- Whatever the order of pushes, wakes, answers, acks and the end of ctx: the results that the outbox
-- took are, in order and up to their stamps, those that were acknowledged or dropped for good, each
-- once, and then those in the queue; and the one that SubmitResult has is the first of the queue.
pub delivered_in_order :
    (es : List Event)
    → let s = run new_sender es in
      (map unsigned s.accepted ≡ map unsigned_of s.settled ++ map unsigned s.outbox.queue)
      × InFlight s.phase s.outbox.queue
delivered_in_order es = run-Accounted new_sender es (refl, tt)
