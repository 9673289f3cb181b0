-- ===== src/Server/Pool/Reconnect.antt =====
-- Reconnection (Register over an active connection id): what becomes of the queue of the old one.
use akira_mcp.Base.{
  ℕ, ◌≡◌, ◌≢◌, ◌⊎◌, inl, inr, Bool, true, false, List, [], ◌∷◌, none, some, Option-cases,
  Bool-cases, ◌==◌, list_eq, nat_eq, arith, ◌||◌, subst, sym, refl,
}
use akira_mcp.Base.Map.{lookup, erase, lookup-insert, lookup-erase, All-lookup}
use akira_mcp.Base.Text.{Text}
use akira_mcp.Server.Pool.{
  Pool, PendingEntry, Connection, Delivery, failed, register_ack, ClientInfo, connection_closed,
  Message, task,
}
use akira_mcp.Server.Pool.Pending.{fail_task, fail_unsent, close}
use akira_mcp.Server.Pool.Registry.{
  register, enrol, at_limit, count_by_user, fresh_connection, retire,
}
use akira_mcp.Server.Pool.Deliveries.{fail_task-Once, close-Once, PoolOnce}
use akira_mcp.Server.Pool.Once.{next-Once, Unwoken}
use akira_mcp.Server.Pool.Loss.{fields-close}

-- The message is among those.
abbrev pub queued : Text → List Message → Bool
queued id [] = false
queued id (task t ∷ msgs) = t == id || queued id msgs
queued id (register_ack ∷ msgs) = queued id msgs

fail_task-same :
    (id : Text) (e : PendingEntry) (p : Pool)
    → lookup id p.pending ≡ some e
    → (lookup id (fail_task id p).pending ≡ none)
      × (lookup e.ticket (fail_task id p).deliveries ≡ some (failed connection_closed))
unfolding fail_task lookup
fail_task-same id e p h = (ground (arith, lookup-erase id id p.pending), ground arith)

fail_task-other :
    (id t : Text) (p : Pool) → t ≢ id → lookup id (fail_task t p).pending ≡ lookup id p.pending
unfolding fail_task
fail_task-other id t p other = ground (arith, lookup-erase id t p.pending)

fail_task-kept :
    (id t : Text) (d : Delivery) (ticket : ℕ) (p : Pool)
    → PoolOnce p
    → lookup ticket p.deliveries ≡ some d
    → lookup ticket (fail_task t p).deliveries ≡ some d
unfolding fail_task lookup
fail_task-kept id t d ticket p o h = elim (Option-cases (lookup t p.pending)) [
  | inl e ↦ ground arith
  | inr (f, e) ↦ ground (arith, All-lookup (Unwoken p.deliveries) t f p.pending o.unwoken e)
]

-- A task among the unsent messages is failed, if it waits; every other task waits on.
module _ (id : Text) where
  fail_unsent-gone :
      (msgs : List Message) (p : Pool)
      → lookup id p.pending ≡ none
      → lookup id (fail_unsent msgs p).pending ≡ none
  unfolding fail_unsent
  fail_unsent-gone [] p h = h
  fail_unsent-gone (task t ∷ msgs) p h =
      fail_unsent-gone msgs (fail_task t p)
        (unfold fail_task in ground (arith, lookup-erase id t p.pending))
  fail_unsent-gone (register_ack ∷ msgs) p h = fail_unsent-gone msgs p h

  fail_unsent-kept :
      (msgs : List Message) (ticket : ℕ) (d : Delivery) (p : Pool)
      → PoolOnce p
      → lookup ticket p.deliveries ≡ some d
      → lookup ticket (fail_unsent msgs p).deliveries ≡ some d
  unfolding fail_unsent
  fail_unsent-kept [] ticket d p o h = h
  fail_unsent-kept (task t ∷ msgs) ticket d p o h =
      fail_unsent-kept msgs ticket d (fail_task t p) (fail_task-Once t p o)
        (fail_task-kept id t d ticket p o h)
  fail_unsent-kept (register_ack ∷ msgs) ticket d p o h = fail_unsent-kept msgs ticket d p o h

  fail_unsent_outcome :
      (msgs : List Message) (e : PendingEntry) (p : Pool)
      → PoolOnce p
      → lookup id p.pending ≡ some e
      → let q = fail_unsent msgs p in
        ((queued id msgs ≡ true)
          × (lookup id q.pending ≡ none)
          × (lookup e.ticket q.deliveries ≡ some (failed connection_closed)))
        ⊎ ((queued id msgs ≡ false) × (lookup id q.pending ≡ some e))
  unfolding fail_unsent
  fail_unsent_outcome [] e p o h = inr (refl, h)
  fail_unsent_outcome (register_ack ∷ msgs) e p o h = fail_unsent_outcome msgs e p o h
  fail_unsent_outcome (task t ∷ msgs) e p o h = elim (list_eq.dec t id) [
    | yes same ↦
        let now : (lookup id (fail_task t p).pending ≡ none)
            × (lookup e.ticket (fail_task t p).deliveries ≡ some (failed connection_closed)) =
          subst
            (λ x.
              (lookup id (fail_task x p).pending ≡ none)
              × (lookup e.ticket (fail_task x p).deliveries ≡ some (failed connection_closed)))
            (sym same) (fail_task-same id e p h) in
        inl (
          ground arith,
          fail_unsent-gone msgs (fail_task t p) now.0,
          fail_unsent-kept msgs e.ticket (failed connection_closed) (fail_task t p)
              (fail_task-Once t p o) now.1,
        )
    | no other ↦ ground (
      arith,
      fail_unsent_outcome msgs e (fail_task t p) (fail_task-Once t p o)
          (rw (fail_task-other id t p other) h),
    )
  ]

pub conns-fail_unsent :
    (msgs : List Message) (p : Pool)
    → ((fail_unsent msgs p).conns ≡ p.conns)
      × ((fail_unsent msgs p).connections ≡ p.connections)
      × ((fail_unsent msgs p).infos ≡ p.infos)
      × ((fail_unsent msgs p).max_connections ≡ p.max_connections)
      × ((fail_unsent msgs p).next ≡ p.next)
unfolding fail_unsent fail_task
conns-fail_unsent [] p = (refl, refl, refl, refl, refl)
conns-fail_unsent (task t ∷ msgs) p = ground (arith, conns-fail_unsent msgs (fail_task t p))
conns-fail_unsent (register_ack ∷ msgs) p = conns-fail_unsent msgs p

-- A registration under a connection id that is active, in a pool where no ticket was woken twice:
-- if it is accepted, the new connection is the active one, and of the tasks that wait, those still
-- in the queue of the old connection are woken with ErrConnectionClosed, and all others wait on.
pub reconnect_fails_unsent :
    (id user_id session task_id : Text) (info : ClientInfo) (p : Pool) (h new : ℕ) (c : Connection)
    (e : PendingEntry)
    → PoolOnce p
    → lookup id p.conns ≡ some h
    → lookup h p.connections ≡ some c
    → h ≢ p.next
    → (register id user_id info session p).1 ≡ inr new
    → lookup task_id p.pending ≡ some e
    → let q = (register id user_id info session p).0 in
      (lookup id q.conns ≡ some new)
      × (((queued task_id c.out ≡ true)
            × (lookup task_id q.pending ≡ none)
            × (lookup e.ticket q.deliveries ≡ some (failed connection_closed)))
          ⊎ ((queued task_id c.out ≡ false) × (lookup task_id q.pending ≡ some e)))
unfolding register
reconnect_fails_unsent id user_id session task_id info p h new c e o there queue old accepted
      waits =
    elim (Bool-cases (at_limit p.max_connections (count_by_user user_id (erase id p.conns)))) [
      | inl full ↦ ground arith
      | inr room ↦
          let q = enrol id user_id info session p in
          let unsent : (close h q).1 ≡ c.out =
            unfold close in
            ground (arith, lookup-insert h p.next (fresh_connection id session) p.connections) in
          let fields = fields-close h q in
          let outcome =
            fail_unsent_outcome task_id (close h q).1 e (close h q).0 (close-Once h q (next-Once o))
              (rw fields.0 waits) in
          let named = conns-fail_unsent (close h q).1 (close h q).0 in
          rw (room, there, register)
            (
              ground (arith, named, fields, lookup-insert id id p.next p.conns),
              subst
                  (λ ms.
                    ((queued task_id ms ≡ true)
                      × (lookup task_id (retire (some h) q).pending ≡ none)
                      × (lookup e.ticket (retire (some h) q).deliveries
                          ≡ some (failed connection_closed)))
                    ⊎ ((queued task_id ms ≡ false)
                        × (lookup task_id (retire (some h) q).pending ≡ some e)))
                  unsent outcome,
            )
    ]
