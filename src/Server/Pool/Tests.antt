-- ===== src/Server/Pool/Tests.antt =====
-- Small runs of the pool, and the pool's theorems on them.
use akira_mcp.Base.{
  All, ◌≤◌, ◌≡◌, ◌≢◌, ◌⊎◌, List, [], ◌∷◌, none, some, true, false, inr, arith, refl, list_eq,
  nat_eq,
}
use akira_mcp.Base.Map.{lookup, insert, erase, NodupKeys}
use akira_mcp.Base.Text.{contains_byte, bytes, has_prefix, trim_prefix}
use akira_mcp.Server.Pool.{
  Pool, new_pool, ClientInfo, task, TaskResult, Connection, PendingEntry, failed, connection_closed,
}
use akira_mcp.Server.Pool.Pending.{find_connection, add_pending, post, close, fail_unsent}
use akira_mcp.Server.Pool.Registry.{
  register, disconnect, unregister, has, count_by_user, clients_by_user,
}
use akira_mcp.Server.Pool.Events.{Event, registers, adds, posts, step, run}
use akira_mcp.Server.Pool.Deliveries.{PoolOnce, run-Once, new_pool-Once, woken_at_most_once}
use akira_mcp.Server.Pool.Loss.{disconnect_settles}
use akira_mcp.Server.Pool.Reconnect.{queued, reconnect_fails_unsent}
use akira_mcp.Server.Pool.Limit.{limit_holds}
use akira_mcp.Server.Pool.Listing.{OwnedBy, listing_is_own}
use akira_mcp.Server.Pool.Races.{disconnect_inside_send, lost_task}

abbrev info : ClientInfo
info = record {
  connection_id = [];
  client_id = [];
  hostname = bytes "host";
  platform = bytes "linux";
}

-- A machine connects and is sent a task, which waits in its queue.
abbrev events : List Event
events =
    registers (bytes "u") (bytes "pc") info (bytes "s1")
    ∷ adds (bytes "u:pc") (bytes "t1")
    ∷ posts 0 (task (bytes "t1"))
    ∷ []

abbrev pool : Pool
pool = run (new_pool 3) events

pool-Once : PoolOnce pool
pool-Once = run-Once (new_pool 3) events (new_pool-Once 3)

abbrev entry : PendingEntry
entry = record { ticket = 1; owner = bytes "u:pc" }

abbrev connection : Connection
connection = record {
  client_id = bytes "u:pc";
  session_id = bytes "s1";
  out = task (bytes "t1") ∷ [];
  closed = false;
}

registered : lookup (bytes "u:pc") pool.conns ≡ some 0
unfolding run step register add_pending post has_prefix trim_prefix count_by_user lookup insert
    erase list_eq nat_eq
registered = refl

waits : lookup (bytes "t1") pool.pending ≡ some entry
unfolding run step register add_pending post has_prefix trim_prefix count_by_user lookup insert
    erase list_eq nat_eq
waits = refl

connected : lookup 0 pool.connections ≡ some connection
unfolding run step register add_pending post has_prefix trim_prefix count_by_user lookup insert
    erase list_eq nat_eq
connected = refl

active : has (bytes "u:pc") pool ≡ true
unfolding has run step register add_pending post has_prefix trim_prefix count_by_user lookup insert
    erase list_eq nat_eq
active = refl

woken_at_most_once_example :
    NodupKeys pool.deliveries
    × ((lookup (bytes "t1") pool.pending ≡ none)
        ⊎ ((e : PendingEntry) × (lookup (bytes "t1") pool.pending ≡ some e)
            × (lookup e.ticket pool.deliveries ≡ none)))
woken_at_most_once_example = woken_at_most_once 3 events (bytes "t1")

disconnect_settles_example :
    let q = (disconnect (bytes "u:pc") pool).0 in
    (has (bytes "u:pc") q ≡ false)
    × (((bytes "u:pc" ≡ bytes "u:pc")
          × (lookup (bytes "t1") q.pending ≡ none)
          × (lookup 1 q.deliveries ≡ some (failed connection_closed)))
        ⊎ ((bytes "u:pc" ≢ bytes "u:pc") × (lookup (bytes "t1") q.pending ≡ some entry)))
disconnect_settles_example =
    disconnect_settles (bytes "u:pc") (bytes "t1") entry pool pool-Once active waits

abbrev done : TaskResult
done = record { task_id = bytes "t1"; client_id = bytes "u:pc"; body = bytes "ok" }

accepts : (register (bytes "u:pc") (bytes "u") info (bytes "s2") pool).1 ≡ inr 2
unfolding run step register add_pending post has_prefix trim_prefix count_by_user lookup insert
    erase list_eq nat_eq
accepts = refl

next_is : pool.next ≡ 2
unfolding run step register add_pending post has_prefix trim_prefix count_by_user lookup insert
    erase list_eq nat_eq
next_is = refl

reconnect_fails_unsent_example :
    let q = (register (bytes "u:pc") (bytes "u") info (bytes "s2") pool).0 in
    (lookup (bytes "u:pc") q.conns ≡ some 2)
    × (((queued (bytes "t1") (task (bytes "t1") ∷ []) ≡ true)
          × (lookup (bytes "t1") q.pending ≡ none)
          × (lookup 1 q.deliveries ≡ some (failed connection_closed)))
        ⊎ ((queued (bytes "t1") (task (bytes "t1") ∷ []) ≡ false)
            × (lookup (bytes "t1") q.pending ≡ some entry)))
reconnect_fails_unsent_example =
    reconnect_fails_unsent (bytes "u:pc") (bytes "u") (bytes "s2") (bytes "t1") info pool 0 2
      connection entry pool-Once registered connected (ground (arith, next_is)) accepts waits

found : find_connection (bytes "u:pc") pool ≡ inr 0
unfolding find_connection run step register add_pending post has_prefix trim_prefix count_by_user
    lookup insert erase list_eq nat_eq
found = refl

free : lookup (bytes "t2") pool.pending ≡ none
unfolding run step register add_pending post has_prefix trim_prefix count_by_user lookup insert
    erase list_eq nat_eq
free = refl

lost_task_example :
    let q = disconnect_inside_send (bytes "u:pc") (bytes "t2") 0 pool in
    (lookup 0 q.connections
      ≡ some (record connection { out = task (bytes "t2") ∷ []; closed = true }))
    × (has (bytes "u:pc") q ≡ false)
    × (lookup (bytes "t2") q.pending ≡ some (record { ticket = pool.next; owner = bytes "u:pc" }))
    × (lookup pool.next q.deliveries ≡ none)
    × (unregister 0 (bytes "u:pc") q ≡ q)
    × (disconnect (bytes "u:pc") q ≡ (q, false))
lost_task_example =
    lost_task (bytes "u:pc") (bytes "t2") 0 connection pool pool-Once found connected free

abbrev again : Pool
again = run (new_pool 3) (
    registers (bytes "u") (bytes "pc") info (bytes "s1")
    ∷ registers (bytes "u") (bytes "pc") info (bytes "s2")
    ∷ [])

again_registered : lookup (bytes "u:pc") again.conns ≡ some 1
unfolding run step register close fail_unsent has_prefix trim_prefix count_by_user lookup insert
    erase list_eq nat_eq
again_registered = refl

no_colon : contains_byte b':' (bytes "u") ≡ false
unfolding contains_byte nat_eq
no_colon = refl

limit_holds_example : count_by_user (bytes "u") pool.conns ≤ 3
limit_holds_example =
    limit_holds (bytes "u") 3 events (ground arith) no_colon (no_colon, (tt, (tt, tt)))

listing_is_own_example : All (OwnedBy (bytes "u")) (clients_by_user (bytes "u") pool)
listing_is_own_example = listing_is_own (bytes "u") 3 events no_colon (no_colon, (tt, (tt, tt)))
