-- ===== src/Link/Tests.antt =====
-- A client and a server, and their theorems on them.
use akira_mcp.Base.{
  ℕ, ◌≡◌, ◌≢◌, ◌⊎◌, inl, true, false, List, [], ◌∷◌, ◌++◌, none, some, arith, refl, list_eq, nat_eq,
}
use akira_mcp.Base.Map.{lookup, insert, erase, retain}
use akira_mcp.Base.Text.{bytes}
use akira_mcp.Rpc.{Code, status, other_error, permission_denied, ServerMessage, task}
use akira_mcp.Auth.Types.{User, ok}
use akira_mcp.Auth.Memory.{Store, empty_store}
use akira_mcp.Auth.Memory.Users.{
  create_user, create_user_with_code, get_user_by_id, set_connect_key,
}
use akira_mcp.Auth.Memory.Verification.{
  save_email_verification, complete_email_verification, finish_verification,
}
use akira_mcp.Auth.Memory.Indexes.{empty_store-Consistent}
use akira_mcp.Auth.Memory.History.{Call, creates_with_code, completes, run-Consistent, AllFresh}
use akira_mcp.Auth.Memory.History
use akira_mcp.Server.Pool.{Pool, new_pool, TaskResult, PendingEntry, result}
use akira_mcp.Server.Connect.{UserLookup, unknown_connect_key, connect, submit_result}
use akira_mcp.Client.Connection.Outbox.{enqueue, wake}
use akira_mcp.Client.Connection.Submit.{
  pushes, wakes, takes, begins, answers, registers, Sender, new_sender, draining, acknowledged,
  dropped, begin_push, end_push, take_token, step, run, stamp,
}
use akira_mcp.Client.Connection.Session.{
  Config, register_request, Attempt, gives_up, is_fatal_connect_error, run_client,
}
use akira_mcp.Link.Retry.{answered, attempt, Barred, gives_up_exactly}
use akira_mcp.Link.Results.{answer_of, result_ends}
use akira_mcp.Link.Revoked.{store_users, old_key_gives_up}

abbrev config : Config
config = record { client_id = bytes "pc"; connect_key = bytes "k1"; retry_delay = 0 }

abbrev nobody : UserLookup
nobody key = inl unknown_connect_key

abbrev messages : List (ServerMessage ℕ)
messages = task 7 ∷ []

abbrev no_attempts : List (Attempt ℕ)
no_attempts = []

passes : is_fatal_connect_error other_error ≡ false
unfolding is_fatal_connect_error
passes = refl

gives_up_exactly_example :
    let reg = register_request config [] [] in
    let answer = (connect nobody (some reg) (bytes "s") (new_pool 1)).1 in
    let after = run_client config (attempt (answered answer messages other_error) ∷ no_attempts) in
    (Barred nobody (bytes "k1")
      × ((code : Code) × (answer ≡ inl code) × (after.0 ≡ gives_up (status code))))
    ⊎ ((¬ Barred nobody (bytes "k1")) × (after.0 ≡ (run_client config no_attempts).0))
gives_up_exactly_example =
    gives_up_exactly nobody config [] [] (bytes "s") (new_pool 1) messages other_error no_attempts
      (ground arith) (ground arith) passes

-- A result in the queue of a registered client.
abbrev finished : TaskResult
finished = record { task_id = bytes "t1"; client_id = []; body = bytes "out" }

abbrev sender : Sender
sender = run new_sender (registers (bytes "u:pc") ∷ pushes finished ∷ wakes ∷ takes ∷ [])

sender_queue : sender.outbox.queue ≡ finished ∷ []
unfolding run step begin_push enqueue end_push wake take_token
sender_queue = refl

sender_looks : sender.phase ≡ draining
unfolding run step begin_push enqueue end_push wake take_token
sender_looks = refl

sender_lasts : sender.cancelled ≡ false
unfolding run step begin_push enqueue end_push wake take_token
sender_lasts = refl

sender_id : sender.conn_id ≡ some (bytes "u:pc")
unfolding run step begin_push enqueue end_push wake take_token
sender_id = refl

-- The task waits for this client.
abbrev pool : Pool
pool = record (new_pool 1) {
  pending = (bytes "t1", record { ticket = 0; owner = bytes "u:pc" }) ∷ [];
  next = 1;
}

result_ends_example :
    let sent = stamp (some (bytes "u:pc")) finished in
    let r = submit_result (some sent) pool in
    let t = run sender (begins ∷ answers (answer_of r.1) ∷ []) in
    (t.phase ≡ draining)
    × (t.outbox.queue ≡ [])
    × (((lookup (bytes "t1") pool.pending ≡ none)
          × (r.0 ≡ pool)
          × (t.settled ≡ sender.settled ++ (sent, acknowledged) ∷ []))
        ⊎ ((e : PendingEntry) × (lookup (bytes "t1") pool.pending ≡ some e)
            × (((bytes "u:pc" ≡ e.owner)
                  × (lookup e.ticket r.0.deliveries ≡ some (result sent))
                  × (t.settled ≡ sender.settled ++ (sent, acknowledged) ∷ []))
                ⊎ ((bytes "u:pc" ≢ e.owner)
                    × (r.0 ≡ pool)
                    × (t.settled
                        ≡ sender.settled ++ (sent, dropped (status permission_denied)) ∷ [])))))
result_ends_example =
    result_ends sender pool (bytes "u:pc") finished [] sender_queue sender_looks sender_lasts
      sender_id (ground arith) (ground arith)

-- A verified account whose key is changed.
abbrev signups : List (ℕ × Call)
signups =
    (0, creates_with_code (bytes "u1") (bytes "ann") (bytes "a@x") (bytes "h") (bytes "c1") 100)
    ∷ (1, completes (bytes "u1") (bytes "c1") (bytes "k1"))
    ∷ []

abbrev accounts : Store
accounts = History.run empty_store signups

signups_fresh : AllFresh empty_store signups
unfolding History.run History.step create_user_with_code create_user complete_email_verification
    finish_verification save_email_verification lookup insert erase retain list_eq nat_eq
signups_fresh = (refl, (tt, tt))

abbrev ann : User
ann = record {
  id = bytes "u1";
  username = bytes "ann";
  email = bytes "a@x";
  password_hash = bytes "h";
  connect_key = bytes "k1";
  email_verified = true;
}

ann_by_id : get_user_by_id (bytes "u1") accounts ≡ ok ann
unfolding History.run History.step create_user_with_code create_user complete_email_verification
    finish_verification save_email_verification lookup insert erase retain list_eq nat_eq
    get_user_by_id
ann_by_id = refl

abbrev rekeyed : Store
rekeyed = (set_connect_key (bytes "u1") (bytes "k9") accounts).0

rekeys : set_connect_key (bytes "u1") (bytes "k9") accounts ≡ (rekeyed, ok tt)
unfolding History.run History.step create_user_with_code create_user complete_email_verification
    finish_verification save_email_verification lookup insert erase retain list_eq nat_eq
    set_connect_key
rekeys = refl

old_key_gives_up_example :
    let reg = register_request config [] [] in
    let answer = (connect (store_users rekeyed) (some reg) (bytes "s") (new_pool 1)).1 in
    let after = run_client config (attempt (answered answer messages other_error) ∷ no_attempts) in
    (code : Code) × (answer ≡ inl code) × (after.0 ≡ gives_up (status code))
old_key_gives_up_example =
    old_key_gives_up accounts rekeyed (bytes "u1") (bytes "k9") ann config [] [] (bytes "s")
      (new_pool 1) messages other_error no_attempts
      (run-Consistent empty_store signups signups_fresh empty_store-Consistent) ann_by_id
      (ground arith) (ground arith) rekeys (ground arith) refl passes
