-- ===== src/Server/Pool/Limit.antt =====
-- The limit on the connections of one user (MAX_CONNECTIONS), in Register of pool/pool.go.
use akira_mcp.Base.{
  ℕ, suc, ◌≤◌, ◌<◌, ◌≡◌, ◌⊎◌, inl, inr, false, Bool-cases, Option-cases, List, [], ◌∷◌, Option,
  none, some, list_eq, nat_eq, arith, refl, subst,
}
use akira_mcp.Base.Map.{Map, lookup, insert, erase}
use akira_mcp.Base.Text.{Text, contains_byte, has_prefix, has_prefix-field}
use akira_mcp.Server.Pool.{Pool, new_pool, ClientInfo, user_prefix, connection_id_of}
use akira_mcp.Server.Pool.Pending.{
  fail_task, fail_pending_client, handle_result, add_pending, drop_pending, post, close,
}
use akira_mcp.Server.Pool.Registry.{
  register, unregister, disconnect, retire, enrol, forget, at_limit, count_by_user,
}
use akira_mcp.Server.Pool.Events.{
  Event, registers, unregisters, disconnects, adds, drops, posts, submits, closes, fails,
  fails_unsent, fails_client, step, run,
}
use akira_mcp.Server.Pool.Reconnect.{conns-fail_unsent}

-- A user id is hex: it has no ':'.
abbrev pub PlainUser : Event → Type 0
PlainUser (registers user_id _ _ _) = contains_byte b':' user_id ≡ false
PlainUser _ = Unit

abbrev pub AllPlain : List Event → Type 0
AllPlain [] = Unit
AllPlain (e ∷ es) = PlainUser e × AllPlain es

count_by_user-erase :
    (user id : Text) (m : Map Text ℕ) → count_by_user user (erase id m) ≤ count_by_user user m
unfolding count_by_user erase
count_by_user-erase user id [] = omega arith
count_by_user-erase user id ((k, h) ∷ m) = ground (arith, count_by_user-erase user id m)

-- One registration of `owner` adds one to that user's count at most, and nothing to another's.
count_by_user-insert :
    (user owner client : Text) (h : ℕ) (m : Map Text ℕ)
    → contains_byte b':' user ≡ false
    → contains_byte b':' owner ≡ false
    → let id = connection_id_of owner client in
      (count_by_user user (insert id h m) ≤ count_by_user user (erase id m))
      ⊎ ((owner ≡ user)
          × (count_by_user user (insert id h m) ≡ suc (count_by_user user (erase id m))))
unfolding count_by_user insert
count_by_user-insert user owner client h m plain plain' =
    elim (Bool-cases (has_prefix (connection_id_of owner client) (user_prefix user))) [
      | inl e ↦ inr (has_prefix-field b':' owner user client plain' plain e, ground (arith, e))
      | inr e ↦ inl (ground (arith, e))
    ]

module _ (user : Text) (max : ℕ) where
  -- The user has at most `max` connections.
  abbrev pub Limited : Pool → Type 0
  Limited p = (p.max_connections ≡ max) × (count_by_user user p.conns ≤ max)

  retire-Limited : (old : Option ℕ) (p : Pool) → Limited p → Limited (retire old p)
  retire-Limited none p l = l
  retire-Limited (some h) p l =
      unfold close in ground (arith, l, conns-fail_unsent (close h p).1 (close h p).0)

  register-Limited :
      (owner client session : Text) (info : ClientInfo) (p : Pool)
      → 0 < max
      → contains_byte b':' user ≡ false
      → contains_byte b':' owner ≡ false
      → Limited p
      → Limited (register (connection_id_of owner client) owner info session p).0
  unfolding register
  register-Limited owner client session info p some_limit plain plain' l =
      let id = connection_id_of owner client in
      elim (Bool-cases (at_limit p.max_connections (count_by_user owner (erase id p.conns)))) [
        | inl e ↦ ground (arith, e, l)
        | inr e ↦
            rw (e, register)
              (retire-Limited (lookup id p.conns) (enrol id owner info session p) (
                l.0,
                elim (count_by_user-insert user owner client p.next p.conns plain plain') [
                  | inl few ↦ ground (arith, few, l, count_by_user-erase user id p.conns)
                  | inr (same, one_more) ↦
                      let room : count_by_user user (erase id p.conns) < max = ground (
                        arith,
                        l.0,
                        subst
                            (λ u.
                              at_limit p.max_connections (count_by_user u (erase id p.conns))
                              ≡ false)
                            same e,
                      ) in
                      ground (arith, one_more, room)
                ],
              ))
      ]

  lose-Limited :
      (h : ℕ) (id : Text) (p : Pool)
      → Limited p
      → Limited (fail_pending_client id (close h (forget id p)).0)
  unfolding fail_pending_client close
  lose-Limited h id p l = ground (arith, l, count_by_user-erase user id p.conns)

  unregister-Limited : (h : ℕ) (id : Text) (p : Pool) → Limited p → Limited (unregister h id p)
  unfolding unregister
  unregister-Limited h id p l = elim (Option-cases (lookup id p.conns)) [
    | inl e ↦ ground (arith, e, l)
    | inr (cur, e) ↦ ground (arith, e, l, lose-Limited h id p l, retire-Limited (some h) p l)
  ]

  disconnect-Limited : (id : Text) (p : Pool) → Limited p → Limited (disconnect id p).0
  unfolding disconnect
  disconnect-Limited id p l = elim (Option-cases (lookup id p.conns)) [
    | inl e ↦ ground (arith, e, l)
    | inr (h, e) ↦ ground (arith, e, l, lose-Limited h id p l)
  ]

  step-Limited :
      (p : Pool) (e : Event)
      → 0 < max
      → contains_byte b':' user ≡ false
      → PlainUser e
      → Limited p
      → Limited (step p e)
  unfolding step
  step-Limited p (registers owner client info session) m plain plain' l =
      register-Limited owner client session info p m plain plain' l
  step-Limited p (unregisters h id) m plain _ l = unregister-Limited h id p l
  step-Limited p (disconnects id) m plain _ l = disconnect-Limited id p l
  step-Limited p (adds id task_id) m plain _ l = unfold add_pending in ground (arith, l)
  step-Limited p (drops task_id t) m plain _ l = unfold drop_pending in ground (arith, l)
  step-Limited p (posts h msg) m plain _ l = unfold post in ground (arith, l)
  step-Limited p (submits res) m plain _ l = unfold handle_result in ground (arith, l)
  step-Limited p (closes h) m plain _ l = unfold close in ground (arith, l)
  step-Limited p (fails task_id) m plain _ l = unfold fail_task in ground (arith, l)
  step-Limited p (fails_unsent msgs) m plain _ l = ground (arith, l, conns-fail_unsent msgs p)
  step-Limited p (fails_client id) m plain _ l = unfold fail_pending_client in l

  run-Limited :
      (p : Pool) (es : List Event)
      → 0 < max
      → contains_byte b':' user ≡ false
      → AllPlain es
      → Limited p
      → Limited (run p es)
  unfolding run
  run-Limited p [] m plain a l = l
  run-Limited p (e ∷ es) m plain a l =
      run-Limited (step p e) es m plain a.1 (step-Limited p e m plain a.0 l)

-- A pool with a limit, under any calls and parts of calls in any order, with users whose ids have no
-- ':': no such user ever has more connections in it than the limit.
pub limit_holds :
    (user : Text) (max : ℕ) (es : List Event)
    → 0 < max
    → contains_byte b':' user ≡ false
    → AllPlain es
    → count_by_user user (run (new_pool max) es).conns ≤ max
limit_holds user max es m plain a =
    (run-Limited user max (new_pool max) es m plain a (refl, unfold count_by_user in omega arith)).1
