-- ===== src/Server/Connect/Outcomes.antt =====
-- What Connect of connection/server/server.go answers.
use akira_mcp.Base.{
  ℕ, ◌<◌, ◌≤◌, ◌≡◌, ◌⊎◌, inl, inr, Bool, true, false, [], Option, none, some, Bool-cases, ◌==◌,
  list_eq, nat_eq, arith, refl, ap, ◌∙◌, ◌||◌,
}
use akira_mcp.Base.Map.{lookup, erase, lookup-insert}
use akira_mcp.Base.Text.{Text}
use akira_mcp.Rpc.{
  Code, invalid_argument, unauthenticated, internal, permission_denied, resource_exhausted,
  RegisterRequest, RegisterResponse,
}
use akira_mcp.Server.Pool.{Pool, too_many_connections, ClientInfo, connection_id_of}
use akira_mcp.Server.Pool.Pending.{close}
use akira_mcp.Server.Pool.Registry.{register, retire, enrol, at_limit, count_by_user}
use akira_mcp.Server.Pool.Reconnect.{conns-fail_unsent}
use akira_mcp.Server.Connect.{
  LookupError, unknown_connect_key, lookup_failed, UserLookup, connect_as, connect, ack_of,
}

conns-retire : (old : Option ℕ) (p : Pool) → (retire old p).conns ≡ p.conns
conns-retire none p = refl
conns-retire (some h) p =
    unfold close in ground (arith, conns-fail_unsent (close h p).1 (close h p).0)

-- The user's other connections, as Register counts them.
abbrev pub others : Text → Text → Pool → ℕ
others user_id client_id p =
    count_by_user user_id (erase (connection_id_of user_id client_id) p.conns)

-- Register refuses at the limit and changes nothing, or the id leads to the new connection.
register_outcome :
    (user_id client_id session : Text) (info : ClientInfo) (p : Pool)
    → let id = connection_id_of user_id client_id in
      let r = register id user_id info session p in
      ((r ≡ (p, inl too_many_connections))
        × (0 < p.max_connections)
        × (p.max_connections ≤ others user_id client_id p))
      ⊎ ((h : ℕ) × (r.1 ≡ inr h) × (lookup id r.0.conns ≡ some h))
unfolding register
register_outcome user_id client_id session info p =
    let id = connection_id_of user_id client_id in
    elim (Bool-cases (at_limit p.max_connections (others user_id client_id p))) [
      | inl e ↦ inl (ground (arith, e), ground (arith, e), ground (arith, e))
      | inr e ↦ inr (
        p.next,
        ground (arith, e),
        ground (
          arith,
          e,
          conns-retire (lookup id p.conns) (enrol id user_id info session p),
          lookup-insert id id p.next p.conns,
        ),
      )
    ]

-- Why Connect answers with a code.
abbrev pub Refusal : UserLookup → RegisterRequest → Pool → Code → Type 0
Refusal users reg p invalid_argument = (reg.client_id ≡ []) ⊎ (reg.connect_key ≡ [])
Refusal users reg p unauthenticated = users reg.connect_key ≡ inl unknown_connect_key
Refusal users reg p internal = users reg.connect_key ≡ inl lookup_failed
Refusal users reg p permission_denied =
    (user_id : Text) × (users reg.connect_key ≡ inr (user_id, false))
Refusal users reg p resource_exhausted =
    (user_id : Text) × (users reg.connect_key ≡ inr (user_id, true))
    × (0 < p.max_connections)
    × (p.max_connections ≤ others user_id reg.client_id p)
Refusal users reg p _ = ⊥

-- The ack names the connection, and the pool has it.
abbrev pub Registered : Text → Text → Pool → ℕ → RegisterResponse → Type 0
Registered user_id client_id q h ack =
    (ack.connection_id ≡ connection_id_of user_id client_id)
    × (lookup ack.connection_id q.conns ≡ some h)

connect_as_outcome :
    (users : UserLookup) (user_id : Text) (reg : RegisterRequest) (session : Text) (p : Pool)
    → users reg.connect_key ≡ inr (user_id, true)
    → let r = connect_as user_id reg session p in
      ((code : Code) × (r ≡ (p, inl code)) × Refusal users reg p code)
      ⊎ ((h : ℕ) × (ack : RegisterResponse) × (r.1 ≡ inr (h, ack))
          × Registered user_id reg.client_id r.0 h ack)
unfolding connect_as
connect_as_outcome users user_id reg session p known =
    let info : ClientInfo = record {
      connection_id = [];
      client_id = [];
      hostname = reg.hostname;
      platform = reg.platform;
    } in
    elim (register_outcome user_id reg.client_id session info p) [
      | inl (e, limited, full) ↦
          inl (resource_exhausted, ground (arith, e), (user_id, known, limited, full))
      | inr (h, e, found) ↦ inr (
        h,
        ack_of (connection_id_of user_id reg.client_id) session,
        ground (arith, e),
        (refl, ground (arith, e, found)),
      )
    ]

lookup-cases :
    (r : LookupError ⊎ (Text × Bool))
    → (r ≡ inl unknown_connect_key)
      ⊎ ((r ≡ inl lookup_failed)
          ⊎ (((u : Text) × (r ≡ inr (u, false))) ⊎ ((u : Text) × (r ≡ inr (u, true)))))
lookup-cases (inl unknown_connect_key) = inl refl
lookup-cases (inl lookup_failed) = inr (inl refl)
lookup-cases (inr (u, false)) = inr (inr (inl (u, refl)))
lookup-cases (inr (u, true)) = inr (inr (inr (u, refl)))

-- Connect answers with a code for the reason that belongs to the code, and leaves the pool as it is;
-- or the key's owner is known and verified, the ack carries the owner's connection id, and this id
-- leads to the new connection in the pool.
pub connect_outcomes :
    (users : UserLookup) (reg : RegisterRequest) (session : Text) (p : Pool)
    → let r = connect users (some reg) session p in
      ((code : Code) × (r ≡ (p, inl code)) × Refusal users reg p code)
      ⊎ ((user_id : Text) × (h : ℕ) × (ack : RegisterResponse) × (users reg.connect_key
            ≡ inr (user_id, true))
          × (r.1 ≡ inr (h, ack))
          × Registered user_id reg.client_id r.0 h ack)
unfolding connect
connect_outcomes users reg session p =
    elim (Bool-cases (reg.client_id == [] || reg.connect_key == [])) [
      | inl e ↦ inl (invalid_argument, ground (arith, e), ground (arith, e))
      | inr e ↦ elim (lookup-cases (users reg.connect_key)) [
        | inl f ↦ inl (unauthenticated, ground (arith, e, f), f)
        | inr (inl f) ↦ inl (internal, ground (arith, e, f), f)
        | inr (inr (inl (user_id, f))) ↦ inl (permission_denied, ground (arith, e, f), (user_id, f))
        | inr (inr (inr (user_id, f))) ↦
            let same : connect users (some reg) session p ≡ connect_as user_id reg session p =
              ground (arith, e, f) in
            elim (connect_as_outcome users user_id reg session p f) [
              | inl (code, is_code, why) ↦ inl (code, same ∙ is_code, why)
              | inr (h, ack, is_ack, (named, found)) ↦
                  inr (user_id, h, ack, f, ap (λ r. r.1) same ∙ is_ack, (named, rw same found))
            ]
      ]
    ]
