-- ===== src/Link/Retry.antt =====
-- Which answers of Connect (server.go) end Run (run.go).
use akira_mcp.Base.{
  ◌≡◌, ◌≢◌, ◌⊎◌, inl, inr, true, false, List, [], ◌∷◌, Option, none, some, list_eq, nat_eq, arith,
  refl, ℕ, ap, sym, subst,
}
use akira_mcp.Base.Text.{Text}
use akira_mcp.Rpc.{
  Code, RpcError, status, invalid_argument, unauthenticated, internal, permission_denied,
  resource_exhausted, RegisterRequest, RegisterResponse, ServerMessage, register_ack, task,
  empty_payload,
}
use akira_mcp.Server.Pool.{Pool}
use akira_mcp.Server.Connect.{UserLookup, unknown_connect_key, connect}
use akira_mcp.Server.Connect.Outcomes.{connect_outcomes, Refusal}
use akira_mcp.Client.Connection.Session.{
  Config, register_request, Script, refused, stream, Attempt, gives_up, is_fatal_connect_error,
  is_fatal_code, run_session, run_loop, run_client,
}

module _ {Task : Type 0} where
  -- What the client sees of an answer of Connect: the code comes with the first Recv; after the ack
  -- come the messages that the stream carries, and the error that ends it.
  abbrev pub answered :
      Code ⊎ (ℕ × RegisterResponse) → List (ServerMessage Task) → RpcError → Script Task
  answered (inl code) msgs err = stream [] (status code)
  answered (inr (h, ack)) msgs err = stream (register_ack ack ∷ msgs) err

  -- An attempt during which ctx lasts.
  abbrev pub attempt : Script Task → Attempt Task
  attempt script = record { script = script; ends_session = false; ends_pause = false }

  error-run_session :
      (x : Script Task) (id id' : Option Text)
      → (run_session x id).error ≡ (run_session x id').error
  unfolding run_session
  error-run_session (refused err) id id' = refl
  error-run_session (stream [] err) id id' = refl
  error-run_session (stream (register_ack _ ∷ msgs) err) id id' = refl
  error-run_session (stream (task _ ∷ msgs) err) id id' = refl
  error-run_session (stream (empty_payload ∷ msgs) err) id id' = refl

  -- How Run ends does not depend on the connection id.
  end-run_loop :
      (attempts : List (Attempt Task)) (id id' : Option Text)
      → (run_loop attempts id).0 ≡ (run_loop attempts id').0
  unfolding run_loop
  end-run_loop [] id id' = refl
  end-run_loop (a ∷ attempts) id id' = ground (
    arith,
    error-run_session a.script id id',
    end-run_loop attempts (run_session a.script id).conn_id (run_session a.script id').conn_id,
  )

  -- One attempt of a well-formed configuration.
  run_attempt :
      (cfg : Config) (script : Script Task) (attempts : List (Attempt Task))
      → cfg.client_id ≢ []
      → cfg.connect_key ≢ []
      → let err = (run_session script none).error in
        let after = run_client cfg (attempt script ∷ attempts) in
        ((is_fatal_connect_error err ≡ true) × (after.0 ≡ gives_up err))
        ⊎ ((is_fatal_connect_error err ≡ false) × (after.0 ≡ (run_client cfg attempts).0))
  unfolding run_client run_loop
  run_attempt cfg script attempts named keyed =
      let end = end-run_loop attempts (run_session script none).conn_id none in
      ground (arith, named, keyed, end)

-- The key is unknown, or its owner's email is not verified.
abbrev pub Barred : UserLookup → Text → Type 0
Barred users key =
    (users key ≡ inl unknown_connect_key) ⊎ ((user_id : Text) × (users key ≡ inr (user_id, false)))

fatal_codes :
    (users : UserLookup) (reg : RegisterRequest) (p : Pool) (code : Code)
    → reg.client_id ≢ []
    → reg.connect_key ≢ []
    → Refusal users reg p code
    → ((is_fatal_code code ≡ true) × Barred users reg.connect_key)
      ⊎ ((is_fatal_code code ≡ false) × ¬ Barred users reg.connect_key)
fatal_codes users reg p invalid_argument named keyed why = ground (arith, named, keyed, why)
fatal_codes users reg p unauthenticated named keyed why = inl (refl, inl why)
fatal_codes users reg p internal named keyed why = inr (refl, λ b. ground (arith, why, b))
fatal_codes users reg p permission_denied named keyed why = inl (refl, inr why)
fatal_codes users reg p resource_exhausted named keyed (u, known, _, _) =
    inr (refl, λ b. ground (arith, known, b))
fatal_codes users reg p _ named keyed why = absurd why

module _ {Task : Type 0} (users : UserLookup) (cfg : Config) (attempts : List (Attempt Task)) where
  -- After an answer, Run gives up if the key is barred, and else goes on.
  abbrev pub Ended : Code ⊎ (ℕ × RegisterResponse) → Script Task → Type 0
  Ended answer script =
      let after = run_client cfg (attempt script ∷ attempts) in
      (Barred users cfg.connect_key
        × ((code : Code) × (answer ≡ inl code) × (after.0 ≡ gives_up (status code))))
      ⊎ ((¬ Barred users cfg.connect_key) × (after.0 ≡ (run_client cfg attempts).0))

  after_refusal :
      (code : Code) (msgs : List (ServerMessage Task)) (err : RpcError)
      → cfg.client_id ≢ []
      → cfg.connect_key ≢ []
      → ((is_fatal_code code ≡ true) × Barred users cfg.connect_key)
        ⊎ ((is_fatal_code code ≡ false) × ¬ Barred users cfg.connect_key)
      → Ended (inl code) (answered (inl code) msgs err)
  unfolding run_session is_fatal_connect_error
  after_refusal code msgs err named keyed (inl (fatal, barred)) =
      elim (run_attempt cfg (stream [] (status code)) attempts named keyed) [
        | inl (_, e) ↦ inl (barred, (code, refl, e))
        | inr (f, _) ↦ ground (arith, f, fatal)
      ]
  after_refusal code msgs err named keyed (inr (passes, free)) =
      elim (run_attempt cfg (stream [] (status code)) attempts named keyed) [
        | inl (f, _) ↦ ground (arith, f, passes)
        | inr (_, e) ↦ inr (free, e)
      ]

  after_ack :
      (h : ℕ) (ack : RegisterResponse) (msgs : List (ServerMessage Task)) (err : RpcError)
      → cfg.client_id ≢ []
      → cfg.connect_key ≢ []
      → is_fatal_connect_error err ≡ false
      → ¬ Barred users cfg.connect_key
      → Ended (inr (h, ack)) (answered (inr (h, ack)) msgs err)
  unfolding run_session
  after_ack h ack msgs err named keyed passes free =
      elim (run_attempt cfg (stream (register_ack ack ∷ msgs) err) attempts named keyed) [
        | inl (f, _) ↦ ground (arith, f, passes)
        | inr (_, e) ↦ inr (free, e)
      ]

-- A client with a client id and a key connects, and its session ends, if it begins, with an error
-- that carries no fatal status. Then either the key is unknown or its owner unverified, and Run
-- gives up at once; or it is not, and Run ends as it would without this attempt.
pub gives_up_exactly :
    {Task : Type 0} (users : UserLookup) (cfg : Config) (hostname platform session : Text)
    (p : Pool) (msgs : List (ServerMessage Task)) (err : RpcError) (attempts : List (Attempt Task))
    → cfg.client_id ≢ []
    → cfg.connect_key ≢ []
    → is_fatal_connect_error err ≡ false
    → let reg = register_request cfg hostname platform in
      let answer = (connect users (some reg) session p).1 in
      let after = run_client cfg (attempt (answered answer msgs err) ∷ attempts) in
      (Barred users cfg.connect_key
        × ((code : Code) × (answer ≡ inl code) × (after.0 ≡ gives_up (status code))))
      ⊎ ((¬ Barred users cfg.connect_key) × (after.0 ≡ (run_client cfg attempts).0))
gives_up_exactly users cfg hostname platform session p msgs err attempts named keyed passes =
    let reg = register_request cfg hostname platform in
    elim (connect_outcomes users reg session p) [
      | inl (code, e, why) ↦
          subst (λ r. Ended users cfg attempts r (answered r msgs err)) (sym (ap (λ r. r.1) e))
            (after_refusal users cfg attempts code msgs err named keyed
              (fatal_codes users reg p code named keyed why))
      | inr (u, h, ack, known, e, _) ↦
          subst (λ r. Ended users cfg attempts r (answered r msgs err)) (sym e)
            (after_ack users cfg attempts h ack msgs err named keyed passes
              (λ b. ground (arith, known, b)))
    ]
