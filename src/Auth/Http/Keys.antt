-- ===== src/Auth/Http/Keys.antt =====
-- POST /connect-key/regenerate over the in-memory store.
use akira_mcp.Base.{
  ℕ, zero, suc, ◌≡◌, ◌⊎◌, inl, inr, none, some, [], arith, list_eq, nat_eq, Option-cases, subst,
  sym,
}
use akira_mcp.Base.Text.{Text, bytes, trim_prefix}
use akira_mcp.Auth.Types.{Result-cases, ok, err, User, user_not_found, connect_key_exists}
use akira_mcp.Auth.Memory.{Store}
use akira_mcp.Auth.Memory.Indexes.{Consistent}
use akira_mcp.Auth.Memory.Users.{get_user_by_id, get_user_by_connect_key, set_connect_key}
use akira_mcp.Auth.Memory.Lookups.{set_connect_key_revokes, set_connect_key_leads, id_of_user}
use akira_mcp.Auth.Http.{
  StoreApi, Env, World, Outcome-cases, goes, regenerated, connect_key_attempts,
}
use akira_mcp.Auth.Http.Stored.{memory_api}
use akira_mcp.Auth.Http.Account.{
  user_from_bearer, assign_connect_key, handle_regenerate_connect_key,
}

-- A call that finds the key taken changes nothing.
taken_same :
    (user_id key : Text) (s : Store)
    → (set_connect_key user_id key s).1 ≡ err connect_key_exists
    → (set_connect_key user_id key s).0 ≡ s
unfolding set_connect_key
taken_same user_id key s h = ground arith

-- Whatever number of rounds it takes, the result is that of one successful assignment.
assign_sound :
    (env : Env) (now : ℕ) (id user_id : Text) (s : Store) (left round : ℕ) (key : Text)
    → (assign_connect_key (memory_api now id) env left round user_id s).1 ≡ ok key
    → set_connect_key user_id key s
      ≡ ((assign_connect_key (memory_api now id) env left round user_id s).0, ok tt)
unfolding assign_connect_key
assign_sound env now id user_id s zero round key h = cc
assign_sound env now id user_id s (suc left) round key h =
    elim (Option-cases (env.draw_key round)) [
      | inl e ↦ ground (arith, e)
      | inr (k, e) ↦ elim (Result-cases (set_connect_key user_id k s).1) [
        | inl (tt, f) ↦ ground (arith, e, f)
        | inr (connect_key_exists, f) ↦
            let same = taken_same user_id k s f in
            ground (arith, e, f, same, assign_sound env now id user_id s left (suc round) key)
        | inr (other, f) ↦ ground (arith, e, f)
      ]
    ]

bearer_user :
    (api : StoreApi) (env : Env) (w : World api.State) (header : Text) (u : User)
    → (user_from_bearer api env header w).1 ≡ goes u
    → (sub : Text) × (env.parse_access (trim_prefix header (bytes "Bearer ")) ≡ some (some sub))
      × (api.get_user_by_id sub w.store ≡ ok u)
      × ((user_from_bearer api env header w).0 ≡ w)
unfolding user_from_bearer
bearer_user api env w header u h =
    elim (Option-cases (env.parse_access (trim_prefix header (bytes "Bearer ")))) [
      | inl e ↦ ground (arith, e)
      | inr (none, e) ↦ ground (arith, e)
      | inr (some sub, e) ↦ (sub, e, ground (arith, e), ground (arith, e))
    ]

-- POST /connect-key/regenerate over an in-memory store with agreeing account maps: an answer with a key means that
-- the bearer token's subject has it, that the key leads to that user, and that the user's earlier
-- key, if there was another, leads to nobody.
pub regenerate_sound :
    (env : Env) (now : ℕ) (id : Text) (w : World Store) (header key : Text)
    → Consistent w.store
    → (handle_regenerate_connect_key (memory_api now id) env header w).1 ≡ goes (regenerated key)
    → let w' = (handle_regenerate_connect_key (memory_api now id) env header w).0 in
      (sub : Text) × (u : User) × (env.parse_access (trim_prefix header (bytes "Bearer "))
        ≡ some (some sub))
      × (get_user_by_id sub w.store ≡ ok u)
      × (get_user_by_connect_key key w'.store ≡ ok (record u { connect_key = key }))
      × ((u.connect_key ≡ [])
          ⊎ (u.connect_key ≡ key)
          ⊎ (get_user_by_connect_key u.connect_key w'.store ≡ err user_not_found))
unfolding handle_regenerate_connect_key
regenerate_sound env now id w header key c h =
    elim (Outcome-cases (user_from_bearer (memory_api now id) env header w).1) [
      | inr (x, e) ↦ ground (arith, e)
      | inl (u, e) ↦
          let (sub, parsed, found, same) = bearer_user (memory_api now id) env w header u e in
          let own = id_of_user w.store sub u c found in
          let r = assign_connect_key (memory_api now id) env connect_key_attempts 0 u.id w.store in
          let w' = (handle_regenerate_connect_key (memory_api now id) env header w).0 in
          let store : w'.store ≡ r.0 = ground (arith, e, same) in
          let reply : r.1 ≡ ok key = ground (arith, e, same) in
          let set = assign_sound env now id u.id w.store connect_key_attempts 0 key reply in
          let found' : get_user_by_id u.id w.store ≡ ok u =
            subst (λ i. get_user_by_id i w.store ≡ ok u) (sym own) found in
          (
            sub,
            u,
            parsed,
            found,
            rw store (set_connect_key_leads w.store r.0 u.id key u c found' set),
            elim (list_eq.dec u.connect_key []) [
              | yes p ↦ inl p
              | no p ↦ elim (list_eq.dec u.connect_key key) [
                | yes q ↦ inr (inl q)
                | no q ↦ inr (
                    inr (
                      rw store (set_connect_key_revokes w.store r.0 u.id key u c found' p q set).0))
              ]
            ],
          )
    ]
