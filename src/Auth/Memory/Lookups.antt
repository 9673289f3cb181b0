-- ===== src/Auth/Memory/Lookups.antt =====
-- What a client of the store sees of the accounts after any sequence of calls.
use akira_mcp.Base.{
  ℕ, ◌≡◌, ◌≢◌, ◌⊎◌, Option-cases, some, List, [], arith, list_eq, nat_eq, true, inl, inr,
}
use akira_mcp.Base.Map.{lookup, lookup-insert, lookup-erase, erase}
use akira_mcp.Base.Text.{Text}
use akira_mcp.Auth.Types.{User, ok, err, user_not_found}
use akira_mcp.Auth.Memory.{Store, empty_store, user_at}
use akira_mcp.Auth.Memory.Users.{
  get_user_by_username, get_user_by_id, get_user_by_email, get_user_by_connect_key, set_connect_key,
}
use akira_mcp.Auth.Memory.Verification.{complete_email_verification, finish_verification}
use akira_mcp.Auth.Memory.Indexes.{Consistent, user_of_id, empty_store-Consistent}
use akira_mcp.Auth.Memory.History.{Call, run, AllFresh, run-Consistent}

module _ (cs : List (ℕ × Call)) (fresh : AllFresh empty_store cs) where
  after : Consistent (run empty_store cs)
  after = run-Consistent empty_store cs fresh empty_store-Consistent

  -- After any sequence of calls on an empty store in which every drawn user id is new, two accounts
  -- that share an id, an email or a non-empty connect key are one account.
  pub accounts_distinct :
      (m n : Text) (u w : User)
      → get_user_by_username m (run empty_store cs) ≡ ok u
      → get_user_by_username n (run empty_store cs) ≡ ok w
      → (u.id ≡ w.id)
        ⊎ (u.email ≡ w.email)
        ⊎ ((u.connect_key ≢ []) × (u.connect_key ≡ w.connect_key))
      → m ≡ n
  unfolding get_user_by_username
  accounts_distinct m n u w hu hw same =
      let s = run empty_store cs in
      let eu : lookup m s.users ≡ some u = ground arith in
      let ew : lookup n s.users ≡ some w = ground arith in
      ground (
        arith,
        after.names.named m u eu,
        after.names.named n w ew,
        after.keys.keyed m u eu,
        after.keys.keyed n w ew,
      )

  -- After any sequence of calls on an empty store in which every drawn user id is new, an account
  -- found by its name is also what its id, its email and, if it has one, its connect key lead to.
  pub lookups_agree :
      (n : Text) (u : User)
      → get_user_by_username n (run empty_store cs) ≡ ok u
      → (get_user_by_id u.id (run empty_store cs) ≡ ok u)
        × (get_user_by_email u.email (run empty_store cs) ≡ ok u)
        × ((u.connect_key ≡ [])
            ⊎ (get_user_by_connect_key u.connect_key (run empty_store cs) ≡ ok u))
  unfolding get_user_by_username get_user_by_id get_user_by_email get_user_by_connect_key
  lookups_agree n u h =
      let s = run empty_store cs in
      let e : lookup n s.users ≡ some u = ground arith in
      (
        ground (arith, after.names.named n u e),
        ground (arith, after.names.named n u e),
        elim (list_eq.dec u.connect_key []) [
          | yes p ↦ inl p
          | no p ↦ inr (ground (arith, after.names.named n u e, after.keys.keyed n u e p))
        ],
      )

-- Once SetConnectKey has given a user of a store with agreeing account maps another key, the old one leads to nobody.
pub set_connect_key_revokes :
    (s t : Store) (id key : Text) (u : User)
    → Consistent s
    → get_user_by_id id s ≡ ok u
    → u.connect_key ≢ []
    → u.connect_key ≢ key
    → set_connect_key id key s ≡ (t, ok tt)
    → (get_user_by_connect_key u.connect_key t ≡ err user_not_found)
      × (get_user_by_connect_key key t ≡ ok (record u { connect_key = key }))
unfolding set_connect_key get_user_by_id get_user_by_connect_key
set_connect_key_revokes s t id key u c found nonempty other h =
    elim (Option-cases (lookup id s.by_id)) [
      | inl e ↦ ground arith
      | inr (name, e) ↦
          let (e', same) = user_of_id s id name c.names e in
          let v : User = record u { connect_key = key } in
          (
            ground (
              arith,
              lookup-insert u.connect_key key id (erase u.connect_key s.by_key),
              lookup-erase u.connect_key u.connect_key s.by_key,
            ),
            ground (
              arith,
              lookup-insert key key id (erase u.connect_key s.by_key),
              lookup-insert name name v s.users,
            ),
          )
    ]

-- CompleteEmailVerification does not revoke: if it succeeds with another key for a user who has one
-- already, in a store with agreeing account maps, the old key still leads to that user.
pub complete_keeps_old_key :
    (s t : Store) (id code_hash key : Text) (now : ℕ) (u : User)
    → Consistent s
    → get_user_by_id id s ≡ ok u
    → u.connect_key ≢ []
    → u.connect_key ≢ key
    → complete_email_verification id code_hash key now s ≡ (t, ok tt)
    → get_user_by_connect_key u.connect_key t
      ≡ ok (record u { connect_key = key; email_verified = true })
unfolding complete_email_verification finish_verification get_user_by_id get_user_by_connect_key
complete_keeps_old_key s t id code_hash key now u c found nonempty other h =
    elim (Option-cases (lookup id s.by_id)) [
      | inl e ↦ ground arith
      | inr (name, e) ↦
          let (e', same) = user_of_id s id name c.names e in
          let v : User = record u { connect_key = key; email_verified = true } in
          ground (
            arith,
            c.keys.keyed name (user_at s name) e',
            lookup-insert u.connect_key key id s.by_key,
            lookup-insert name name v s.users,
          )
    ]

-- In a store with agreeing maps an id leads to the user that has it.
pub id_of_user :
    (s : Store) (id : Text) (u : User) → Consistent s → get_user_by_id id s ≡ ok u → u.id ≡ id
unfolding get_user_by_id
id_of_user s id u c h = elim (Option-cases (lookup id s.by_id)) [
  | inl e ↦ ground arith
  | inr (n, e) ↦ let (f, same) = user_of_id s id n c.names e in ground arith
]

pub set_connect_key_leads :
    (s t : Store) (id key : Text) (u : User)
    → Consistent s
    → get_user_by_id id s ≡ ok u
    → set_connect_key id key s ≡ (t, ok tt)
    → get_user_by_connect_key key t ≡ ok (record u { connect_key = key })
unfolding set_connect_key get_user_by_id get_user_by_connect_key
set_connect_key_leads s t id key u c found h = elim (Option-cases (lookup id s.by_id)) [
  | inl e ↦ ground arith
  | inr (name, e) ↦
      let v : User = record u { connect_key = key } in
      ground (
        arith,
        lookup-insert key key id (erase u.connect_key s.by_key),
        lookup-insert key key id s.by_key,
        lookup-insert name name v s.users,
      )
]
