-- ===== src/Auth/Memory/Accounts.antt =====
-- Each method of the memory store that writes an account keeps the account maps in agreement.
use akira_mcp.Base.{
  ℕ, suc, ◌≡◌, ◌≢◌, refl, Bool, true, false, not, ◌&&◌, none, some, [], arith, ◌==◌, list_eq,
  nat_eq, Option-cases, Bool-cases, inl, inr, subst,
}
use akira_mcp.Base.Map.{lookup, insert, lookup-insert, erase}
use akira_mcp.Base.Text.{Text}
use akira_mcp.Auth.Types.{User, Result, ok, err}
use akira_mcp.Auth.Memory.{Store, user_at}
use akira_mcp.Auth.Memory.Users.{
  new_user, create_user, create_user_with_code, save_first_code, verify_email, set_connect_key,
  clashes,
}
use akira_mcp.Auth.Memory.Verification.{complete_email_verification, finish_verification}
use akira_mcp.Auth.Memory.Indexes.{
  Consistent, KeysAgree, replace-NamesAgree, add_user-NamesAgree, add_user-KeysAgree, reassign,
  reassign-KeysAgree, user_of_id, other_maps-Consistent,
}

pub create_user-Consistent :
    (id name email hash : Text) (s : Store)
    → lookup id s.by_id ≡ none
    → Consistent s
    → Consistent (create_user id name email hash s).0
unfolding create_user
create_user-Consistent id name email hash s fresh c = elim (Option-cases (lookup name s.users)) [
  | inr (u, e) ↦ rw (e, create_user) c
  | inl e ↦ elim (Option-cases (lookup email s.by_email)) [
    | inr (u, e') ↦ rw (e, e', create_user) c
    | inl e' ↦
        rw (e, e', create_user)
          (record {
            names = add_user-NamesAgree s (new_user id name email hash) e fresh e' c.names;
            keys = add_user-KeysAgree s (new_user id name email hash) e fresh e' refl c.keys;
          })
  ]
]

save_first_code-Consistent :
    (code_hash : Text) (expires_at now : ℕ) (r : Store × Result User)
    → Consistent r.0
    → Consistent (save_first_code code_hash expires_at now r).0
save_first_code-Consistent code_hash expires_at now (s, err e) c = c
save_first_code-Consistent code_hash expires_at now (s, ok u) c =
    other_maps-Consistent (save_first_code code_hash expires_at now (s, ok u)).0 c

pub create_user_with_code-Consistent :
    (id name email hash code_hash : Text) (expires_at now : ℕ) (s : Store)
    → lookup id s.by_id ≡ none
    → Consistent s
    → Consistent (create_user_with_code id name email hash code_hash expires_at now s).0
unfolding create_user_with_code
create_user_with_code-Consistent id name email hash code_hash expires_at now s fresh c =
    save_first_code-Consistent code_hash expires_at now (create_user id name email hash s)
      (create_user-Consistent id name email hash s fresh c)

-- A user who only changes whether the email is verified.
mark-KeysAgree :
    (s : Store) (n : Text) (u : User)
    → lookup n s.users ≡ some u
    → KeysAgree s
    → KeysAgree (record s { users = insert n (record u { email_verified = true }) s.users })
mark-KeysAgree s n u found c = record {
  keyed = λ m w h k. ground (
    arith,
    lookup-insert m n (record u { email_verified = true }) s.users,
    c.keyed m w,
    c.keyed n u found,
  );
  owned = c.owned;
}

pub verify_email-Consistent :
    (id : Text) (s : Store) → Consistent s → Consistent (verify_email id s).0
unfolding verify_email
verify_email-Consistent id s c = elim (Option-cases (lookup id s.by_id)) [
  | inl e ↦ rw (e, verify_email) c
  | inr (n, e) ↦
      let (found, same) = user_of_id s id n c.names e in
      let v : User = record (user_at s n) { email_verified = true } in
      rw (e, verify_email)
        (record {
          names = replace-NamesAgree s n (user_at s n) v found refl refl refl c.names;
          keys = mark-KeysAgree s n (user_at s n) found c.keys;
        })
]

-- Both writers of a connect key end in this store.
assign : Bool → Bool → Text → Text → Text → Store → Store
assign verified forget key id n s =
    let u = user_at s n in
    record s {
      users = insert n (record u { connect_key = key; email_verified = verified }) s.users;
      by_key = reassign forget u.connect_key key id s.by_key;
    }

assign-Consistent :
    (verified forget : Bool) (key id n : Text) (s : Store)
    → lookup id s.by_id ≡ some n
    → clashes (lookup key s.by_key) id ≡ false
    → (forget ≡ true → (user_at s n).connect_key ≢ [])
    → Consistent s
    → Consistent (assign verified forget key id n s)
unfolding assign
assign-Consistent verified forget key id n s e free nonempty c =
    let (found, same) = user_of_id s id n c.names e in
    let u = user_at s n in
    let v : User = record u { connect_key = key; email_verified = verified } in
    let names = replace-NamesAgree s n u v found refl refl refl c.names in
    record {
      names = record { named = names.named; by_id = names.by_id; by_email = names.by_email };
      keys =
          subst
            (λ i. KeysAgree (record s {
              users = insert n v s.users;
              by_key = reassign forget u.connect_key key i s.by_key;
            }))
            same (reassign-KeysAgree s n key u found (rw same free) c v forget refl refl nonempty);
    }

pub set_connect_key-Consistent :
    (id key : Text) (s : Store) → Consistent s → Consistent (set_connect_key id key s).0
unfolding set_connect_key assign
set_connect_key-Consistent id key s c = elim (Option-cases (lookup id s.by_id)) [
  | inl e ↦ rw (e, set_connect_key) c
  | inr (n, e) ↦ elim (Bool-cases (clashes (lookup key s.by_key) id)) [
    | inl clash ↦ rw (e, clash, set_connect_key) c
    | inr free ↦
        let u = user_at s n in
        let forget = not (u.connect_key == []) && not (u.connect_key == key) in
        rw (e, free, set_connect_key)
          (assign-Consistent u.email_verified forget key id n s e free (λ f. ground arith) c)
  ]
]

pub finish_verification-Consistent :
    (id key : Text) (s : Store) → Consistent s → Consistent (finish_verification id key s).0
unfolding finish_verification assign
finish_verification-Consistent id key s c = elim (Bool-cases (clashes (lookup key s.by_key) id)) [
  | inl clash ↦ rw (clash, finish_verification) c
  | inr free ↦ elim (Option-cases (lookup id s.by_id)) [
    | inl e ↦ rw (free, e, finish_verification) c
    | inr (n, e) ↦
        rw (free, e, finish_verification)
          (let done = assign true false key id n s in
            other_maps-Consistent (record done { verifs = erase id s.verifs })
              (assign-Consistent true false key id n s e free (λ f. cc) c))
  ]
]

pub complete_email_verification-Consistent :
    (id code_hash key : Text) (now : ℕ) (s : Store)
    → Consistent s
    → Consistent (complete_email_verification id code_hash key now s).0
unfolding complete_email_verification
complete_email_verification-Consistent id code_hash key now s c =
    elim (Option-cases (lookup id s.verifs)) [
      | inl e ↦ rw (e, complete_email_verification) c
      | inr (tok, e) ↦ ground (
        arith,
        c,
        e,
        other_maps-Consistent (record s { verifs = erase id s.verifs }) c,
        other_maps-Consistent
            (record s { verifs = insert id (record tok { attempts = suc tok.attempts }) s.verifs })
            c,
        finish_verification-Consistent id key s c,
      )
    ]
