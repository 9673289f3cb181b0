-- ===== src/Auth/Postgres/Completion.antt =====
-- CompleteEmailVerification of internal/auth/store/postgres against that of internal/auth/store/memory.
use akira_mcp.Base.{
  ℕ, suc, ◌≤◌, ◌<◌, ◌≡◌, ◌≢◌, ◌⊎◌, inl, inr, Bool, true, false, List, [], ◌∷◌, Option, none, some,
  Option-cases, Bool-cases, ◌==◌, list_eq, nat_eq, ltb, leb, arith, refl, ap, sym, subst, ◌∙◌,
}
use akira_mcp.Base.Map.{Map, lookup, insert, erase, lookup-insert, lookup-erase}
use akira_mcp.Base.Text.{Text}
use akira_mcp.Auth.Types.{
  Result, ok, err, EmailVerification, verification_not_found, verification_wrong_code,
  max_verification_attempts,
}
use akira_mcp.Auth.Memory.{Store}
use akira_mcp.Auth.Memory.Users.{clashes}
use akira_mcp.Auth.Memory.Verification as Memory
use akira_mcp.Auth.Postgres.{UserRow, Tables, micros, select, exists_row, update}
use akira_mcp.Auth.Postgres.Users.{key_taken}
use akira_mcp.Auth.Postgres.Tokens as Sql
use akira_mcp.Auth.Postgres.Tokens.{verification_row}

-- The row is the code that the memory has, with its times in microseconds.
abbrev pub SameCode : Option EmailVerification → Option EmailVerification → Type 0
SameCode none none = Unit
SameCode none (some row) = ⊥
SameCode (some tok) none = ⊥
SameCode (some tok) (some row) = row ≡ verification_row tok

abbrev pub with_id : Text → UserRow → Bool
with_id id r = r.user_id == id

abbrev pub is_there {ℓ} : {A : Type ℓ} → Option A → Bool
is_there none = false
is_there (some a) = true

-- The stores have the same code for the user, both or neither have the user, and the key is another's
-- in both or in neither.
abbrev pub SameUser : Text → Text → Store → Tables → Type 0
SameUser id key s t =
    SameCode (lookup id s.verifs) (lookup id t.email_verifications)
    × (exists_row (with_id id) t.users ≡ is_there (lookup id s.by_id))
    × (key_taken id key t.users ≡ clashes (lookup key s.by_key) id)

-- The code has not expired at a whole microsecond, or has expired.
abbrev pub Clear : ℕ → Option EmailVerification → Type 0
Clear now none = Unit
Clear now (some tok) = (now < micros tok.expires_at) ⊎ (tok.expires_at < now)

-- What the call makes of the users table: nothing, unless it succeeds; then the user is verified and
-- has the key.
abbrev pub UsersAfter : ℕ → Text → Text → Tables → Tables × Result (Unit {0}) → Type 0
UsersAfter now id key t (after, r) =
    ((r ≢ ok tt) × (after.users ≡ t.users))
    ⊎ ((r ≡ ok tt)
        × (u : UserRow) × (select (with_id id) t.users ≡ some u)
        × (select (with_id id) after.users
            ≡ some (record u { email_verified_at = some (micros now); connect_key = some key })))

exists-select :
    (p : UserRow → Bool) (rows : List UserRow)
    → exists_row p rows ≡ true
    → (u : UserRow) × (select p rows ≡ some u)
unfolding exists_row select
exists-select p [] h = ground (arith, h)
exists-select p (r ∷ rows) h = elim (Bool-cases (p r)) [
  | inl e ↦ (r, ground (arith, e))
  | inr e ↦ let (u, f) = exists-select p rows (ground (arith, h, e)) in (u, ground (arith, e, f))
]

select-update :
    (id : Text) (f : UserRow → UserRow) (rows : List UserRow) (u : UserRow)
    → ((r : UserRow) → (f r).user_id ≡ r.user_id)
    → select (with_id id) rows ≡ some u
    → select (with_id id) (update id f rows) ≡ some (f u)
unfolding select update
select-update id f [] u same h = ground (arith, h)
select-update id f (r ∷ rows) u same h = elim (Bool-cases (r.user_id == id)) [
  | inl e ↦ ground (arith, e, h, same r)
  | inr e ↦ ground (arith, e, h, select-update id f rows u same)
]

-- The outcomes of both calls, from what they compute to.
abbrev pub Alike :
    ℕ → Text → Text → Tables → Store × Result (Unit {0}) → Tables × Result (Unit {0}) → Type 0
Alike now id key t x y =
    (x.1 ≡ y.1)
    × SameCode (lookup id x.0.verifs) (lookup id y.0.email_verifications)
    × UsersAfter now id key t y

lookup_erased : (id : Text) (m : Map Text EmailVerification) → lookup id (erase id m) ≡ none
lookup_erased id m = ground (arith, lookup-erase id id m)

lookup_inserted :
    (id : Text) (tok : EmailVerification) (m : Map Text EmailVerification)
    → lookup id (insert id tok m) ≡ some tok
lookup_inserted id tok m = ground (arith, lookup-insert id id tok m)

-- From the check of the connect key on.
finishes-Alike :
    (now : ℕ) (id key : Text) (s : Store) (t : Tables)
    → SameUser id key s t
    → Alike now id key t
        (Memory.finish_verification id key s)
        (Sql.finish_verification id key now t)
unfolding Memory.finish_verification Sql.finish_verification
finishes-Alike now id key s t (code, here, clash) = elim (Bool-cases (key_taken id key t.users)) [
  | inl e ↦
      let e' : clashes (lookup key s.by_key) id ≡ true = sym clash ∙ e in
      rw (e, e', Memory.finish_verification, Sql.finish_verification)
        (refl, code, inl (λ h. cc, refl))
  | inr e ↦
      let e' : clashes (lookup key s.by_key) id ≡ false = sym clash ∙ e in
      elim (Option-cases (lookup id s.by_id)) [
        | inl f ↦
            let f' : exists_row (with_id id) t.users ≡ false = ground (arith, here, f) in
            rw (e, e', f, f', Memory.finish_verification, Sql.finish_verification)
              (refl, code, inl (λ h. cc, refl))
        | inr (name, f) ↦
            let f' : exists_row (with_id id) t.users ≡ true = ground (arith, here, f) in
            let (u, found) = exists-select (with_id id) t.users f' in
            let set : UserRow → UserRow =
              λ r. record r { email_verified_at = some (micros now); connect_key = some key } in
            rw (e, e', f, f', Memory.finish_verification, Sql.finish_verification)
              (
                refl,
                rw (lookup_erased id s.verifs, lookup_erased id t.email_verifications) tt,
                inr (refl, u, found, select-update id set t.users u (λ r. refl) found),
              )
      ]
]

-- The row of a code that the memory has.
row_of :
    (tok : EmailVerification) (o : Option EmailVerification)
    → SameCode (some tok) o
    → o ≡ some (verification_row tok)
row_of tok none h = absurd h
row_of tok (some row) h = ap (λ r. some r) h

Alike-at :
    (now : ℕ) (id key : Text) (t : Tables) (m x : Store × Result (Unit {0}))
    (q y : Tables × Result (Unit {0}))
    → m ≡ x
    → q ≡ y
    → Alike now id key t x y
    → Alike now id key t m q
Alike-at now id key t m x q y e f h =
    subst (λ z. Alike now id key t z q) (sym e) (subst (λ z. Alike now id key t x z) (sym f) h)

micros_le : (n : ℕ) → micros n ≤ n
micros_le n = omega arith

-- A code that both stores have.
tries-Alike :
    (now : ℕ) (id hash key : Text) (s : Store) (t : Tables) (tok : EmailVerification)
    → SameUser id key s t
    → lookup id s.verifs ≡ some tok
    → lookup id t.email_verifications ≡ some (verification_row tok)
    → Clear now (some tok)
    → Alike now id key t
        (Memory.complete_email_verification id hash key now s)
        (Sql.complete_email_verification id hash key now t)
unfolding Memory.complete_email_verification Sql.complete_email_verification
tries-Alike now id hash key s t tok same e f (inr late) =
    let m = Memory.complete_email_verification id hash key now s in
    let q = Sql.complete_email_verification id hash key now t in
    let expired : ltb tok.expires_at now ≡ true = ground (arith, late) in
    let expired' : ltb now (micros tok.expires_at) ≡ false =
      ground (arith, late, micros_le tok.expires_at) in
    Alike-at now id key t m (record s { verifs = erase id s.verifs }, err verification_not_found) q
      (
        record t { email_verifications = erase id t.email_verifications },
        err verification_not_found,
      )
      (ground (arith, e, expired)) (ground (arith, f, expired'))
      (
        refl,
        rw (lookup_erased id s.verifs, lookup_erased id t.email_verifications) tt,
        inl (λ h. cc, refl),
      )
tries-Alike now id hash key s t tok same e f (inl early) =
    let m = Memory.complete_email_verification id hash key now s in
    let q = Sql.complete_email_verification id hash key now t in
    let live : ltb tok.expires_at now ≡ false = ground (arith, early, micros_le tok.expires_at) in
    let live' : ltb now (micros tok.expires_at) ≡ true = ground (arith, early) in
    elim (Bool-cases (leb max_verification_attempts tok.attempts)) [
      | inl many ↦
          Alike-at now id key t m (s, err verification_not_found) q (t, err verification_not_found)
            (ground (arith, e, live, many)) (ground (arith, f, live', many))
            (refl, same.0, inl (λ h. cc, refl))
      | inr few ↦ elim (Bool-cases (tok.code_hash == hash)) [
        | inl right ↦
            Alike-at now id key t m (Memory.finish_verification id key s) q
              (Sql.finish_verification id key now t) (ground (arith, e, live, few, right))
              (ground (arith, f, live', few, right)) (finishes-Alike now id key s t same)
        | inr wrong ↦
            let tried : EmailVerification = record tok { attempts = suc tok.attempts } in
            Alike-at now id key t m
              (record s { verifs = insert id tried s.verifs }, err verification_wrong_code) q
              (
                record t {
                  email_verifications = insert id (verification_row tried) t.email_verifications;
                },
                err verification_wrong_code,
              )
              (ground (arith, e, live, few, wrong)) (ground (arith, f, live', few, wrong))
              (
                refl,
                rw
                    (
                      lookup_inserted id tried s.verifs,
                      lookup_inserted id (verification_row tried) t.email_verifications,
                    )
                    refl,
                inl (λ h. cc, refl),
              )
      ]
    ]

-- CompleteEmailVerification answers the same from both stores, where they have the same code for the
-- user, with its times in microseconds in the database, both or neither have the user, and the connect
-- key is another user's in both or in neither; unless the call comes within the last microsecond of
-- the code. Afterwards they again have the same code for the user, attempts included, or none. The
-- users table is as it was if the call fails; if it succeeds, the user is verified and has the key.
pub completes-Alike :
    (now : ℕ) (id hash key : Text) (s : Store) (t : Tables)
    → SameUser id key s t
    → Clear now (lookup id s.verifs)
    → Alike now id key t
        (Memory.complete_email_verification id hash key now s)
        (Sql.complete_email_verification id hash key now t)
unfolding Memory.complete_email_verification Sql.complete_email_verification
completes-Alike now id hash key s t same clear =
    let m = Memory.complete_email_verification id hash key now s in
    let q = Sql.complete_email_verification id hash key now t in
    elim (Option-cases (lookup id s.verifs)) [
      | inr (tok, e) ↦
          let code = subst (λ o. SameCode o (lookup id t.email_verifications)) e same.0 in
          tries-Alike now id hash key s t tok same e (row_of tok _ code)
            (subst (λ o. Clear now o) e clear)
      | inl e ↦ elim (Option-cases (lookup id t.email_verifications)) [
        | inr (row, f) ↦ absurd (
            subst (λ o. SameCode none o) f
              (subst (λ o. SameCode o (lookup id t.email_verifications)) e same.0))
        | inl f ↦
            Alike-at now id key t m (s, err verification_not_found) q
              (t, err verification_not_found) (ground (arith, e)) (ground (arith, f))
              (refl, same.0, inl (λ h. cc, refl))
      ]
    ]
