-- ===== src/Auth/Memory/Indexes.antt =====
-- The four account maps of the memory store agree: an index by id, one by email and one by connect
-- key over the users.
use akira_mcp.Base.{
  ◌≡◌, ◌≢◌, ◌⊎◌, refl, Bool, true, false, none, some, [], arith, list_eq, nat_eq, if◌then◌else◌,
  Option-cases, inl, inr,
}
use akira_mcp.Base.Map.{
  Map, lookup, insert, erase, lookup-nil, lookup-insert, lookup-erase, lookup-insert-some,
}
use akira_mcp.Base.Text.{Text}
use akira_mcp.Auth.Types.{User}
use akira_mcp.Auth.Memory.{Store, empty_store, user_at}
use akira_mcp.Auth.Memory.Users.{add_user, clashes}

-- Ids and emails lead to the user that has them, and each user is found by its own.
pub record NamesAgree (s : Store) : Type 0 where
  pub named :
      (n : Text) (u : User)
      → lookup n s.users ≡ some u
      → (u.username ≡ n) × (lookup u.id s.by_id ≡ some n) × (lookup u.email s.by_email ≡ some n)
  pub by_id :
      (id n : Text)
      → lookup id s.by_id ≡ some n
      → (u : User) × (lookup n s.users ≡ some u) × (u.id ≡ id)
  pub by_email :
      (e n : Text)
      → lookup e s.by_email ≡ some n
      → (u : User) × (lookup n s.users ≡ some u) × (u.email ≡ e)

-- A user's connect key leads to the user, and each key in the index belongs to a user.
pub record KeysAgree (s : Store) : Type 0 where
  pub keyed :
      (n : Text) (u : User)
      → lookup n s.users ≡ some u
      → u.connect_key ≢ []
      → lookup u.connect_key s.by_key ≡ some u.id
  pub owned :
      (k id : Text) → lookup k s.by_key ≡ some id → (n : Text) × (lookup id s.by_id ≡ some n)

pub record Consistent (s : Store) : Type 0 where
  pub names : NamesAgree s
  pub keys : KeysAgree s

-- Replacing a user by one with the same name, id and email.
module _ (s : Store) (n : Text) (u v : User) (found : lookup n s.users ≡ some u)
    (same_id : v.id ≡ u.id) (same_name : v.username ≡ u.username)
    (same_email : v.email ≡ u.email) where
  pub replace-NamesAgree : NamesAgree s → NamesAgree (record s { users = insert n v s.users })
  replace-NamesAgree c = record {
    named = λ m w h. ground (arith, lookup-insert m n v s.users, c.named m w, c.named n u);
    by_id = λ id m h.
        let (w, e, f) = c.by_id id m h in
        elim (Option-cases (lookup m (insert n v s.users))) [
          | inl e' ↦ ground (arith, lookup-insert m n v s.users)
          | inr (w', e') ↦ (w', e', ground (arith, lookup-insert m n v s.users))
        ];
    by_email = λ x m h.
        let (w, e, f) = c.by_email x m h in
        elim (Option-cases (lookup m (insert n v s.users))) [
          | inl e' ↦ ground (arith, lookup-insert m n v s.users)
          | inr (w', e') ↦ (w', e', ground (arith, lookup-insert m n v s.users))
        ];
  }

-- Adding a user under a name, an id and an email that are free.
module _ (s : Store) (u : User) (free_name : lookup u.username s.users ≡ none)
    (free_id : lookup u.id s.by_id ≡ none) (free_email : lookup u.email s.by_email ≡ none) where
  pub add_user-NamesAgree : NamesAgree s → NamesAgree (add_user s u)
  add_user-NamesAgree c = record {
    named = λ m w h. ground (
      arith,
      lookup-insert m u.username u s.users,
      lookup-insert w.id u.id u.username s.by_id,
      lookup-insert w.email u.email u.username s.by_email,
      c.named m w,
    );
    by_id = λ id m h. elim (list_eq.dec id u.id) [
      | yes p ↦ (
        u,
        ground
            (arith, lookup-insert id u.id u.username s.by_id, lookup-insert m u.username u s.users),
        ground arith,
      )
      | no p ↦
          let (w, e, f) = c.by_id id m (ground (arith, lookup-insert id u.id u.username s.by_id)) in
          (w, ground (arith, lookup-insert m u.username u s.users), f)
    ];
    by_email = λ x m h. elim (list_eq.dec x u.email) [
      | yes p ↦ (
        u,
        ground (
          arith,
          lookup-insert x u.email u.username s.by_email,
          lookup-insert m u.username u s.users,
        ),
        ground arith,
      )
      | no p ↦
          let (w, e, f) =
            c.by_email x m (ground (arith, lookup-insert x u.email u.username s.by_email)) in
          (w, ground (arith, lookup-insert m u.username u s.users), f)
    ];
  }

  pub add_user-KeysAgree : u.connect_key ≡ [] → KeysAgree s → KeysAgree (add_user s u)
  add_user-KeysAgree none_yet c = record {
    keyed = λ m w h k. ground (arith, lookup-insert m u.username u s.users, c.keyed m w);
    owned =
        λ k id h. let (n, e) = c.owned k id h in lookup-insert-some id u.id u.username n s.by_id e;
  }

-- Giving the user `u` at `n` the key `key`, while the index forgets `old` or keeps it.
abbrev pub reassign : Bool → Text → Text → Text → Map Text Text → Map Text Text
reassign forget old key id by_key = insert key id (if forget then erase old by_key else by_key)

module _ (s : Store) (n key : Text) (u : User) (found : lookup n s.users ≡ some u)
    (free : clashes (lookup key s.by_key) u.id ≡ false) (c : Consistent s) where
  no_other :
      (m : Text) (w : User) (k : Text)
      → lookup m s.users ≡ some w
      → lookup k s.by_key ≡ some w.id
      → (k ≡ key) ⊎ (lookup k s.by_key ≡ some u.id)
      → m ≡ n
  no_other m w k h e (inl p) = ground (arith, c.names.named m w h, c.names.named n u found)
  no_other m w k h e (inr p) = ground (arith, c.names.named m w h, c.names.named n u found)

  pub reassign-KeysAgree :
      (v : User) (forget : Bool)
      → v.id ≡ u.id
      → v.connect_key ≡ key
      → (forget ≡ true → u.connect_key ≢ [])
      → KeysAgree (record s {
        users = insert n v s.users;
        by_key = reassign forget u.connect_key key u.id s.by_key;
      })
  reassign-KeysAgree v false same_id set_key nonempty = record {
    keyed = λ m w h k. ground (
      arith,
      lookup-insert m n v s.users,
      lookup-insert w.connect_key key u.id s.by_key,
      c.keys.keyed m w,
      no_other m w w.connect_key,
    );
    owned = λ k id h. elim (list_eq.dec k key) [
      | yes p ↦ (n, ground (arith, lookup-insert k key u.id s.by_key, c.names.named n u found))
      | no p ↦ c.keys.owned k id (ground (arith, lookup-insert k key u.id s.by_key))
    ];
  }
  reassign-KeysAgree v true same_id set_key nonempty = record {
    keyed = λ m w h k. ground (
      arith,
      lookup-insert m n v s.users,
      lookup-insert w.connect_key key u.id (erase u.connect_key s.by_key),
      lookup-erase w.connect_key u.connect_key s.by_key,
      c.keys.keyed m w,
      c.keys.keyed n u found (nonempty refl),
      no_other m w w.connect_key,
    );
    owned = λ k id h. elim (list_eq.dec k key) [
      | yes p ↦ (
        n,
        ground (
          arith,
          lookup-insert k key u.id (erase u.connect_key s.by_key),
          c.names.named n u found,
        ),
      )
      | no p ↦ c.keys.owned k id (
          ground (
            arith,
            lookup-insert k key u.id (erase u.connect_key s.by_key),
            lookup-erase k u.connect_key s.by_key,
          ))
    ];
  }

-- The one who holds the id `id`, named `n`.
pub user_of_id :
    (s : Store) (id n : Text)
    → NamesAgree s
    → lookup id s.by_id ≡ some n
    → (lookup n s.users ≡ some (user_at s n)) × ((user_at s n).id ≡ id)
user_of_id s id n c h = let (u, e, f) = c.by_id id n h in ground arith

-- The four other maps do not matter.
pub other_maps-Consistent :
    {s : Store} (t : Store)
    → Consistent s
    → Consistent
        (record t { users = s.users; by_id = s.by_id; by_email = s.by_email; by_key = s.by_key })
other_maps-Consistent t c = record {
  names = record { named = c.names.named; by_id = c.names.by_id; by_email = c.names.by_email };
  keys = record { keyed = c.keys.keyed; owned = c.keys.owned };
}

pub empty_store-Consistent : Consistent empty_store
empty_store-Consistent = record {
  names = record {
    named = λ n u h. cc (lookup-nil {V = User} n);
    by_id = λ id n h. absurd (cc (lookup-nil {V = Text} id));
    by_email = λ id n h. absurd (cc (lookup-nil {V = Text} id));
  };
  keys = record {
    keyed = λ n u h. cc (lookup-nil {V = User} n);
    owned = λ k id h. absurd (cc (lookup-nil {V = Text} k));
  };
}
