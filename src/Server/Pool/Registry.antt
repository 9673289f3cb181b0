-- ===== src/Server/Pool/Registry.antt =====
-- pool/pool.go
use akira_mcp.Base.{
  ℕ, suc, Bool, true, false, not, ◌&&◌, ◌||◌, List, [], ◌∷◌, map, Option, none, some, ◌==◌, list_eq,
  nat_eq, if◌then◌else◌, ltb, leb, ◌⊎◌, inl, inr,
}
use akira_mcp.Base.Map.{Map, lookup, insert, erase}
use akira_mcp.Base.Text.{Text, has_prefix, trim_prefix}
use akira_mcp.Server.Pool.{
  Pool, PoolError, too_many_connections, ClientInfo, Connection, user_prefix,
}
use akira_mcp.Server.Pool.Pending.{close, fail_unsent, fail_pending_client}

-- countByUser
unfoldable pub count_by_user : Text → Map Text ℕ → ℕ
count_by_user user_id [] = 0
count_by_user user_id ((id, _) ∷ m) =
    let rest = count_by_user user_id m in
    if has_prefix id (user_prefix user_id) then suc rest else rest

abbrev pub at_limit : ℕ → ℕ → Bool
at_limit max n = ltb 0 max && leb max n

-- Close the replaced connection, if there is one, and fail what it had not sent.
abbrev pub retire : Option ℕ → Pool → Pool
retire none p = p
retire (some h) p = let (q, unsent) = close h p in fail_unsent unsent q

abbrev pub named_info : Text → Text → ClientInfo → ClientInfo
named_info connection_id user_id info = record info {
  connection_id = connection_id;
  client_id = trim_prefix connection_id (user_prefix user_id);
}

-- client.New
abbrev pub fresh_connection : Text → Text → Connection
fresh_connection client_id session_id = record {
  client_id = client_id;
  session_id = session_id;
  out = [];
  closed = false;
}

-- The new connection, at the handle `p.next`.
abbrev pub enrol : Text → Text → ClientInfo → Text → Pool → Pool
enrol connection_id user_id info session_id p = record p {
  conns = insert connection_id p.next p.conns;
  infos = insert connection_id (named_info connection_id user_id info) p.infos;
  connections = insert p.next (fresh_connection connection_id session_id) p.connections;
  next = suc p.next;
}

-- Register. The limit is checked on the map without the replaced registration; where it is reached,
-- the source puts that registration back.
unfoldable pub register : Text → Text → ClientInfo → Text → Pool → Pool × (PoolError ⊎ ℕ)
register connection_id user_id info session_id p =
    if at_limit p.max_connections (count_by_user user_id (erase connection_id p.conns))
    then (p, inl too_many_connections)
    else (
      retire (lookup connection_id p.conns) (enrol connection_id user_id info session_id p),
      inr p.next,
    )

abbrev pub forget : Text → Pool → Pool
forget connection_id p = record p {
  conns = erase connection_id p.conns;
  infos = erase connection_id p.infos;
}

-- Unregister, of the connection `h` whose ClientID is `connection_id`
unfoldable pub unregister : ℕ → Text → Pool → Pool
unregister h connection_id p = elim (lookup connection_id p.conns) [
  | none ↦ p
  | some cur ↦
      if not (cur == h)
      then retire (some h) p
      else fail_pending_client connection_id (close h (forget connection_id p)).0
]

-- Disconnect
unfoldable pub disconnect : Text → Pool → Pool × Bool
disconnect connection_id p = elim (lookup connection_id p.conns) [
  | none ↦ (p, false)
  | some h ↦ (fail_pending_client connection_id (close h (forget connection_id p)).0, true)
]

-- Go's order on strings: by bytes.
unfoldable text_le : Text → Text → Bool
text_le [] t = true
text_le (a ∷ s) [] = false
text_le (a ∷ s) (b ∷ t) = ltb a b || (a == b && text_le s t)

-- sort.Strings and sort.Slice, on the key of an item: what they promise is a sorted permutation.
module _ {A : Type 0} (key : A → Text) where
  unfoldable pub insert_sorted : A → List A → List A
  unfolding text_le
  insert_sorted x [] = x ∷ []
  insert_sorted x (y ∷ ys) = if text_le (key x) (key y) then x ∷ y ∷ ys else y ∷ insert_sorted x ys

  unfoldable pub sort : List A → List A
  unfolding insert_sorted
  sort [] = []
  sort (x ∷ xs) = insert_sorted x (sort xs)

-- ClientIDs
unfoldable client_ids : Pool → List Text
unfolding sort
client_ids p = sort (λ id. id) (map (λ e. e.0) p.conns)

-- Has
unfoldable pub has : Text → Pool → Bool
has connection_id p = elim (lookup connection_id p.conns) [ none ↦ false | some _ ↦ true ]

unfoldable pub infos_of : Text → Map Text ClientInfo → List ClientInfo
infos_of user_id [] = []
infos_of user_id ((id, info) ∷ m) =
    let rest = infos_of user_id m in
    if has_prefix id (user_prefix user_id) then info ∷ rest else rest

-- ClientsByUser
unfoldable pub clients_by_user : Text → Pool → List ClientInfo
unfolding sort infos_of
clients_by_user user_id p = sort (λ info. info.connection_id) (infos_of user_id p.infos)
