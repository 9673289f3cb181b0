-- ===== src/Server/Pool/Listing.antt =====
-- ClientsByUser of pool/pool.go: what a user is shown.
use akira_mcp.Base.{
  ℕ, ◌≡◌, inl, inr, true, false, Bool-cases, Option-cases, List, [], ◌∷◌, Option, none, some, ◌==◌,
  list_eq, nat_eq, arith, refl, sym, subst, ap, All, ◌∙◌,
}
use akira_mcp.Base.Map.{Map, lookup, insert, erase, All-erase}
use akira_mcp.Base.Text.{
  Text, contains_byte, has_prefix, trim_prefix, has_prefix-field, trim_prefix-append,
}
use akira_mcp.Server.Pool.{Pool, new_pool, ClientInfo, user_prefix, connection_id_of}
use akira_mcp.Server.Pool.Pending.{
  fail_task, fail_pending_client, handle_result, add_pending, drop_pending, post, close,
}
use akira_mcp.Server.Pool.Registry.{
  register, unregister, disconnect, retire, enrol, forget, at_limit, count_by_user, named_info,
  insert_sorted, sort, infos_of, clients_by_user,
}
use akira_mcp.Server.Pool.Events.{
  Event, registers, unregisters, disconnects, adds, drops, posts, submits, closes, fails,
  fails_unsent, fails_client, step, run,
}
use akira_mcp.Server.Pool.Reconnect.{conns-fail_unsent}
use akira_mcp.Server.Pool.Limit.{PlainUser, AllPlain}
use mathlib.Core.List.{append_assoc}

-- The info is filed under the connection id that it names, which its owner and its client id make up.
abbrev Filed : Text × ClientInfo → Type 0
Filed (id, info) =
    (owner : Text) × (contains_byte b':' owner ≡ false)
    × (id ≡ connection_id_of owner info.client_id)
    × (info.connection_id ≡ id)

abbrev PoolFiled : Pool → Type 0
PoolFiled p = All Filed p.infos

named_info-Filed :
    (owner client : Text) (info : ClientInfo)
    → contains_byte b':' owner ≡ false
    → Filed (connection_id_of owner client, named_info (connection_id_of owner client) owner info)
named_info-Filed owner client info plain =
    let cut : trim_prefix (connection_id_of owner client) (user_prefix owner) ≡ client =
      subst (λ s. trim_prefix s (user_prefix owner) ≡ client)
        (append_assoc owner (b':' ∷ []) client) (trim_prefix-append (user_prefix owner) client) in
    (owner, plain, ap (λ c. connection_id_of owner c) (sym cut), refl)

retire-PoolFiled : (old : Option ℕ) (p : Pool) → PoolFiled p → PoolFiled (retire old p)
retire-PoolFiled none p f = f
retire-PoolFiled (some h) p f =
    unfold close in ground (arith, f, conns-fail_unsent (close h p).1 (close h p).0)

register-PoolFiled :
    (owner client session : Text) (info : ClientInfo) (p : Pool)
    → contains_byte b':' owner ≡ false
    → PoolFiled p
    → PoolFiled (register (connection_id_of owner client) owner info session p).0
unfolding register
register-PoolFiled owner client session info p plain f =
    let id = connection_id_of owner client in
    elim (Bool-cases (at_limit p.max_connections (count_by_user owner (erase id p.conns)))) [
      | inl e ↦ rw (e, register) f
      | inr e ↦
          rw (e, register)
            (retire-PoolFiled (lookup id p.conns) (enrol id owner info session p) (
              unfold insert in
              (named_info-Filed owner client info plain, All-erase Filed id p.infos f)))
    ]

lose-PoolFiled :
    (h : ℕ) (id : Text) (p : Pool)
    → PoolFiled p
    → PoolFiled (fail_pending_client id (close h (forget id p)).0)
unfolding fail_pending_client close
lose-PoolFiled h id p f = ground (arith, All-erase Filed id p.infos f)

unregister-PoolFiled : (h : ℕ) (id : Text) (p : Pool) → PoolFiled p → PoolFiled (unregister h id p)
unfolding unregister
unregister-PoolFiled h id p f = elim (Option-cases (lookup id p.conns)) [
  | inl e ↦ rw (e, unregister) f
  | inr (cur, e) ↦ elim (Bool-cases (cur == h)) [
    | inl g ↦ rw (e, g, unregister) (lose-PoolFiled h id p f)
    | inr g ↦ rw (e, g, unregister) (retire-PoolFiled (some h) p f)
  ]
]

disconnect-PoolFiled : (id : Text) (p : Pool) → PoolFiled p → PoolFiled (disconnect id p).0
unfolding disconnect
disconnect-PoolFiled id p f = elim (Option-cases (lookup id p.conns)) [
  | inl e ↦ rw (e, disconnect) f
  | inr (h, e) ↦ rw (e, disconnect) (lose-PoolFiled h id p f)
]

step-PoolFiled : (p : Pool) (e : Event) → PlainUser e → PoolFiled p → PoolFiled (step p e)
unfolding step
step-PoolFiled p (registers owner client info session) plain f =
    register-PoolFiled owner client session info p plain f
step-PoolFiled p (unregisters h id) _ f = unregister-PoolFiled h id p f
step-PoolFiled p (disconnects id) _ f = disconnect-PoolFiled id p f
step-PoolFiled p (adds id task_id) _ f = unfold add_pending in ground (arith, f)
step-PoolFiled p (drops task_id t) _ f = unfold drop_pending in ground (arith, f)
step-PoolFiled p (posts h msg) _ f = unfold post in ground (arith, f)
step-PoolFiled p (submits res) _ f = unfold handle_result in ground (arith, f)
step-PoolFiled p (closes h) _ f = unfold close in ground (arith, f)
step-PoolFiled p (fails task_id) _ f = unfold fail_task in ground (arith, f)
step-PoolFiled p (fails_unsent msgs) _ f = ground (arith, f, conns-fail_unsent msgs p)
step-PoolFiled p (fails_client id) _ f = unfold fail_pending_client in f

run-PoolFiled : (p : Pool) (es : List Event) → AllPlain es → PoolFiled p → PoolFiled (run p es)
unfolding run
run-PoolFiled p [] a f = f
run-PoolFiled p (e ∷ es) a f = run-PoolFiled (step p e) es a.1 (step-PoolFiled p e a.0 f)

-- Sorting keeps what all items satisfy.
module _ {A : Type 0} (key : A → Text) (P : A → Type 0) where
  All-insert_sorted : (x : A) (xs : List A) → P x → All P xs → All P (insert_sorted key x xs)
  unfolding insert_sorted
  All-insert_sorted x [] h a = (h, tt)
  All-insert_sorted x (y ∷ ys) h a = ground (arith, h, a, All-insert_sorted x ys h a.1)

  All-sort : (xs : List A) → All P xs → All P (sort key xs)
  unfolding sort
  All-sort [] a = tt
  All-sort (x ∷ xs) a = All-insert_sorted x (sort key xs) a.0 (All-sort xs a.1)

-- The info names a connection of the user.
abbrev pub OwnedBy : Text → ClientInfo → Type 0
OwnedBy user info = info.connection_id ≡ connection_id_of user info.client_id

infos_of-OwnedBy :
    (user : Text) (m : Map Text ClientInfo)
    → contains_byte b':' user ≡ false
    → All Filed m
    → All (OwnedBy user) (infos_of user m)
unfolding infos_of
infos_of-OwnedBy user [] plain f = tt
infos_of-OwnedBy user ((id, info) ∷ m) plain f =
    let rest = infos_of-OwnedBy user m plain f.1 in
    elim (Bool-cases (has_prefix id (user_prefix user))) [
      | inr e ↦ rw (e, infos_of) rest
      | inl e ↦
          let (owner, plain', made, named) = f.0 in
          let same : owner ≡ user =
            has_prefix-field b':' owner user info.client_id plain' plain
              (subst (λ i. has_prefix i (user_prefix user) ≡ true) made e) in
          rw (e, infos_of) (named ∙ made ∙ ap (λ u. connection_id_of u info.client_id) same, rest)
    ]

-- What a user is shown, in a pool after any calls and parts of calls in any order by users whose ids
-- have no ':', is the user's own: each listed machine is under the connection id that the user's id and the
-- listed client id make up.
pub listing_is_own :
    (user : Text) (max : ℕ) (es : List Event)
    → contains_byte b':' user ≡ false
    → AllPlain es
    → All (OwnedBy user) (clients_by_user user (run (new_pool max) es))
unfolding clients_by_user
listing_is_own user max es plain a =
    let p = run (new_pool max) es in
    All-sort (λ info. info.connection_id) (OwnedBy user) (infos_of user p.infos)
      (infos_of-OwnedBy user p.infos plain (run-PoolFiled (new_pool max) es a tt))
