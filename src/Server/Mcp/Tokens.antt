-- ===== src/Server/Mcp/Tokens.antt =====
-- Who is let in by Validate of internal/akira-server/mcp/auth.go, and how often it refreshes the keys.
use akira_mcp.Base.{
  ℕ, ◌+◌, ◌≤◌, ◌≡◌, ◌≢◌, ◌⊎◌, inl, inr, List, [], ◌∷◌, Option, none, some, Option-cases, List-cases,
  Bool-cases, ◌==◌, list_eq, nat_eq, arith, refl, subst,
}
use akira_mcp.Base.Text.{Text, bytes}
use akira_mcp.Server.Mcp.Validate.{
  Token, Parsed, token, unknown_kid, invalid_token, refresh_interval, TokenValidator, bearer_token,
  is_recent, refresh_key_set, check_token, validate, validate_all,
}

-- The times of the refreshes, the last first, are at least an interval apart, and the last is noted.
abbrev pub Apart : List ℕ → Type 0
Apart [] = Unit
Apart (t ∷ []) = Unit
Apart (t ∷ u ∷ ts) = (u + refresh_interval ≤ t) × Apart (u ∷ ts)

module _ {Keys : Type 0} (parse : Keys → Text → Parsed) where
  abbrev Noted : TokenValidator Keys → Type 0
  Noted v =
      Apart v.refreshes
      × (((v.refreshes ≡ []) × (v.last_refresh ≡ none))
          ⊎ ((t : ℕ) × (ts : List ℕ) × (v.refreshes ≡ t ∷ ts) × (v.last_refresh ≡ some t)))

  refresh-Noted :
      (now : ℕ) (fetched : Option Keys) (v : TokenValidator Keys)
      → Noted v
      → Noted (refresh_key_set now fetched v)
  unfolding refresh_key_set
  refresh-Noted now fetched v n = elim (Bool-cases (is_recent now v.last_refresh)) [
    | inl e ↦ rw (e, refresh_key_set) n
    | inr e ↦ elim n.1 [
      | inl (nothing, never) ↦
          rw (e, refresh_key_set) (rw nothing tt, inr (now, v.refreshes, refl, refl))
      | inr (t, ts, log, last) ↦
          let spaced : Apart (t ∷ ts) = subst Apart log n.0 in
          let late : t + refresh_interval ≤ now = ground (arith, e, last) in
          rw (e, refresh_key_set) (rw log (late, spaced), inr (now, v.refreshes, refl, refl))
    ]
  ]

  Parsed-cases :
      (p : Parsed) → ((t : Token) × (p ≡ token t)) ⊎ ((p ≡ unknown_kid) ⊎ (p ≡ invalid_token))
  Parsed-cases (token t) = inl (t, refl)
  Parsed-cases unknown_kid = inr (inl refl)
  Parsed-cases invalid_token = inr (inr refl)

  validate-Noted :
      (now : ℕ) (fetched : Option Keys) (header : Text) (v : TokenValidator Keys)
      → Noted v
      → Noted (validate parse now fetched header v).0
  unfolding validate
  validate-Noted now fetched header v n = elim (Bool-cases (bearer_token header == [])) [
    | inl e ↦ rw (e, validate) n
    | inr e ↦ elim (Parsed-cases (parse v.keys (bearer_token header))) [
      | inl (t, f) ↦ rw (e, f, validate) n
      | inr (inl f) ↦ rw (e, f, validate) (refresh-Noted now fetched v n)
      | inr (inr f) ↦ rw (e, f, validate) n
    ]
  ]

  run-Noted :
      (rs : List (ℕ × (Option Keys × Text))) (v : TokenValidator Keys)
      → Noted v
      → Noted (validate_all parse rs v)
  unfolding validate_all
  run-Noted [] v n = n
  run-Noted ((now, (fetched, header)) ∷ rs) v n =
      run-Noted rs (validate parse now fetched header v).0 (validate-Noted now fetched header v n)

-- The token passes the checks of Validate under these keys.
abbrev pub Admits : {Keys : Type 0} → (Keys → Text → Parsed) → Keys → Text → Text → Type 0
Admits parse keys raw sub =
    (tok : Token) × (parse keys raw ≡ token tok)
    × (tok.subject ≡ some sub)
    × (sub ≢ [])
    × (tok.typ ≡ some (bytes "access"))

check_token_sound :
    (p : Parsed) (sub : Text)
    → check_token p ≡ inr sub
    → (tok : Token) × (p ≡ token tok)
      × (tok.subject ≡ some sub)
      × (sub ≢ [])
      × (tok.typ ≡ some (bytes "access"))
unfolding check_token
check_token_sound unknown_kid sub e = ground (arith, e)
check_token_sound invalid_token sub e = ground (arith, e)
check_token_sound (token tok) sub e = elim (Option-cases tok.subject) [
  | inl f ↦ ground (arith, e, f)
  | inr (name, f) ↦ elim (List-cases name) [
    | inl g ↦ ground (arith, e, f, g)
    | inr (c, rest, g) ↦ elim (Option-cases tok.typ) [
      | inl h ↦ ground (arith, e, f, g, h)
      | inr (typ, h) ↦ elim (Bool-cases (typ == bytes "access")) [
        | inl k ↦ (
          tok,
          refl,
          ground (arith, e, f, g, h, k),
          ground (arith, e, f, g, h, k),
          ground (arith, h, k),
        )
        | inr k ↦ ground (arith, e, f, g, h, k)
      ]
    ]
  ]
]

-- Validate lets a request in as a user only if the request bears a token, and the token, checked under
-- the keys that the validator holds afterwards, is an access token of this user.
pub validate_sound :
    {Keys : Type 0} (parse : Keys → Text → Parsed) (now : ℕ) (fetched : Option Keys)
    (header sub : Text) (v : TokenValidator Keys)
    → (validate parse now fetched header v).1 ≡ inr sub
    → (bearer_token header ≢ [])
      × Admits parse (validate parse now fetched header v).0.keys (bearer_token header) sub
unfolding validate
validate_sound parse now fetched header sub v e =
    let raw = bearer_token header in
    elim (Bool-cases (raw == [])) [
      | inl f ↦ ground (arith, e, f)
      | inr f ↦ elim (Parsed-cases parse (parse v.keys raw)) [
        | inl (t, g) ↦
            let checked : check_token (parse v.keys raw) ≡ inr sub = ground (arith, e, f, g) in
            (
              ground (arith, f),
              rw (f, g, validate) (check_token_sound (parse v.keys raw) sub checked),
            )
        | inr (inl g) ↦
            let w = refresh_key_set now fetched v in
            let checked : check_token (parse w.keys raw) ≡ inr sub = ground (arith, e, f, g) in
            (
              ground (arith, f),
              rw (f, g, validate) (check_token_sound (parse w.keys raw) sub checked),
            )
        | inr (inr g) ↦ ground (arith, e, f, g)
      ]
    ]

-- A new validator, whatever requests come to it and at whatever times: two forced refreshes of the
-- keys are at least 30 seconds apart.
pub validate_all-Apart :
    {Keys : Type 0} (parse : Keys → Text → Parsed) (keys : Keys)
    (rs : List (ℕ × (Option Keys × Text)))
    → Apart
        (validate_all parse rs
          (record { keys = keys; last_refresh = none; refreshes = [] })).refreshes
validate_all-Apart parse keys rs =
    (run-Noted parse rs (record { keys = keys; last_refresh = none; refreshes = [] })
      (tt, inl (refl, refl))).0
