-- ===== src/Server/Mcp/Validate.antt =====
-- internal/akira-server/mcp/auth.go. `parse` is jwt.Parse with the issuer of the validator: what it
-- makes of a token by a set of keys. `fetched` is what Refresh of the key cache gets, if it gets it.
use akira_mcp.Base.{
  ℕ, ◌+◌, Bool, false, List, [], ◌∷◌, Option, none, some, ◌==◌, list_eq, nat_eq, if◌then◌else◌, ltb,
  ◌⊎◌, inl, inr,
}
use akira_mcp.Base.Text.{Text, bytes, to_lower, trim_space}

-- jwt.Token, as far as Validate reads it: the subject and the string claim typ.
pub record Token : Type 0 where
  pub subject : Option Text
  pub typ : Option Text

-- What jwt.Parse answers; Validate tells an unknown key id by the error's text.
pub data Parsed : Type 0 where
  token : Token → Parsed
  unknown_kid invalid_token : Parsed

pub data AuthError : Type 0 where
  no_authorization token_rejected empty_subject not_access_token : AuthError

-- refreshInterval, in nanoseconds
abbrev pub refresh_interval : ℕ
refresh_interval = 30000000000

-- TokenValidator over the keys that its cache holds; `refreshes` lists the times of the forced
-- refreshes, the last first.
pub record TokenValidator (Keys : Type 0) : Type 0 where
  pub keys : Keys
  pub last_refresh : Option ℕ
  pub refreshes : List ℕ

-- The text before the first space, and the text after it.
unfoldable pub cut_space : Text → Text × Text
cut_space [] = ([], [])
cut_space (c ∷ s) =
    let (before, after) = cut_space s in if c == b' ' then ([], s) else (c ∷ before, after)

-- bearerToken
unfoldable pub bearer_token : Text → Text
unfolding cut_space
bearer_token header =
    let (scheme, rest) = cut_space header in
    if to_lower scheme == bytes "bearer" then trim_space rest else []

abbrev pub is_recent : ℕ → Option ℕ → Bool
is_recent now none = false
is_recent now (some last) = ltb now (last + refresh_interval)

-- Validate from the parsed token on
unfoldable pub check_token : Parsed → AuthError ⊎ Text
check_token unknown_kid = inl token_rejected
check_token invalid_token = inl token_rejected
check_token (token tok) = elim tok.subject [
  | none ↦ inl empty_subject
  | some [] ↦ inl empty_subject
  | some (c ∷ sub) ↦ elim tok.typ [
    | none ↦ inl not_access_token
    | some typ ↦ if typ == bytes "access" then inr (c ∷ sub) else inl not_access_token
  ]
]

module _ {Keys : Type 0} where
  -- refreshKeySet; a refresh that fails leaves the keys as they are.
  unfoldable pub refresh_key_set : ℕ → Option Keys → TokenValidator Keys → TokenValidator Keys
  refresh_key_set now fetched v = if is_recent now v.last_refresh then v else record v {
    keys = elim fetched [ none ↦ v.keys | some keys ↦ keys ];
    last_refresh = some now;
    refreshes = now ∷ v.refreshes;
  }

  module _ (parse : Keys → Text → Parsed) where
    -- Validate
    unfoldable pub validate :
        ℕ → Option Keys → Text → TokenValidator Keys → TokenValidator Keys × (AuthError ⊎ Text)
    unfolding bearer_token refresh_key_set check_token
    validate now fetched header v =
        let raw = bearer_token header in
        if raw == [] then (v, inl no_authorization) else elim (parse v.keys raw) [
          | token tok ↦ (v, check_token (token tok))
          | invalid_token ↦ (v, inl token_rejected)
          | unknown_kid ↦
              let w = refresh_key_set now fetched v in (w, check_token (parse w.keys raw))
        ]

    -- Requests, each with its time and what a refresh then would get.
    unfoldable pub validate_all :
        List (ℕ × (Option Keys × Text)) → TokenValidator Keys → TokenValidator Keys
    unfolding validate
    validate_all [] v = v
    validate_all ((now, (fetched, header)) ∷ rs) v =
        validate_all rs (validate now fetched header v).0
