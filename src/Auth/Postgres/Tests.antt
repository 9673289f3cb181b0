-- ===== src/Auth/Postgres/Tests.antt =====
-- Small runs of the Postgres store, and its theorems on them.
use akira_mcp.Base.{ℕ, ◌≡◌, List, [], ◌∷◌, map, inl, arith, refl, list_eq, nat_eq}
use akira_mcp.Base.Map.{lookup, insert, erase}
use akira_mcp.Base.Text.{bytes}
use akira_mcp.Auth.Types.{OAuthCode, EmailVerification, err, connect_key_exists}
use akira_mcp.Auth.Memory.{Store, empty_store}
use akira_mcp.Auth.Memory.Verification as Memory
use akira_mcp.Auth.Postgres.{Tables, exists_row, update}
use akira_mcp.Auth.Postgres.Users.{
  new_row, insert_user, create_user, create_user_with_code, set_connect_key,
}
use akira_mcp.Auth.Postgres.Tokens.{
  complete_email_verification, finish_verification, verification_row,
}
use akira_mcp.Auth.Postgres.Completion.{SameUser, Clear, Alike, completes-Alike}
use akira_mcp.Auth.Postgres.OAuth as Sql
use akira_mcp.Auth.Postgres.Agreement.{
  saves, consumes, in_micros, SameCodes, memory_outcomes, sql_outcomes, sql_call, Orderly,
  codes_agree,
}
use akira_mcp.Auth.Postgres.Agreement as Codes

abbrev no_rows : Tables
no_rows = record {
  users = [];
  refresh_tokens = [];
  email_verifications = [];
  oauth_clients = [];
  oauth_codes = [];
}

-- Ann signs up and verifies her email; the key that she has is refused to Bob.
abbrev ann_signed_up : Tables
ann_signed_up =
    (create_user_with_code (bytes "u1") (bytes "ann") (bytes "a@x") (bytes "h") (bytes "c1") 100_000
      500 no_rows).0

abbrev ann_verified : Tables
ann_verified =
    (complete_email_verification (bytes "u1") (bytes "c1") (bytes "k1") 1_500 ann_signed_up).0

abbrev both : Tables
both = (create_user (bytes "u2") (bytes "bob") (bytes "b@x") (bytes "h") ann_verified).0

key_refused : set_connect_key (bytes "u2") (bytes "k1") both ≡ (both, err connect_key_exists)
unfolding create_user_with_code create_user insert_user set_connect_key complete_email_verification
    finish_verification exists_row update lookup insert erase list_eq nat_eq
key_refused = refl

abbrev code : OAuthCode
code = record {
  code_hash = bytes "h1";
  user_id = bytes "u1";
  client_id = bytes "c";
  redirect_uri = bytes "r";
  scope = [];
  code_challenge = bytes "x";
  code_challenge_method = bytes "S256";
  expires_at = 10_500;
  created_at = 1_200;
}

-- A code that is used twice, and once more after its expiry.
abbrev calls : List (ℕ × Codes.Call)
calls =
    (1_200, saves code)
    ∷ (2_300, consumes (bytes "h1"))
    ∷ (3_400, consumes (bytes "h1"))
    ∷ (11_000, consumes (bytes "h1"))
    ∷ []

orderly : Orderly 0 no_rows calls
unfolding sql_call Sql.save_oauth_code Sql.consume_oauth_code lookup insert erase list_eq nat_eq
orderly = (
  omega arith,
  (
    refl,
    (
      omega arith,
      (
        λ c e. ground (arith, e),
        (omega arith, (λ c e. ground (arith, e), (omega arith, (λ c e. ground (arith, e), tt)))),
      ),
    ),
  ),
)

none_at_first : SameCodes 0 empty_store.codes no_rows.oauth_codes
unfolding lookup
none_at_first = λ hash. tt

codes_agree_example : map in_micros (memory_outcomes empty_store calls) ≡ sql_outcomes no_rows calls
codes_agree_example = codes_agree 0 calls empty_store no_rows none_at_first orderly

-- Ann's code in both stores, to be used with a connect key that is free.
abbrev anns_code : EmailVerification
anns_code = record {
  code_hash = bytes "c1";
  user_id = bytes "u1";
  expires_at = 100_500;
  created_at = 700;
  attempts = 2;
}

abbrev remembered : Store
remembered = record empty_store {
  by_id = (bytes "u1", bytes "ann") ∷ [];
  verifs = (bytes "u1", anns_code) ∷ [];
}

abbrev tabled : Tables
tabled = record no_rows {
  users = new_row (bytes "u1") (bytes "ann") (bytes "a@x") (bytes "h") ∷ [];
  email_verifications = (bytes "u1", verification_row anns_code) ∷ [];
}

ann_is_same : SameUser (bytes "u1") (bytes "k1") remembered tabled
unfolding lookup exists_row list_eq nat_eq
ann_is_same = (refl, refl, refl)

code-Clear : Clear 1_500 (lookup (bytes "u1") remembered.verifs)
unfolding lookup list_eq nat_eq
code-Clear = inl (omega arith)

completes-Alike_example :
    Alike 1_500
      (bytes "u1")
      (bytes "k1")
      tabled
      (Memory.complete_email_verification (bytes "u1") (bytes "c1") (bytes "k1") 1_500 remembered)
      (complete_email_verification (bytes "u1") (bytes "c1") (bytes "k1") 1_500 tabled)
completes-Alike_example =
    completes-Alike 1_500 (bytes "u1") (bytes "c1") (bytes "k1") remembered tabled ann_is_same
      code-Clear
