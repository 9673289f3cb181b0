-- ===== src/Auth/Memory/Tests.antt =====
-- Small runs of the in-memory store, and the store's theorems on them.
use akira_mcp.Base.{
  ℕ, ◌≡◌, ◌≢◌, List, [], ◌∷◌, some, true, false, inl, arith, refl, ◌⊎◌, list_eq, nat_eq,
}
use akira_mcp.Base.Map.{lookup, insert, erase, retain}
use akira_mcp.Base.Text.{bytes, Text}
use akira_mcp.Auth.Types.{
  ok, err, User, RefreshToken, EmailVerification, OAuthCode, verification_not_found,
  oauth_code_not_found,
}
use akira_mcp.Auth.Memory.{Store, empty_store}
use akira_mcp.Auth.Memory.Users.{
  get_user_by_username, get_user_by_id, get_user_by_email, get_user_by_connect_key, set_connect_key,
  create_user_with_code, create_user, clashes,
}
use akira_mcp.Auth.Memory.Verification.{
  complete_email_verification, finish_verification, save_email_verification,
}
use akira_mcp.Auth.Memory.Refresh.{rotate_refresh, save_refresh}
use akira_mcp.Auth.Memory.OAuth.{consume_oauth_code, save_oauth_code}
use akira_mcp.Auth.Memory.Indexes.{Consistent, empty_store-Consistent}
use akira_mcp.Auth.Memory.History.{
  Call, creates_with_code, completes, rotates, saves_code, revokes, step, run, AllFresh,
  run-Consistent,
}
use akira_mcp.Auth.Memory.Lookups.{accounts_distinct, lookups_agree, complete_keeps_old_key}
use akira_mcp.Auth.Memory.OneTime.{
  rotate_refresh-refines, rotation_result, live_token, rotated_token, consume_once,
}
use akira_mcp.Auth.Memory.Attempts.{Guess, guess_all, locked_out}

abbrev ann : User
ann = record {
  id = bytes "u1";
  username = bytes "ann";
  email = bytes "a@x";
  password_hash = bytes "h";
  connect_key = bytes "k1";
  email_verified = true;
}

-- A new code that ann is sent.
abbrev mailed : EmailVerification
mailed = record {
  code_hash = bytes "c";
  user_id = bytes "u1";
  expires_at = 100;
  created_at = 3;
  attempts = 0;
}

-- Two users who verify their emails, and a new code for the first.
abbrev signups : List (ℕ × Call)
signups =
    (0, creates_with_code (bytes "u1") (bytes "ann") (bytes "a@x") (bytes "h") (bytes "c1") 100)
    ∷ (1, creates_with_code (bytes "u2") (bytes "bob") (bytes "b@x") (bytes "h") (bytes "c2") 100)
    ∷ (2, completes (bytes "u1") (bytes "c1") (bytes "k1"))
    ∷ (3, completes (bytes "u2") (bytes "c2") (bytes "k2"))
    ∷ (4, saves_code mailed)
    ∷ []

abbrev accounts : Store
accounts = run empty_store signups

signups-AllFresh : AllFresh empty_store signups
unfolding run step create_user_with_code create_user complete_email_verification finish_verification
    save_email_verification lookup insert erase retain list_eq nat_eq
signups-AllFresh = (refl, (refl, (tt, (tt, (tt, tt)))))

accounts-Consistent : Consistent accounts
accounts-Consistent = run-Consistent empty_store signups signups-AllFresh empty_store-Consistent

ann_found : get_user_by_username (bytes "ann") accounts ≡ ok ann
unfolding run step create_user_with_code create_user complete_email_verification finish_verification
    save_email_verification lookup insert erase retain list_eq nat_eq get_user_by_username
ann_found = refl

ann_by_id : get_user_by_id (bytes "u1") accounts ≡ ok ann
unfolding run step create_user_with_code create_user complete_email_verification finish_verification
    save_email_verification lookup insert erase retain list_eq nat_eq get_user_by_id
ann_by_id = refl

accounts_distinct_example : bytes "ann" ≡ bytes "ann"
accounts_distinct_example =
    accounts_distinct signups signups-AllFresh (bytes "ann") (bytes "ann") ann ann ann_found
      ann_found (inl refl)

lookups_agree_example :
    (get_user_by_id (bytes "u1") accounts ≡ ok ann)
    × (get_user_by_email (bytes "a@x") accounts ≡ ok ann)
    × ((bytes "k1" ≡ []) ⊎ (get_user_by_connect_key (bytes "k1") accounts ≡ ok ann))
lookups_agree_example = lookups_agree signups signups-AllFresh (bytes "ann") ann ann_found

abbrev rekeyed : Store
rekeyed = (set_connect_key (bytes "u1") (bytes "k9") accounts).0

rekeys : set_connect_key (bytes "u1") (bytes "k9") accounts ≡ (rekeyed, ok tt)
unfolding run step create_user_with_code create_user complete_email_verification finish_verification
    save_email_verification lookup insert erase retain list_eq nat_eq set_connect_key
rekeys = refl

abbrev token : Text → Text → RefreshToken
token hash user_id = record {
  token_hash = hash;
  user_id = user_id;
  expires_at = 50;
  created_at = 0;
}

abbrev session : Store
session = (save_refresh (token (bytes "t1") (bytes "u1")) empty_store).0

rotate_refresh-refines_example :
    ((rotate_refresh (bytes "t1") (token (bytes "t2") []) 9 session).1
      ≡ rotation_result (live_token (bytes "t1") 9 session))
    × (lookup (bytes "t2") (rotate_refresh (bytes "t1") (token (bytes "t2") []) 9 session).0.refr
        ≡ rotated_token
            (bytes "t1")
            (token (bytes "t2") [])
            (live_token (bytes "t1") 9 session)
            (bytes "t2")
            (live_token (bytes "t2") 9 session))
rotate_refresh-refines_example =
    rotate_refresh-refines (bytes "t1") (token (bytes "t2") []) 9 session (bytes "t2")

rotates_once :
    (rotate_refresh (bytes "t1") (token (bytes "t2") []) 9 session).1
    ≡ ok (token (bytes "t1") (bytes "u1"))
unfolding rotate_refresh save_refresh lookup insert retain erase list_eq nat_eq
rotates_once = refl

-- The second rotation comes after a rotation of the new token and a revocation.
abbrev later_calls : List (ℕ × Call)
later_calls = (10, rotates (bytes "t2") (token (bytes "t3") [])) ∷ (11, revokes (bytes "t3")) ∷ []

abbrev code : OAuthCode
code = record {
  code_hash = bytes "h";
  user_id = bytes "u1";
  client_id = bytes "c";
  redirect_uri = bytes "https://c";
  scope = [];
  code_challenge = bytes "x";
  code_challenge_method = bytes "S256";
  expires_at = 50;
  created_at = 0;
}

consume_once_example :
    (consume_oauth_code (bytes "h") 12 (
      run
        (consume_oauth_code (bytes "h") 9 (save_oauth_code code 1 empty_store).0).0
        later_calls)).1
    ≡ err oauth_code_not_found
consume_once_example =
    consume_once (bytes "h") 9 12 (save_oauth_code code 1 empty_store).0 later_calls (tt, (tt, tt))

abbrev wrong : Guess
wrong = record { now = 5; code_hash = bytes "w"; key = bytes "k3" }

abbrev right : Guess
right = record { now = 6; code_hash = bytes "c"; key = bytes "k3" }

abbrev five : List Guess
five = wrong ∷ wrong ∷ wrong ∷ wrong ∷ wrong ∷ []

code_waits : lookup (bytes "u1") accounts.verifs ≡ some mailed
unfolding run step create_user_with_code create_user complete_email_verification finish_verification
    save_email_verification lookup insert erase retain list_eq nat_eq
code_waits = refl

locked_out_example :
    (complete_email_verification
      (bytes "u1")
      (bytes "c")
      (bytes "k3")
      6
      (guess_all (bytes "u1") accounts five)).1
    ≡ err verification_not_found
locked_out_example =
    let w : bytes "w" ≢ bytes "c" = ground arith in
    locked_out (bytes "u1") accounts mailed five right code_waits (w, (w, (w, (w, (w, tt)))))
      (ground arith)

abbrev rekeyed_again : Store
rekeyed_again = (complete_email_verification (bytes "u1") (bytes "c") (bytes "k3") 6 accounts).0

completes_again :
    complete_email_verification (bytes "u1") (bytes "c") (bytes "k3") 6 accounts
    ≡ (rekeyed_again, ok tt)
unfolding run step create_user_with_code create_user complete_email_verification finish_verification
    save_email_verification lookup insert erase retain list_eq nat_eq
completes_again = refl

complete_keeps_old_key_example :
    get_user_by_connect_key (bytes "k1") rekeyed_again
    ≡ ok (record ann { connect_key = bytes "k3"; email_verified = true })
complete_keeps_old_key_example =
    complete_keeps_old_key accounts rekeyed_again (bytes "u1") (bytes "c") (bytes "k3") 6 ann
      accounts-Consistent ann_by_id (ground arith) (ground arith) completes_again

k3_free : clashes (lookup (bytes "k3") accounts.by_key) (bytes "u1") ≡ false
unfolding run step create_user_with_code create_user complete_email_verification finish_verification
    save_email_verification lookup insert erase retain list_eq nat_eq
k3_free = refl

k2_taken : clashes (lookup (bytes "k2") accounts.by_key) (bytes "u1") ≡ true
unfolding run step create_user_with_code create_user complete_email_verification finish_verification
    save_email_verification lookup insert erase retain list_eq nat_eq
k2_taken = refl
