-- ===== src/Auth/Tests.antt =====
-- A connect key drawn from a few bytes.
use akira_mcp.Base.{ℕ, ◌≡◌, List, [], ◌∷◌, All, map, take, length, some, arith, refl}
use akira_mcp.Base.Text.{Text, bytes}
use akira_mcp.Auth.ConnectKey.{
  connect_key_len, letter, accepted, draw_letters, generate_connect_key, InAlphabet,
  generate_connect_key_letters,
}

abbrev stream : List ℕ
stream = 255 ∷ 0 ∷ 1 ∷ 2 ∷ 3 ∷ 248 ∷ 31 ∷ 32 ∷ 33 ∷ 247 ∷ 8 ∷ 9 ∷ 10 ∷ []

drawn : generate_connect_key stream ≡ some (bytes "2345234zab")
unfolding draw_letters
drawn = refl

generate_connect_key_letters_example :
    (key : Text) × (generate_connect_key stream ≡ some key)
    × (length key ≡ connect_key_len)
    × All InAlphabet key
    × (key ≡ map letter (take connect_key_len (accepted stream)))
generate_connect_key_letters_example = generate_connect_key_letters stream (omega arith)
