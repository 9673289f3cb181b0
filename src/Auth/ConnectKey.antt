-- ===== src/Auth/ConnectKey.antt =====
-- GenerateConnectKey of internal/auth/store/store.go. The bytes that rand.Read gives are an argument;
-- where they do not suffice, which stands for a failed Read, there is no key.
use akira_mcp.Base.{
  ℕ, zero, suc, ◌*◌, ◌+◌, ◌%◌, ◌≤◌, ◌<◌, ◌≡◌, true, List, [], ◌∷◌, map, All, take, length, Option,
  none, some, if◌then◌else◌, ltb, Bool-cases, inl, inr, length-take_short, ◌/◌, ◌↔◌, nat_eq, arith,
  refl,
}
use akira_mcp.Base.Text.{Text, bytes, contains_byte}

-- ConnectKeyLen
abbrev pub connect_key_len : ℕ
connect_key_len = 10

-- connectKeyAlphabet
abbrev pub connect_key_alphabet : Text
connect_key_alphabet = bytes "23456789abcdefghjkmnpqrstuvwxyz"

-- s[i]; the index is in range here.
abbrev pub byte_at : Text → ℕ → ℕ
byte_at [] i = 0
byte_at (c ∷ s) zero = c
byte_at (c ∷ s) (suc i) = byte_at s i

abbrev pub letter : ℕ → ℕ
letter b = byte_at connect_key_alphabet (b % 31)

abbrev pub put_letter : ℕ → Option Text → Option Text
put_letter b none = none
put_letter b (some key) = some (letter b ∷ key)

-- The loops of GenerateConnectKey, with `room` letters to go.
unfoldable pub draw_letters : ℕ → List ℕ → Option Text
draw_letters zero stream = some []
draw_letters (suc room) [] = none
draw_letters (suc room) (b ∷ stream) =
    let taken = put_letter b (draw_letters room stream) in
    let skipped = draw_letters (suc room) stream in if ltb b 248 then taken else skipped

-- GenerateConnectKey
abbrev pub generate_connect_key : List ℕ → Option Text
generate_connect_key stream = draw_letters connect_key_len stream

-- The bytes that are not skipped.
abbrev pub accepted : List ℕ → List ℕ
accepted [] = []
accepted (b ∷ stream) = let rest = accepted stream in if ltb b 248 then b ∷ rest else rest

contains-byte_at : (s : Text) (i : ℕ) → i < length s → contains_byte (byte_at s i) s ≡ true
unfolding contains_byte
contains-byte_at [] i h = ground (arith, h)
contains-byte_at (c ∷ s) zero h = ground arith
contains-byte_at (c ∷ s) (suc i) h = ground (arith, contains-byte_at s i (omega (arith, h)))

-- A letter of the alphabet.
abbrev pub InAlphabet : ℕ → Type 0
InAlphabet c = contains_byte c connect_key_alphabet ≡ true

letters-InAlphabet : (bs : List ℕ) → All InAlphabet (map letter bs)
letters-InAlphabet [] = tt
letters-InAlphabet (b ∷ bs) =
    (contains-byte_at connect_key_alphabet (b % 31) (omega arith), letters-InAlphabet bs)

length-letters : (bs : List ℕ) → length (map letter bs) ≡ length bs
length-letters [] = refl
length-letters (b ∷ bs) = omega (arith, length-letters bs)

draw_letters-accepted :
    (room : ℕ) (stream : List ℕ)
    → room ≤ length (accepted stream)
    → draw_letters room stream ≡ some (map letter (take room (accepted stream)))
unfolding draw_letters
draw_letters-accepted zero stream h = refl
draw_letters-accepted (suc room) [] h = ground (arith, h)
draw_letters-accepted (suc room) (b ∷ stream) h = elim (Bool-cases (ltb b 248)) [
  | inl e ↦
      let rest = draw_letters-accepted room stream (ground (arith, h, e)) in ground (arith, e, rest)
  | inr e ↦
      let rest = draw_letters-accepted (suc room) stream (ground (arith, h, e)) in
      ground (arith, e, rest)
]

-- Exactly eight of the bytes below 248 give the letter at an index.
letter_bytes :
    (i b : ℕ) → i < 31 → ((b < 248) × (b % 31 ≡ i)) ↔ ((k : ℕ) × (k < 8) × (b ≡ 31 * k + i))
letter_bytes i b h = (
  (λ p. (b / 31, omega (arith, p.0, p.1), omega (arith, p.0, p.1))),
  (λ p. (omega (arith, p.1, p.2, h), omega (arith, p.1, p.2, h))),
)

-- Once the random bytes hold ten below 248, GenerateConnectKey returns a key: it has ten letters, all
-- of the alphabet, one for each of the first ten such bytes.
pub generate_connect_key_letters :
    (stream : List ℕ)
    → connect_key_len ≤ length (accepted stream)
    → (key : Text) × (generate_connect_key stream ≡ some key)
      × (length key ≡ connect_key_len)
      × All InAlphabet key
      × (key ≡ map letter (take connect_key_len (accepted stream)))
generate_connect_key_letters stream h =
    let bs = take connect_key_len (accepted stream) in
    (
      map letter bs,
      draw_letters-accepted connect_key_len stream h,
      omega (arith, length-letters bs, length-take_short connect_key_len (accepted stream) h),
      letters-InAlphabet bs,
      refl,
    )
