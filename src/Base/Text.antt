-- ===== src/Base/Text.antt =====
-- Go strings: lists of bytes.
use Prim.Native.Char.{code}
use Prim.Native.Nat.{ℕ, ◌+◌}
use Prim.Native.String.{String}
use mathlib.Core.List.{List, [], map, reverse, ◌∷◌, ◌++◌}
use mathlib.Core.Path.{◌≡◌, refl}
use mathlib.Core.Bool.{Bool, true, false, ◌&&◌, ◌||◌}
use native.Mathlib.Omega.{arith}
use akira_mcp.Base.Tests.{leb, if◌then◌else◌}
use akira_mcp.Base.Equality.{◌==◌, nat_eq, list_eq}

abbrev pub Text : Type 0
Text = List ℕ

-- The bytes of an ASCII literal.
abbrev pub bytes : String → Text
bytes String.[] = []
bytes (String.◌∷◌ c s) = code c ∷ bytes s

-- strings.HasPrefix
unfoldable pub has_prefix : Text → Text → Bool
has_prefix s [] = true
has_prefix [] (p ∷ ps) = false
has_prefix (c ∷ s) (p ∷ ps) = c == p && has_prefix s ps

cut_prefix : Text → Text → Text
cut_prefix s [] = s
cut_prefix [] (p ∷ ps) = []
cut_prefix (c ∷ s) (p ∷ ps) = cut_prefix s ps

-- strings.TrimPrefix
unfoldable pub trim_prefix : Text → Text → Text
unfolding cut_prefix
trim_prefix s p = if has_prefix s p then cut_prefix s p else s

-- strings.Contains(s, string(b)) for one byte b
unfoldable pub contains_byte : ℕ → Text → Bool
contains_byte b [] = false
contains_byte b (c ∷ s) = c == b || contains_byte b s

-- unicode.IsSpace on ASCII bytes
abbrev is_space : ℕ → Bool
is_space c = c == b' ' || leb 9 c && leb c 13

drop_spaces : Text → Text
drop_spaces [] = []
drop_spaces (c ∷ s) = if is_space c then drop_spaces s else c ∷ s

-- strings.TrimSpace on ASCII text
unfoldable pub trim_space : Text → Text
unfolding drop_spaces
trim_space s = reverse (drop_spaces (reverse (drop_spaces s)))

-- strings.ToLower on ASCII text
unfoldable pub to_lower : Text → Text
to_lower s = map (λ c. if leb b'A' c && leb c b'Z' then c + 32 else c) s

pub has_prefix-append : (p s : Text) → has_prefix (p ++ s) p ≡ true
unfolding has_prefix
has_prefix-append [] s = refl
has_prefix-append (c ∷ p) s = ground (arith, has_prefix-append p s)

cut_prefix-append : (p s : Text) → cut_prefix (p ++ s) p ≡ s
unfolding cut_prefix
cut_prefix-append [] s = refl
cut_prefix-append (c ∷ p) s = cut_prefix-append p s

pub trim_prefix-append : (p s : Text) → trim_prefix (p ++ s) p ≡ s
unfolding trim_prefix
trim_prefix-append p s = ground (arith, has_prefix-append p s, cut_prefix-append p s)

-- A text that ends its first field at `b` has the prefix of another such field only if the fields
-- are the same.
pub has_prefix-field :
    (b : ℕ) (u v s : Text)
    → contains_byte b u ≡ false
    → contains_byte b v ≡ false
    → has_prefix (u ++ b ∷ s) (v ++ b ∷ []) ≡ true
    → u ≡ v
unfolding has_prefix contains_byte
has_prefix-field b [] [] s hu hv h = refl
has_prefix-field b [] (c ∷ v) s hu hv h = ground arith
has_prefix-field b (d ∷ u) [] s hu hv h = ground arith
has_prefix-field b (d ∷ u) (c ∷ v) s hu hv h = ground (arith, has_prefix-field b u v s)
