-- ===== src/Client/Executor/Braces.antt =====
-- expandBraces, closingBrace, braceAlts and braceRange of internal/akira-client/executor/executor.go.
-- An int64 is the natural number that is 2^63 more. The loop over the pattern's bytes is a recursion
-- that puts each byte before the variants of the rest; each call of it spends one unit of fuel.
use akira_mcp.Base.{
  ℕ, zero, suc, ◌+◌, ◌-◌, ◌*◌, ◌/◌, ◌%◌, Bool, true, false, ◌&&◌, ◌||◌, List, [], ◌∷◌, ◌++◌, map,
  reverse, Option, none, some, ◌==◌, list_eq, nat_eq, if◌then◌else◌, ltb, leb, length,
}
use akira_mcp.Base.Text.{Text}
use akira_mcp.Client.Executor.Glob.{onto_first}

-- maxGlobPatterns
abbrev pub max_glob_patterns : ℕ
max_glob_patterns = 1000

-- What an expansion gives: its variants, errTooManyGlobPatterns, a run that panics or does not end,
-- or none of them, for want of fuel.
pub data Expansion : Type 0 where
  variants : List Text → Expansion
  too_many crashes out_of_fuel : Expansion

-- What braceAlts gives: alternatives, nil, errTooManyGlobPatterns, or a run that panics or does not
-- end.
pub data Alts : Type 0 where
  alts : List Text → Alts
  literal too_wide crashing : Alts

abbrev pub put_first : ℕ → Option (Text × Text) → Option (Text × Text)
put_first c none = none
put_first c (some (inner, rest)) = some (c ∷ inner, rest)

-- closingBrace, from the byte after the brace: the text inside the group, and the text after it.
-- `depth` counts the open braces, and `escaped` says that the byte before was a backslash.
unfoldable pub close_brace : ℕ → Bool → Text → Option (Text × Text)
close_brace depth escaped [] = none
close_brace depth true (c ∷ s) = put_first c (close_brace depth false s)
close_brace depth false (c ∷ s) =
    let after_escape = close_brace depth true s in
    let deeper = close_brace (suc depth) false s in
    let higher = close_brace (depth - 1) false s in
    let along = close_brace depth false s in
    if c == b'\\'
    then put_first c after_escape
    else if c == b'{'
    then put_first c deeper
    else if c == b'}'
    then (if leb depth 1 then some ([], s) else put_first c higher)
    else put_first c along

-- The loop of braceAlts: the parts between the commas that stand in no inner group. The depth is an
-- int that a stray brace may make negative; it is 0 where `up` and `down` agree.
unfoldable pub split_commas : ℕ → ℕ → Bool → Text → List Text
split_commas up down escaped [] = [] ∷ []
split_commas up down true (c ∷ s) = onto_first c (split_commas up down false s)
split_commas up down false (c ∷ s) =
    let after_escape = split_commas up down true s in
    let deeper = split_commas (suc up) down false s in
    let higher = split_commas up (suc down) false s in
    let along = split_commas up down false s in
    if c == b'\\'
    then onto_first c after_escape
    else if c == b'{'
    then onto_first c deeper
    else if c == b'}'
    then onto_first c higher
    else if c == b',' && up == down
    then [] ∷ along
    else onto_first c along

-- strings.Cut(s, "..")
unfoldable pub cut_dots : Text → Option (Text × Text)
cut_dots [] = none
cut_dots (c ∷ []) = none
cut_dots (c ∷ d ∷ s) =
    let later = cut_dots (d ∷ s) in
    if c == b'.' && d == b'.' then some ([], s) else put_first c later

-- 2^63, which stands for 0
abbrev pub middle : ℕ
middle = 9223372036854775808

-- The value of a text of decimal digits, after the digits that were read before.
unfoldable pub read_digits : ℕ → Text → Option ℕ
read_digits n [] = some n
read_digits n (c ∷ s) =
    let more = read_digits (n * 10 + (c - b'0')) s in
    if leb b'0' c && leb c b'9' then more else none

abbrev pub in_range : Bool → Option ℕ → Option ℕ
in_range negative none = none
in_range true (some n) = if leb n middle then some (middle - n) else none
in_range false (some n) = if ltb n middle then some (middle + n) else none

-- Digits after a sign; there is one at least.
abbrev pub read_signed : Bool → Text → Option ℕ
read_signed negative [] = none
read_signed negative (c ∷ s) = in_range negative (read_digits 0 (c ∷ s))

-- strconv.Atoi
unfoldable pub atoi : Text → Option ℕ
unfolding read_digits
atoi [] = none
atoi (c ∷ s) =
    if c == b'-'
    then read_signed true s
    else if c == b'+'
    then read_signed false s
    else read_signed false (c ∷ s)

-- The decimal digits of a number below 10^places, the last first.
unfoldable pub digits_of : ℕ → ℕ → Text
digits_of zero n = []
digits_of (suc places) n =
    let more = digits_of places (n / 10) in
    if ltb n 10 then (b'0' + n) ∷ [] else (b'0' + n % 10) ∷ more

-- strconv.Itoa; an int64 has 19 digits at most.
unfoldable pub itoa : ℕ → Text
unfolding digits_of
itoa n =
    if ltb n middle
    then b'-' ∷ reverse (digits_of 19 (middle - n))
    else reverse (digits_of 19 (n - middle))

-- string(rune(n)) for a byte
abbrev pub rune_text : ℕ → Text
rune_text n = if ltb n 128 then n ∷ [] else (192 + n / 64) ∷ (128 + n % 64) ∷ []

abbrev pub count_up : ℕ → ℕ → List ℕ
count_up start zero = []
count_up start (suc count) = start ∷ count_up (suc start) count

-- braceRange from its bounds on, for the numbers of int64 `from` ≤ `to`. to-from+1 wraps around: where
-- it is negative, make panics. Where `to` is the greatest int64, n++ wraps around and the loop does
-- not end.
unfoldable pub range_alts : (ℕ → Text) → Bool → ℕ → ℕ → Alts
range_alts show asc from to =
    let width = (to - from + 1) % (2 * middle) in
    let texts = map show (count_up from (to - from + 1)) in
    if ltb max_glob_patterns width && ltb width middle
    then too_wide
    else if leb middle width || to == 2 * middle - 1
    then crashing
    else alts (if asc then texts else reverse texts)

abbrev pub ordered : (ℕ → Text) → ℕ → ℕ → Alts
ordered show lo hi = if leb lo hi then range_alts show true lo hi else range_alts show false hi lo

-- The bounds of braceRange: two numbers.
unfoldable pub number_alts : Text → Text → Alts
unfolding range_alts itoa atoi
number_alts lo hi = elim (atoi lo) [
  | none ↦ literal
  | some from ↦ elim (atoi hi) [ none ↦ literal | some to ↦ ordered itoa from to ]
]

-- The bounds of braceRange: two bytes or two numbers.
unfoldable pub bounds_alts : Text → Text → Alts
unfolding range_alts number_alts
bounds_alts (lo ∷ []) (hi ∷ []) = ordered (λ n. rune_text (n - middle)) (middle + lo) (middle + hi)
bounds_alts lo hi = number_alts lo hi

-- braceRange
unfoldable pub brace_range : Text → Alts
unfolding cut_dots bounds_alts
brace_range inner = elim (cut_dots inner) [ none ↦ literal | some (lo, hi) ↦ bounds_alts lo hi ]

-- braceAlts
unfoldable pub brace_alts : Text → Alts
unfolding split_commas brace_range
brace_alts inner =
    let parts = split_commas 0 0 false inner in
    if ltb 1 (length parts) then alts parts else brace_range inner

abbrev pub prefix : Text → Expansion → Expansion
prefix before (variants texts) = variants (map (λ t. before ++ t) texts)
prefix before too_many = too_many
prefix before crashes = crashes
prefix before out_of_fuel = out_of_fuel

abbrev pub join_variants : Expansion → Expansion → Expansion
join_variants (variants xs) (variants ys) = variants (xs ++ ys)
join_variants (variants xs) e = e
join_variants e _ = e

-- The loop over the alternatives: it ends at the first that fails.
unfoldable pub collect : (Text → Expansion) → Text → List Text → Expansion
collect expand rest [] = variants []
collect expand rest (alt ∷ others) =
    join_variants (expand (alt ++ rest)) (collect expand rest others)

abbrev pub check_limit : Expansion → Expansion
check_limit (variants texts) =
    if ltb max_glob_patterns (length texts) then too_many else variants texts
check_limit e = e

-- expandBraces
unfoldable pub expand_braces : ℕ → Text → Expansion
unfolding close_brace brace_alts collect
expand_braces zero s = out_of_fuel
expand_braces (suc fuel) [] = variants ([] ∷ [])
expand_braces (suc fuel) (c ∷ s) =
    let along = prefix (c ∷ []) (expand_braces fuel s) in
    let escape : Expansion = elim s [
      | [] ↦ variants ((c ∷ []) ∷ [])
      | d ∷ rest ↦ prefix (c ∷ d ∷ []) (expand_braces fuel rest)
    ] in
    if c == b'\\'
    then escape
    else if c == b'{'
    then elim (close_brace 1 false s) [
      | none ↦ along
      | some (inner, rest) ↦ elim (brace_alts inner) [
        | alts texts ↦ check_limit (collect (expand_braces fuel) rest texts)
        | literal ↦ along
        | too_wide ↦ too_many
        | crashing ↦ crashes
      ]
    ]
    else along
