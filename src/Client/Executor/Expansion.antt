-- ===== src/Client/Executor/Expansion.antt =====
-- expandBraces of internal/akira-client/executor/executor.go ends, for its patterns get shorter, and
-- gives no more than maxGlobPatterns variants.
use mathlib.Core.List.{reverse_aux}
use akira_mcp.Base.{
  ℕ, zero, suc, ◌+◌, ◌-◌, ◌≤◌, ◌<◌, ◌≡◌, ◌⊎◌, inl, inr, Bool, true, false, List, [], ◌∷◌, ◌++◌, map,
  reverse, All, Option, none, some, Option-cases, List-cases, Bool-cases, ◌==◌, list_eq, nat_eq,
  leb, length, length-append, arith, refl, subst,
}
use akira_mcp.Base.Text.{Text}
use akira_mcp.Client.Executor.Glob.{onto_first}
use akira_mcp.Client.Executor.Braces.{
  Expansion, variants, too_many, crashes, out_of_fuel, Alts, alts, literal, too_wide, crashing,
  max_glob_patterns, middle, put_first, close_brace, split_commas, cut_dots, atoi, itoa, rune_text,
  count_up, range_alts, ordered, number_alts, bounds_alts, brace_range, brace_alts, prefix, collect,
  check_limit, expand_braces,
}
use akira_mcp.Client.Executor.Numerals.{itoa_between}

-- At most that long.
abbrev Short : ℕ → Text → Type 0
Short k t = length t ≤ k

AltsShort : ℕ → Alts → Type 0
AltsShort k (alts texts) = All (Short k) texts
AltsShort k _ = Unit

weaken : (k m : ℕ) (ts : List Text) → k ≤ m → All (Short k) ts → All (Short m) ts
weaken k m [] h a = tt
weaken k m (t ∷ ts) h a = (omega (arith, h, a.0), weaken k m ts h a.1)

-- A group and what follows it are shorter than the pattern by the closing brace.
GroupShort : ℕ → Option (Text × Text) → Type 0
GroupShort k none = Unit
GroupShort k (some (inner, rest)) = suc (length inner + length rest) ≤ k

put_first-Short :
    (c k : ℕ) (o : Option (Text × Text)) → GroupShort k o → GroupShort (suc k) (put_first c o)
unfolding GroupShort
put_first-Short c k none h = tt
put_first-Short c k (some (inner, rest)) h = omega (arith, h)

close_brace-Short :
    (s : Text) (depth : ℕ) (escaped : Bool) → GroupShort (length s) (close_brace depth escaped s)
unfolding close_brace GroupShort
close_brace-Short [] depth escaped = tt
close_brace-Short (c ∷ s) depth true =
    put_first-Short c (length s) (close_brace depth false s) (close_brace-Short s depth false)
close_brace-Short (c ∷ s) depth false =
    let short = put_first-Short c (length s) in
    let after_escape = short (close_brace depth true s) (close_brace-Short s depth true) in
    let deeper = short (close_brace (suc depth) false s) (close_brace-Short s (suc depth) false) in
    let higher = short (close_brace (depth - 1) false s) (close_brace-Short s (depth - 1) false) in
    let along = short (close_brace depth false s) (close_brace-Short s depth false) in
    ground (arith, after_escape, deeper, higher, along)

onto_first-Short :
    (c k : ℕ) (ts : List Text) → All (Short k) ts → All (Short (suc k)) (onto_first c ts)
onto_first-Short c k [] h = (omega arith, tt)
onto_first-Short c k (t ∷ ts) h = (omega (arith, h.0), weaken k (suc k) ts (omega arith) h.1)

split_commas-Short :
    (s : Text) (up down : ℕ) (escaped : Bool)
    → All (Short (length s)) (split_commas up down escaped s)
unfolding split_commas
split_commas-Short [] up down escaped = (omega arith, tt)
split_commas-Short (c ∷ s) up down true =
    onto_first-Short c (length s) (split_commas up down false s)
      (split_commas-Short s up down false)
split_commas-Short (c ∷ s) up down false =
    let short = onto_first-Short c (length s) in
    let after_escape = short (split_commas up down true s) (split_commas-Short s up down true) in
    let deeper =
      short (split_commas (suc up) down false s) (split_commas-Short s (suc up) down false) in
    let higher =
      short (split_commas up (suc down) false s) (split_commas-Short s up (suc down) false) in
    let rest = split_commas-Short s up down false in
    let along = short (split_commas up down false s) rest in
    let cut =
      weaken (length s) (suc (length s)) (split_commas up down false s) (omega arith) rest in
    ground (arith, after_escape, deeper, higher, along, cut)

length-cut_dots :
    (s lo hi : Text) → cut_dots s ≡ some (lo, hi) → suc (suc (length lo + length hi)) ≤ length s
unfolding cut_dots
length-cut_dots [] lo hi e = ground (arith, e)
length-cut_dots (c ∷ []) lo hi e = ground (arith, e)
length-cut_dots (c ∷ d ∷ s) lo hi e = elim (Option-cases (cut_dots (d ∷ s))) [
  | inl f ↦ ground (arith, e, f)
  | inr ((lo', hi'), f) ↦ ground (arith, e, f, length-cut_dots (d ∷ s) lo' hi' f)
]

All-map :
    (P : ℕ → Type 0) (Q : Text → Type 0) (f : ℕ → Text)
    → ((x : ℕ) → P x → Q (f x))
    → (xs : List ℕ) → All P xs
    → All Q (map f xs)
All-map P Q f h [] a = tt
All-map P Q f h (x ∷ xs) a = (h x a.0, All-map P Q f h xs a.1)

All-reverse_aux :
    (Q : Text → Type 0) (xs ys : List Text) → All Q xs → All Q ys → All Q (reverse_aux xs ys)
All-reverse_aux Q [] ys a b = b
All-reverse_aux Q (x ∷ xs) ys a b = All-reverse_aux Q xs (x ∷ ys) a.1 (a.0, b)

-- The numbers of a range lie in it.
count_up-Between :
    (lo start count : ℕ)
    → lo ≤ start
    → All (λ x. (lo ≤ x) × (x < start + count)) (count_up start count)
count_up-Between lo start zero h = tt
count_up-Between lo start (suc count) h =
    let same : suc start + count ≡ start + suc count = omega arith in
    (
      (h, omega arith),
      subst (λ end. All (λ x. (lo ≤ x) × (x < end)) (count_up (suc start) count)) same
          (count_up-Between lo (suc start) count (omega (arith, h))),
    )

-- A range of texts that are short where their numbers lie between the bounds.
range_alts-Short :
    (show : ℕ → Text) (asc : Bool) (k lo hi : ℕ)
    → lo ≤ hi
    → ((x : ℕ) → lo ≤ x → x ≤ hi → length (show x) ≤ k)
    → AltsShort k (range_alts show asc lo hi)
unfolding range_alts AltsShort
range_alts-Short show asc k lo hi h short =
    let numbers = count_up lo (hi - lo + 1) in
    let texts : All (Short k) (map show numbers) =
      All-map (λ x. (lo ≤ x) × (x < lo + (hi - lo + 1))) (Short k) show
        (λ x b. short x b.0 (omega (arith, b.1, h))) numbers
        (count_up-Between lo lo (hi - lo + 1) (omega arith)) in
    let reversed : All (Short k) (reverse (map show numbers)) =
      All-reverse_aux (Short k) (map show numbers) [] texts tt in
    ground (arith, texts, reversed)

-- Between two bounds, in either order.
ordered-Short :
    (show : ℕ → Text) (k lo hi : ℕ)
    → ((x : ℕ) → ((lo ≤ x) × (x ≤ hi)) ⊎ ((hi ≤ x) × (x ≤ lo)) → length (show x) ≤ k)
    → AltsShort k (ordered show lo hi)
unfolding AltsShort
ordered-Short show k lo hi short = elim (Bool-cases (leb lo hi)) [
  | inl e ↦
      rw e (range_alts-Short show true k lo hi (ground (arith, e)) (λ x p q. short x (inl (p, q))))
  | inr e ↦
      rw e (range_alts-Short show false k hi lo (ground (arith, e)) (λ x p q. short x (inr (p, q))))
]

number_alts-Short :
    (lo hi : Text) (k : ℕ) → length lo + length hi ≤ k → AltsShort k (number_alts lo hi)
unfolding number_alts AltsShort
number_alts-Short lo hi k h = elim (Option-cases (atoi lo)) [
  | inl e ↦ rw (e, number_alts) tt
  | inr (a, e) ↦ elim (Option-cases (atoi hi)) [
    | inl f ↦ rw (e, f, number_alts) tt
    | inr (b, f) ↦
        rw (e, f, number_alts)
          (ordered-Short itoa k a b (λ x between.
            itoa_between lo hi k a b x (omega (arith, h)) (omega (arith, h)) e f between))
  ]
]

bounds_alts-Short :
    (lo hi : Text) (k : ℕ) → suc (suc (length lo + length hi)) ≤ k → AltsShort k (bounds_alts lo hi)
unfolding bounds_alts AltsShort
bounds_alts-Short [] hi k h = number_alts-Short [] hi k (omega (arith, h))
bounds_alts-Short (a ∷ []) [] k h = number_alts-Short (a ∷ []) [] k (omega (arith, h))
bounds_alts-Short (a ∷ []) (b ∷ []) k h =
    ordered-Short (λ n. rune_text (n - middle)) k (middle + a) (middle + b)
      (λ x between. ground (arith, h))
bounds_alts-Short (a ∷ []) (b ∷ b' ∷ hi) k h =
    number_alts-Short (a ∷ []) (b ∷ b' ∷ hi) k (omega (arith, h))
bounds_alts-Short (a ∷ a' ∷ lo) hi k h = number_alts-Short (a ∷ a' ∷ lo) hi k (omega (arith, h))

brace_alts-Short : (inner : Text) → AltsShort (length inner) (brace_alts inner)
unfolding brace_alts brace_range AltsShort
brace_alts-Short inner = elim (Option-cases (cut_dots inner)) [
  | inl e ↦ ground (arith, e, split_commas-Short inner 0 0 false)
  | inr ((lo, hi), e) ↦ ground (
    arith,
    e,
    split_commas-Short inner 0 0 false,
    bounds_alts-Short lo hi (length inner) (length-cut_dots inner lo hi e),
  )
]

-- The run gave something: variants, an error, or a crash.
abbrev pub Ends : Expansion → Type 0
Ends out_of_fuel = ⊥
Ends _ = Unit

prefix-Ends : (t : Text) (e : Expansion) → Ends e → Ends (prefix t e)
prefix-Ends t e h = ground (arith, h)

collect-Ends :
    (expand : Text → Expansion) (rest : Text) (k : ℕ) (texts : List Text)
    → ((t : Text) → length t ≤ k + length rest → Ends (expand t))
    → All (Short k) texts
    → Ends (collect expand rest texts)
unfolding collect
collect-Ends expand rest k [] ends a = tt
collect-Ends expand rest k (t ∷ ts) ends a = ground (
  arith,
  ends (t ++ rest) (omega (arith, length-append t rest, a.0)),
  collect-Ends expand rest k ts ends a.1,
)

check_limit-Ends : (e : Expansion) → Ends e → Ends (check_limit e)
check_limit-Ends e h = ground (arith, h)

Alts-cases :
    (a : Alts)
    → ((ts : List Text) × (a ≡ alts ts)) ⊎ ((a ≡ literal) ⊎ ((a ≡ too_wide) ⊎ (a ≡ crashing)))
Alts-cases (alts ts) = inl (ts, refl)
Alts-cases literal = inr (inl refl)
Alts-cases too_wide = inr (inr (inl refl))
Alts-cases crashing = inr (inr (inr refl))

-- What every outcome of one step satisfies, the step satisfies.
expand_step :
    (P : Expansion → Type 0) (fuel c : ℕ) (s : Text)
    → P (prefix (c ∷ []) (expand_braces fuel s))
    → P (variants ((c ∷ []) ∷ []))
    → ((d : ℕ) (rest : Text) → s ≡ d ∷ rest → P (prefix (c ∷ d ∷ []) (expand_braces fuel rest)))
    → ((inner rest : Text) (ts : List Text)
        → close_brace 1 false s ≡ some (inner, rest)
        → brace_alts inner ≡ alts ts
        → P (check_limit (collect (expand_braces fuel) rest ts)))
    → P too_many
    → P crashes
    → P (expand_braces (suc fuel) (c ∷ s))
unfolding expand_braces
expand_step P fuel c s along last escape group many crash = elim (Bool-cases (c == b'\\')) [
  | inl e ↦ elim (List-cases s) [
    | inl f ↦ rw (e, f, expand_braces) last
    | inr (d, rest, f) ↦ rw (e, f, expand_braces) (escape d rest f)
  ]
  | inr e ↦ elim (Bool-cases (c == b'{')) [
    | inr f ↦ rw (e, f, expand_braces) along
    | inl f ↦ elim (Option-cases (close_brace 1 false s)) [
      | inl g ↦ rw (e, f, g, expand_braces) along
      | inr ((inner, rest), g) ↦ elim (Alts-cases (brace_alts inner)) [
        | inl (ts, k) ↦ rw (e, f, g, k, expand_braces) (group inner rest ts g k)
        | inr (inl k) ↦ rw (e, f, g, k, expand_braces) along
        | inr (inr (inl k)) ↦ rw (e, f, g, k, expand_braces) many
        | inr (inr (inr k)) ↦ rw (e, f, g, k, expand_braces) crash
      ]
    ]
  ]
]

-- One unit of fuel for each byte of the pattern, and one more, is enough for expandBraces: it comes
-- to an end with variants, with its error, or at a range whose run panics or does not end.
pub expand_braces-Ends : (fuel : ℕ) (s : Text) → length s < fuel → Ends (expand_braces fuel s)
unfolding expand_braces AltsShort GroupShort
expand_braces-Ends zero s h = ground (arith, h)
expand_braces-Ends (suc fuel) [] h = tt
expand_braces-Ends (suc fuel) (c ∷ s) h =
    expand_step Ends fuel c s
      (prefix-Ends (c ∷ []) (expand_braces fuel s) (expand_braces-Ends fuel s (omega (arith, h))))
      tt
      (λ d rest e.
        prefix-Ends (c ∷ d ∷ []) (expand_braces fuel rest)
          (expand_braces-Ends fuel rest (ground (arith, h, e))))
      (λ inner rest ts e f.
        let group : suc (length inner + length rest) ≤ length s =
          subst (GroupShort (length s)) e (close_brace-Short s 1 false) in
        check_limit-Ends (collect (expand_braces fuel) rest ts) (
          collect-Ends (expand_braces fuel) rest (length inner) ts
            (λ t l. expand_braces-Ends fuel t (omega (arith, h, group, l)))
            (subst (AltsShort (length inner)) f (brace_alts-Short inner))))
      tt tt

-- No more variants than maxGlobPatterns.
abbrev pub Limited : Expansion → Type 0
Limited (variants texts) = length texts ≤ max_glob_patterns
Limited _ = Unit

pub length-map : (f : Text → Text) (ts : List Text) → length (map f ts) ≡ length ts
length-map f [] = refl
length-map f (t ∷ ts) = omega (arith, length-map f ts)

prefix-Limited : (t : Text) (e : Expansion) → Limited e → Limited (prefix t e)
prefix-Limited t (variants ts) h = omega (arith, h, length-map (λ u. t ++ u) ts)
prefix-Limited t too_many h = tt
prefix-Limited t crashes h = tt
prefix-Limited t out_of_fuel h = tt

check_limit-Limited : (e : Expansion) → Limited (check_limit e)
check_limit-Limited e = ground arith

-- Where expandBraces gives variants, it gives no more than maxGlobPatterns of them.
pub expand_braces-Limited : (fuel : ℕ) (s : Text) → Limited (expand_braces fuel s)
unfolding expand_braces
expand_braces-Limited zero s = tt
expand_braces-Limited (suc fuel) [] = omega arith
expand_braces-Limited (suc fuel) (c ∷ s) =
    expand_step Limited fuel c s
      (prefix-Limited (c ∷ []) (expand_braces fuel s) (expand_braces-Limited fuel s)) (omega arith)
      (λ d rest e.
        prefix-Limited (c ∷ d ∷ []) (expand_braces fuel rest) (expand_braces-Limited fuel rest))
      (λ inner rest ts e f. check_limit-Limited (collect (expand_braces fuel) rest ts)) tt tt
