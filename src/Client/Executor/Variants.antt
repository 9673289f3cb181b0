-- ===== src/Client/Executor/Variants.antt =====
-- What expandBraces of internal/akira-client/executor/executor.go gives: on words in a group, and on a
-- range of numbers.
use akira_mcp.Base.{
  ℕ, zero, suc, ◌+◌, ◌-◌, ◌*◌, ◌%◌, ◌≤◌, ◌<◌, ◌≡◌, ◌≢◌, ◌⊎◌, inl, inr, Bool, true, false, List, [],
  ◌∷◌, ◌++◌, ◌&&◌, map, All, some, ◌==◌, list_eq, nat_eq, ltb, leb, length, length-append,
  append_assoc, append-nil, arith, refl, ap, sym, ◌∙◌, Bool-cases, Option-cases,
}
use akira_mcp.Base.Text.{Text}
use akira_mcp.Client.Executor.Braces.{
  variants, Alts, alts, too_wide, crashing, max_glob_patterns, middle, close_brace, split_commas,
  brace_alts, read_digits, read_signed, atoi, itoa, count_up, range_alts, number_alts, collect,
  expand_braces,
}
use akira_mcp.Client.Executor.Expansion.{length-map}

-- A byte that no group and no escape is made of.
abbrev pub Ordinary : ℕ → Type 0
Ordinary c = (c ≢ b'\\') × ((c ≢ b'{') × ((c ≢ b'}') × (c ≢ b',')))

abbrev pub Plain : Text → Type 0
Plain t = All Ordinary t

expand-Plain :
    (fuel : ℕ) (s : Text) → Plain s → length s < fuel → expand_braces fuel s ≡ variants (s ∷ [])
unfolding expand_braces
expand-Plain zero s plain h = ground (arith, h)
expand-Plain (suc fuel) [] plain h = refl
expand-Plain (suc fuel) (c ∷ s) plain h =
    ground (arith, plain.0, expand-Plain fuel s plain.1 (omega (arith, h)))

-- {w1,w2,...}, without the braces
abbrev pub join : List Text → Text
join [] = []
join (w ∷ []) = w
join (w ∷ v ∷ ws) = w ++ b',' ∷ join (v ∷ ws)

-- A group of plain words ends at its brace.
close_brace-Plain :
    (w s : Text) (inner rest : Text)
    → Plain w
    → close_brace 1 false s ≡ some (inner, rest)
    → close_brace 1 false (w ++ s) ≡ some (w ++ inner, rest)
unfolding close_brace
close_brace-Plain [] s inner rest plain h = h
close_brace-Plain (c ∷ w) s inner rest plain h =
    ground (arith, plain.0, close_brace-Plain w s inner rest plain.1 h)

close_brace-join :
    (ws : List Text) (q : Text)
    → All Plain ws
    → close_brace 1 false (join ws ++ b'}' ∷ q) ≡ some (join ws, q)
unfolding close_brace
close_brace-join [] q plain = ground arith
close_brace-join (w ∷ []) q plain =
    close_brace-Plain w (b'}' ∷ q) [] q plain.0 (ground arith)
    ∙ ap (λ t. some (t, q)) (append-nil w)
close_brace-join (w ∷ v ∷ ws) q plain =
    let rest = join (v ∷ ws) in
    let inner : close_brace 1 false (b',' ∷ rest ++ b'}' ∷ q) ≡ some (b',' ∷ rest, q) =
      ground (arith, close_brace-join (v ∷ ws) q plain.1) in
    ap (λ t. close_brace 1 false t) (append_assoc w (b',' ∷ rest) (b'}' ∷ q))
    ∙ close_brace-Plain w (b',' ∷ rest ++ b'}' ∷ q) (b',' ∷ rest) q plain.0 inner

split_commas-Plain :
    (w s : Text) (t : Text) (ts : List Text)
    → Plain w
    → split_commas 0 0 false s ≡ t ∷ ts
    → split_commas 0 0 false (w ++ s) ≡ (w ++ t) ∷ ts
unfolding split_commas
split_commas-Plain [] s t ts plain h = h
split_commas-Plain (c ∷ w) s t ts plain h =
    ground (arith, plain.0, split_commas-Plain w s t ts plain.1 h)

split_commas-join :
    (w : Text) (ws : List Text)
    → All Plain (w ∷ ws)
    → split_commas 0 0 false (join (w ∷ ws)) ≡ w ∷ ws
unfolding split_commas
split_commas-join w [] plain =
    ap (λ t. split_commas 0 0 false t) (sym (append-nil w))
    ∙ (split_commas-Plain w [] [] [] plain.0 refl ∙ ap (λ t. t ∷ []) (append-nil w))
split_commas-join w (v ∷ ws) plain =
    let rest : split_commas 0 0 false (b',' ∷ join (v ∷ ws)) ≡ [] ∷ v ∷ ws =
      ground (arith, split_commas-join v ws plain.1) in
    split_commas-Plain w (b',' ∷ join (v ∷ ws)) [] (v ∷ ws) plain.0 rest
    ∙ ap (λ t. t ∷ v ∷ ws) (append-nil w)

All-append : (s t : Text) → Plain s → Plain t → Plain (s ++ t)
All-append [] t a b = b
All-append (c ∷ s) t a b = (a.0, All-append s t a.1 b)

collect-Plain :
    (fuel : ℕ) (q : Text) (ws : List Text)
    → Plain q
    → All Plain ws
    → All (λ w. length w + length q < fuel) ws
    → collect (expand_braces fuel) q ws ≡ variants (map (λ w. w ++ q) ws)
unfolding collect
collect-Plain fuel q [] pq pw h = refl
collect-Plain fuel q (w ∷ ws) pq pw h = ground (
  arith,
  expand-Plain fuel (w ++ q) (All-append w q pw.0 pq) (omega (arith, length-append w q, h.0)),
  collect-Plain fuel q ws pq pw.1 h.1,
)

-- Each word is no longer than their list.
length-join : (ws : List Text) (k m : ℕ) → length (join ws) + k < m → All (λ w. length w + k < m) ws
length-join [] k m h = tt
length-join (w ∷ []) k m h = (h, tt)
length-join (w ∷ v ∷ ws) k m h =
    let long = length-append w (b',' ∷ join (v ∷ ws)) in
    (omega (arith, h, long), length-join (v ∷ ws) k m (omega (arith, h, long)))

-- The group at the head of a pattern.
expand_group :
    (fuel : ℕ) (q w v : Text) (ws : List Text)
    → Plain q
    → All Plain (w ∷ v ∷ ws)
    → length (w ∷ v ∷ ws) ≤ max_glob_patterns
    → length (join (w ∷ v ∷ ws)) + length q < fuel
    → expand_braces (suc fuel) (b'{' ∷ join (w ∷ v ∷ ws) ++ b'}' ∷ q)
      ≡ variants (map (λ u. u ++ q) (w ∷ v ∷ ws))
unfolding expand_braces brace_alts
expand_group fuel q w v ws pq pw few h =
    let us = w ∷ v ∷ ws in
    ground (
      arith,
      close_brace-join us q pw,
      split_commas-join w (v ∷ ws) pw,
      collect-Plain fuel q us pq pw (length-join us (length q) fuel h),
      length-map (λ u. u ++ q) us,
      few,
    )

map-map :
    (f g h : Text → Text)
    → ((t : Text) → f (g t) ≡ h t)
    → (ts : List Text) → map f (map g ts) ≡ map h ts
map-map f g h e [] = refl
map-map f g h e (t ∷ ts) = ground (arith, e t, map-map f g h e ts)

-- A group of two to maxGlobPatterns words, with a text before it and one after it, all without
-- backslashes, braces and commas, expands to the words in their order, each between the two texts.
pub expand_words :
    (fuel : ℕ) (p q w v : Text) (ws : List Text)
    → Plain p
    → Plain q
    → All Plain (w ∷ v ∷ ws)
    → length (w ∷ v ∷ ws) ≤ max_glob_patterns
    → length (p ++ b'{' ∷ join (w ∷ v ∷ ws) ++ b'}' ∷ q) < fuel
    → expand_braces fuel (p ++ b'{' ∷ join (w ∷ v ∷ ws) ++ b'}' ∷ q)
      ≡ variants (map (λ u. p ++ u ++ q) (w ∷ v ∷ ws))
unfolding expand_braces
expand_words zero p q w v ws pp pq pw few h = ground (arith, h)
expand_words (suc fuel) [] q w v ws pp pq pw few h =
    expand_group fuel q w v ws pq pw few
      (omega (arith, h, length-append (join (w ∷ v ∷ ws)) (b'}' ∷ q)))
expand_words (suc fuel) (c ∷ p) q w v ws pp pq pw few h =
    let us = w ∷ v ∷ ws in
    let rest : expand_braces fuel (p ++ b'{' ∷ join us ++ b'}' ∷ q)
        ≡ variants (map (λ u. p ++ u ++ q) us) =
      expand_words fuel p q w v ws pp.1 pq pw few (omega (arith, h)) in
    ground (
      arith,
      pp.0,
      rest,
      map-map (λ t. c ∷ t) (λ u. p ++ u ++ q) (λ u. c ∷ (p ++ u ++ q)) (λ t. refl) us,
    )

-- The width as the source computes it: it wraps around for the whole of int64 alone, and is then 0.
width_cases :
    (n : ℕ)
    → n ≤ 2 * middle
    → ((n < 2 * middle) × (n % (2 * middle) ≡ n)) ⊎ ((n ≡ 2 * middle) × (n % (2 * middle) ≡ 0))
width_cases n h = elim (Bool-cases (ltb n (2 * middle))) [
  | inl e ↦ inl (ground (arith, e), ground (arith, e))
  | inr e ↦ inr (ground (arith, e, h), ground (arith, e, h))
]

read_signed_bound :
    (negative : Bool) (s : Text) (x : ℕ) → read_signed negative s ≡ some x → x < 2 * middle
read_signed_bound negative [] x e = ground arith
read_signed_bound true (c ∷ s) x e = elim (Option-cases (read_digits 0 (c ∷ s))) [
  | inl f ↦ ground (arith, e, f)
  | inr (n, f) ↦ ground (arith, e, f)
]
read_signed_bound false (c ∷ s) x e = elim (Option-cases (read_digits 0 (c ∷ s))) [
  | inl f ↦ ground (arith, e, f)
  | inr (n, f) ↦ ground (arith, e, f)
]

atoi_bound : (s : Text) (x : ℕ) → atoi s ≡ some x → x < 2 * middle
unfolding atoi
atoi_bound [] x e = ground arith
atoi_bound (c ∷ s) x e = ground (
  arith,
  e,
  read_signed_bound true s x,
  read_signed_bound false s x,
  read_signed_bound false (c ∷ s) x,
)

leb_le : (m n : ℕ) → leb m n ≡ true → m ≤ n
leb_le m n h = ground (arith, h)

leb_gt : (m n : ℕ) → leb m n ≡ false → n < m
leb_gt m n h = ground (arith, h)

-- What the range from `a` to `b` is, by its width.
abbrev pub RangeOutcome : ℕ → ℕ → Alts → Type 0
RangeOutcome a b outcome =
    let numbers = b - a + 1 in
    ((max_glob_patterns < numbers) × (numbers < middle) × (outcome ≡ too_wide))
    ⊎ ((((middle ≤ numbers) ⊎ ((numbers ≤ max_glob_patterns) × (suc b ≡ 2 * middle)))
          × (outcome ≡ crashing))
        ⊎ ((numbers ≤ max_glob_patterns)
            × (suc b < 2 * middle)
            × (outcome ≡ alts (map itoa (count_up a numbers)))))

narrow_outcome :
    (a b width : ℕ)
    → width ≡ b - a + 1
    → width ≤ max_glob_patterns
    → b < 2 * middle
    → (b - a + 1) % (2 * middle) ≡ width
    → RangeOutcome a b (range_alts itoa true a b)
unfolding range_alts
narrow_outcome a b width n few below w =
    let fits : (ltb max_glob_patterns width && ltb width middle) ≡ false = ground (arith, few) in
    let no_panic : leb middle width ≡ false = ground (arith, few) in
    elim (Bool-cases (b == 2 * middle - 1)) [
      | inl last ↦ inr (
          inl (
            inr (omega (arith, n, few), ground (arith, last)),
            rw (w, fits, no_panic, last, range_alts) refl,
          ))
      | inr last ↦ inr (
          inr (
            omega (arith, n, few),
            ground (arith, last, below),
            rw (w, fits, no_panic, last, range_alts) refl,
          ))
    ]

wide_outcome :
    (a b width : ℕ)
    → (max_glob_patterns < b - a + 1)
    → ((width ≡ b - a + 1) × (width < 2 * middle)) ⊎ ((width ≡ 0) × (b - a + 1 ≡ 2 * middle))
    → b < 2 * middle
    → (b - a + 1) % (2 * middle) ≡ width
    → RangeOutcome a b (range_alts itoa true a b)
unfolding range_alts
wide_outcome a b width many (inl (n, less)) below w = elim (Bool-cases (ltb width middle)) [
  | inl wide ↦
      let over : (ltb max_glob_patterns width && ltb width middle) ≡ true =
        ground (arith, many, n, wide) in
      inl (many, ground (arith, n, wide), rw (w, over, range_alts) refl)
  | inr wider ↦
      let over : (ltb max_glob_patterns width && ltb width middle) ≡ false =
        ground (arith, wider) in
      let panics : leb middle width ≡ true = ground (arith, wider) in
      inr (inl (inl (ground (arith, n, wider)), rw (w, over, panics, range_alts) refl))
]
wide_outcome a b width many (inr (z, all)) below w =
    let over : (ltb max_glob_patterns width && ltb width middle) ≡ false = ground (arith, z) in
    let no_panic : leb middle width ≡ false = ground (arith, z) in
    let last : (b == 2 * middle - 1) ≡ true = ground (arith, all, below) in
    inr (inl (inl (omega (arith, all)), rw (w, over, no_panic, last, range_alts) refl))

-- A range of numbers from `a` up to `b`, as int64 values (2^63 is added to each), read from the texts
-- of its bounds. With more than 1000 numbers and fewer than 2^63, it is errTooManyGlobPatterns. With
-- 2^63 numbers or more, or with at most 1000 that end at the greatest int64, the run panics or does
-- not end. With at most 1000 that end below the greatest int64, its alternatives are the numbers from
-- `a` to `b`.
pub range_outcomes :
    (lo hi : Text) (a b : ℕ)
    → atoi lo ≡ some a
    → atoi hi ≡ some b
    → a ≤ b
    → RangeOutcome a b (number_alts lo hi)
unfolding number_alts
range_outcomes lo hi a b ea eb up =
    let below = atoi_bound hi b eb in
    let computed : number_alts lo hi ≡ range_alts itoa true a b = ground (arith, ea, eb, up) in
    rw computed (elim (width_cases (b - a + 1) (omega (arith, below))) [
      | inl (less, same) ↦ elim (Bool-cases (leb (b - a + 1) max_glob_patterns)) [
        | inl few ↦
            narrow_outcome a b (b - a + 1) refl (leb_le (b - a + 1) max_glob_patterns few) below
              same
        | inr many ↦
            wide_outcome a b (b - a + 1) (leb_gt (b - a + 1) max_glob_patterns many)
              (inl (refl, less)) below same
      ]
      | inr (all, z) ↦ wide_outcome a b 0 (omega (arith, all)) (inr (refl, all)) below z
    ])
