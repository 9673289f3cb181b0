-- ===== src/Client/Executor/Numerals.antt =====
-- strconv.Atoi and strconv.Itoa in braceRange (internal/akira-client/executor/executor.go): the
-- numbers between two bounds are not longer than the bounds, as texts.
use mathlib.Core.List.{reverse_aux}
use akira_mcp.Base.{
  ℕ, zero, suc, ◌+◌, ◌-◌, ◌*◌, ◌/◌, ◌≤◌, ◌<◌, ◌≡◌, ◌⊎◌, inl, inr, true, false, [], ◌∷◌, ◌&&◌,
  reverse, some, Option-cases, Bool-cases, ◌==◌, list_eq, nat_eq, ltb, leb, length, arith, subst,
}
use akira_mcp.Base.Text.{Text}
use akira_mcp.Client.Executor.Braces.{middle, read_digits, read_signed, atoi, digits_of, itoa}

-- Powers of ten.
abbrev pub ten_to : ℕ → ℕ
ten_to zero = 1
ten_to (suc k) = 10 * ten_to k

length-reverse_aux : (xs ys : Text) → length (reverse_aux xs ys) ≡ length xs + length ys
length-reverse_aux [] ys = omega arith
length-reverse_aux (x ∷ xs) ys = omega (arith, length-reverse_aux xs (x ∷ ys))

length-reverse : (xs : Text) → length (reverse xs) ≡ length xs
length-reverse xs = omega (arith, length-reverse_aux xs [])

digits_of-Short : (places k n : ℕ) → n < ten_to (suc k) → length (digits_of places n) ≤ suc k
unfolding digits_of
digits_of-Short zero k n h = omega arith
digits_of-Short (suc places) zero n h = ground arith
digits_of-Short (suc places) (suc k) n h =
    ground (arith, digits_of-Short places k (n / 10) (omega arith))

read_digits_bound :
    (s : Text) (k a n : ℕ) → a < ten_to k → read_digits a s ≡ some n → n < ten_to (length s + k)
unfolding read_digits
read_digits_bound [] k a n h e = ground arith
read_digits_bound (c ∷ s) k a n h e = elim (Bool-cases (leb b'0' c && leb c b'9')) [
  | inl d ↦
      let more : read_digits (a * 10 + (c - b'0')) s ≡ some n = ground (arith, d, e) in
      let below : a * 10 + (c - b'0') < ten_to (suc k) = ground (arith, d, h) in
      let same : length s + suc k ≡ suc (length s) + k = omega arith in
      subst (λ m. n < ten_to m) same
        (read_digits_bound s (suc k) (a * 10 + (c - b'0')) n below more)
  | inr d ↦ ground (arith, d, e)
]

-- A number whose text has `len` bytes at most: a sign and the digits, or digits.
abbrev pub Narrow : ℕ → ℕ → Type 0
Narrow len x =
    ((x < middle) × ((k : ℕ) × (suc (suc k) ≤ len) × (middle - x < ten_to (suc k))))
    ⊎ ((middle ≤ x) × ((k : ℕ) × (suc k ≤ len) × (x - middle < ten_to (suc k))))

itoa-Narrow : (len x : ℕ) → Narrow len x → length (itoa x) ≤ len
unfolding itoa
itoa-Narrow len x (inl (neg, (k, fits, small))) = ground (
  arith,
  neg,
  length-reverse (digits_of 19 (middle - x)),
  digits_of-Short 19 k (middle - x) small,
)
itoa-Narrow len x (inr (nonneg, (k, fits, small))) = ground (
  arith,
  nonneg,
  length-reverse (digits_of 19 (x - middle)),
  digits_of-Short 19 k (x - middle) small,
)

digits_below : (c n : ℕ) (s : Text) → read_digits 0 (c ∷ s) ≡ some n → n < ten_to (suc (length s))
digits_below c n s f =
    let same : suc (length s) + 0 ≡ suc (length s) = omega arith in
    subst (λ m. n < ten_to m) same (read_digits_bound (c ∷ s) 0 0 n (omega arith) f)

-- After a minus sign.
minus-Narrow :
    (s : Text) (len x : ℕ) → suc (length s) ≤ len → read_signed true s ≡ some x → Narrow len x
minus-Narrow [] len x l e = ground arith
minus-Narrow (c ∷ s) len x l e = elim (Option-cases (read_digits 0 (c ∷ s))) [
  | inl f ↦ ground (arith, e, f)
  | inr (n, f) ↦
      let small = digits_below c n s f in
      elim (Bool-cases (ltb 0 n)) [
        | inl pos ↦
            inl
              (ground (arith, e, f, pos), (length s, omega (arith, l), ground (arith, e, f, small)))
        | inr z ↦
            inr (ground (arith, e, f, z), (length s, omega (arith, l), ground (arith, e, f, small)))
      ]
]

-- After a plus sign, or with no sign.
plus-Narrow : (s : Text) (len x : ℕ) → length s ≤ len → read_signed false s ≡ some x → Narrow len x
plus-Narrow [] len x l e = ground arith
plus-Narrow (c ∷ s) len x l e = elim (Option-cases (read_digits 0 (c ∷ s))) [
  | inl f ↦ ground (arith, e, f)
  | inr (n, f) ↦
      let small = digits_below c n s f in
      inr (ground (arith, e, f), (length s, omega (arith, l), ground (arith, e, f, small)))
]

atoi-Narrow : (s : Text) (x : ℕ) → atoi s ≡ some x → Narrow (length s) x
unfolding atoi
atoi-Narrow [] x e = ground arith
atoi-Narrow (c ∷ s) x e = elim (Bool-cases (c == b'-')) [
  | inl f ↦ minus-Narrow s (suc (length s)) x (omega arith) (ground (arith, e, f))
  | inr f ↦ elim (Bool-cases (c == b'+')) [
    | inl g ↦ plus-Narrow s (suc (length s)) x (omega arith) (ground (arith, e, f, g))
    | inr g ↦ plus-Narrow (c ∷ s) (suc (length s)) x (omega arith) (ground (arith, e, f, g))
  ]
]

widen : (m n x : ℕ) → m ≤ n → Narrow m x → Narrow n x
widen m n x h (inl (neg, (k, l, b))) = inl (neg, (k, omega (arith, h, l), b))
widen m n x h (inr (nonneg, (k, l, b))) = inr (nonneg, (k, omega (arith, h, l), b))

between-Narrow : (len a b x : ℕ) → Narrow len a → Narrow len b → a ≤ x → x ≤ b → Narrow len x
between-Narrow len a b x na nb ax xb = elim (Bool-cases (ltb x middle)) [
  | inl neg ↦ elim na [
    | inl (_, (k, l, small)) ↦ inl (ground (arith, neg), (k, l, ground (arith, neg, ax, small)))
    | inr (nonneg, _) ↦ ground (arith, neg, ax, nonneg)
  ]
  | inr nonneg ↦ elim nb [
    | inl (neg, _) ↦ ground (arith, nonneg, xb, neg)
    | inr (_, (k, l, small)) ↦
        inr (ground (arith, nonneg), (k, l, ground (arith, nonneg, xb, small)))
  ]
]

-- A number between two that were read has a text no longer than the longer of theirs.
pub itoa_between :
    (lo hi : Text) (len a b x : ℕ)
    → length lo ≤ len
    → length hi ≤ len
    → (atoi lo ≡ some a)
    → (atoi hi ≡ some b)
    → ((a ≤ x) × (x ≤ b)) ⊎ ((b ≤ x) × (x ≤ a))
    → length (itoa x) ≤ len
itoa_between lo hi len a b x l h ea eb between =
    let na = widen (length lo) len a l (atoi-Narrow lo a ea) in
    let nb = widen (length hi) len b h (atoi-Narrow hi b eb) in
    elim between [
      | inl (p, q) ↦ itoa-Narrow len x (between-Narrow len a b x na nb p q)
      | inr (p, q) ↦ itoa-Narrow len x (between-Narrow len b a x nb na p q)
    ]
