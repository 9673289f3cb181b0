-- ===== src/Client/Executor/Matches.antt =====
-- What matchSegments decides.
use akira_mcp.Base.{
  ◌≡◌, ◌≢◌, ◌⊎◌, inl, inr, Bool, true, false, Bool-cases, List, [], ◌∷◌, ◌++◌, list_eq, nat_eq,
  arith, refl, ap,
}
use akira_mcp.Base.Text.{Text}
use akira_mcp.Client.Executor.Glob.{any_depth, any_tail, match_first, match_segments}

-- "**" stands for any number of segments, none included; every other segment of a pattern for one
-- segment of the path, by path.Match; and nothing is left over.
abbrev pub Matches : (Text → Text → Bool) → List Text → List Text → Type 0
Matches segment [] seg = seg ≡ []
Matches segment (p ∷ pat) seg =
    ((p ≡ any_depth)
      × (front : List Text) × (back : List Text) × (seg ≡ front ++ back)
      × Matches segment pat back)
    ⊎ ((p ≢ any_depth)
        × (s : Text) × (rest : List Text) × (seg ≡ s ∷ rest)
        × (segment p s ≡ true)
        × Matches segment pat rest)

any_tail-true :
    (f : List Text → Bool) (seg : List Text)
    → any_tail f seg ≡ true
    → (front : List Text) × (back : List Text) × (seg ≡ front ++ back) × (f back ≡ true)
any_tail-true f [] h = ([], [], refl, h)
any_tail-true f (s ∷ seg) h = elim (Bool-cases (f (s ∷ seg))) [
  | inl e ↦ ([], s ∷ seg, refl, e)
  | inr e ↦
      let (front, back, same, found) = any_tail-true f seg (ground (arith, h, e)) in
      (s ∷ front, back, ap (λ l. s ∷ l) same, found)
]

any_tail-append :
    (f : List Text → Bool) (front back : List Text)
    → f back ≡ true
    → any_tail f (front ++ back) ≡ true
any_tail-append f [] [] h = h
any_tail-append f [] (s ∷ back) h = ground (arith, h)
any_tail-append f (s ∷ front) back h = ground (arith, any_tail-append f front back h)

module _ (segment : Text → Text → Bool) where
  match_first-true :
      (p : Text) (more : List Text → Bool) (seg : List Text)
      → match_first segment p more seg ≡ true
      → (s : Text) × (rest : List Text) × (seg ≡ s ∷ rest)
        × (segment p s ≡ true)
        × (more rest ≡ true)
  match_first-true p more [] h = ground arith
  match_first-true p more (s ∷ seg) h = (s, seg, refl, ground arith, ground arith)

  match_segments-Matches :
      (pat seg : List Text) → match_segments segment pat seg ≡ true → Matches segment pat seg
  unfolding match_segments
  match_segments-Matches [] seg h = ground arith
  match_segments-Matches (p ∷ pat) seg h = elim (list_eq.dec p any_depth) [
    | yes same ↦
        let (front, back, cut, found) =
          any_tail-true (match_segments segment pat) seg (ground (arith, h)) in
        inl (same, front, back, cut, match_segments-Matches pat back found)
    | no other ↦
        let (s, rest, cut, fits, found) =
          match_first-true p (match_segments segment pat) seg (ground (arith, h, other)) in
        inr (other, s, rest, cut, fits, match_segments-Matches pat rest found)
  ]

  Matches-match_segments :
      (pat seg : List Text) → Matches segment pat seg → match_segments segment pat seg ≡ true
  unfolding match_segments
  Matches-match_segments [] seg h = ground arith
  Matches-match_segments (p ∷ pat) seg (inl (same, front, back, cut, rest)) =
      let tail =
        any_tail-append (match_segments segment pat) front back
          (Matches-match_segments pat back rest) in
      ground (arith, tail)
  Matches-match_segments (p ∷ pat) seg (inr (other, s, more, cut, fits, rest)) =
      ground (arith, Matches-match_segments pat more rest)

  -- matchSegments answers true exactly on a path that the pattern describes.
  pub match_segments_decides :
      (pat seg : List Text)
      → ((match_segments segment pat seg ≡ true) × Matches segment pat seg)
        ⊎ ((match_segments segment pat seg ≡ false) × ¬ Matches segment pat seg)
  match_segments_decides pat seg = elim (Bool-cases (match_segments segment pat seg)) [
    | inl e ↦ inl (e, match_segments-Matches pat seg e)
    | inr e ↦ inr (e, λ m. ground (arith, e, Matches-match_segments pat seg m))
  ]
