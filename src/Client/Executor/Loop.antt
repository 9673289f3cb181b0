-- ===== src/Client/Executor/Loop.antt =====
-- The loop of readTask (executor.go): what its variables hold at the end.
use akira_mcp.Base.{
  ℕ, suc, ◌+◌, ◌-◌, ◌≤◌, ◌<◌, ◌≡◌, ◌⊎◌, inl, inr, Bool, true, false, Bool-cases, List, [], ◌∷◌,
  ◌++◌, ◌==◌, list_eq, nat_eq, nat_eq, if◌then◌else◌, leb, length, take, drop, flatten, max, arith,
  refl, sym, length-append, subst, take-append_fits, take-append_short, take-all, append-nil,
  drop-nil, take-nil, drop-cons, take-cons, length-take_short, ◌∙◌,
}
use akira_mcp.Base.Text.{Text}
use akira_mcp.Client.Executor.Read.{ReadFileRequest, Window, wanted, overflows, add_line}
use mathlib.Core.List.{append_assoc}

-- The loop, if the context does not end.
unfoldable pub add_all : ReadFileRequest → List Text → Window → Window
unfolding add_line
add_all t [] w = w
add_all t (l ∷ ls) w = add_all t ls (add_line t l w)

-- What is left of the limit after `n` lines, and the part of the lines to come that is asked for.
abbrev pub limited : ℕ → ℕ → List Text → List Text
limited limit n ls = if limit == 0 then ls else take (limit - n) ls

abbrev pub pick : ReadFileRequest → Window → List Text → List Text
pick t w ls = limited t.limit w.lines (drop (max t.offset 1 - suc w.total) ls)

-- The first `max_bytes` bytes; all of them, if that is 0.
abbrev pub clip : ReadFileRequest → Text → Text
clip t s = if t.max_bytes == 0 then s else take t.max_bytes s

limited-none : (limit n : ℕ) (ls : List Text) → 0 < limit → limit ≤ n → limited limit n ls ≡ []
limited-none limit n ls h k =
    let none_left : limit - n ≡ 0 = omega arith in
    let some_limit : (limit == 0) ≡ false = ground arith in rw (some_limit, none_left) refl

limited-cons :
    (limit n : ℕ) (l : Text) (ls : List Text)
    → (limit ≡ 0) ⊎ (n < limit)
    → limited limit n (l ∷ ls) ≡ l ∷ limited limit (suc n) ls
limited-cons limit n l ls h = elim (nat_eq.dec limit 0) [
  | yes p ↦ ground arith
  | no p ↦
      let one_less : limit - n - 1 ≡ limit - suc n = omega arith in
      ground (arith, one_less, take-cons (limit - n) l ls (omega arith))
]

module _ (t : ReadFileRequest) where
  pick-skip :
      (l : Text) (ls : List Text) (w : Window)
      → wanted t w ≡ false
      → pick t w (l ∷ ls) ≡ pick t (record w { total = suc w.total }) ls
  pick-skip l ls w h = elim (Bool-cases (leb (max t.offset 1) (suc w.total))) [
    | inl e ↦
        limited-none t.limit w.lines (drop (max t.offset 1 - suc w.total) (l ∷ ls)) (ground arith)
          (ground arith)
        ∙ sym (
            limited-none t.limit w.lines (drop (max t.offset 1 - suc (suc w.total)) ls)
              (ground arith) (ground arith))
    | inr e ↦
        let one_less : max t.offset 1 - suc w.total - 1 ≡ max t.offset 1 - suc (suc w.total) =
          omega arith in
        rw (drop-cons (max t.offset 1 - suc w.total) l ls (ground arith), one_less) refl
  ]

  pick-take :
      (l : Text) (ls : List Text) (w : Window) (out : Text) (b : Bool)
      → wanted t w ≡ true
      → pick t w (l ∷ ls)
        ≡ l
          ∷ pick t
              (record { out = out; lines = suc w.lines; total = suc w.total; truncated = b })
              ls
  pick-take l ls w out b h =
      let there : max t.offset 1 ≤ suc w.total = ground arith in
      let now : max t.offset 1 - suc w.total ≡ 0 = omega arith in
      let next : max t.offset 1 - suc (suc w.total) ≡ 0 = omega arith in
      rw (now, next) (limited-cons t.limit w.lines l ls (ground arith))

  -- Once the byte limit is reached, nothing is added.
  add_line-full :
      (l : Text) (w : Window)
      → w.truncated ≡ true
      → 0 < t.max_bytes
      → length w.out ≡ t.max_bytes
      → ((add_line t l w).out ≡ w.out)
        × ((add_line t l w).truncated ≡ true)
        × ((add_line t l w).total ≡ suc w.total)
  unfolding add_line
  add_line-full [] w c pos full = ground (arith, append-nil w.out)
  add_line-full (x ∷ l) w c pos full =
      let no_room : t.max_bytes - length w.out ≡ 0 = omega arith in
      ground (arith, no_room, append-nil w.out)

  add_all-full :
      (ls : List Text) (w : Window)
      → w.truncated ≡ true
      → 0 < t.max_bytes
      → length w.out ≡ t.max_bytes
      → ((add_all t ls w).out ≡ w.out)
        × ((add_all t ls w).truncated ≡ true)
        × ((add_all t ls w).total ≡ w.total + length ls)
  unfolding add_all
  add_all-full [] w c pos full = (refl, c, omega arith)
  add_all-full (l ∷ ls) w c pos full =
      let (out, cut, total) = add_line-full l w c pos full in
      let rest = add_all-full ls (add_line t l w) cut pos (rw out full) in
      (rest.0 ∙ out, rest.1, omega (arith, rest.2, total))

  -- Before that, the output is what the lines so far make, within the limit.
  abbrev Fits : Window → Type 0
  Fits w = (w.truncated ≡ false) × ((t.max_bytes ≡ 0) ⊎ (length w.out ≤ t.max_bytes))

  clip-Fits : (w : Window) → Fits w → clip t w.out ≡ w.out
  clip-Fits w f = elim (nat_eq.dec t.max_bytes 0) [
    | yes p ↦ ground arith
    | no p ↦ ground (arith, take-all t.max_bytes w.out (ground arith))
  ]

  -- A line that does not fit fills the output up.
  clip-over :
      (out line rest : Text)
      → 0 < t.max_bytes
      → length out ≤ t.max_bytes
      → t.max_bytes < length out + length line
      → clip t (out ++ (line ++ rest)) ≡ out ++ take (t.max_bytes - length out) line
  clip-over out line rest pos fits over = ground (
    arith,
    take-append_fits t.max_bytes out (line ++ rest) fits,
    take-append_short (t.max_bytes - length out) line rest (omega arith),
  )

  pick-nil : (w : Window) → pick t w [] ≡ []
  pick-nil w = ground (
    arith,
    drop-nil {A = Text} (max t.offset 1 - suc w.total),
    take-nil {A = Text} (t.limit - w.lines),
  )

  add_line-skips :
      (l : Text) (w : Window)
      → wanted t w ≡ false
      → add_line t l w ≡ record w { total = suc w.total }
  unfolding add_line
  add_line-skips l w h = ground (arith, h)

  add_line-adds :
      (l : Text) (w : Window)
      → wanted t w ≡ true
      → overflows t (length w.out + length l) ≡ false
      → add_line t l w ≡ record {
        out = w.out ++ l;
        lines = suc w.lines;
        total = suc w.total;
        truncated = w.truncated;
      }
  unfolding add_line
  add_line-adds l w h fits = ground (arith, h, fits)

  add_line-fills :
      (l : Text) (w : Window)
      → wanted t w ≡ true
      → overflows t (length w.out + length l) ≡ true
      → add_line t l w ≡ record {
        out = w.out ++ take (t.max_bytes - length w.out) l;
        lines = w.lines;
        total = suc w.total;
        truncated = true;
      }
  unfolding add_line
  add_line-fills l w h over = ground (arith, h, over)

  -- The loop over all lines makes the clipped text of the lines asked for.
  abbrev pub Done : Window → Text → ℕ → Type 0
  Done w s n = (w.out ≡ clip t s) × (w.total ≡ n) × (w.truncated ≡ overflows t (length s))

  pub add_all-window :
      (ls : List Text) (w : Window)
      → Fits w
      → Done (add_all t ls w) (w.out ++ flatten (pick t w ls)) (w.total + length ls)
  unfolding add_all
  add_all-window [] w f =
      rw (pick-nil w, append-nil w.out) (sym (clip-Fits w f), omega arith, ground arith)
  add_all-window (l ∷ ls) w f = elim (Bool-cases (wanted t w)) [
    | inr e ↦
        let next : Window = record w { total = suc w.total } in
        let rest = add_all-window ls next f in
        rw (add_line-skips l w e, pick-skip l ls w e, add_all)
          (rest.0, omega (arith, rest.1), rest.2)
    | inl e ↦ elim (Bool-cases (overflows t (length w.out + length l))) [
      | inr fits ↦
          let next : Window = record {
            out = w.out ++ l;
            lines = suc w.lines;
            total = suc w.total;
            truncated = w.truncated;
          } in
          let next_fits : Fits next = (f.0, ground (arith, length-append w.out l)) in
          let rest = add_all-window ls next next_fits in
          let more = flatten (pick t next ls) in
          let done =
            subst (λ s. Done (add_all t ls next) s (next.total + length ls))
              (append_assoc w.out l more) rest in
          rw (add_line-adds l w e fits, pick-take l ls w (w.out ++ l) w.truncated e, add_all)
            (done.0, omega (arith, done.1), done.2)
      | inl over ↦
          let next : Window = record {
            out = w.out ++ take (t.max_bytes - length w.out) l;
            lines = w.lines;
            total = suc w.total;
            truncated = true;
          } in
          let size : length next.out ≡ t.max_bytes = ground (
            arith,
            length-append w.out (take (t.max_bytes - length w.out) l),
            length-take_short (t.max_bytes - length w.out) l (ground arith),
          ) in
          let full = add_all-full ls next refl (ground arith) size in
          let more = flatten (
            pick t
              (record {
                out = w.out ++ l;
                lines = suc w.lines;
                total = suc w.total;
                truncated = w.truncated;
              })
              ls) in
          rw (add_line-fills l w e over, pick-take l ls w (w.out ++ l) w.truncated e, add_all)
            (
              full.0 ∙ sym (clip-over w.out l more (ground arith) (ground arith) (ground arith)),
              omega (arith, full.2),
              full.1 ∙ sym (ground (arith, length-append w.out (l ++ more), length-append l more)),
            )
    ]
  ]
