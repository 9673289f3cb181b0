-- ===== src/Client/Executor/Listings.antt =====
-- What globTask and listTask of internal/akira-client/executor/executor.go answer.
use akira_mcp.Base.{
  ℕ, zero, suc, ◌+◌, ◌≤◌, ◌≡◌, Bool, true, false, List, [], ◌∷◌, ◌++◌, take, Option, none, some,
  Option-cases, Bool-cases, list_eq, nat_eq, ltb, length, max, append_assoc, length-take_short,
  take-all, length-append, append-nil, arith, refl, ap, sym, ◌∙◌, ◌||◌, ◌&&◌, inl, inr,
}
use akira_mcp.Base.Text.{Text}
use akira_mcp.Client.Executor.{TaskResult, status_ok, gives}
use akira_mcp.Client.Executor.Braces.{variants, expand_braces}
use akira_mcp.Client.Executor.Walk.{
  Tree, empty, file, dir, locked, child, Found, add, walk, join_lines, listing, nothing_found,
  glob_pick, never, glob_task, count_slashes, too_deep, list_pick, list_task, max_list_entries,
  max_glob_results, without_root,
}

-- All entries of a tree, each directory before what it holds.
unfoldable pub entries : Text → Tree → List (Text × Bool)
entries at empty = []
entries at (file name rest) = (child at name, false) ∷ entries at rest
entries at (dir name children rest) =
    (child at name, true) ∷ (entries (child at name) children ++ entries at rest)
entries at (locked name error rest) = (child at name, true) ∷ entries at rest

abbrev pub picked : (Text → Bool → Option Text) → List (Text × Bool) → List Text
picked pick [] = []
picked pick ((path, is_dir) ∷ es) = elim (pick path is_dir) [
  | none ↦ picked pick es
  | some line ↦ line ∷ picked pick es
]

-- Every locked directory is skipped.
unfoldable pub readable : (Text → Bool) → Text → Tree → Bool
readable skip at empty = true
readable skip at (file name rest) = readable skip at rest
readable skip at (dir name children rest) =
    let here = skip (child at name) in
    let below = readable skip (child at name) children in
    let rest' = readable skip at rest in (here || below) && rest'
readable skip at (locked name error rest) =
    let here = skip (child at name) in let rest' = readable skip at rest in here && rest'

add_all : ℕ → List Text → Found → Found
add_all limit [] f = f
add_all limit (line ∷ lines) f = add_all limit lines (add limit (some line) f)

add_all-append :
    (limit : ℕ) (xs ys : List Text) (f : Found)
    → add_all limit (xs ++ ys) f ≡ add_all limit ys (add_all limit xs f)
unfolding add_all
add_all-append limit [] ys f = refl
add_all-append limit (x ∷ xs) ys f = add_all-append limit xs ys (add limit (some x) f)

pub picked-append :
    (pick : Text → Bool → Option Text) (xs ys : List (Text × Bool))
    → picked pick (xs ++ ys) ≡ picked pick xs ++ picked pick ys
picked-append pick [] ys = refl
picked-append pick ((path, is_dir) ∷ xs) ys = elim (Option-cases (pick path is_dir)) [
  | inl e ↦ rw (e, picked) (picked-append pick xs ys)
  | inr (line, e) ↦ rw (e, picked) (ap (λ ls. line ∷ ls) (picked-append pick xs ys))
]

add_all-picked :
    (limit : ℕ) (pick : Text → Bool → Option Text) (path : Text) (is_dir : Bool)
    (es : List (Text × Bool)) (f : Found)
    → add_all limit (picked pick es) (add limit (pick path is_dir) f)
      ≡ add_all limit (picked pick ((path, is_dir) ∷ es)) f
unfolding add_all
add_all-picked limit pick path is_dir es f = elim (Option-cases (pick path is_dir)) [
  | inl e ↦ rw (e, picked) refl
  | inr (line, e) ↦ rw (e, picked) refl
]

module _ (limit : ℕ) (pick : Text → Bool → Option Text) (skip : Text → Bool) where
  -- Nothing below a directory that is skipped would be picked.
  abbrev SkipsNothing : Type 0
  SkipsNothing = (path : Text) (t : Tree) → skip path ≡ true → picked pick (entries path t) ≡ []

  walk_collects :
      (at : Text) (t : Tree) (f : Found)
      → SkipsNothing
      → readable skip at t ≡ true
      → walk limit pick skip at t f ≡ gives (add_all limit (picked pick (entries at t)) f)
  unfolding walk entries readable add_all
  walk_collects at empty f quiet r = refl
  walk_collects at (file name rest) f quiet r =
      walk_collects at rest (add limit (pick (child at name) false) f) quiet r
      ∙ ap (λ g. gives g) (add_all-picked limit pick (child at name) false (entries at rest) f)
  walk_collects at (dir name children rest) f quiet r =
      let path = child at name in
      let seen = add limit (pick path true) f in
      let all = entries path children ++ entries at rest in
      let goal : gives (add_all limit (picked pick all) seen)
          ≡ gives (add_all limit (picked pick ((path, true) ∷ all)) f) =
        ap (λ g. gives g) (add_all-picked limit pick path true all f) in
      let split = picked-append pick (entries path children) (entries at rest) in
      let below = add_all limit (picked pick (entries path children)) seen in
      elim (Bool-cases (skip path)) [
        | inl e ↦
            let none_below = quiet path children e in
            let after = walk_collects at rest seen quiet (ground (arith, r, e)) in
            let same : picked pick all ≡ picked pick (entries at rest) =
              split ∙ ap (λ ls. ls ++ picked pick (entries at rest)) none_below in
            rw (e, walk) (after ∙ (ap (λ ls. gives (add_all limit ls seen)) (sym same) ∙ goal))
        | inr e ↦
            let first = walk_collects path children seen quiet (ground (arith, r, e)) in
            let after = walk_collects at rest below quiet (ground (arith, r, e)) in
            let same : add_all limit (picked pick all) seen
                ≡ add_all limit (picked pick (entries at rest)) below =
              ap (λ ls. add_all limit ls seen) split
              ∙ add_all-append limit (picked pick (entries path children))
                  (picked pick (entries at rest)) seen in
            rw (e, first, walk) (after ∙ (ap (λ g. gives g) (sym same) ∙ goal))
      ]
  walk_collects at (locked name error rest) f quiet r =
      let path = child at name in
      let skipped : skip path ≡ true = ground (arith, r) in
      rw (skipped, walk)
        (walk_collects at rest (add limit (pick path true) f) quiet (ground (arith, r))
          ∙ ap (λ g. gives g) (add_all-picked limit pick path true (entries at rest) f))

total-add_all :
    (limit : ℕ) (lines : List Text) (f : Found)
    → (add_all limit lines f).total ≡ f.total + length lines
unfolding add_all
total-add_all limit [] f = omega arith
total-add_all limit (line ∷ lines) f =
    omega (arith, total-add_all limit lines (add limit (some line) f))

-- The lines that there is room for.
out-add_all :
    (limit room : ℕ) (lines : List Text) (f : Found)
    → length f.out + room ≡ limit
    → (add_all limit lines f).out ≡ f.out ++ take room lines
unfolding add_all
out-add_all limit zero [] f h = sym (append-nil f.out)
out-add_all limit (suc room) [] f h = sym (append-nil f.out)
out-add_all limit zero (line ∷ lines) f h =
    let full : ltb (length f.out) limit ≡ false = ground (arith, h) in
    let kept = out-add_all limit zero lines (record f { total = suc f.total }) h in
    rw (full, add_all) kept
out-add_all limit (suc room) (line ∷ lines) f h =
    let space : ltb (length f.out) limit ≡ true = ground (arith, h) in
    let longer = length-append f.out (line ∷ []) in
    let kept =
      out-add_all limit room lines (record f { out = f.out ++ line ∷ []; total = suc f.total })
        (omega (arith, h, longer)) in
    rw (space, add_all) (kept ∙ append_assoc f.out (line ∷ []) (take room lines))

-- What a task answers that found these lines.
abbrev pub Answers : ℕ → List Text → TaskResult → Type 0
Answers limit lines res =
    (res.status ≡ status_ok)
    × ((res.stdout ≡ join_lines (take limit lines))
        × ((res.total_lines ≡ length lines) × (res.truncated ≡ ltb limit (length lines))))

-- Lines were left out if there are more than the limit.
ltb-take :
    (limit : ℕ) (lines : List Text)
    → ltb (length (take limit lines)) (length lines) ≡ ltb limit (length lines)
ltb-take limit lines = elim (Bool-cases (ltb limit (length lines))) [
  | inl more ↦ ground (arith, more, length-take_short limit lines (ground (arith, more)))
  | inr few ↦ ground (arith, few, ap (λ ls. length ls) (take-all limit lines (ground (arith, few))))
]

listed :
    (limit : ℕ) (lines : List Text)
    → Answers limit lines (listing (gives (add_all limit lines nothing_found)))
listed limit lines =
    let kept = out-add_all limit limit lines nothing_found (omega arith) in
    let total = total-add_all limit lines nothing_found in
    (
      refl,
      (
        ap join_lines kept,
        (
          omega (arith, total),
          ap (λ out. ltb (length out) (add_all limit lines nothing_found).total) kept
              ∙ (ap (λ n. ltb (length (take limit lines)) n) (omega (arith, total))
                  ∙ ltb-take limit lines),
        ),
      ),
    )

-- globTask, on a directory that can be read throughout, with a pattern that has variants, answers
-- with what its callback picks among the entries.
pub glob_task-picked :
    (segment : Text → Text → Bool) (full : Text → Text) (too_many_error pattern : Text) (t : Tree)
    (patterns : List Text)
    → expand_braces (suc (length (without_root pattern))) (without_root pattern) ≡ variants patterns
    → readable never [] t ≡ true
    → (res : TaskResult) × (glob_task segment full too_many_error pattern (gives t) ≡ some res)
      × Answers max_glob_results (picked (glob_pick segment full patterns) (entries [] t)) res
unfolding glob_task
glob_task-picked segment full too_many_error pattern t patterns expands r =
    let pick = glob_pick segment full patterns in
    let lines = picked pick (entries [] t) in
    let found =
      walk_collects max_glob_results pick never [] t nothing_found
        (λ path below s. ground (arith, s)) r in
    (
      listing (gives (add_all max_glob_results lines nothing_found)),
      rw (expands, found, glob_task) refl,
      listed max_glob_results lines,
    )

pub count_slashes-append :
    (s t : Text) → count_slashes (s ++ b'/' ∷ t) ≡ suc (count_slashes s + count_slashes t)
unfolding count_slashes
count_slashes-append [] t = ground arith
count_slashes-append (c ∷ s) t = ground (arith, count_slashes-append s t)

count_slashes-child : (at name : Text) → count_slashes at ≤ count_slashes (child at name)
unfolding count_slashes
count_slashes-child [] name = omega arith
count_slashes-child (c ∷ at) name = omega (arith, count_slashes-append (c ∷ at) name)

-- Below a directory that is too deep, all is too deep.
deep_child :
    (depth : ℕ) (at name : Text) → too_deep depth at ≡ true → too_deep depth (child at name) ≡ true
deep_child depth at name h = ground (arith, h, count_slashes-child at name)

pub deep_entries :
    (depth : ℕ) (at : Text) (t : Tree)
    → too_deep depth at ≡ true
    → picked (list_pick depth) (entries at t) ≡ []
unfolding entries
deep_entries depth at empty h = refl
deep_entries depth at (file name rest) h =
    rw (deep_child depth at name h, picked) (deep_entries depth at rest h)
deep_entries depth at (dir name children rest) h =
    let path = child at name in
    let deep = deep_child depth at name h in
    let split = picked-append (list_pick depth) (entries path children) (entries at rest) in
    rw (deep, picked)
      (split
        ∙ (ap (λ ls. ls ++ picked (list_pick depth) (entries at rest))
              (deep_entries depth path children deep)
            ∙ deep_entries depth at rest h))
deep_entries depth at (locked name error rest) h =
    rw (deep_child depth at name h, picked) (deep_entries depth at rest h)

-- listTask, on a directory that can be read down to the depth (1, if a smaller one is asked for),
-- answers with the entries that are not deeper, directories with a slash at the end, in the order of
-- the walk: the first 1000, their number, and whether there are more. So the directories that it does
-- not go into hold nothing that belongs in the answer.
pub list_task_answer :
    (depth : ℕ) (t : Tree)
    → readable (too_deep (max depth 1)) [] t ≡ true
    → Answers max_list_entries
        (picked (list_pick (max depth 1)) (entries [] t))
        (list_task depth (gives t))
unfolding list_task
list_task_answer depth t r =
    let limit = max depth 1 in
    let found =
      walk_collects max_list_entries (list_pick limit) (too_deep limit) [] t nothing_found
        (λ path below deep. deep_entries limit path below deep) r in
    rw (found, list_task) (listed max_list_entries (picked (list_pick limit) (entries [] t)))
