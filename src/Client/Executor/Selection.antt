-- ===== src/Client/Executor/Selection.antt =====
-- What globTask of internal/akira-client/executor/executor.go selects, by what its patterns describe.
use akira_mcp.Base.{
  suc, ◌≡◌, ◌⊎◌, inl, inr, Bool, true, false, List, [], ◌∷◌, some, length, list_eq, nat_eq, arith,
  refl,
}
use akira_mcp.Base.Text.{Text}
use akira_mcp.Client.Executor.{TaskResult, gives}
use akira_mcp.Client.Executor.Glob.{split_slash, match_glob, match_any_glob}
use akira_mcp.Client.Executor.Braces.{variants, expand_braces}
use akira_mcp.Client.Executor.Matches.{Matches, match_segments_decides}
use akira_mcp.Client.Executor.Walk.{
  Tree, never, glob_pick, glob_task, max_glob_results, without_root,
}
use akira_mcp.Client.Executor.Listings.{entries, picked, readable, Answers, glob_task-picked}

-- One of the patterns describes the path, segment by segment.
abbrev pub Described : (Text → Text → Bool) → List Text → Text → Type 0
Described segment [] path = ⊥
Described segment (p ∷ ps) path =
    Matches segment (split_slash p) (split_slash path) ⊎ Described segment ps path

-- The lines are the full paths of the entries that are described, in the order of the entries.
abbrev pub Selects :
    (Text → Text → Bool) → (Text → Text) → List Text → List (Text × Bool) → List Text → Type 0
Selects segment full patterns [] lines = lines ≡ []
Selects segment full patterns ((path, is_dir) ∷ es) lines =
    (Described segment patterns path
      × (rest : List Text) × (lines ≡ full path ∷ rest)
      × Selects segment full patterns es rest)
    ⊎ ((¬ Described segment patterns path) × Selects segment full patterns es lines)

match_any_glob_decides :
    (segment : Text → Text → Bool) (patterns : List Text) (path : Text)
    → ((match_any_glob segment patterns path ≡ true) × Described segment patterns path)
      ⊎ ((match_any_glob segment patterns path ≡ false) × ¬ Described segment patterns path)
unfolding match_any_glob match_glob
match_any_glob_decides segment [] path = inr (refl, λ d. d)
match_any_glob_decides segment (p ∷ ps) path =
    elim (match_segments_decides segment (split_slash p) (split_slash path)) [
      | inl (e, m) ↦ inl (ground (arith, e), inl m)
      | inr (e, m) ↦ elim (match_any_glob_decides segment ps path) [
        | inl (f, d) ↦ inl (ground (arith, e, f), inr d)
        | inr (f, d) ↦ inr (ground (arith, e, f), λ x. elim x [ inl y ↦ m y | inr y ↦ d y ])
      ]
    ]

picked-Selects :
    (segment : Text → Text → Bool) (full : Text → Text) (patterns : List Text)
    (es : List (Text × Bool))
    → Selects segment full patterns es (picked (glob_pick segment full patterns) es)
picked-Selects segment full patterns [] = refl
picked-Selects segment full patterns ((path, is_dir) ∷ es) =
    let rest = picked-Selects segment full patterns es in
    elim (match_any_glob_decides segment patterns path) [
      | inl (e, d) ↦
          rw (e, picked) (inl (d, picked (glob_pick segment full patterns) es, refl, rest))
      | inr (e, d) ↦ rw (e, picked) (inr (d, rest))
    ]

-- globTask, on a directory that can be read throughout, with a pattern that has variants, answers
-- with the full paths of the entries that one of the variants describes, in the order of the walk,
-- each directory before what it holds, and with no others: the first 1000, their number, and whether
-- there are more.
pub glob_task_answer :
    (segment : Text → Text → Bool) (full : Text → Text) (too_many_error pattern : Text) (t : Tree)
    (patterns : List Text)
    → expand_braces (suc (length (without_root pattern))) (without_root pattern) ≡ variants patterns
    → readable never [] t ≡ true
    → (res : TaskResult) × (lines : List Text) × (glob_task segment full too_many_error pattern
          (gives t)
        ≡ some res)
      × Selects segment full patterns (entries [] t) lines
      × Answers max_glob_results lines res
glob_task_answer segment full too_many_error pattern t patterns expands r =
    let (res, run, answers) =
      glob_task-picked segment full too_many_error pattern t patterns expands r in
    (
      res,
      picked (glob_pick segment full patterns) (entries [] t),
      run,
      picked-Selects segment full patterns (entries [] t),
      answers,
    )
