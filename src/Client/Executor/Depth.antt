-- ===== src/Client/Executor/Depth.antt =====
-- listTask of internal/akira-client/executor/executor.go against a listing by levels.
use akira_mcp.Base.{
  ℕ, zero, suc, ◌+◌, ◌≡◌, ◌≢◌, true, false, List, [], ◌∷◌, ◌++◌, nat_eq, list_eq, max, arith, refl,
  ap, ◌∙◌, subst,
}
use akira_mcp.Base.Text.{Text}
use akira_mcp.Client.Executor.{gives}
use akira_mcp.Client.Executor.Walk.{
  Tree, empty, file, dir, locked, child, count_slashes, too_deep, list_pick, list_task,
  max_list_entries,
}
use akira_mcp.Client.Executor.Listings.{
  entries, picked, readable, picked-append, deep_entries, count_slashes-append, Answers,
  list_task_answer,
}

-- The names of entries are not empty and have no slash.
abbrev IsName : Text → Type 0
IsName name = (name ≢ []) × (count_slashes name ≡ 0)

abbrev pub Named : Tree → Type 0
Named empty = Unit
Named (file name rest) = IsName name × Named rest
Named (dir name children rest) = IsName name × (Named children × Named rest)
Named (locked name error rest) = IsName name × Named rest

-- The entries of the first `levels` levels, each directory before what it holds.
unfoldable pub shown : ℕ → Text → Tree → List Text
shown zero at t = []
shown (suc levels) at empty = []
shown (suc levels) at (file name rest) = child at name ∷ shown (suc levels) at rest
shown (suc levels) at (dir name children rest) =
    (child at name ++ b'/' ∷ [])
    ∷ (shown levels (child at name) children ++ shown (suc levels) at rest)
shown (suc levels) at (locked name error rest) =
    (child at name ++ b'/' ∷ []) ∷ shown (suc levels) at rest

-- No directory of the first `levels` levels is locked.
abbrev pub Opens : ℕ → Tree → Type 0
Opens zero t = Unit
Opens (suc levels) empty = Unit
Opens (suc levels) (file name rest) = Opens (suc levels) rest
Opens (suc levels) (dir name children rest) = Opens levels children × Opens (suc levels) rest
Opens (suc levels) (locked name error rest) = ⊥

-- The level on which the entries of a directory stand.
abbrev level : Text → ℕ
level [] = 0
level (c ∷ at) = suc (count_slashes (c ∷ at))

count-child : (at name : Text) → IsName name → count_slashes (child at name) ≡ level at
count-child [] name n = n.1
count-child (c ∷ at) name n = omega (arith, count_slashes-append (c ∷ at) name, n.1)

child-nonempty : (at name : Text) → IsName name → child at name ≢ []
child-nonempty [] name n = n.0
child-nonempty (c ∷ at) name n = λ e. cc

level-nonempty : (path : Text) → path ≢ [] → level path ≡ suc (count_slashes path)
level-nonempty [] h = absurd (h refl)
level-nonempty (c ∷ path) h = refl

level-child : (at name : Text) → IsName name → level (child at name) ≡ suc (level at)
level-child at name n =
    omega (arith, level-nonempty (child at name) (child-nonempty at name n), count-child at name n)

-- Within no level, everything is too deep; within some, the entries of the directory are not.
below_levels : (at name : Text) → IsName name → too_deep (level at + 0) (child at name) ≡ true
below_levels at name n = ground (arith, count-child at name n)

within_levels :
    (levels : ℕ) (at name : Text)
    → IsName name
    → too_deep (level at + suc levels) (child at name) ≡ false
within_levels levels at name n = ground (arith, count-child at name n)

none_shown :
    (at : Text) (t : Tree) → Named t → picked (list_pick (level at + 0)) (entries at t) ≡ []
unfolding entries
none_shown at empty n = refl
none_shown at (file name rest) n = rw (below_levels at name n.0, picked) (none_shown at rest n.1)
none_shown at (dir name children rest) n =
    let deep = below_levels at name n.0 in
    let pick = list_pick (level at + 0) in
    rw (deep, picked)
      (picked-append pick (entries (child at name) children) (entries at rest)
        ∙ (ap (λ ls. ls ++ picked pick (entries at rest))
              (deep_entries (level at + 0) (child at name) children deep)
            ∙ none_shown at rest n.1.1))
none_shown at (locked name error rest) n =
    rw (below_levels at name n.0, picked) (none_shown at rest n.1)

picked-shown :
    (levels : ℕ) (at : Text) (t : Tree)
    → Named t
    → picked (list_pick (level at + levels)) (entries at t) ≡ shown levels at t
unfolding shown entries
picked-shown zero at t n = none_shown at t n
picked-shown (suc levels) at empty n = refl
picked-shown (suc levels) at (file name rest) n =
    rw (within_levels levels at name n.0, picked)
      (ap (λ ls. child at name ∷ ls) (picked-shown (suc levels) at rest n.1))
picked-shown (suc levels) at (dir name children rest) n =
    let path = child at name in
    let deep = level at + suc levels in
    let same : level path + levels ≡ deep = omega (arith, level-child at name n.0) in
    let inside : picked (list_pick deep) (entries path children) ≡ shown levels path children =
      subst (λ d. picked (list_pick d) (entries path children) ≡ shown levels path children) same
        (picked-shown levels path children n.1.0) in
    let after = picked-shown (suc levels) at rest n.1.1 in
    rw (within_levels levels at name n.0, picked)
      (ap (λ ls. (path ++ b'/' ∷ []) ∷ ls)
        (picked-append (list_pick deep) (entries path children) (entries at rest)
          ∙ (ap (λ ls. ls ++ picked (list_pick deep) (entries at rest)) inside
              ∙ ap (λ ls. shown levels path children ++ ls) after)))
picked-shown (suc levels) at (locked name error rest) n =
    rw (within_levels levels at name n.0, picked)
      (ap (λ ls. (child at name ++ b'/' ∷ []) ∷ ls) (picked-shown (suc levels) at rest n.1))

none_read : (at : Text) (t : Tree) → Named t → readable (too_deep (level at + 0)) at t ≡ true
unfolding readable
none_read at empty n = refl
none_read at (file name rest) n = none_read at rest n.1
none_read at (dir name children rest) n =
    rw (below_levels at name n.0, readable) (none_read at rest n.1.1)
none_read at (locked name error rest) n =
    rw (below_levels at name n.0, readable) (none_read at rest n.1)

readable-Opens :
    (levels : ℕ) (at : Text) (t : Tree)
    → Named t
    → Opens levels t
    → readable (too_deep (level at + levels)) at t ≡ true
unfolding readable
readable-Opens zero at t n o = none_read at t n
readable-Opens (suc levels) at empty n o = refl
readable-Opens (suc levels) at (file name rest) n o = readable-Opens (suc levels) at rest n.1 o
readable-Opens (suc levels) at (dir name children rest) n o =
    let path = child at name in
    let deep = level at + suc levels in
    let same : level path + levels ≡ deep = omega (arith, level-child at name n.0) in
    let inside : readable (too_deep deep) path children ≡ true =
      subst (λ d. readable (too_deep d) path children ≡ true) same
        (readable-Opens levels path children n.1.0 o.0) in
    rw (within_levels levels at name n.0, readable)
      (rw inside (readable-Opens (suc levels) at rest n.1.1 o.1))
readable-Opens (suc levels) at (locked name error rest) n o = absurd o

-- listTask, on a directory whose names are not empty and have no slash, and whose directories of the
-- first `depth` levels (1, if a smaller one is asked for) can be read, answers with the entries of
-- these levels, directories with a slash at the end, each before what it holds: the first 1000, their
-- number, and whether there are more.
pub list_task_levels :
    (depth : ℕ) (t : Tree)
    → Named t
    → Opens (max depth 1) t
    → Answers max_list_entries (shown (max depth 1) [] t) (list_task depth (gives t))
list_task_levels depth t n o =
    let limit = max depth 1 in
    let same : level [] + limit ≡ limit = omega arith in
    let here : picked (list_pick limit) (entries [] t) ≡ shown limit [] t =
      subst (λ d. picked (list_pick d) (entries [] t) ≡ shown limit [] t) same
        (picked-shown limit [] t n) in
    let read : readable (too_deep limit) [] t ≡ true =
      subst (λ d. readable (too_deep d) [] t ≡ true) same (readable-Opens limit [] t n o) in
    subst (λ lines. Answers max_list_entries lines (list_task depth (gives t))) here
      (list_task_answer depth t read)
