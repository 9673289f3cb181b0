-- ===== src/Client/Executor/Edits.antt =====
-- What editTask does to a file.
use akira_mcp.Base.{
  ◌∙◌, ℕ, suc, ◌-◌, ◌≡◌, ◌≢◌, inl, inr, true, false, Bool-cases, Option-cases, [], ◌∷◌, ◌++◌, some,
  list_eq, nat_eq, arith, refl, ap, length,
}
use akira_mcp.Base.Map.{Map, lookup, insert, lookup-insert}
use akira_mcp.Base.Text.{Text, has_prefix}
use akira_mcp.Client.Executor.{status_ok, status_error}
use akira_mcp.Client.Executor.Edit.{
  EditFileRequest, Platform, replace_from, count, replace, edit_task,
}

has_prefix-split : (s p : Text) → has_prefix s p ≡ true → (rest : Text) × (s ≡ p ++ rest)
unfolding has_prefix
has_prefix-split s [] h = (s, refl)
has_prefix-split [] (c ∷ p) h = ground arith
has_prefix-split (d ∷ s) (c ∷ p) h =
    let (rest, same) = has_prefix-split s p (ground arith) in (rest, ground arith)

module _ (old new : Text) where
  -- With no replacement left, the rest is copied.
  replace_from-copies : (s : Text) → (replace_from old new 0 0 s).0 ≡ s
  unfolding replace_from
  replace_from-copies [] = refl
  replace_from-copies (c ∷ s) = ap (λ t. c ∷ t) (replace_from-copies s)

  replace_from-skips : (gone s : Text) → (replace_from old new 0 (length gone) (gone ++ s)).0 ≡ s
  unfolding replace_from
  replace_from-skips [] s = replace_from-copies s
  replace_from-skips (c ∷ gone) s = replace_from-skips gone s

  replace_from-passes :
      (gone : Text) (c : ℕ) (s rest : Text)
      → gone ≢ []
      → c ∷ s ≡ gone ++ rest
      → (replace_from old new 0 (length gone - 1) s).0 ≡ rest
  replace_from-passes [] c s rest h same = ground arith
  replace_from-passes (d ∷ gone) c s rest h same =
      let one_less : suc (length gone) - 1 ≡ length gone = omega arith in
      let cut : s ≡ gone ++ rest = ground arith in rw (one_less, cut) (replace_from-skips gone rest)

  -- Where there is an occurrence, one replacement puts the new text in the place of one.
  replaces_one :
      (x : Text) (most : ℕ) (s : Text)
      → old ≢ []
      → (replace_from old x (suc most) 0 s).1 ≢ 0
      → (front : Text) × (back : Text) × (s ≡ front ++ (old ++ back))
        × ((replace_from old new 1 0 s).0 ≡ front ++ (new ++ back))
  unfolding replace_from
  replaces_one x most [] h n = ground arith
  replaces_one x most (c ∷ s) h n = elim (Bool-cases (has_prefix (c ∷ s) old)) [
    | inl e ↦
        let (back, cut) = has_prefix-split (c ∷ s) old e in
        ([], back, cut, ground (arith, e, replace_from-passes old c s back h cut))
    | inr e ↦
        let (front, back, cut, done) = replaces_one x most s h (ground (arith, n, e)) in
        (c ∷ front, back, ap (λ t. c ∷ t) cut, ground (arith, e, done))
  ]

  replaces_counted :
      (s : Text)
      → old ≢ []
      → count s old ≡ 1
      → (front : Text) × (back : Text) × (s ≡ front ++ (old ++ back))
        × (replace s old new 1 ≡ front ++ (new ++ back))
  unfolding replace_from
  replaces_counted [] h n = ground arith
  replaces_counted (c ∷ s) h n = replaces_one [] (length s) (c ∷ s) h (ground (arith, n))

lookup-inserted :
    (file content : Text) (disk : Map Text Text)
    → lookup file (insert file content disk) ≡ some content
lookup-inserted file content disk = ground (arith, lookup-insert file file content disk)

module _ (e : Platform) (t : EditFileRequest) (disk : Map Text Text) where
  -- An edit without replace_all that succeeds found the old text in the file, once if occurrences do
  -- not overlap, and the file now has the new text in its place; other files are as they were.
  pub edit_task_once :
      (content other : Text)
      → t.replace_all ≡ false
      → lookup (e.file_of t.path) disk ≡ some content
      → (edit_task e t disk).1.status ≡ status_ok
      → other ≢ e.file_of t.path
      → (front : Text) × (back : Text) × (content ≡ front ++ (t.old_str ++ back))
        × (count content t.old_str ≡ 1)
        × (lookup (e.file_of t.path) (edit_task e t disk).0 ≡ some (front ++ (t.new_str ++ back)))
        × (lookup other (edit_task e t disk).0 ≡ lookup other disk)
  unfolding edit_task
  edit_task_once content other one there good else_where =
      elim (Option-cases (e.write_error false t.path)) [
        | inr (error, w) ↦ ground (arith, one, there, w)
        | inl w ↦
            let found : count content t.old_str ≡ 1 = ground (arith, one, there, w) in
            let not_empty : t.old_str ≢ [] = ground (arith, there, w) in
            let (front, back, cut, done) =
              replaces_counted t.old_str t.new_str content not_empty found in
            let after : (edit_task e t disk).0
                ≡ insert (e.file_of t.path) (replace content t.old_str t.new_str 1) disk =
              ground (arith, one, there, w, found) in
            (
              front,
              back,
              cut,
              found,
              ap (λ files. lookup (e.file_of t.path) files) after
                  ∙ (lookup-inserted (e.file_of t.path) (replace content t.old_str t.new_str 1) disk
                      ∙ ap some done),
              ground (
                arith,
                after,
                lookup-insert other (e.file_of t.path) (replace content t.old_str t.new_str 1) disk,
              ),
            )
      ]

  -- An edit that fails leaves every file as it was.
  pub edit_task_fails : (edit_task e t disk).1.status ≡ status_error → (edit_task e t disk).0 ≡ disk
  unfolding edit_task
  edit_task_fails bad = elim (Option-cases (lookup (e.file_of t.path) disk)) [
    | inl h ↦ ground (arith, h)
    | inr (content, h) ↦ elim (Option-cases (e.write_error false t.path)) [
      | inl w ↦ ground (arith, h, w)
      | inr (error, w) ↦ ground (arith, h, w)
    ]
  ]
