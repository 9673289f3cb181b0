-- ===== src/Client/Executor/Effects.antt =====
-- What Execute of internal/akira-client/executor/executor.go reports, and what it leaves on the disk.
use akira_mcp.Base.{
  ℕ, suc, List, length, max, refl, ◌≡◌, ◌≢◌, ◌⊎◌, inl, inr, Bool, false, [], some, Option-cases,
  Bool-cases, list_eq, nat_eq, arith, subst, true,
}
use akira_mcp.Base.Map.{Map, lookup, lookup-insert}
use akira_mcp.Base.Text.{Text}
use akira_mcp.Server.Mcp.{
  Payload, exec_task, read_file_task, write_file_task, edit_file_task, glob_task, list_task,
}
use akira_mcp.Client.Executor.{TaskResult, status_timeout, Answer, gives, fails_with}
use akira_mcp.Client.Executor.Read.{ReadFileRequest, read_task}
use akira_mcp.Client.Executor.Braces.{
  Expansion, variants, too_many, crashes, out_of_fuel, expand_braces,
}
use akira_mcp.Client.Executor.Edit.{
  Platform, EditFileRequest, WriteFileRequest, edit_task, write_task, write_back, count, replace,
  replace_all,
}
use akira_mcp.Client.Executor.Walk
use akira_mcp.Client.Executor.Execute.{Report, Machine, run_payload, execute, mark, timeout_text}

-- What a task leaves in a file `q` and answers with. A command leaves the disk as the shell does, and
-- its output and exit code are the answer's; a write or an edit changes at most the file that its path
-- stands for; the other tasks change none.
abbrev pub Leaves : Machine → Payload → Text → Map Text Text → Report → Type 0
Leaves m (exec_task cmd) q disk r =
    let (left, p) = m.run_shell cmd in
    (disk ≡ left)
    × (r.result.stdout ≡ p.stdout)
    × (r.stderr ≡ p.stderr)
    × (r.exit_code ≡ p.exit_code)
Leaves m (write_file_task path content create_dirs) q disk r =
    (q ≡ m.platform.file_of path) ⊎ (lookup q disk ≡ lookup q m.disk)
Leaves m (edit_file_task path old_str new_str replace_all) q disk r =
    (q ≡ m.platform.file_of path) ⊎ (lookup q disk ≡ lookup q m.disk)
Leaves m _ q disk r = disk ≡ m.disk

write_back-other :
    (e : Platform) (made : Bool) (path content stdout q : Text) (disk : Map Text Text)
    → q ≢ e.file_of path
    → lookup q (write_back e made path content stdout disk).0 ≡ lookup q disk
write_back-other e made path content stdout q disk h =
    ground (arith, h, lookup-insert q (e.file_of path) content disk)

write_task-other :
    (e : Platform) (t : WriteFileRequest) (q : Text) (disk : Map Text Text)
    → q ≢ e.file_of t.path
    → lookup q (write_task e t disk).0 ≡ lookup q disk
unfolding write_task
write_task-other e t q disk h = ground (
  arith,
  write_back-other e true t.path t.content [] q disk h,
  write_back-other e false t.path t.content [] q disk h,
)

edit_task-other :
    (e : Platform) (t : EditFileRequest) (q : Text) (disk : Map Text Text)
    → q ≢ e.file_of t.path
    → lookup q (edit_task e t disk).0 ≡ lookup q disk
unfolding edit_task
edit_task-other e t q disk h = elim (Option-cases (lookup (e.file_of t.path) disk)) [
  | inl f ↦ ground (arith, f)
  | inr (content, f) ↦ ground (
    arith,
    f,
    write_back-other e false t.path (replace_all content t.old_str t.new_str)
        (e.replaced (count content t.old_str)) q disk h,
    write_back-other e false t.path (replace content t.old_str t.new_str 1) (e.replaced 1) q disk h,
  )
]

payload-Leaves :
    (m : Machine) (payload : Payload) (disk : Map Text Text) (r r' : Report) (q : Text)
    → run_payload m payload ≡ some (disk, r)
    → r'.result.stdout ≡ r.result.stdout
    → r'.stderr ≡ r.stderr
    → r'.exit_code ≡ r.exit_code
    → Leaves m payload q disk r'
unfolding run_payload
payload-Leaves m (exec_task cmd) disk r r' q e out err code =
    (ground (arith, e), ground (arith, e, out), ground (arith, e, err), ground (arith, e, code))
payload-Leaves m (read_file_task path max_bytes offset limit) disk r r' q e out err code =
    ground (arith, e)
payload-Leaves m (write_file_task path content create_dirs) disk r r' q e out err code =
    let t : WriteFileRequest = record {
      path = path;
      content = content;
      create_dirs = create_dirs;
    } in
    elim (list_eq.dec q (m.platform.file_of path)) [
      | yes same ↦ inl same
      | no other ↦ inr (ground (arith, e, write_task-other m.platform t q m.disk other))
    ]
payload-Leaves m (edit_file_task path old_str new_str all) disk r r' q e out err code =
    let t : EditFileRequest = record {
      path = path;
      old_str = old_str;
      new_str = new_str;
      replace_all = all;
    } in
    elim (list_eq.dec q (m.platform.file_of path)) [
      | yes same ↦ inl same
      | no other ↦ inr (ground (arith, e, edit_task-other m.platform t q m.disk other))
    ]
payload-Leaves m (glob_task path pattern) disk r r' q e out err code =
    elim (Option-cases
      (Walk.glob_task m.segment (m.full_path path) m.too_many_error pattern (m.directory path))) [
        | inl f ↦ ground (arith, e, f)
        | inr (res, f) ↦ ground (arith, e, f)
      ]
payload-Leaves m (list_task path depth) disk r r' q e out err code = ground (arith, e)

-- No task says of itself that it has timed out.
listing_status : (a : Answer Walk.Found) → (Walk.listing a).status ≢ status_timeout
listing_status (fails_with error) = λ e. cc
listing_status (gives f) = λ e. cc

write_back_status :
    (e : Platform) (made : Bool) (path content stdout : Text) (disk : Map Text Text)
    → (write_back e made path content stdout disk).1.status ≢ status_timeout
write_back_status e made path content stdout disk = elim (Option-cases (e.write_error made path)) [
  | inl f ↦ λ h. ground (arith, h, f)
  | inr (error, f) ↦ λ h. ground (arith, h, f)
]

edit_task_status :
    (e : Platform) (t : EditFileRequest) (disk : Map Text Text)
    → (edit_task e t disk).1.status ≢ status_timeout
unfolding edit_task
edit_task_status e t disk h = elim (Option-cases (lookup (e.file_of t.path) disk)) [
  | inl f ↦ ground (arith, h, f)
  | inr (content, f) ↦ ground (
    arith,
    h,
    f,
    write_back_status e false t.path (replace_all content t.old_str t.new_str)
        (e.replaced (count content t.old_str)) disk,
    write_back_status e false t.path (replace content t.old_str t.new_str 1) (e.replaced 1) disk,
  )
]

write_task_status :
    (e : Platform) (t : WriteFileRequest) (disk : Map Text Text)
    → (write_task e t disk).1.status ≢ status_timeout
unfolding write_task
write_task_status e t disk h = ground (
  arith,
  h,
  write_back_status e true t.path t.content [] disk,
  write_back_status e false t.path t.content [] disk,
)

read_task_status :
    (open_file : Text → Answer Text) (ended : ℕ → Bool) (context_error : Text) (t : ReadFileRequest)
    → (read_task open_file ended context_error t).status ≢ status_timeout
unfolding read_task
read_task_status open_file ended context_error t h = ground (arith, h)

expansion_cases :
    (x : Expansion)
    → ((patterns : List Text) × (x ≡ variants patterns))
      ⊎ ((x ≡ too_many) ⊎ ((x ≡ crashes) ⊎ (x ≡ out_of_fuel)))
expansion_cases (variants patterns) = inl (patterns, refl)
expansion_cases too_many = inr (inl refl)
expansion_cases crashes = inr (inr (inl refl))
expansion_cases out_of_fuel = inr (inr (inr refl))

glob_status :
    (segment : Text → Text → Bool) (full : Text → Text) (too_many_error pattern : Text)
    (root : Answer Walk.Tree) (res : TaskResult)
    → Walk.glob_task segment full too_many_error pattern root ≡ some res
    → res.status ≢ status_timeout
unfolding Walk.glob_task
glob_status segment full too_many_error pattern root res e h =
    let given = Walk.without_root pattern in
    elim (expansion_cases (expand_braces (suc (length given)) given)) [
      | inl (patterns, f) ↦
          let found =
            Walk.walk_root Walk.max_glob_results (Walk.glob_pick segment full patterns) Walk.never
              root in
          ground (arith, e, f, h, listing_status found)
      | inr (inl f) ↦ ground (arith, e, f, h)
      | inr (inr (inl f)) ↦ ground (arith, e, f, h)
      | inr (inr (inr f)) ↦ ground (arith, e, f, h)
    ]

list_status :
    (depth : ℕ) (root : Answer Walk.Tree) → (Walk.list_task depth root).status ≢ status_timeout
unfolding Walk.list_task
list_status depth root = listing_status (
    Walk.walk_root Walk.max_list_entries (Walk.list_pick (max depth 1))
      (Walk.too_deep (max depth 1)) root)

payload_status :
    (m : Machine) (payload : Payload) (disk : Map Text Text) (r : Report)
    → run_payload m payload ≡ some (disk, r)
    → r.result.status ≢ status_timeout
unfolding run_payload
payload_status m (exec_task cmd) disk r e h = elim (Option-cases (m.run_shell cmd).1.error) [
  | inl f ↦ ground (arith, e, f, h)
  | inr (x, f) ↦ ground (arith, e, f, h)
]
payload_status m (read_file_task path max_bytes offset limit) disk r e h = ground (
  arith,
  e,
  h,
  read_task_status m.open_file m.ended m.context_error
      (record { path = path; max_bytes = max_bytes; offset = offset; limit = limit }),
)
payload_status m (write_file_task path content create_dirs) disk r e h = ground (
  arith,
  e,
  h,
  write_task_status m.platform
      (record { path = path; content = content; create_dirs = create_dirs }) m.disk,
)
payload_status m (edit_file_task path old_str new_str all) disk r e h = ground (
  arith,
  e,
  h,
  edit_task_status m.platform
      (record { path = path; old_str = old_str; new_str = new_str; replace_all = all }) m.disk,
)
payload_status m (glob_task path pattern) disk r e h =
    elim (Option-cases
      (Walk.glob_task m.segment (m.full_path path) m.too_many_error pattern (m.directory path))) [
        | inl f ↦ ground (arith, e, f)
        | inr (res, f) ↦
            let apart =
              glob_status m.segment (m.full_path path) m.too_many_error pattern (m.directory path)
                res f in
            ground (arith, e, f, h, apart)
      ]
payload_status m (list_task path depth) disk r e h =
    ground (arith, e, h, list_status depth (m.directory path))

-- A task that Execute brings to an end, also a shell command: the result bears the task's id, and it is
-- marked as timed out if the time-out has passed, and only then. A command leaves the disk as the shell does, and
-- the result has its output and its exit code, time-out or not. A write or an edit changes at most the
-- file that its path stands for, and the other tasks change none.
pub execute_effects :
    (m : Machine) (unknown_error task_id : Text) (timed_out : Bool) (payload : Payload)
    (disk : Map Text Text) (r : Report) (q : Text)
    → execute m unknown_error task_id timed_out (some payload) ≡ some (disk, r)
    → (r.task_id ≡ task_id)
      × (((timed_out ≡ false) × (r.result.status ≢ status_timeout))
          ⊎ ((timed_out ≡ true)
              × (r.result.status ≡ status_timeout)
              × (r.result.error ≡ timeout_text)))
      × Leaves m payload q disk r
unfolding execute
execute_effects m unknown_error task_id timed_out payload disk r q e =
    elim (Option-cases (run_payload m payload)) [
      | inl f ↦ ground (arith, e, f)
      | inr ((disk', r'), f) ↦
          let same : disk' ≡ disk = ground (arith, e, f) in
          let marked : mark task_id timed_out timeout_text r' ≡ r = ground (arith, e, f) in
          (
            ground (arith, marked),
            elim (Bool-cases timed_out) [
              | inr late ↦
                  inl (
                    late,
                    λ h. payload_status m payload disk' r' f (ground (arith, marked, late, h)),
                  )
              | inl late ↦ inr (late, ground (arith, marked, late), ground (arith, marked, late))
            ],
            subst (λ d. Leaves m payload q d r) same
                (payload-Leaves m payload disk' r' r q f (ground (arith, marked))
                  (ground (arith, marked)) (ground (arith, marked))),
          )
    ]
