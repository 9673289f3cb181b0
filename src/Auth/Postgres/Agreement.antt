-- ===== src/Auth/Postgres/Agreement.antt =====
-- The one-time codes of internal/auth/store/postgres against those of internal/auth/store/memory.
use akira_mcp.Base.{
  ℕ, ◌≤◌, ◌<◌, ◌≡◌, ◌≢◌, ◌⊎◌, inl, inr, true, false, not, List, [], ◌∷◌, map, Option, none, some,
  Option-cases, Bool-cases, list_eq, nat_eq, ltb, arith, refl, ap, sym, subst, ◌∙◌,
}
use akira_mcp.Base.Map.{
  Map, lookup, insert, erase, retain, keep_if, lookup-insert, lookup-erase, lookup-retain,
}
use akira_mcp.Base.Text.{Text}
use akira_mcp.Auth.Types.{Result, ok, err, oauth_code_not_found, OAuthCode}
use akira_mcp.Auth.Memory.{Store}
use akira_mcp.Auth.Memory.OAuth
use akira_mcp.Auth.Postgres.{Tables, micros}
use akira_mcp.Auth.Postgres.OAuth as Sql
use akira_mcp.Auth.Postgres.OAuth.{code_row}

less_true : (m n : ℕ) → m < n → ltb m n ≡ true
less_true m n h = ground (arith, h)

-- The calls on codes, and what they return.
pub data Call : Type 0 where
  saves : OAuthCode → Call
  consumes : (hash : Text) → Call

abbrev pub Outcome : Type 0
Outcome = Result (Unit {0}) ⊎ Result OAuthCode

-- What the database gives back of what was stored: the times of a code in microseconds.
abbrev pub in_micros : Outcome → Outcome
in_micros (inr (ok code)) = inr (ok (code_row code))
in_micros o = o

-- At a hash, the database has the same code in microseconds, or one that has expired and that the
-- memory has dropped.
abbrev pub Agrees : ℕ → Option OAuthCode → Option OAuthCode → Type 0
Agrees now none none = Unit
Agrees now none (some row) = row.expires_at ≤ micros now
Agrees now (some code) none = ⊥
Agrees now (some code) (some row) = row ≡ code_row code

abbrev pub SameCodes : ℕ → Map Text OAuthCode → Map Text OAuthCode → Type 0
SameCodes now codes rows = (hash : Text) → Agrees now (lookup hash codes) (lookup hash rows)

unfoldable pub memory_call : ℕ → Store → Call → Store × Outcome
memory_call now s (saves code) = let r = OAuth.save_oauth_code code now s in (r.0, inl r.1)
memory_call now s (consumes hash) = let r = OAuth.consume_oauth_code hash now s in (r.0, inr r.1)

unfoldable pub sql_call : ℕ → Tables → Call → Tables × Outcome
sql_call now t (saves code) = let r = Sql.save_oauth_code code t in (r.0, inl r.1)
sql_call now t (consumes hash) = let r = Sql.consume_oauth_code hash now t in (r.0, inr r.1)

-- What the calls return, each made at its own time.
unfoldable pub memory_outcomes : Store → List (ℕ × Call) → List Outcome
memory_outcomes s [] = []
memory_outcomes s ((now, c) ∷ cs) =
    (memory_call now s c).1 ∷ memory_outcomes (memory_call now s c).0 cs

unfoldable pub sql_outcomes : Tables → List (ℕ × Call) → List Outcome
sql_outcomes t [] = []
sql_outcomes t ((now, c) ∷ cs) = (sql_call now t c).1 ∷ sql_outcomes (sql_call now t c).0 cs

-- A new code has a hash of its own, and no code is used within the microsecond of its expiry.
abbrev pub Allowed : ℕ → Tables → Call → Type 0
Allowed now t (saves code) = lookup code.code_hash t.oauth_codes ≡ none
Allowed now t (consumes hash) =
    (row : OAuthCode) → lookup hash t.oauth_codes ≡ some row → row.expires_at ≢ micros now

-- Time does not go back, and each call is allowed.
abbrev pub Orderly : ℕ → Tables → List (ℕ × Call) → Type 0
Orderly before t [] = Unit
Orderly before t ((now, c) ∷ cs) =
    (before ≤ now) × (Allowed now t c × Orderly now (sql_call now t c).0 cs)

micros_mono : (m n : ℕ) → m ≤ n → micros m ≤ micros n
micros_mono m n h = omega (arith, h)

Agrees-later :
    (now later : ℕ) (o o' : Option OAuthCode) → now ≤ later → Agrees now o o' → Agrees later o o'
Agrees-later now later none none h agree = tt
Agrees-later now later none (some row) h agree = omega (arith, agree, micros_mono now later h)
Agrees-later now later (some code) none h agree = agree
Agrees-later now later (some code) (some row) h agree = agree

-- The memory drops what has expired.
Agrees-retain :
    (now : ℕ) (o o' : Option OAuthCode)
    → Agrees now o o'
    → Agrees now (keep_if (λ c. not (ltb c.expires_at now)) o) o'
Agrees-retain now none none agree = tt
Agrees-retain now none (some row) agree = agree
Agrees-retain now (some code) none agree = absurd agree
Agrees-retain now (some code) (some row) agree = elim (Bool-cases (ltb code.expires_at now)) [
  | inl e ↦
      let older = micros_mono code.expires_at now (ground (arith, e)) in
      let same = ap (λ c. c.expires_at) agree in rw (e, keep_if) (omega (arith, older, same))
  | inr e ↦ rw (e, keep_if) agree
]

-- Equal maps of a hash agree as they did.
Agrees-at :
    (now : ℕ) (m m' o o' : Option OAuthCode) → m ≡ o → m' ≡ o' → Agrees now o o' → Agrees now m m'
Agrees-at now m m' o o' e e' agree =
    subst (λ x. Agrees now x m') (sym e) (subst (λ x. Agrees now o x) (sym e') agree)

-- One call at `now`: the same outcome, and the stores agree again.
abbrev CallAgrees : ℕ → Call → Store → Tables → Type 0
CallAgrees now c s t =
    (in_micros (memory_call now s c).1 ≡ (sql_call now t c).1)
    × SameCodes now (memory_call now s c).0.codes (sql_call now t c).0.oauth_codes

agrees_at :
    (now : ℕ) (c : Call) (s : Store) (t : Tables) (x : Store × Outcome) (y : Tables × Outcome)
    → memory_call now s c ≡ x
    → sql_call now t c ≡ y
    → in_micros x.1 ≡ y.1
    → SameCodes now x.0.codes y.0.oauth_codes
    → CallAgrees now c s t
agrees_at now c s t x y m q same agree = (
  ap (λ r. in_micros r.1) m ∙ (same ∙ ap (λ r. r.1) (sym q)),
  λ hash.
      Agrees-at now _ _ _ _ (ap (λ r. lookup hash r.0.codes) m)
        (ap (λ r. lookup hash r.0.oauth_codes) q) (agree hash),
)

saves_agree :
    (now : ℕ) (code : OAuthCode) (s : Store) (t : Tables)
    → lookup code.code_hash t.oauth_codes ≡ none
    → SameCodes now s.codes t.oauth_codes
    → CallAgrees now (saves code) s t
unfolding memory_call sql_call OAuth.save_oauth_code Sql.save_oauth_code
saves_agree now code s t fresh agree =
    let kept = retain (λ c. not (ltb c.expires_at now)) s.codes in
    let row = code_row code in
    let inserted : (sql_call now t (saves code)).0.oauth_codes
        ≡ insert code.code_hash row t.oauth_codes =
      ground (arith, fresh) in
    (
      ground (arith, fresh),
      λ hash. elim (list_eq.dec hash code.code_hash) [
        | yes e ↦
            Agrees-at now _ _ (some code) (some row)
              (ground (arith, e, lookup-insert hash code.code_hash code kept))
              (ap (λ m. lookup hash m) inserted
                ∙ ground (arith, e, lookup-insert hash code.code_hash row t.oauth_codes))
              refl
        | no e ↦
            Agrees-at now _ _ (lookup hash kept) (lookup hash t.oauth_codes)
              (ground (arith, e, lookup-insert hash code.code_hash code kept))
              (ap (λ m. lookup hash m) inserted
                ∙ ground (arith, e, lookup-insert hash code.code_hash row t.oauth_codes))
              (Agrees-at now _ _ _ (lookup hash t.oauth_codes)
                (lookup-retain hash (λ c. not (ltb c.expires_at now)) s.codes) refl
                (Agrees-retain now (lookup hash s.codes) (lookup hash t.oauth_codes) (agree hash)))
      ],
    )

-- Two maps that agree, after both have lost a hash, or the memory one that has expired.
erase_agrees :
    (now : ℕ) (hash : Text) (codes rows : Map Text OAuthCode)
    → SameCodes now codes rows
    → SameCodes now (erase hash codes) (erase hash rows)
erase_agrees now hash codes rows agree h = elim (list_eq.dec h hash) [
  | yes e ↦
      Agrees-at now _ _ none none (ground (arith, e, lookup-erase h hash codes))
        (ground (arith, e, lookup-erase h hash rows)) tt
  | no e ↦
      Agrees-at now _ _ (lookup h codes) (lookup h rows)
        (ground (arith, e, lookup-erase h hash codes)) (ground (arith, e, lookup-erase h hash rows))
        (agree h)
]

drop_agrees :
    (now : ℕ) (hash : Text) (codes rows : Map Text OAuthCode) (row : OAuthCode)
    → SameCodes now codes rows
    → lookup hash rows ≡ some row
    → row.expires_at ≤ micros now
    → SameCodes now (erase hash codes) rows
drop_agrees now hash codes rows row agree there old h = elim (list_eq.dec h hash) [
  | yes e ↦
      Agrees-at now _ _ none (some row) (ground (arith, e, lookup-erase h hash codes))
        (ap (λ k. lookup k rows) e ∙ there) old
  | no e ↦
      Agrees-at now _ _ (lookup h codes) (lookup h rows)
        (ground (arith, e, lookup-erase h hash codes)) refl (agree h)
]

consumes_agree :
    (now : ℕ) (hash : Text) (s : Store) (t : Tables)
    → ((row : OAuthCode) → lookup hash t.oauth_codes ≡ some row → row.expires_at ≢ micros now)
    → SameCodes now s.codes t.oauth_codes
    → CallAgrees now (consumes hash) s t
unfolding memory_call sql_call OAuth.consume_oauth_code Sql.consume_oauth_code
consumes_agree now hash s t moment agree =
    let here = agree hash in
    let erased : Store = record s { codes = erase hash s.codes } in
    let gone : Outcome = inr (err oauth_code_not_found) in
    elim (Option-cases (lookup hash s.codes)) [
      | inl e ↦
          let m : memory_call now s (consumes hash) ≡ (s, gone) = ground (arith, e) in
          elim (Option-cases (lookup hash t.oauth_codes)) [
            | inl f ↦
                agrees_at now (consumes hash) s t (s, gone) (t, gone) m (ground (arith, f)) refl
                  agree
            | inr (row, f) ↦
                let old : row.expires_at ≤ micros now =
                  subst (λ o. Agrees now none o) f
                    (subst (λ o. Agrees now o (lookup hash t.oauth_codes)) e here) in
                let late : ltb (micros now) row.expires_at ≡ false = ground (arith, old) in
                agrees_at now (consumes hash) s t (s, gone) (t, gone) m (ground (arith, f, late))
                  refl agree
          ]
      | inr (code, e) ↦ elim (Option-cases (lookup hash t.oauth_codes)) [
        | inl f ↦ absurd (
            subst (λ o. Agrees now (some code) o) f
              (subst (λ o. Agrees now o (lookup hash t.oauth_codes)) e here))
        | inr (row, f) ↦
            let same : row ≡ code_row code =
              subst (λ o. Agrees now (some code) o) f
                (subst (λ o. Agrees now o (lookup hash t.oauth_codes)) e here) in
            let apart = moment row f in
            let expiry : row.expires_at ≡ micros code.expires_at = ap (λ c. c.expires_at) same in
            elim (Bool-cases (ltb code.expires_at now)) [
              | inl g ↦
                  let older : row.expires_at ≤ micros now =
                    omega (arith, expiry, micros_mono code.expires_at now (ground (arith, g))) in
                  let late : ltb (micros now) row.expires_at ≡ false = ground (arith, older) in
                  agrees_at now (consumes hash) s t (erased, gone) (t, gone) (ground (arith, e, g))
                    (ground (arith, f, late)) refl
                    (drop_agrees now hash s.codes t.oauth_codes row agree f older)
              | inr g ↦
                  let newer = micros_mono now code.expires_at (ground (arith, g)) in
                  let live : ltb (micros now) row.expires_at ≡ true =
                    less_true (micros now) row.expires_at (omega (arith, newer, expiry, apart)) in
                  agrees_at now (consumes hash) s t (erased, inr (ok code))
                    (record t { oauth_codes = erase hash t.oauth_codes }, inr (ok row))
                    (ground (arith, e, g)) (ground (arith, f, live))
                    (ap (λ c. inr (ok c)) (sym same))
                    (erase_agrees now hash s.codes t.oauth_codes agree)
            ]
      ]
    ]

call_agrees :
    (now : ℕ) (c : Call) (s : Store) (t : Tables)
    → Allowed now t c
    → SameCodes now s.codes t.oauth_codes
    → CallAgrees now c s t
call_agrees now (saves code) s t allowed agree = saves_agree now code s t allowed agree
call_agrees now (consumes hash) s t allowed agree = consumes_agree now hash s t allowed agree

-- The database holds the codes of the memory, their times in microseconds, and perhaps some that have
-- expired. Then any calls that save and consume codes, at times that do not go back, return the same
-- from both stores, but for the times, which the database gives back in microseconds; provided that
-- each saved code has a hash that the table does not have, and that no code is used within the
-- microsecond of its expiry.
pub codes_agree :
    (before : ℕ) (cs : List (ℕ × Call)) (s : Store) (t : Tables)
    → SameCodes before s.codes t.oauth_codes
    → Orderly before t cs
    → map in_micros (memory_outcomes s cs) ≡ sql_outcomes t cs
unfolding memory_outcomes sql_outcomes
codes_agree before [] s t agree orderly = refl
codes_agree before ((now, c) ∷ cs) s t agree orderly =
    let (after, (allowed, rest)) = orderly in
    let here : SameCodes now s.codes t.oauth_codes =
      λ hash. Agrees-later before now _ _ after (agree hash) in
    let (same, agree') = call_agrees now c s t allowed here in
    rw same (
      ap (λ os. (sql_call now t c).1 ∷ os)
        (codes_agree now cs (memory_call now s c).0 (sql_call now t c).0 agree' rest))
