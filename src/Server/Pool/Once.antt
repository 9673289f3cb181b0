-- ===== src/Server/Pool/Once.antt =====
-- The invariant behind "woken at most once", over the pending map of pool/pending.go and the log of
-- what was sent to the waiters: dropping, waking, adding and failing entries keep it.
use akira_mcp.Base.{
  ℕ, suc, ◌<◌, ◌≡◌, ◌≢◌, Bool, not, List, [], ◌∷◌, ◌++◌, none, some, ◌==◌, list_eq, nat_eq, arith,
  All, refl,
}
use akira_mcp.Base.Map.{
  Map, lookup, insert, erase, retain, NodupKeys, All-erase, All-retain, All-lookup,
}
use akira_mcp.Base.Text.{Text}
use akira_mcp.Server.Pool.{PendingEntry, Delivery, failed, connection_closed}
use akira_mcp.Server.Pool.Pending.{failures}

abbrev pub Below : ℕ → Text × PendingEntry → Type 0
Below n (_, e) = e.ticket < n

abbrev pub Unwoken : List (ℕ × Delivery) → Text × PendingEntry → Type 0
Unwoken log (_, e) = lookup e.ticket log ≡ none

abbrev pub OtherTicket : ℕ → Text × PendingEntry → Type 0
OtherTicket t (_, e) = e.ticket ≢ t

abbrev pub TicketsDiffer : Map Text PendingEntry → Type 0
TicketsDiffer [] = Unit
TicketsDiffer ((_, e) ∷ m) = All (OtherTicket e.ticket) m × TicketsDiffer m

abbrev pub LogBelow : ℕ → ℕ × Delivery → Type 0
LogBelow n (t, _) = t < n

-- Over the three parts of a pool that matter.
pub record Once (pending : Map Text PendingEntry) (log : List (ℕ × Delivery)) (next : ℕ)
    : Type 0 where
  pub below : All (Below next) pending
  pub log_below : All (LogBelow next) log
  pub differ : TicketsDiffer pending
  pub unwoken : All (Unwoken log) pending
  pub nodup : NodupKeys log

erase-TicketsDiffer :
    (k : Text) (m : Map Text PendingEntry) → TicketsDiffer m → TicketsDiffer (erase k m)
unfolding erase
erase-TicketsDiffer k [] d = tt
erase-TicketsDiffer k ((j, e) ∷ m) d =
    ground (arith, erase-TicketsDiffer k m d.1, All-erase (OtherTicket e.ticket) k m d.0)

retain-TicketsDiffer :
    (p : PendingEntry → Bool) (m : Map Text PendingEntry)
    → TicketsDiffer m
    → TicketsDiffer (retain p m)
unfolding retain
retain-TicketsDiffer p [] d = tt
retain-TicketsDiffer p ((j, e) ∷ m) d = ground (
  arith,
  retain-TicketsDiffer p m d.1,
  All-retain (OtherTicket e.ticket) p m d.0,
  erase-TicketsDiffer j (retain p m),
)

-- Dropping an entry wakes nobody.
pub erase-Once :
    (k : Text) {m : Map Text PendingEntry} {log : List (ℕ × Delivery)} {n : ℕ}
    → Once m log n
    → Once (erase k m) log n
erase-Once k {m} {log} {n} o = record {
  below = All-erase (Below n) k m o.below;
  log_below = o.log_below;
  differ = erase-TicketsDiffer k m o.differ;
  unwoken = All-erase (Unwoken log) k m o.unwoken;
  nodup = o.nodup;
}

-- Waking the one with a ticket that no other entry has.
Unwoken-other :
    (t : ℕ) (d : Delivery) (m : Map Text PendingEntry) (log : List (ℕ × Delivery))
    → All (OtherTicket t) m
    → All (Unwoken log) m
    → All (Unwoken ((t, d) ∷ log)) m
unfolding lookup
Unwoken-other t d [] log o u = tt
Unwoken-other t d ((j, e) ∷ m) log o u = (ground (arith, o.0), Unwoken-other t d m log o.1 u.1)

-- Once the first entry of a name is out, no entry has its ticket.
others-of :
    (k : Text) (e : PendingEntry) (m : Map Text PendingEntry)
    → TicketsDiffer m
    → lookup k m ≡ some e
    → All (OtherTicket e.ticket) (erase k m)
unfolding lookup erase
others-of k e [] d h = tt
others-of k e ((j, f) ∷ m) d h = elim (list_eq.dec k j) [
  | yes p ↦ ground (arith, All-erase (OtherTicket f.ticket) k m d.0)
  | no p ↦
      let found : lookup k m ≡ some e = ground arith in
      ground (arith, others-of k e m d.1 found, All-lookup (OtherTicket f.ticket) k e m d.0 found)
]

pub wake-Once :
    (k : Text) (e : PendingEntry) (d : Delivery) {m : Map Text PendingEntry}
    {log : List (ℕ × Delivery)} {n : ℕ}
    → lookup k m ≡ some e
    → Once m log n
    → Once (erase k m) ((e.ticket, d) ∷ log) n
wake-Once k e d {m} {log} {n} h o = record {
  below = All-erase (Below n) k m o.below;
  log_below = (All-lookup (Below n) k e m o.below h, o.log_below);
  differ = erase-TicketsDiffer k m o.differ;
  unwoken =
      Unwoken-other e.ticket d (erase k m) log (others-of k e m o.differ h)
        (All-erase (Unwoken log) k m o.unwoken);
  nodup = (All-lookup (Unwoken log) k e m o.unwoken h, o.nodup);
}

-- Failing the entries of one owner.
module _ (owner : Text) (log : List (ℕ × Delivery)) where
  pub lookup-failures_other :
      (t : ℕ) (m : Map Text PendingEntry)
      → All (OtherTicket t) m
      → lookup t (failures owner m ++ log) ≡ lookup t log
  unfolding lookup
  lookup-failures_other t [] o = refl
  lookup-failures_other t ((j, e) ∷ m) o = ground (arith, o.0, lookup-failures_other t m o.1)

  failures-NodupKeys :
      (m : Map Text PendingEntry)
      → TicketsDiffer m
      → All (Unwoken log) m
      → NodupKeys log
      → NodupKeys (failures owner m ++ log)
  failures-NodupKeys [] d u n = n
  failures-NodupKeys ((j, e) ∷ m) d u n =
      ground (arith, failures-NodupKeys m d.1 u.1 n, lookup-failures_other e.ticket m d.0, u.0)

  failures-LogBelow :
      (n : ℕ) (m : Map Text PendingEntry)
      → All (Below n) m
      → All (LogBelow n) log
      → All (LogBelow n) (failures owner m ++ log)
  failures-LogBelow n [] b l = l
  failures-LogBelow n ((j, e) ∷ m) b l = ground (arith, b.0, failures-LogBelow n m b.1 l)

  failures-Unwoken :
      (m : Map Text PendingEntry)
      → TicketsDiffer m
      → All (Unwoken log) m
      → All (Unwoken (failures owner m ++ log)) (retain (λ e. not (e.owner == owner)) m)
  unfolding retain
  failures-Unwoken [] d u = tt
  failures-Unwoken ((j, e) ∷ m) d u =
      let p = λ (f : PendingEntry). not (f.owner == owner) in
      let rest = failures-Unwoken m d.1 u.1 in
      ground (
        arith,
        u.0,
        rest,
        lookup-failures_other e.ticket m d.0,
        Unwoken-other e.ticket (failed connection_closed) (erase j (retain p m))
            (failures owner m ++ log)
            (All-erase (OtherTicket e.ticket) j (retain p m)
              (All-retain (OtherTicket e.ticket) p m d.0))
            (All-erase (Unwoken (failures owner m ++ log)) j (retain p m) rest),
      )

  pub fail_all-Once :
      (m : Map Text PendingEntry) (n : ℕ)
      → Once m log n
      → Once (retain (λ e. not (e.owner == owner)) m) (failures owner m ++ log) n
  fail_all-Once m n o =
      let p = λ (f : PendingEntry). not (f.owner == owner) in
      record {
        below = All-retain (Below n) p m o.below;
        log_below = failures-LogBelow n m o.below o.log_below;
        differ = retain-TicketsDiffer p m o.differ;
        unwoken = failures-Unwoken m o.differ o.unwoken;
        nodup = failures-NodupKeys m o.differ o.unwoken o.nodup;
      }

-- A number below `n` is below `n + 1`; a new ticket is no ticket in use.
Below-suc : (n : ℕ) (m : Map Text PendingEntry) → All (Below n) m → All (Below (suc n)) m
Below-suc n [] b = tt
Below-suc n (_ ∷ m) b = (omega arith, Below-suc n m b.1)

LogBelow-suc : (n : ℕ) (l : List (ℕ × Delivery)) → All (LogBelow n) l → All (LogBelow (suc n)) l
LogBelow-suc n [] b = tt
LogBelow-suc n (_ ∷ l) b = (omega arith, LogBelow-suc n l b.1)

pub fresh_ticket : (n : ℕ) (m : Map Text PendingEntry) → All (Below n) m → All (OtherTicket n) m
fresh_ticket n [] b = tt
fresh_ticket n (_ ∷ m) b = (omega arith, fresh_ticket n m b.1)

pub fresh_in_log : (n : ℕ) (l : List (ℕ × Delivery)) → All (LogBelow n) l → lookup n l ≡ none
unfolding lookup
fresh_in_log n [] b = refl
fresh_in_log n ((t, d) ∷ l) b = ground (arith, b.0, fresh_in_log n l b.1)

pub next-Once :
    {m : Map Text PendingEntry} {log : List (ℕ × Delivery)} {n : ℕ}
    → Once m log n
    → Once m log (suc n)
next-Once {m} {log} {n} o = record {
  below = Below-suc n m o.below;
  log_below = LogBelow-suc n log o.log_below;
  differ = o.differ;
  unwoken = o.unwoken;
  nodup = o.nodup;
}

pub add-Once :
    (k owner : Text) {m : Map Text PendingEntry} {log : List (ℕ × Delivery)} {n : ℕ}
    → Once m log n
    → Once (insert k (record { ticket = n; owner = owner }) m) log (suc n)
unfolding insert
add-Once k owner {m} {log} {n} o =
    let rest = erase-Once k o in
    record {
      below = (omega arith, Below-suc n (erase k m) rest.below);
      log_below = LogBelow-suc n log o.log_below;
      differ = (fresh_ticket n (erase k m) rest.below, rest.differ);
      unwoken = (fresh_in_log n log o.log_below, rest.unwoken);
      nodup = o.nodup;
    }
