-- ===== src/Llm/Budget/Ledger.antt =====
-- llm/budget.rs: the invariant of the ledger, and what `reserve` does to it.
use mathlib.Core.Path.{subst}
use kokoro_koe.Prelude.{
  ℕ, ◌+◌, ◌-◌, ◌*◌, ◌≤◌, ◌<◌, ◌≡◌, refl, sym, ◌⊎◌, inl, inr, [], ◌∷◌, Option, none, some, arith,
  ◌==◌, ==_iff, ◌∙◌, if◌then◌else◌, length, sum_by, All, Bool-cases, Option-cases,
}
use kokoro_koe.Prelude.Maps.{
  Map, lookup, insert, Keyed, lookup-insert, Keyed-insert, Absent-of_lookup, sum_by-insert_new,
  length-insert_new, length-insert_old,
}
use kokoro_koe.Llm.Budget.{
  Session, Envelope, SessionLedger, PendingReservation, BudgetState, no_budget,
  max_tracked_sessions, max_pending_reservations, max_pending_reservations_per_session,
}
use kokoro_koe.Llm.Budget.Money.{ok, checked_add, u128_max}
use kokoro_koe.Llm.Budget.Ops.{Quote, open_ledger, project, book, pending_of}

-- What a pending reservation adds to the reserved amount and to the count of a session.
abbrev pub cost_of : ℕ → ℕ × PendingReservation → ℕ
cost_of sid (i, p) = if p.session_id == sid then p.reserved_cost else 0

abbrev pub one_of : ℕ → ℕ × PendingReservation → ℕ
one_of sid (i, p) = if p.session_id == sid then 1 else 0

-- The ledger agrees with the reservations that are pending for its session, and what is spent and
-- reserved is within the limit, unless nothing is.
pub record IsBalanced (sid : ℕ) (pending : Map PendingReservation) (l : SessionLedger)
    : Type 0 where
  pub reserved_sum : l.reserved ≡ sum_by (cost_of sid) pending
  pub counted : l.pending_count ≡ sum_by (one_of sid) pending
  pub capped : l.pending_count ≤ max_pending_reservations_per_session
  pub fits : l.baseline_actual + l.reconciled_actual + l.reserved ≤ u128_max
  pub within :
      (l.reconciled_actual + l.reserved ≡ 0)
      ⊎ (l.baseline_actual + l.reconciled_actual + l.reserved ≤ l.limit)

abbrev pub LedgerOk : ℕ → Map PendingReservation → Option SessionLedger → Type 0
LedgerOk sid pending none = (sum_by (cost_of sid) pending ≡ 0) × (sum_by (one_of sid) pending ≡ 0)
LedgerOk sid pending (some l) = IsBalanced sid pending l

-- A reservation holds the cost of all the tokens that it allows.
abbrev pub IsPriced : PendingReservation → Type 0
IsPriced p =
    (p.reserved_cost
      ≡ p.input_rate * p.input_token_ceiling + p.output_rate * p.output_token_ceiling)
    × (p.reserved_cost ≤ u128_max)

pub record Inv (st : BudgetState) : Type 0 where
  pub keyed_sessions : Keyed st.sessions
  pub keyed_pending : Keyed st.pending
  pub sessions_cap : length st.sessions ≤ max_tracked_sessions
  pub pending_cap : length st.pending ≤ max_pending_reservations
  pub priced : All (λ e. IsPriced e.1) st.pending
  pub ledgers : (sid : ℕ) → LedgerOk sid st.pending (lookup sid st.sessions)

pub no_budget-Inv : Inv no_budget
unfolding no_budget lookup
no_budget-Inv = record {
  keyed_sessions = tt;
  keyed_pending = tt;
  sessions_cap = omega arith;
  pending_cap = omega arith;
  priced = tt;
  ledgers = λ sid. (refl, refl);
}

-- Only the two sums matter.
pub LedgerOk-same :
    (sid : ℕ) (m m' : Map PendingReservation) (o : Option SessionLedger)
    → sum_by (cost_of sid) m' ≡ sum_by (cost_of sid) m
    → sum_by (one_of sid) m' ≡ sum_by (one_of sid) m
    → LedgerOk sid m o
    → LedgerOk sid m' o
LedgerOk-same sid m m' none c n h = (c ∙ h.0, n ∙ h.1)
LedgerOk-same sid m m' (some l) c n h = record {
  reserved_sum = h.reserved_sum ∙ sym c;
  counted = h.counted ∙ sym n;
  capped = h.capped;
  fits = h.fits;
  within = h.within;
}

-- The ledger that `reserve` goes on with.
pub record Open (st : BudgetState) (sid : ℕ) (l : SessionLedger) : Type 0 where
  reserved_sum : l.reserved ≡ sum_by (cost_of sid) st.pending
  counted : l.pending_count ≡ sum_by (one_of sid) st.pending
  room : l.pending_count < max_pending_reservations_per_session
  within :
      (l.reconciled_actual + l.reserved ≡ 0)
      ⊎ (l.baseline_actual + l.reconciled_actual + l.reserved ≤ l.limit)
  tracked : (l' : SessionLedger) → length (insert sid l' st.sessions) ≤ max_tracked_sessions

pub open_ledger-Open :
    (st : BudgetState) (sid : ℕ) (q : Quote) (l : SessionLedger)
    → Inv st
    → open_ledger st sid q ≡ ok l
    → Open st sid l
unfolding open_ledger
open_ledger-Open st sid q l v e = elim (Option-cases (lookup sid st.sessions)) [
  | inl h ↦
      let b = rw h at (v.ledgers sid) in
      let grown = λ (l' : SessionLedger). length-insert_new sid l' st.sessions h in
      record {
        reserved_sum = ground arith;
        counted = ground arith;
        room = ground arith;
        within = ground arith;
        tracked = λ l'. ground (arith, grown l');
      }
  | inr (m, h) ↦
      let b = rw h at (v.ledgers sid) in
      record {
        reserved_sum = ground arith;
        counted = ground arith;
        room = ground arith;
        within = ground arith;
        tracked = λ l'. ground (arith, length-insert_old sid l' m st.sessions h, v.sessions_cap);
      }
]

pub project_lem :
    (l : SessionLedger) (q : Quote) {r a : ℕ}
    → project l q ≡ ok (r, a)
    → (r ≡ l.reserved + q.reserved_cost)
      × (l.baseline_actual + l.reconciled_actual + r ≤ u128_max)
      × ((q.reserved_cost ≡ 0) ⊎ (l.baseline_actual + l.reconciled_actual + r ≤ l.limit))
      × (a ≡ l.limit - (l.baseline_actual + l.reconciled_actual + r))
unfolding project checked_add
project_lem l q e = ground arith

module _ (st : BudgetState) (i : ℕ) (s : Session) (e : Envelope) (q : Quote) where
  -- A new reservation adds its cost to its own session, and nothing to any other.
  booked_sums :
      (sid : ℕ)
      → lookup i st.pending ≡ none
      → (sum_by (cost_of sid) (insert i (pending_of s e q) st.pending)
          ≡ (if s.id == sid then q.reserved_cost else 0) + sum_by (cost_of sid) st.pending)
        × (sum_by (one_of sid) (insert i (pending_of s e q) st.pending)
            ≡ (if s.id == sid then 1 else 0) + sum_by (one_of sid) st.pending)
  booked_sums sid h = (
    sum_by-insert_new (cost_of sid) i (pending_of s e q) st.pending
        (Absent-of_lookup i st.pending h),
    sum_by-insert_new (one_of sid) i (pending_of s e q) st.pending
        (Absent-of_lookup i st.pending h),
  )

  All-insert :
      (m : Map PendingReservation)
      → IsPriced (pending_of s e q)
      → All (λ x. IsPriced x.1) m
      → All (λ x. IsPriced x.1) (insert i (pending_of s e q) m)
  unfolding insert
  All-insert [] p h = (p, tt)
  All-insert ((j, w) ∷ m) p h = elim (Bool-cases (j == i)) [
    | inl g ↦ rw g (p, h.1)
    | inr g ↦ rw g (h.0, All-insert m p h.1)
  ]

  booked_same :
      (l : SessionLedger) (r a : ℕ)
      → Inv st
      → Open st s.id l
      → lookup i st.pending ≡ none
      → project l q ≡ ok (r, a)
      → (sid : ℕ) → s.id ≡ sid
      → IsBalanced sid
          (insert i (pending_of s e q) st.pending)
          (record l { reserved = r; pending_count = l.pending_count + 1 })
  booked_same l r a v o h g sid same =
      subst
        (λ k.
          IsBalanced k (insert i (pending_of s e q) st.pending)
            (record l { reserved = r; pending_count = l.pending_count + 1 }))
        same (ground (arith, booked_sums s.id h, project_lem l q g))

  booked_ledgers :
      (l : SessionLedger) (r a : ℕ)
      → Inv st
      → Open st s.id l
      → lookup i st.pending ≡ none
      → project l q ≡ ok (r, a)
      → (sid : ℕ)
      → LedgerOk sid (book st i s e q l r).pending (lookup sid (book st i s e q l r).sessions)
  unfolding book
  booked_ledgers l r a v o h g sid = rw (lookup-insert s.id sid) (elim (Bool-cases (s.id == sid)) [
    | inl same ↦ rw same (booked_same l r a v o h g sid ((==_iff _ _).0 same))
    | inr other ↦ rw other (
        LedgerOk-same sid st.pending _ (lookup sid st.sessions) (ground (arith, booked_sums sid h))
          (ground (arith, booked_sums sid h)) (v.ledgers sid))
  ])

  pub book-Inv :
      (l : SessionLedger) (r a : ℕ)
      → Inv st
      → Open st s.id l
      → lookup i st.pending ≡ none
      → length st.pending < max_pending_reservations
      → IsPriced (pending_of s e q)
      → project l q ≡ ok (r, a)
      → Inv (book st i s e q l r)
  unfolding book
  book-Inv l r a v o h c p g = record {
    keyed_sessions = Keyed-insert s.id _ st.sessions v.keyed_sessions;
    keyed_pending = Keyed-insert i _ st.pending v.keyed_pending;
    sessions_cap = o.tracked _;
    pending_cap = ground (arith, length-insert_new i (pending_of s e q) st.pending h);
    priced = All-insert st.pending p v.priced;
    ledgers = booked_ledgers l r a v o h g;
  }
