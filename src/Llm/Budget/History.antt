-- ===== src/Llm/Budget/History.antt =====
-- llm/budget.rs: what holds after any calls, and what `reserve` books.
use kokoro_koe.Prelude.{
  ℕ, ◌+◌, ◌-◌, ◌*◌, ◌≤◌, ◌≡◌, ◌⊎◌, refl, inl, inr, List, [], ◌∷◌, none, some, arith,
}
use kokoro_koe.Prelude.Maps.{lookup, lookup-insert}
use kokoro_koe.Llm.Budget.{
  Session, Envelope, Model, Validators, SessionLedger, BudgetState, UsageReservation, no_budget,
}
use kokoro_koe.Llm.Budget.Money.{Result, ok, err, BudgetError, Result-cases}
use kokoro_koe.Llm.Budget.Ops.{
  Quote, quote, open_ledger, book, reserve_quote, reserve, pending_of, reservation_of,
}
use kokoro_koe.Llm.Budget.Settle.{Call, reserves, reconciles, releases, step, run}
use kokoro_koe.Llm.Budget.Ledger.{IsBalanced, Inv, no_budget-Inv}
use kokoro_koe.Llm.Budget.Reserve.{Booked, reserve_quote-Booked, reserve-Inv}
use kokoro_koe.Llm.Budget.Outcomes.{reconcile-Inv, release-Inv}

-- Every call keeps the invariant of the ledger.
pub Inv-of_step : (v : Validators) (st : BudgetState) (c : Call) → Inv st → Inv (step v st c)
unfolding step
Inv-of_step v st (reserves i s e m) inv = reserve-Inv v st i s e m inv
Inv-of_step v st (reconciles u) inv = reconcile-Inv st u inv
Inv-of_step v st (releases i j) inv = release-Inv st i j inv

pub run-Inv : (v : Validators) (st : BudgetState) (cs : List Call) → Inv st → Inv (run v st cs)
unfolding run
run-Inv v st [] inv = inv
run-Inv v st (c ∷ cs) inv = run-Inv v (step v st c) cs (Inv-of_step v st c inv)

-- After any calls, what a session has spent at the start, spent since and reserved is within its
-- limit, unless nothing was spent since and nothing is reserved.
pub spending_capped :
    (v : Validators) (cs : List Call) (sid : ℕ) (l : SessionLedger)
    → lookup sid (run v no_budget cs).sessions ≡ some l
    → (l.reconciled_actual + l.reserved ≡ 0)
      ⊎ (l.baseline_actual + l.reconciled_actual + l.reserved ≤ l.limit)
spending_capped v cs sid l h =
    let b : IsBalanced sid (run v no_budget cs).pending l =
      rw h at ((run-Inv v no_budget cs no_budget-Inv).ledgers sid) in
    b.within

-- What `reserve` books when it succeeds; when it fails it changes nothing.
pub data Reserved (v : Validators) (st : BudgetState) (i : ℕ) (s : Session) (e : Envelope)
    (m : Model) (out : BudgetState × Result UsageReservation) : Type 0 where
  refused : (x : BudgetError) → out ≡ (st, err x) → Reserved v st i s e m out
  booked :
      (q : Quote) (t : BudgetState) (u : UsageReservation)
      → quote v s e m ≡ ok q
      → Booked st i s e q t u
      → out ≡ (t, ok u)
      → Reserved v st i s e m out

pub reserve-Reserved :
    (v : Validators) (st : BudgetState) (i : ℕ) (s : Session) (e : Envelope) (m : Model)
    → Reserved v st i s e m (reserve v st i s e m)
unfolding reserve
reserve-Reserved v st i s e m = elim (Result-cases (quote v s e m)) [
  | inr (x, h) ↦ rw (h, reserve) (refused x refl)
  | inl (q, h) ↦
      rw (h, reserve)
        (elim (Result-cases (reserve_quote st i s e q)) [
          | inr (x, g) ↦ rw g (refused x refl)
          | inl ((t, u), g) ↦ rw g (booked q t u h (reserve_quote-Booked st i s e q t u g) refl)
        ])
]

-- A reservation that was accepted: it is new, holds the cost of all the tokens that it allows, and
-- is on the books of its session, whose limit it respects if it costs anything.
pub record Accepted (v : Validators) (st : BudgetState) (i : ℕ) (s : Session) (e : Envelope)
    (m : Model) (t : BudgetState) (u : UsageReservation) : Type 0 where
  pub amounts : Quote
  pub ledger : SessionLedger
  pub quoted : quote v s e m ≡ ok amounts
  pub cost :
      amounts.reserved_cost
      ≡ amounts.input_rate * e.input_token_limit + amounts.output_rate * e.maximum_output_tokens
  pub new : lookup i st.pending ≡ none
  pub listed : lookup i t.pending ≡ some (pending_of s e amounts)
  pub tracked : lookup s.id t.sessions ≡ some ledger
  pub snapshot : (ledger.limit ≡ amounts.limit) × (ledger.baseline_actual ≡ amounts.baseline_actual)
  pub within :
      (amounts.reserved_cost ≡ 0)
      ⊎ (ledger.baseline_actual + ledger.reconciled_actual + ledger.reserved ≤ ledger.limit)
  pub reply :
      u
      ≡ reservation_of i s e amounts
          (ledger.limit - (ledger.baseline_actual + ledger.reconciled_actual + ledger.reserved))

pub open_ledger_old :
    (st : BudgetState) (sid : ℕ) (q : Quote) (l k : SessionLedger)
    → open_ledger st sid q ≡ ok l
    → lookup sid st.sessions ≡ some k
    → l ≡ k
unfolding open_ledger
open_ledger_old st sid q l k h e = ground arith

module _ (v : Validators) (st t : BudgetState) (i : ℕ) (s : Session) (e : Envelope) (m : Model)
    (u : UsageReservation) where
  pub lookup-book :
      (q : Quote) (b : Booked st i s e q t u)
      → (lookup i t.pending ≡ some (pending_of s e q))
        × (lookup s.id t.sessions
            ≡ some (record (b.ledger) {
              reserved = b.projected;
              pending_count = b.ledger.pending_count + 1;
            }))
  unfolding book
  lookup-book q b = (
    rw b.state (ground (arith, lookup-insert i i (pending_of s e q) st.pending)),
    rw b.state (
        ground (
          arith,
          lookup-insert s.id s.id
              (record (b.ledger) {
                reserved = b.projected;
                pending_count = b.ledger.pending_count + 1;
              })
              st.sessions,
        )),
  )
