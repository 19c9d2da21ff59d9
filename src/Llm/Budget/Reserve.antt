-- ===== src/Llm/Budget/Reserve.antt =====
-- llm/budget.rs: what `reserve` does, and what it promises.
use kokoro_koe.Prelude.{ℕ, ◌<◌, ◌≡◌, inl, inr, none, arith, length}
use kokoro_koe.Prelude.Maps.{lookup}
use kokoro_koe.Llm.Budget.{
  Session, Envelope, Model, Validators, SessionLedger, BudgetState, UsageReservation,
  max_pending_reservations,
}
use kokoro_koe.Llm.Budget.Money.{ok, checked_add, checked_mul_tokens, Result-cases}
use kokoro_koe.Llm.Budget.Ops.{
  Quote, quote, open_ledger, project, book, reserve_quote, reserve, pending_of, reservation_of,
}
use kokoro_koe.Llm.Budget.Ledger.{IsPriced, Inv, open_ledger-Open, book-Inv}

pub quote-IsPriced :
    (v : Validators) (s : Session) (e : Envelope) (m : Model) (q : Quote)
    → quote v s e m ≡ ok q
    → IsPriced (pending_of s e q)
unfolding quote checked_mul_tokens checked_add
quote-IsPriced v s e m q h = ground arith

module _ (st : BudgetState) (i : ℕ) (s : Session) (e : Envelope) (q : Quote) where
  -- A booking: the ledger that was found or opened, and what the amounts come to.
  pub record Booked (t : BudgetState) (u : UsageReservation) : Type 0 where
    pub ledger : SessionLedger
    pub projected : ℕ
    pub available : ℕ
    pub opened : open_ledger st s.id q ≡ ok ledger
    pub amounts : project ledger q ≡ ok (projected, available)
    pub new : lookup i st.pending ≡ none
    pub room : length st.pending < max_pending_reservations
    pub state : t ≡ book st i s e q ledger projected
    pub reply : u ≡ reservation_of i s e q available

  pub reserve_quote-Booked :
      (t : BudgetState) (u : UsageReservation) → reserve_quote st i s e q ≡ ok (t, u) → Booked t u
  unfolding reserve_quote
  reserve_quote-Booked t u h = elim (Result-cases (open_ledger st s.id q)) [
    | inr (x, ho) ↦ absurd (ground arith)
    | inl (l, ho) ↦ elim (Result-cases (project l q)) [
      | inr (x, hp) ↦ absurd (ground arith)
      | inl ((r, a), hp) ↦ record {
        ledger = l;
        projected = r;
        available = a;
        opened = ho;
        amounts = hp;
        new = ground arith;
        room = ground arith;
        state = ground arith;
        reply = ground arith;
      }
    ]
  ]

-- `reserve` keeps the invariant of the ledger.
pub reserve-Inv :
    (v : Validators) (st : BudgetState) (i : ℕ) (s : Session) (e : Envelope) (m : Model)
    → Inv st
    → Inv (reserve v st i s e m).0
unfolding reserve
reserve-Inv v st i s e m inv = elim (Result-cases (quote v s e m)) [
  | inr (x, h) ↦ rw (h, reserve) inv
  | inl (q, h) ↦
      rw (h, reserve)
        (elim (Result-cases (reserve_quote st i s e q)) [
          | inr (x, g) ↦ rw g inv
          | inl ((t, u), g) ↦ rw g (
              let b = reserve_quote-Booked st i s e q t u g in
              rw b.state (
                book-Inv st i s e q b.ledger b.projected b.available inv
                  (open_ledger-Open st s.id q b.ledger inv b.opened) b.new b.room
                  (quote-IsPriced v s e m q h) b.amounts))
        ])
]
