-- ===== src/Llm/Retry/Sent.antt =====
-- llm/retry.rs: the requests that a call of `complete_with_retry` sends. `watched` is a service that
-- also keeps a list of the requests, each with the state that it was sent from.
use mathlib.Core.Path.{subst}
use mathlib.Core.List.{append_assoc, map-append}
use kokoro_koe.Prelude.{
  ℕ, zero, suc, ◌+◌, ◌≤◌, ◌≡◌, refl, ap, sym, ◌∙◌, Bool, true, false, not, ◌||◌, ◌==◌, if_elim, any,
  any-append, List, [], ◌∷◌, ◌++◌, map, length, length-append, unwrap_or, All, All-append, arith,
}
use kokoro_koe.Llm.Retry.{
  Service, Answer, completed, failed, Retried, returned, raised, panicked, is_settled, should_retry,
  max_attempts, fallback_backoff, not_sent, go_on, answered, attempts, complete_with_retry,
}

-- Each id stands once.
abbrev pub Distinct : List ℕ → Type 0
Distinct [] = Unit
Distinct (id ∷ ids) = (any (λ i. i == id) ids ≡ false) × Distinct ids

Distinct-append :
    (ids : List ℕ) (id : ℕ)
    → Distinct ids
    → any (λ i. i == id) ids ≡ false
    → Distinct (ids ++ id ∷ [])
Distinct-append [] id h n = (refl, tt)
Distinct-append (i ∷ ids) id h n = (
  any-append (λ j. j == i) ids (id ∷ []) ∙ ground (arith, h.0),
  Distinct-append ids id h.1 (ground arith),
)

abbrev pub Watched : Type 0 → Type 0
Watched W = W × List (W × ℕ)

abbrev pub watched : {W C : Type 0} → Service W C → Service (Watched W) C
watched sv = record {
  stream_completion =
      λ v id. let r = sv.stream_completion v.0 id in ((r.0, v.1 ++ (v.0, id) ∷ []), r.1);
  wait = λ v duration. let r = sv.wait v.0 duration in ((r.0, v.1), r.1);
  next_request_id = λ v. let r = sv.next_request_id v.0 in ((r.0, v.1), r.1);
}

abbrev pub sent_ids : {W : Type 0} → List (W × ℕ) → List ℕ
sent_ids log = map (λ entry. entry.1) log

abbrev pub IsSettled : {C : Type 0} → Answer C → Type 0
IsSettled (completed c) = Unit
IsSettled (failed e) = is_settled e.reservation ≡ true

-- The states in which this call has nothing reserved. A request that reports that its reservation
-- is released or reconciled leaves such a state; so do waiting and drawing an id.
pub record Clears {W C : Type 0} (sv : Service W C) (Clear : W → Type 0) : Type 0 where
  pub after_answer :
      (w : W) (id : ℕ)
      → Clear w
      → IsSettled (sv.stream_completion w id).1
      → Clear (sv.stream_completion w id).0
  pub after_wait : (w : W) (duration : ℕ) → Clear w → Clear (sv.wait w duration).0
  pub after_id : (w : W) → Clear w → Clear (sv.next_request_id w).0

-- How a call ends, by the number of requests that it has sent.
abbrev pub EndsAfter : {C : Type 0} → ℕ → Retried C → Type 0
EndsAfter n (returned c m) = m ≡ n
EndsAfter n (raised e) = Unit
EndsAfter n panicked = true ≡ false

abbrev pub Sent :
    {W C : Type 0} → (W → Type 0) → W → ℕ → List (W × ℕ) → Watched W × Retried C → Type 0
Sent {W} Clear w id before r =
    (rest : List (W × ℕ)) × (r.0.1 ≡ before ++ (w, id) ∷ rest)
    × (length r.0.1 ≤ max_attempts)
    × Distinct (sent_ids r.0.1)
    × All (λ entry. Clear entry.0) r.0.1
    × EndsAfter (length r.0.1) r.1

-- What holds once an attempt's request is sent.
abbrev Sofar : {W : Type 0} → (W → Type 0) → ℕ → List ℕ → List (W × ℕ) → Type 0
Sofar Clear attempt used log =
    (sent_ids log ≡ used)
    × (length log ≡ attempt)
    × Distinct used
    × All (λ entry. Clear entry.0) log
    × (attempt ≤ max_attempts)

Sofar-next :
    {W : Type 0} (Clear : W → Type 0) (w : W) (id attempt : ℕ) (used : List ℕ) (log : List (W × ℕ))
    → Sofar Clear attempt used log
    → Clear w
    → any (λ i. i == id) used ≡ false
    → suc attempt ≤ max_attempts
    → Sofar Clear (suc attempt) (used ++ id ∷ []) (log ++ (w, id) ∷ [])
Sofar-next {W} Clear w id attempt used log h c n l = (
  map-append (λ (entry : W × ℕ). entry.1) log ((w, id) ∷ []) ∙ ap (λ ids. ids ++ id ∷ []) h.0,
  omega (arith, length-append log ((w, id) ∷ []), h.1),
  Distinct-append used id h.2 n,
  All-append (λ (entry : W × ℕ). Clear entry.0) log ((w, id) ∷ []) h.3 (c, tt),
  l,
)

module _ {W C : Type 0} (Clear : W → Type 0) where
  stops :
      (w w' : W) (id attempt : ℕ) (used : List ℕ) (before : List (W × ℕ)) (r : Retried C)
      → Sofar Clear attempt used (before ++ (w, id) ∷ [])
      → EndsAfter attempt r
      → Sent Clear w id before ((w', before ++ (w, id) ∷ []), r)
  stops w w' id attempt used before r h e = (
    [],
    refl,
    omega (arith, h.1, h.4),
    subst Distinct (sym h.0) h.2,
    h.3,
    subst (λ n. EndsAfter n r) (sym h.1) e,
  )

  Sent-earlier :
      (w w' : W) (id id' : ℕ) (before : List (W × ℕ)) (r : Watched W × Retried C)
      → Sent Clear w' id' (before ++ (w, id) ∷ []) r
      → Sent Clear w id before r
  Sent-earlier w w' id id' before r h = (
    (w', id') ∷ h.0,
    h.1 ∙ append_assoc before ((w, id) ∷ []) ((w', id') ∷ h.0),
    h.2,
    h.3,
    h.4,
    h.5,
  )

  module _ (sv : Service W C) (clears : Clears sv Clear) where
    -- The attempts that may follow.
    abbrev Next : List ℕ → List (W × ℕ) → (Watched W → ℕ → Watched W × Retried C) → Type 0
    Next used log next =
        (w : W) (id : ℕ)
        → Clear w
        → any (λ i. i == id) used ≡ false
        → Sent Clear w id log (next (w, log) id)

    go_on-Sent :
        (w w' : W) (id attempt : ℕ) (used : List ℕ) (before : List (W × ℕ))
        (next : Watched W → ℕ → Watched W × Retried C) (goes : Bool)
        → Sofar Clear attempt used (before ++ (w, id) ∷ [])
        → Clear w'
        → Next used (before ++ (w, id) ∷ []) next
        → Sent Clear w id before (go_on (watched sv) used next ((w', before ++ (w, id) ∷ []), goes))
    unfolding go_on
    go_on-Sent w w' id attempt used before next false h c n =
        stops w w' id attempt used before (raised (not_sent "completion_cancelled")) h tt
    go_on-Sent w w' id attempt used before next true h c n =
        let drawn = sv.next_request_id w' in
        if_elim (λ (r : Watched W × Retried C). Sent Clear w id before r)
          (any (λ i. i == drawn.1) used)
          (λ e.
            stops w drawn.0 id attempt used before
              (raised (not_sent "completion_request_duplicate")) h tt)
          (λ e.
            Sent-earlier w drawn.0 id drawn.1 before
              (next (drawn.0, before ++ (w, id) ∷ []) drawn.1)
              (n drawn.0 drawn.1 (clears.after_id w' c) e))

    answered-Sent :
        (w w' : W) (id attempt : ℕ) (used : List ℕ) (before : List (W × ℕ))
        (next : Watched W → ℕ → Watched W × Retried C) (out : Answer C)
        → Sofar Clear attempt used (before ++ (w, id) ∷ [])
        → (IsSettled out → Clear w')
        → ((attempt == max_attempts) ≡ false → Next used (before ++ (w, id) ∷ []) next)
        → Sent Clear w id before
            (answered (watched sv) attempt used next ((w', before ++ (w, id) ∷ []), out))
    unfolding answered should_retry
    answered-Sent w w' id attempt used before next (completed c) h k n =
        stops w w' id attempt used before (returned c attempt) h refl
    answered-Sent w w' id attempt used before next (failed e) h k n =
        if_elim (λ (r : Watched W × Retried C). Sent Clear w id before r)
          (attempt == max_attempts || not (should_retry e))
          (λ b. stops w w' id attempt used before (raised e) h tt)
          (λ b.
            let waited = sv.wait w' (unwrap_or e.retry_after (fallback_backoff attempt)) in
            go_on-Sent w waited.0 id attempt used before next waited.1 h
              (clears.after_wait w' (unwrap_or e.retry_after (fallback_backoff attempt))
                (k (ground arith)))
              (n (ground arith)))

    attempts-Sent :
        (left attempt : ℕ) (used : List ℕ) (w : W) (log : List (W × ℕ)) (id : ℕ)
        → left + attempt ≡ max_attempts
        → Sofar Clear attempt (used ++ id ∷ []) (log ++ (w, id) ∷ [])
        → Clear w
        → Sent Clear w id log (attempts (watched sv) (suc left) attempt used (w, log) id)
    unfolding attempts
    attempts-Sent zero attempt used w log id l h c =
        answered-Sent w (sv.stream_completion w id).0 id attempt (used ++ id ∷ []) log
          (λ w' id'. attempts (watched sv) zero (suc attempt) (used ++ id ∷ []) w' id')
          (sv.stream_completion w id).1 h (clears.after_answer w id c) (λ b. absurd (ground arith))
    attempts-Sent (suc left) attempt used w log id l h c =
        answered-Sent w (sv.stream_completion w id).0 id attempt (used ++ id ∷ []) log
          (λ w' id'. attempts (watched sv) (suc left) (suc attempt) (used ++ id ∷ []) w' id')
          (sv.stream_completion w id).1 h (clears.after_answer w id c)
          (λ b w' id' c' n.
            attempts-Sent left (suc attempt) (used ++ id ∷ []) w' (log ++ (w, id) ∷ []) id'
              (omega (arith, l))
              (Sofar-next Clear w' id' attempt (used ++ id ∷ []) (log ++ (w, id) ∷ []) h c' n
                (omega (arith, l)))
              c')

-- A call ends without a panic, and has sent one, two or three requests: the first with the given id,
-- and all with different ids. A call that returns a completion says how many it has sent. Each request
-- is sent from a state in which nothing is reserved for the call, if it starts from one and the service
-- leaves one whenever it reports a reservation as released or reconciled.
pub complete_with_retry-Sent :
    {W C : Type 0} (Clear : W → Type 0) (sv : Service W C) (w : W) (id : ℕ)
    → Clears sv Clear
    → Clear w
    → Sent Clear w id [] (complete_with_retry (watched sv) (w, []) id)
unfolding complete_with_retry
complete_with_retry-Sent Clear sv w id clears c =
    attempts-Sent Clear sv clears 2 1 [] w [] id refl (refl, refl, (refl, tt), (c, tt), omega arith)
      c
