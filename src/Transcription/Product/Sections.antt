-- ===== src/Transcription/Product/Sections.antt =====
-- transcription/product.rs: what each section under the lock keeps.
use Prim.Native.String.{String}
use mathlib.Core.Path.{subst}
use kokoro_koe.Prelude.{
  ℕ, ◌≡◌, refl, ap, sym, ◌∙◌, Bool, true, false, not, ◌&&◌, ◌||◌, ◌==◌, if◌then◌else◌, if_elim,
  Option, none, some, List, [], ◌∷◌, ◌++◌, is_some, unwrap_or, arith,
}
use kokoro_koe.Prelude.Coded.{Coded, ok}
use kokoro_koe.Transcription.Product.{
  RunState, idle, starting, running, stopping, stopped, failed, Status, ProductState,
  timestamp_valid, fields_fit, status_valid, is_busy, has_ended, is_request, begin_at,
  reserve_start, publish_start, epoch, end_state, record_terminal_state, Stopping, stop_active,
  begin_stop,
}
use kokoro_koe.Transcription.Product.Held.{
  IsTime, list_of, IsHeld, IsConsistent, launches_of, joined_of, run_held, free_held,
}

-- What validity says of a status whose run is on.
busy_parts :
    (parses : ℕ → Bool) (s : Status)
    → is_busy s.state ≡ true
    → status_valid parses s ≡ true
    → (timestamp_valid parses s.started_at ≡ true)
      × (timestamp_valid parses s.stopped_at ≡ true)
      × (is_some s.request_id ≡ true)
      × (is_some s.started_at ≡ true)
      × (is_some s.stopped_at ≡ false)
      × (is_some s.error ≡ false)
unfolding status_valid
busy_parts parses s b v = by_state s.state b v
  where
    by_state :
        (r : RunState)
        → is_busy r ≡ true
        → (timestamp_valid parses s.started_at
            && timestamp_valid parses s.stopped_at
            && fields_fit r
                (is_some s.request_id)
                (is_some s.started_at)
                (is_some s.stopped_at)
                (is_some s.error))
          ≡ true
        → (timestamp_valid parses s.started_at ≡ true)
          × (timestamp_valid parses s.stopped_at ≡ true)
          × (is_some s.request_id ≡ true)
          × (is_some s.started_at ≡ true)
          × (is_some s.stopped_at ≡ false)
          × (is_some s.error ≡ false)
    by_state starting b v = ground arith
    by_state running b v = ground arith
    by_state stopping b v = ground arith
    by_state idle b v = absurd (ground arith)
    by_state stopped b v = absurd (ground arith)
    by_state failed b v = absurd (ground arith)

same_request : (request : Option ℕ) (id : ℕ) → request ≡ some id → is_request request id ≡ true
same_request request id e = rw e (ground arith)

time_valid :
    (parses : ℕ → Bool) (now : Option ℕ)
    → parses epoch ≡ true
    → IsTime parses now
    → parses (unwrap_or now epoch) ≡ true
time_valid parses none e h = e
time_valid parses (some t) e h = h

-- The end of a run, or of a launch, frees the product.
pub record_terminal_state-IsConsistent :
    (parses : ℕ → Bool) (st : ProductState) (launches joined : List ℕ) (id : ℕ)
    (error : Option String) (now : Option ℕ)
    → parses epoch ≡ true
    → IsTime parses now
    → status_valid parses st.status ≡ true
    → is_busy st.status.state ≡ true
    → st.status.request_id ≡ some id
    → (st.active ≡ none) × (launches ≡ []) × (joined ≡ [])
    → IsConsistent parses (record_terminal_state st id error now) launches joined
unfolding record_terminal_state status_valid
record_terminal_state-IsConsistent parses st launches joined id error now ep t v b e free =
    if_elim (λ (r : ProductState). IsConsistent parses r launches joined)
      (is_request st.status.request_id id) (λ _. (by_error error, held error))
      (λ n. absurd (ground (arith, n, same_request st.status.request_id id e)))
  where
    parts :
        (timestamp_valid parses st.status.started_at ≡ true)
        × (timestamp_valid parses st.status.stopped_at ≡ true)
        × (is_some st.status.request_id ≡ true)
        × (is_some st.status.started_at ≡ true)
        × (is_some st.status.stopped_at ≡ false)
        × (is_some st.status.error ≡ false)
    parts = busy_parts parses st.status b v

    by_error :
        (error : Option String)
        → (timestamp_valid parses st.status.started_at
            && parses (unwrap_or now epoch)
            && fields_fit
                (end_state error)
                (is_some st.status.request_id)
                (is_some st.status.started_at)
                true
                (is_some error))
          ≡ true
    by_error none = rw (parts.0, parts.2, parts.3, time_valid parses now ep t) refl
    by_error (some code) = rw (parts.0, parts.2, parts.3, time_valid parses now ep t) refl

    held :
        (error : Option String)
        → IsHeld (end_state error) st.status.request_id st.active launches joined
    held none = free
    held (some code) = free

-- A run may go from one busy state to another.
busy_valid :
    (parses : ℕ → Bool) (s : Status) (r : RunState)
    → is_busy r ≡ true
    → is_busy s.state ≡ true
    → status_valid parses s ≡ true
    → status_valid parses (record s { state = r }) ≡ true
unfolding status_valid
busy_valid parses s r b b' v =
    let p = busy_parts parses s b' v in rw (p.0, p.1, p.2, p.3, p.4, p.5) (by_state r b)
  where
    by_state : (r : RunState) → is_busy r ≡ true → fields_fit r true true false false ≡ true
    by_state starting b = refl
    by_state running b = refl
    by_state stopping b = refl
    by_state idle b = b
    by_state stopped b = b
    by_state failed b = b

if_true : {A : Type 0} (b : Bool) (x y : A) → b ≡ true → (if b then x else y) ≡ x
if_true b x y e = rw e refl

pub publish_start-IsConsistent :
    (parses : ℕ → Bool) (st : ProductState) (launches joined : List ℕ) (id : ℕ)
    → status_valid parses st.status ≡ true
    → st.status.state ≡ starting
    → st.status.request_id ≡ some id
    → (launches ≡ []) × (joined ≡ [])
    → IsConsistent parses (publish_start parses st id).0 launches joined
      × ((publish_start parses st id).1 ≡ ok (publish_start parses st id).0.status)
unfolding publish_start
publish_start-IsConsistent parses st launches joined id v s e free =
    let valid = busy_valid parses st.status running refl (ap is_busy s) v in
    ((valid, (sym e, free.0, free.1)), if_true _ _ _ valid)

stop_active-IsConsistent :
    (parses : ℕ → Bool) (st : ProductState) (launches joined : List ℕ) (id : ℕ) (o : Option ℕ)
    → o ≡ st.active
    → IsConsistent parses st launches joined
    → IsConsistent parses
        (stop_active st id o).0
        launches
        (joined_of (stop_active st id o).1 ++ joined)
stop_active-IsConsistent parses st launches joined id none e c = c
stop_active-IsConsistent parses st launches joined id (some a) e c =
    let r =
      run_held st.status.state st.status.request_id a launches joined
        (subst (λ x. IsHeld st.status.state st.status.request_id x launches joined) (sym e) c.1) in
    if_elim
      (λ (x : ProductState × Stopping). IsConsistent parses x.0 launches (joined_of x.1 ++ joined))
      (a == id)
      (λ _. (
        busy_valid parses st.status stopping refl (ap is_busy r.0) c.0,
        (refl, r.2, ap (λ is. a ∷ is) r.3 ∙ sym (ap list_of r.1)),
      ))
      (λ _. c)

-- The start of `stop`, whatever it decides
pub begin_stop-IsConsistent :
    (parses : ℕ → Bool) (st : ProductState) (launches joined : List ℕ) (id : ℕ)
    → IsConsistent parses st launches joined
    → IsConsistent parses (begin_stop st id).0 launches (joined_of (begin_stop st id).1 ++ joined)
unfolding begin_stop
begin_stop-IsConsistent parses st launches joined id c =
    if_elim
      (λ (x : ProductState × Stopping). IsConsistent parses x.0 launches (joined_of x.1 ++ joined))
      (not (is_some st.active) && is_request st.status.request_id id && has_ended st.status.state)
      (λ _. c) (λ _. stop_active-IsConsistent parses st launches joined id st.active refl c)

begin_at-IsConsistent :
    (parses : ℕ → Bool) (st : ProductState) (launches joined : List ℕ) (id : ℕ) (now : Option ℕ)
    → IsTime parses now
    → IsConsistent parses st launches joined
    → (st.active ≡ none) × (launches ≡ []) × (joined ≡ [])
    → IsConsistent parses
        (begin_at st id now).0
        (launches_of id (begin_at st id now).1 ++ launches)
        joined
unfolding status_valid
begin_at-IsConsistent parses st launches joined id none t c free = c
begin_at-IsConsistent parses st launches joined id (some now) t c free =
    (rw t refl, (free.0, ap (λ is. id ∷ is) free.1, free.2))

-- `reserve_start`, whether it reserves a launch or refuses
pub reserve_start-IsConsistent :
    (parses : ℕ → Bool) (st : ProductState) (launches joined : List ℕ) (id : ℕ) (now : Option ℕ)
    → IsTime parses now
    → IsConsistent parses st launches joined
    → IsConsistent parses
        (reserve_start st id now).0
        (launches_of id (reserve_start st id now).1 ++ launches)
        joined
unfolding reserve_start
reserve_start-IsConsistent parses st launches joined id now t c =
    if_elim P (is_some st.active || is_busy st.status.state) (λ _. c)
      (λ b.
        if_elim P (is_request st.status.request_id id) (λ _. c)
          (λ _. begin_at-IsConsistent parses st launches joined id now t c (
            free_held st.status.state st.status.request_id st.active launches joined
              (ground (arith, b)) c.1)))
  where
    P : ProductState × Coded (Unit {0}) → Type 0
    P x = IsConsistent parses x.0 (launches_of id x.1 ++ launches) joined

-- The end of a run that the status is not about changes nothing.
pub record_terminal_state-unchanged :
    (st : ProductState) (id : ℕ) (error : Option String) (now : Option ℕ)
    → is_request st.status.request_id id ≡ false
    → record_terminal_state st id error now ≡ st
unfolding record_terminal_state
record_terminal_state-unchanged st id error now e = rw e refl
