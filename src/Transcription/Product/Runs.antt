-- ===== src/Transcription/Product/Runs.antt =====
-- transcription/product.rs: the sections of several callers, one after the other in any order. What a
-- caller still has to do, while it does not hold the lock, is part of the state.
use Prim.Native.String.{String}
use mathlib.Core.Path.{subst}
use kokoro_koe.Prelude.{
  ℕ, ◌≡◌, refl, ap, sym, Bool, true, false, Option, none, some, List, [], ◌∷◌, ◌++◌,
}
use kokoro_koe.Prelude.Coded.{ok}
use kokoro_koe.Transcription.Product.{
  running, ProductState, no_run, status_valid, is_busy, reserve_start, publish_start, epoch,
  record_terminal_state, is_request, begin_stop,
}
use kokoro_koe.Transcription.Product.Held.{
  IsTime, IsConsistent, launches_of, joined_of, launch_held, join_held,
}
use kokoro_koe.Transcription.Product.Sections.{
  record_terminal_state-IsConsistent, publish_start-IsConsistent, begin_stop-IsConsistent,
  reserve_start-IsConsistent, record_terminal_state-unchanged,
}

-- The product's state, with the launches that have been reserved and the runs that are waited for,
-- changes by whole sections, those that refuse their caller among them. Any caller may start or stop
-- at any time, with any request; a launch ends in a run or in an error; a run that has been told to
-- stop records its own end, or the caller that waits for it does; and an end of a run that the status
-- is not about may be recorded late.
pub data Reached (parses : ℕ → Bool) : ProductState → List ℕ → List ℕ → Type 0 where
  fresh : Reached parses no_run [] []
  reserves :
      (st : ProductState) (launches joined : List ℕ) (id : ℕ) (now : Option ℕ)
      → Reached parses st launches joined
      → IsTime parses now
      → Reached parses
          (reserve_start st id now).0
          (launches_of id (reserve_start st id now).1 ++ launches)
          joined
  publishes :
      (st : ProductState) (before after joined : List ℕ) (id : ℕ)
      → Reached parses st (before ++ id ∷ after) joined
      → Reached parses (publish_start parses st id).0 (before ++ after) joined
  fails :
      (st : ProductState) (before after joined : List ℕ) (id : ℕ) (code : String) (now : Option ℕ)
      → Reached parses st (before ++ id ∷ after) joined
      → IsTime parses now
      → Reached parses (record_terminal_state st id (some code) now) (before ++ after) joined
  stops :
      (st : ProductState) (launches joined : List ℕ) (id : ℕ)
      → Reached parses st launches joined
      → Reached parses (begin_stop st id).0 launches (joined_of (begin_stop st id).1 ++ joined)
  ends :
      (st : ProductState) (launches before after : List ℕ) (id : ℕ) (error : Option String)
      (now : Option ℕ)
      → Reached parses st launches (before ++ id ∷ after)
      → IsTime parses now
      → Reached parses (record_terminal_state st id error now) launches (before ++ after)
  ends_late :
      (st : ProductState) (launches joined : List ℕ) (id : ℕ) (error : Option String)
      (now : Option ℕ)
      → Reached parses st launches joined
      → is_request st.status.request_id id ≡ false
      → Reached parses (record_terminal_state st id error now) launches joined

-- In every state that the sections of any callers lead to, with those that refuse their caller, the
-- status passes its validation, and the product is held by one at most: by a launch that was reserved
-- while it is starting, by the active run while it is running, by the run that is waited for while it
-- is stopping, each with the request of the status, and else by none. The clock must give well-formed
-- times, and the epoch must be one.
pub Reached-IsConsistent :
    (parses : ℕ → Bool) (st : ProductState) (launches joined : List ℕ)
    → parses epoch ≡ true
    → Reached parses st launches joined
    → IsConsistent parses st launches joined
unfolding status_valid
Reached-IsConsistent parses st launches joined ep fresh = (refl, (refl, refl, refl))
Reached-IsConsistent parses st launches joined ep (reserves st' launches' joined' id now r t) =
    reserve_start-IsConsistent parses st' launches' joined id now t
      (Reached-IsConsistent parses st' launches' joined ep r)
Reached-IsConsistent parses st launches joined ep (publishes st' before after joined' id r) =
    let c = Reached-IsConsistent parses st' (before ++ id ∷ after) joined ep r in
    let h =
      launch_held st'.status.state st'.status.request_id st'.active before after joined id c.1 in
    (publish_start-IsConsistent parses st' (before ++ after) joined id c.0 h.0 h.1 (h.3, h.4)).0
Reached-IsConsistent parses st launches joined ep (fails st' before after joined' id code now r t) =
    let c = Reached-IsConsistent parses st' (before ++ id ∷ after) joined ep r in
    let h =
      launch_held st'.status.state st'.status.request_id st'.active before after joined id c.1 in
    record_terminal_state-IsConsistent parses st' (before ++ after) joined id (some code) now ep t
      c.0 (ap is_busy h.0) h.1 (h.2, h.3, h.4)
Reached-IsConsistent parses st launches joined ep (stops st' launches' joined' id r) =
    begin_stop-IsConsistent parses st' launches joined' id
      (Reached-IsConsistent parses st' launches joined' ep r)
Reached-IsConsistent parses st launches joined ep
      (ends st' launches' before after id error now r t) =
    let c = Reached-IsConsistent parses st' launches (before ++ id ∷ after) ep r in
    let h =
      join_held st'.status.state st'.status.request_id st'.active launches before after id c.1 in
    record_terminal_state-IsConsistent parses st' launches (before ++ after) id error now ep t c.0
      (ap is_busy h.0) h.1 (h.2, h.3, h.4)
Reached-IsConsistent parses st launches joined ep
      (ends_late st' launches' joined' id error now r n) =
    subst (λ x. IsConsistent parses x launches joined)
      (sym (record_terminal_state-unchanged st' id error now n))
      (Reached-IsConsistent parses st' launches joined ep r)

-- A launch that has been reserved and whose runtime has started is published without an error, whatever
-- other callers have done or been refused in between: the answer is the status, which is running with
-- the launch's own request; its run is the active one, and no other run was active, reserved or
-- waited for. The clock must give well-formed times, and the epoch must be one.
pub publish_start_succeeds :
    (parses : ℕ → Bool) (st : ProductState) (before after joined : List ℕ) (id : ℕ)
    → parses epoch ≡ true
    → Reached parses st (before ++ id ∷ after) joined
    → let (t, answer) = publish_start parses st id in
      (answer ≡ ok t.status)
      × (t.status.state ≡ running)
      × (t.status.request_id ≡ some id)
      × (t.active ≡ some id)
      × (st.active ≡ none)
      × (before ++ after ≡ [])
      × (joined ≡ [])
unfolding publish_start
publish_start_succeeds parses st before after joined id ep r =
    let c = Reached-IsConsistent parses st (before ++ id ∷ after) joined ep r in
    let h = launch_held st.status.state st.status.request_id st.active before after joined id c.1 in
    (
      (publish_start-IsConsistent parses st (before ++ after) joined id c.0 h.0 h.1 (h.3, h.4)).1,
      refl,
      h.1,
      refl,
      h.2,
      h.3,
      h.4,
    )
