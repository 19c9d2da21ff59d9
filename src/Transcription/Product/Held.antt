-- ===== src/Transcription/Product/Held.antt =====
-- transcription/product.rs: who holds the product, by its status.
use kokoro_koe.Prelude.{
  ℕ, ◌≡◌, refl, ap, sym, Bool, true, false, Option, none, some, List, [], ◌∷◌, ◌++◌, is_some, arith,
}
use kokoro_koe.Transcription.Product.{
  RunState, idle, starting, running, stopping, stopped, failed, ProductState, status_valid, is_busy,
  Stopping, already, refused, joins,
}
use kokoro_koe.Prelude.Coded.{Coded, ok, err}

-- A clock gives well-formed times.
abbrev pub IsTime : (ℕ → Bool) → Option ℕ → Type 0
IsTime parses none = Unit
IsTime parses (some now) = parses now ≡ true

abbrev pub list_of : Option ℕ → List ℕ
list_of none = []
list_of (some id) = id ∷ []

-- Who holds the product: the active run, the launches and the runs waited for, by the status.
abbrev pub IsHeld : RunState → Option ℕ → Option ℕ → List ℕ → List ℕ → Type 0
IsHeld starting request active launches joined =
    (active ≡ none) × (launches ≡ list_of request) × (joined ≡ [])
IsHeld running request active launches joined = (active ≡ request) × (launches ≡ []) × (joined ≡ [])
IsHeld stopping request active launches joined =
    (active ≡ none) × (launches ≡ []) × (joined ≡ list_of request)
IsHeld _ request active launches joined = (active ≡ none) × (launches ≡ []) × (joined ≡ [])

abbrev pub IsConsistent : (ℕ → Bool) → ProductState → List ℕ → List ℕ → Type 0
IsConsistent parses st launches joined =
    (status_valid parses st.status ≡ true)
    × IsHeld st.status.state st.status.request_id st.active launches joined

-- What a call of `reserve_start` leaves to do: a launch, unless it was refused.
abbrev pub launches_of : ℕ → Coded (Unit {0}) → List ℕ
launches_of id (ok done) = id ∷ []
launches_of id (err code) = []

-- What the start of `stop` leaves to do: the wait for a run, if it has taken one.
abbrev pub joined_of : Stopping → List ℕ
joined_of (joins id) = id ∷ []
joined_of (already status) = []
joined_of (refused code) = []

only :
    (before after : List ℕ) (id i : ℕ)
    → before ++ id ∷ after ≡ i ∷ []
    → (i ≡ id) × (before ++ after ≡ [])
only [] after id i e = (cc, cc)
only (b ∷ []) after id i e = absurd cc
only (b ∷ c ∷ before) after id i e = absurd cc

none_there : (before after : List ℕ) (id : ℕ) → before ++ id ∷ after ≡ [] → true ≡ false
none_there [] after id e = absurd cc
none_there (b ∷ before) after id e = absurd cc

-- A launch that has been reserved is that of the status.
pub launch_held :
    (s : RunState) (request active : Option ℕ) (before after joined : List ℕ) (id : ℕ)
    → IsHeld s request active (before ++ id ∷ after) joined
    → (s ≡ starting)
      × (request ≡ some id)
      × (active ≡ none)
      × (before ++ after ≡ [])
      × (joined ≡ [])
launch_held starting none active before after joined id h =
    absurd (ground (arith, none_there before after id h.1))
launch_held starting (some i) active before after joined id h =
    let o = only before after id i h.1 in (refl, ap some o.0, h.0, o.1, h.2)
launch_held idle request active before after joined id h =
    absurd (ground (arith, none_there before after id h.1))
launch_held running request active before after joined id h =
    absurd (ground (arith, none_there before after id h.1))
launch_held stopping request active before after joined id h =
    absurd (ground (arith, none_there before after id h.1))
launch_held stopped request active before after joined id h =
    absurd (ground (arith, none_there before after id h.1))
launch_held failed request active before after joined id h =
    absurd (ground (arith, none_there before after id h.1))

-- So is a run that is waited for.
pub join_held :
    (s : RunState) (request active : Option ℕ) (launches before after : List ℕ) (id : ℕ)
    → IsHeld s request active launches (before ++ id ∷ after)
    → (s ≡ stopping)
      × (request ≡ some id)
      × (active ≡ none)
      × (launches ≡ [])
      × (before ++ after ≡ [])
join_held stopping none active launches before after id h =
    absurd (ground (arith, none_there before after id h.2))
join_held stopping (some i) active launches before after id h =
    let o = only before after id i h.2 in (refl, ap some o.0, h.0, h.1, o.1)
join_held idle request active launches before after id h =
    absurd (ground (arith, none_there before after id h.2))
join_held running request active launches before after id h =
    absurd (ground (arith, none_there before after id h.2))
join_held starting request active launches before after id h =
    absurd (ground (arith, none_there before after id h.2))
join_held stopped request active launches before after id h =
    absurd (ground (arith, none_there before after id h.2))
join_held failed request active launches before after id h =
    absurd (ground (arith, none_there before after id h.2))

pub run_held :
    (s : RunState) (request : Option ℕ) (a : ℕ) (launches joined : List ℕ)
    → IsHeld s request (some a) launches joined
    → (s ≡ running) × (request ≡ some a) × (launches ≡ []) × (joined ≡ [])
run_held running request a launches joined h = (refl, sym h.0, h.1, h.2)
run_held idle request a launches joined h = absurd (ground (arith, ap is_some h.0))
run_held starting request a launches joined h = absurd (ground (arith, ap is_some h.0))
run_held stopping request a launches joined h = absurd (ground (arith, ap is_some h.0))
run_held stopped request a launches joined h = absurd (ground (arith, ap is_some h.0))
run_held failed request a launches joined h = absurd (ground (arith, ap is_some h.0))

pub free_held :
    (s : RunState) (request active : Option ℕ) (launches joined : List ℕ)
    → is_busy s ≡ false
    → IsHeld s request active launches joined
    → (active ≡ none) × (launches ≡ []) × (joined ≡ [])
free_held idle request active launches joined b h = h
free_held stopped request active launches joined b h = h
free_held failed request active launches joined b h = h
free_held starting request active launches joined b h = absurd (ground (arith, b))
free_held running request active launches joined b h = absurd (ground (arith, b))
free_held stopping request active launches joined b h = absurd (ground (arith, b))
