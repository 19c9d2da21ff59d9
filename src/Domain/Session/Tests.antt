-- ===== src/Domain/Session/Tests.antt =====
-- A session that has just been made starts to transcribe. Every timestamp reads as itself.
use kokoro_koe.Prelude.{ℕ, ◌+◌, ◌≤◌, ◌≡◌, refl, Bool, true, Option, none, some, [], ◌∷◌, arith}
use kokoro_koe.Prelude.Coded.{ok}
use kokoro_koe.Domain.Session.{
  Session, transcribing, bounded_line, session_valid, apply_runtime_state, new_session, create,
}
use kokoro_koe.Domain.Session.Lifecycle.{IsSound, create-IsSound, apply_runtime_state-IsSound}

abbrev parse : ℕ → Option ℕ
parse stamp = some stamp

abbrev contents_valid : ℕ → Bool
contents_valid _ = true

abbrev just_made : Session ℕ
just_made = new_session 0 (109 ∷ []) (115 ∷ []) 1000

just_made-IsSound : IsSound parse contents_valid just_made
unfolding create session_valid bounded_line
just_made-IsSound = create-IsSound parse contents_valid 0 (109 ∷ []) (115 ∷ []) 1000

apply_runtime_state-IsSound_example :
    (s' : Session ℕ) × (apply_runtime_state parse contents_valid just_made transcribing 2000 none
      ≡ ok s')
    × IsSound parse contents_valid s'
    × (session_valid parse contents_valid s' ≡ true)
    × (s'.state ≡ transcribing)
    × (s'.revision ≡ just_made.revision + 1)
    × (t : ℕ) × (parse s'.updated_at ≡ some t)
    × (just_made-IsSound.updated ≤ t)
    × (2000 ≤ t)
apply_runtime_state-IsSound_example =
    apply_runtime_state-IsSound parse contents_valid just_made just_made-IsSound transcribing 2000
      2000 none refl refl (omega arith) refl
