-- ===== src/Transcription/Scheduler/Invariant.antt =====
-- transcription/scheduler.rs: what holds of a scheduler after any calls.
use kokoro_koe.Prelude.{List, [], ◌∷◌}
use kokoro_koe.Transcription.Request.{SampleTests}
use kokoro_koe.Transcription.Scheduler.{Scheduler, default}
use kokoro_koe.Transcription.Scheduler.Ops.{Call, step, run}
use kokoro_koe.Transcription.Scheduler.Accounts.{Accounts, step-Accounts, default-Accounts}
use kokoro_koe.Transcription.Scheduler.Order.{Ordered, step-Ordered, default-Ordered}
use kokoro_koe.Transcription.Scheduler.Mode.{Mode, step-Mode, default-Mode}
use kokoro_koe.Transcription.Scheduler.Identity.{Identity, step-Identity, default-Identity}

module _ {S : Type 0} (f : SampleTests S) where
  pub record Inv (s : Scheduler S) : Type 0 where
    pub accounts : Accounts s
    pub ordered : Ordered s
    pub mode : Mode s
    pub identity : Identity f s

  -- Every call, whatever it is given, keeps the invariant: the totals of the queue and its limits,
  -- its order, the switch for partial jobs, and the distinctness of ids.
  pub step-Inv : (s : Scheduler S) (c : Call S) → Inv s → Inv (step f s c)
  step-Inv s c v = record {
    accounts = step-Accounts f s c v.accounts;
    ordered = step-Ordered f s c v.ordered;
    mode = step-Mode f s c v.mode;
    identity = step-Identity f s c v.identity;
  }

  pub default-Inv : Inv default
  default-Inv = record {
    accounts = default-Accounts;
    ordered = default-Ordered;
    mode = default-Mode;
    identity = default-Identity f;
  }

  pub run-Inv_from : (s : Scheduler S) (cs : List (Call S)) → Inv s → Inv (run f s cs)
  unfolding run
  run-Inv_from s [] v = v
  run-Inv_from s (c ∷ cs) v = run-Inv_from (step f s c) cs (step-Inv s c v)

  -- A scheduler that starts empty satisfies the invariant after any list of calls.
  pub run-Inv : (cs : List (Call S)) → Inv (run f default cs)
  run-Inv cs = run-Inv_from default cs default-Inv
