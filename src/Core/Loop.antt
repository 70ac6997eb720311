-- ===== src/Core/Loop.antt =====
-- A round of execute_feedback_loop (src/controller/core_control_application.cpp). Sleeping and the
-- measured latencies are left out.
pub mod Handled
pub mod Ended
pub mod Round
pub mod Waits
use cheferd.Prelude.{
  ℕ, zero, suc, ◌+◌, ◌==◌, ◌&&◌, Bool, true, false, not, Option, none, some, List, [], ◌∷◌,
  if◌then◌else◌, Result, ok, fail, ◌>>=◌,
}
use cheferd.Prelude.Int.{ℤ, pos, ltb_ℤ, ◌+ℤ◌}
use cheferd.Text.{Bytes}
use cheferd.Core.State.{Core, StageResponse}
use cheferd.Core.Stages.{handle_local_controller_sessions, handle_data_plane_sessions}
use cheferd.Core.Statistics.{
  collect_statistics_global, collect_statistics_global_send, collect_statistics_global_collect,
}
use cheferd.Core.Static.{compute_and_enforce_static_rules}
use cheferd.Core.Leftover.Arithmetic.{Floats}
use cheferd.Core.Leftover.{compute_and_enforce_dynamic_leftover_rules}
use cheferd.Config.Options.{ControlType, static, dynamic_vanilla, dynamic_leftover, mds, no_op}
use cheferd.Core.Vanilla.{compute_and_enforce_dynamic_vanilla_rules}

-- `while (pending (s) > 0) s = handle (s)` with fuel; `none` means that the fuel ran out.
unfoldable pub while_pending : ℕ → (Core → ℤ) → (Core → Result Core) → Core → Option (Result Core)
while_pending zero pending handle s = none
while_pending (suc fuel) pending handle s = elim (ltb_ℤ (pos 0) (pending s)) [
  | true ↦ elim (handle s) [
    | ok next ↦ while_pending fuel pending handle next
    | fail e ↦ some (fail e)
  ]
  | false ↦ some (ok s)
]

-- The responses of the session with the local controller that is next.
abbrev pub next_joins :
    (Bytes → List (Option StageResponse)) → List Bytes → List (Option StageResponse)
next_joins joins [] = []
next_joins joins (address ∷ rest) = joins address

-- The new local controllers; `joins` are the responses that the session of each will give.
unfoldable pub drain_local_controllers :
    ℕ → (Bytes → List (Option StageResponse)) → Core → Option (Result Core)
unfolding while_pending
drain_local_controllers fuel joins s =
    while_pending fuel (λ c. c.pending_local_sessions)
      (λ c. handle_local_controller_sessions c (next_joins joins c.local_queue)) s

unfoldable pub drain_data_planes : ℕ → Core → Option (Result Core)
unfolding while_pending
drain_data_planes fuel s =
    while_pending fuel (λ c. c.pending_data_sessions) handle_data_plane_sessions s

-- What follows a loop that has ended and returned.
abbrev pub after : {A B : Type 0} → Option (Result A) → (A → Option (Result B)) → Option (Result B)
after none next = none
after (some (ok a)) next = next a
after (some (fail e)) next = some (fail e)

-- The case STATIC of a round.
unfoldable pub static_control : Core → Result Core
static_control s = do
  (collected, d_stats) ← collect_statistics_global s
  if ltb_ℤ (pos 0) collected.active_local_sessions
      then compute_and_enforce_static_rules collected
      else ok collected

-- The case DYNAMIC_VANILLA of a round.
unfoldable pub vanilla_control : Core → Result Core
vanilla_control s = do
  (collected, d_stats) ← collect_statistics_global s
  compute_and_enforce_dynamic_vanilla_rules collected

-- COLLECT_ROUNDS
abbrev pub collect_rounds : ℕ
collect_rounds = 5

-- What the feedback loop keeps between its rounds: rounds_counter and sessions_sent.
pub record Rounds : Type 0 where
  pub core : Core
  pub rounds_counter : ℕ
  pub sessions_sent : List Bytes

module _ {F D : Type 0} (floats : Floats F D) where
  -- The end of a collection of several rounds.
  unfoldable pub collected_control : Rounds → Result Rounds
  collected_control l =
      if l.rounds_counter == collect_rounds
      then (do
        (collected, d_stats) ← collect_statistics_global_collect l.core l.sessions_sent
        controlled ←
            compute_and_enforce_dynamic_leftover_rules floats collected d_stats l.sessions_sent
        ok (record l { core = controlled; rounds_counter = 0 }))
      else ok l

  -- The case DYNAMIC_LEFTOVER of a round.
  unfoldable pub leftover_control : Rounds → Result Rounds
  unfolding collected_control
  leftover_control l = do
    (asked, sessions_sent) ←
        (if l.rounds_counter == 0
          then collect_statistics_global_send l.core
          else ok (l.core, l.sessions_sent))
    collected_control (record {
      core = asked;
      rounds_counter = l.rounds_counter + 1;
      sessions_sent = sessions_sent;
    })

  -- The `switch` of a round.
  unfoldable pub control : ControlType → Rounds → Result Rounds
  unfolding static_control vanilla_control leftover_control
  control static l = do next ← static_control l.core; ok (record l { core = next })
  control dynamic_vanilla l = do next ← vanilla_control l.core; ok (record l { core = next })
  control dynamic_leftover l = leftover_control l
  control mds l = ok l
  control no_op l = ok l

  -- What a round does when nothing waits any more: the control, and the flag of changes.
  abbrev pub controlled_round : ControlType → Rounds → Core → Result Rounds
  controlled_round kind l connected = do
    controlled ← control kind (record l { core = connected })
    ok (record controlled { core = record controlled.core { change_in_system = false } })

  -- A round of the loop, with the new sessions first.
  unfoldable pub feedback_round :
      ℕ → (Bytes → List (Option StageResponse)) → ControlType → Rounds → Option (Result Rounds)
  unfolding drain_local_controllers drain_data_planes control
  feedback_round fuel joins kind l = after (drain_local_controllers fuel joins l.core) λ joined.
      after (drain_data_planes fuel joined) λ connected. some (controlled_round kind l connected)

  -- The loop while sessions are active or waiting; the list has what working_application_ is at each
  -- test, which another thread may change.
  abbrev pub has_sessions : Core → Bool
  has_sessions s =
      ltb_ℤ (pos 0)
        ((s.pending_local_sessions +ℤ s.active_local_sessions) +ℤ s.pending_data_sessions)

  unfoldable pub feedback_rounds :
      ℕ
      → (Bytes → List (Option StageResponse))
      → ControlType
      → List Bool
      → Rounds
      → Option (Result Rounds)
  unfolding feedback_round
  feedback_rounds fuel joins kind [] l = some (ok l)
  feedback_rounds fuel joins kind (working ∷ rest) l = elim (working && has_sessions l.core) [
    | true ↦ after (feedback_round fuel joins kind l) (feedback_rounds fuel joins kind rest)
    | false ↦ some (ok l)
  ]
