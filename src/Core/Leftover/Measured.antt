-- ===== src/Core/Leftover/Measured.antt =====
-- How much a job uses, as the leftover policy counts it (src/controller/core_control_application.cpp).
-- The rate of a statistic has the value of an integer, as elsewhere in Core.
use cheferd.Prelude.{
  ◌*◌, ◌%◌, Option, none, some, List, [], ◌∷◌, ◌++◌, if◌then◌else◌, length, Result, ok, fail, ◌>>=◌,
  undefined,
}
use cheferd.Prelude.Int.{ℤ, pos, ◌+ℤ◌}
use cheferd.Text.{Bytes}
use cheferd.Text.Number.{to_string}
use cheferd.Dict.{Dict, lookup}
use cheferd.Core.State.{Core, Envs, Locations, StageResponse, ack, stats, other}
use cheferd.Core.Stages.{at}
use cheferd.Core.Statistics.{among_sessions}
use cheferd.Rules.Raw.{u64_mod}
use cheferd.Core.Leftover.Arithmetic.{Floats, to_ulong}

-- The statistics of a response; another class makes a null pointer.
abbrev pub stats_of : StageResponse → Option (Dict ℤ)
stats_of (stats n values) = some values
stats_of (ack n z) = none
stats_of other = none

abbrev pub stage_env : Bytes → ℤ → Bytes
stage_env app env = app ++ b'+' ∷ to_string env

module _ {F D : Type 0} (floats : Floats F D) where
  open floats use {double_of, long_of_double, plus, same_double}

  -- `total_app_rate += current_rate` for a `double` rate.
  abbrev pub add_rate : ℤ → D → ℤ
  add_rate total current_rate = long_of_double (plus (double_of total) current_rate)

  abbrev pub add_found : ℤ → Option ℤ → ℤ
  add_found total none = total +ℤ pos 1
  add_found total (some rate) =
      if same_double (double_of rate) (double_of (pos 0))
      then add_rate total (double_of (pos 1))
      else add_rate total (double_of rate)

  -- The stages of a local controller that was asked for its statistics.
  unfoldable pub measured_envs : Bytes → Option (Dict ℤ) → Envs → ℤ → Result ℤ
  measured_envs app found [] total = ok total
  measured_envs app none (env ∷ envs) total = fail undefined
  measured_envs app (some values) (env ∷ envs) total =
      measured_envs app (some values) envs (add_found total (lookup (stage_env app env) values))

  -- Those of one that was not asked count as if each used more than there is.
  unfoldable pub assumed_envs : D → Envs → ℤ → ℤ
  assumed_envs current_rate [] total = total
  assumed_envs current_rate (env ∷ envs) total =
      assumed_envs current_rate envs (add_rate total current_rate)

  abbrev pub assumed_rate : Core → D
  assumed_rate s =
      double_of (pos (to_ulong s.maximum_limit * length s.job_location_tracker % u64_mod))

  unfoldable pub total_app_rate :
      Core → Dict StageResponse → List Bytes → Bytes → Locations → ℤ → Result ℤ
  unfolding measured_envs assumed_envs to_ulong
  total_app_rate s d_stats sessions_sent app [] total = ok total
  total_app_rate s d_stats sessions_sent app ((local_address, envs) ∷ rest) total = do
    next ←
        (if among_sessions local_address sessions_sent
          then (do
            response ← at local_address d_stats
            measured_envs app (stats_of response) envs total)
          else ok (assumed_envs (assumed_rate s) envs total))
    total_app_rate s d_stats sessions_sent app rest next
