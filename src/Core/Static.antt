-- ===== src/Core/Static.antt =====
-- compute_and_enforce_static_rules (src/controller/core_control_application.cpp).
pub mod Enforced
use cheferd.Prelude.{
  Bool, true, false, not, ◌||◌, ◌&&◌, List, [], ◌∷◌, if◌then◌else◌, ltb, Result, ok, ◌>>=◌,
}
use cheferd.Prelude.Int.{ℤ, minus_one, ◌-ℤ◌, ◌==ℤ◌, magnitude}
use cheferd.Text.{Bytes}
use cheferd.Dict.{Dict, put, value, touch}
use cheferd.Core.State.{Core, Locations, iops_threshold}
use cheferd.Core.Enforce.{
  update_job_demands, send_enforcement_rule, collect_enforcement_rule_results,
}

-- The demands that are set become the rates.
unfoldable pub rates_from_demands : Dict ℤ → Dict ℤ → Dict ℤ
rates_from_demands [] rates = rates
rates_from_demands ((job, demand) ∷ rest) rates =
    rates_from_demands rest (if demand ==ℤ minus_one then rates else put job demand rates)

-- `abs (job_rates[app] - job_previous_rates[app]) < IOPS_THRESHOLD`
abbrev pub below_threshold : Bytes → Dict ℤ → Dict ℤ → Bool
below_threshold app rates previous =
    ltb (magnitude (value app rates -ℤ value app previous)) iops_threshold

-- Both maps are read with operator[].
abbrev pub touched : Core → Bytes → Core
touched s app = record s {
  job_rates = touch app s.job_rates;
  job_previous_rates = touch app s.job_previous_rates;
}

abbrev pub unchanged : Core → Bytes → Core
unchanged s app = record s { job_rates = put app minus_one s.job_rates }

unfoldable pub enforce_static :
    Core → Bytes → Dict Locations → Dict Bool → Result (Core × Dict Bool)
unfolding send_enforcement_rule
enforce_static s operation [] updated = ok (s, updated)
enforce_static s operation ((app, locations) ∷ rest) updated = do
  let seen = touched s app
  (next, updated') ←
      (if below_threshold app seen.job_rates seen.job_previous_rates
        then ok (unchanged seen app, updated)
        else send_enforcement_rule seen app locations operation updated)
  enforce_static next operation rest updated'

abbrev pub is_empty {ℓ} : {A : Type ℓ} → List A → Bool
is_empty [] = true
is_empty (a ∷ rest) = false

abbrev static_jobs : Core → Result Core
static_jobs s = do
  let prepared = record s { job_rates = rates_from_demands s.job_demands s.job_rates }
  (next, updated) ← enforce_static prepared s.active_op s.job_location_tracker []
  collect_enforcement_rule_results next next.job_location_tracker updated

unfoldable pub compute_and_enforce_static_rules : Core → Result Core
unfolding update_job_demands rates_from_demands enforce_static collect_enforcement_rule_results
compute_and_enforce_static_rules s = do
  (new_operation, read) ← update_job_demands s
  let changed = record read {
    change_in_system = read.change_in_system || not (is_empty new_operation);
  }
  if changed.change_in_system && not (is_empty changed.job_location_tracker)
      then static_jobs changed
      else ok changed
