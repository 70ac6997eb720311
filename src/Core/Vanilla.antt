-- ===== src/Core/Vanilla.antt =====
-- compute_and_enforce_dynamic_vanilla_rules (src/controller/core_control_application.cpp).
pub mod Allocation
pub mod Enforced
pub mod Limit
use cheferd.Prelude.{
  ℕ, suc, ◌-◌, Bool, true, false, not, ◌&&◌, List, [], ◌∷◌, if◌then◌else◌, length, Result, ok,
  ◌>>=◌,
}
use cheferd.Prelude.Int.{ℤ, pos, minus_one, ◌+ℤ◌, ◌-ℤ◌, ◌/ℤ◌, ◌==ℤ◌, leb_ℤ}
use cheferd.Text.{Bytes}
use cheferd.Dict.{Dict, keys, put, value, touch}
use cheferd.Core.State.{Core, Locations}
use cheferd.Core.Enforce.{
  update_job_demands, send_enforcement_rule, collect_enforcement_rule_results,
}
use cheferd.Core.Static.{below_threshold, unchanged, is_empty}

-- What the first phase changes.
pub record Shares : Type 0 where
  pub demands : Dict ℤ
  pub rates : Dict ℤ
  pub left_iops : ℤ

-- One job of the first phase, of `current_jobs` that are left: its demand, if that is at most the
-- fair share, and the fair share otherwise. A demand of -1 becomes 1.
unfoldable pub share_job : Bytes → ℕ → Shares → Shares
share_job app current_jobs p = record {
  demands = demands';
  rates = put app rate p.rates;
  left_iops = p.left_iops -ℤ rate;
}
  where
    fair_share : ℤ
    fair_share = p.left_iops /ℤ current_jobs

    fits_share : Bool
    fits_share = leb_ℤ (value app p.demands) fair_share

    demands' : Dict ℤ
    demands' =
        if fits_share && value app p.demands ==ℤ minus_one
        then put app (pos 1) p.demands
        else touch app p.demands

    rate : ℤ
    rate = if fits_share then value app demands' else fair_share

-- The first phase over the jobs in turn; the jobs that are left are the rest of the list.
unfoldable pub first_phase : List Bytes → Shares → Shares
first_phase [] p = p
first_phase (app ∷ apps) p = first_phase apps (share_job app (suc (length apps)) p)

-- The job's new rate, and the read of its previous one.
unfoldable pub raise : Core → Bytes → ℤ → Core
raise s app rate = record s {
  job_rates = put app rate s.job_rates;
  job_previous_rates =
      if s.change_in_system then s.job_previous_rates else touch app s.job_previous_rates;
}

-- The second phase: the job gets its part of what is left, and the rule is sent unless nothing has
-- changed and the new rate is near the previous one.
unfoldable pub second_phase :
    Core → Bytes → ℤ → ℕ → Dict Locations → Dict Bool → Result (Core × Dict Bool)
unfolding send_enforcement_rule
second_phase s operation left_iops current_jobs [] updated = ok (s, updated)
second_phase s operation left_iops current_jobs ((app, locations) ∷ rest) updated = do
  let raised = raise s app (value app s.job_rates +ℤ left_iops /ℤ current_jobs)
  (next, updated') ←
      (if not s.change_in_system && below_threshold app raised.job_rates raised.job_previous_rates
        then ok (unchanged raised app, updated)
        else send_enforcement_rule raised app locations operation updated)
  second_phase next operation left_iops current_jobs rest updated'

abbrev pub shares_of : Core → Shares
shares_of s = record { demands = s.job_demands; rates = s.job_rates; left_iops = s.maximum_limit }

-- Both phases.
unfoldable pub distribute : Core → Result (Core × Dict Bool)
unfolding first_phase second_phase
distribute s =
    let shares = first_phase (keys s.job_location_tracker) (shares_of s) in
    let assigned : Core = record s { job_demands = shares.demands; job_rates = shares.rates } in
    second_phase assigned s.active_op shares.left_iops (length s.job_location_tracker)
      s.job_location_tracker []

unfoldable pub vanilla_jobs : Core → Result Core
unfolding distribute collect_enforcement_rule_results
vanilla_jobs s = do
  (next, updated) ← distribute s
  collect_enforcement_rule_results next next.job_location_tracker updated

unfoldable pub compute_and_enforce_dynamic_vanilla_rules : Core → Result Core
unfolding update_job_demands vanilla_jobs
compute_and_enforce_dynamic_vanilla_rules s = do
  (operation, read) ← update_job_demands s
  if is_empty read.job_location_tracker then ok read else vanilla_jobs read
