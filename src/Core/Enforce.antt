-- ===== src/Core/Enforce.antt =====
-- Rules of the system administrator, and the enforcement rules that the control application sends
-- to the local controllers (src/controller/core_control_application.cpp).
pub mod Sent
pub mod Limits
pub mod Submitted
use cheferd.Prelude.{
  ℕ, ◌+◌, Bool, true, false, ◌||◌, Option, none, some, List, [], ◌∷◌, ◌++◌, if◌then◌else◌, length,
  ◌==◌, Result, ok, fail, ◌>>=◌, or_fail, subscript, undefined,
}
use cheferd.Prelude.Int.{ℤ, pos, ◌/ℤ◌}
use cheferd.Text.{Bytes, codes, same}
use cheferd.Text.Number.{to_string, stol}
use cheferd.Dict.{Dict, lookup, put, value, touch}
use cheferd.Rules.Staged.{number_at}
use cheferd.Core.State.{
  Core, Envs, Locations, dequeue_rule_from_queue, parse_rule_with_break, submit_rule, get_result,
}

-- A rule that names a demand: the job, its new demand and the operation it is for. Any other rule
-- leaves the demands alone and returns the empty operation.
abbrev pub demand_of : Core → List Bytes → Bytes → Result (Bytes × Core)
demand_of s tokens kind =
    if same kind (codes "demand") || same kind (codes "job")
    then (do
      job_name ← subscript tokens 2
      operation ← subscript tokens 3
      demand ← number_at stol tokens 4
      ok (operation, record s { job_demands = put job_name demand s.job_demands }))
    else ok ([], s)

abbrev pub apply_rule : Core → Bytes → Result (Bytes × Core)
apply_rule s [] = ok ([], s)
apply_rule s (c ∷ rest) = do
  let tokens = parse_rule_with_break (c ∷ rest)
  kind ← subscript tokens 1
  (operation, next) ← demand_of s tokens kind
  ok (operation, record next { active_op = operation })

unfoldable pub update_job_demands : Core → Result (Bytes × Core)
unfolding dequeue_rule_from_queue parse_rule_with_break
update_job_demands s = let (new_rule, next) = dequeue_rule_from_queue s in apply_rule next new_rule

unfoldable pub total_stages : Locations → ℕ
total_stages [] = 0
total_stages ((local_address, envs) ∷ rest) = length envs + total_stages rest

-- `job_rates[app_name] / total_stages` divides by zero where a job has no stage. The `std::floor`
-- of the quotient goes through a `double`, which is exact below 2 ^ 53.
unfoldable pub limit_per_stage : ℤ → ℕ → Result ℤ
limit_per_stage rate total = if total == 0 then fail undefined else ok (rate /ℤ total)

-- The stages of one local controller, each with its limit.
unfoldable pub env_rates : Envs → ℤ → Bytes
env_rates [] limit = []
env_rates (env ∷ envs) limit =
    b'*' ∷ (to_string env ++ b':' ∷ (to_string limit ++ env_rates envs limit))

abbrev pub create_enf_rule : ℕ
create_enf_rule = 6

unfoldable pub enforcement_rule : Bytes → Bytes → Envs → ℤ → Bytes
unfolding env_rates
enforcement_rule app_name operation envs limit =
    to_string (pos create_enf_rule)
    ++ (codes "|.0|"
        ++ (app_name
            ++ (codes "|" ++ (operation ++ (codes "|" ++ (env_rates envs limit ++ codes "*."))))))

abbrev pub address_key : Bytes → Bytes → Bytes
address_key app_name local_address = app_name ++ b'+' ∷ local_address

-- The loop over the local controllers of a job.
unfoldable pub send_rules :
    Core → Bytes → Bytes → ℤ → Locations → Dict Bool → Result (Core × Dict Bool)
unfolding enforcement_rule submit_rule
send_rules s app_name operation limit [] updated = ok (s, updated)
send_rules s app_name operation limit ((local_address, envs) ∷ rest) updated = do
  next ← submit_rule s local_address (enforcement_rule app_name operation envs limit)
  send_rules next app_name operation limit rest
      (put (address_key app_name local_address) true updated)

unfoldable pub send_enforcement_rule :
    Core → Bytes → Locations → Bytes → Dict Bool → Result (Core × Dict Bool)
unfolding send_rules total_stages limit_per_stage
send_enforcement_rule s app_name local_to_envs operation updated = do
  let rate = value app_name s.job_rates
  let next = record s {
    job_rates = touch app_name s.job_rates;
    job_previous_rates = put app_name rate s.job_previous_rates;
  }
  limit ← limit_per_stage rate (total_stages local_to_envs)
  send_rules next app_name operation limit local_to_envs updated

abbrev was_updated : Option Bool → Bool
was_updated none = false
was_updated (some b) = b

abbrev collect_one : Core → Bytes → Bytes → Dict Bool → Result Core
collect_one s app_name local_address updated =
    if was_updated (lookup (address_key app_name local_address) updated)
    then (do (response, next) ← get_result s local_address; ok next)
    else ok s

unfoldable pub collect_locations : Core → Bytes → Locations → Dict Bool → Result Core
unfolding get_result
collect_locations s app_name [] updated = ok s
collect_locations s app_name ((local_address, envs) ∷ rest) updated = do
  next ← collect_one s app_name local_address updated
  collect_locations next app_name rest updated

-- One response is taken from each local controller for each rule that was sent to it.
unfoldable pub collect_enforcement_rule_results : Core → Dict Locations → Dict Bool → Result Core
unfolding collect_locations
collect_enforcement_rule_results s [] updated = ok s
collect_enforcement_rule_results s ((app_name, locations) ∷ rest) updated = do
  next ← collect_locations s app_name locations updated
  collect_enforcement_rule_results next rest updated
