-- ===== src/Core/Leftover.antt =====
-- compute_and_enforce_dynamic_leftover_rules (src/controller/core_control_application.cpp).
pub mod Arithmetic
pub mod Measured
pub mod Shared
pub mod Maintained
pub mod Enforced
use cheferd.Prelude.{
  ℕ, suc, ◌+◌, ◌*◌, ◌/◌, ◌%◌, Bool, true, false, not, ◌&&◌, ◌||◌, Option, none, some, List, [], ◌∷◌,
  ◌++◌, if◌then◌else◌, length, ltb, ◌==◌, Result, ok, fail, ◌>>=◌, undefined,
}
use cheferd.Prelude.Int.{ℤ, pos, ◌+ℤ◌, ◌-ℤ◌, magnitude}
use cheferd.Text.{Bytes}
use cheferd.Text.Number.{to_string}
use cheferd.Dict.{Dict, keys, lookup, put, value, touch}
use cheferd.Core.State.{Core, Envs, Locations, StageResponse, ack, stats, other}
use cheferd.Core.Stages.{at}
use cheferd.Core.Statistics.{among_sessions}
use cheferd.Core.Static.{is_empty}
use cheferd.Core.Enforce.{
  update_job_demands, send_enforcement_rule, collect_enforcement_rule_results,
}
use cheferd.Rules.Raw.{u64_mod}
use cheferd.Core.Leftover.Measured.{total_app_rate}
use cheferd.Core.Leftover.Arithmetic.{Floats, to_ulong, to_long, add_ulong, sub_ulong}

-- What the first phase changes. `usage` is per_app_usage.
pub record Usage : Type 0 where
  pub demands : Dict ℤ
  pub rates : Dict ℤ
  pub usage : Dict ℕ
  pub system_total_rate : ℕ
  pub left_iops : ℕ

-- Which jobs keep their previous rate, and the sums of the rates of both sorts.
pub record Decided : Type 0 where
  pub maintain : Dict Bool
  pub previous : Dict ℤ
  pub maintained_rate : ℕ
  pub updated_rate : ℕ

module _ {F D : Type 0} (floats : Floats F D) where
  open floats use {
    float_of, double_of, long_of, widen, narrow, hundredths, times, below, at_most, float_plus,
    float_times, float_over, float_below, floor,
  }

  abbrev pub threshold_value : ℤ → ℤ → F
  threshold_value demand total = narrow (times (widen (float_of (demand -ℤ total))) (hundredths 25))

  -- The rate of the first phase.
  unfoldable pub first_rate : ℤ → ℤ → F → ℤ
  first_rate demand total fair_share =
      if at_most (double_of total) (times (double_of demand) (hundredths 95))
      then (let sum = float_plus (float_of total) (threshold_value demand total) in
          if float_below sum fair_share then long_of sum else long_of fair_share)
      else if float_below (float_of demand) fair_share
      then demand
      else long_of fair_share

  abbrev pub fair_share_of : ℕ → ℕ → F
  fair_share_of left_iops current_jobs = float_of (pos (left_iops / current_jobs))

  -- One job of the first phase, of `current_jobs` that are left.
  unfoldable pub share_job : Bytes → ℤ → ℕ → Usage → Usage
  unfolding first_rate to_ulong add_ulong sub_ulong
  share_job app total current_jobs u =
      let rate = first_rate (value app u.demands) total (fair_share_of u.left_iops current_jobs) in
      record {
        demands = touch app u.demands;
        rates = put app rate u.rates;
        usage = put app (to_ulong total) u.usage;
        system_total_rate = add_ulong u.system_total_rate (to_ulong total);
        left_iops = sub_ulong u.left_iops (to_ulong rate);
      }

  unfoldable pub first_phase :
      Core → Dict StageResponse → List Bytes → Dict Locations → Usage → Result Usage
  unfolding total_app_rate share_job
  first_phase s d_stats sessions_sent [] u = ok u
  first_phase s d_stats sessions_sent ((app, locations) ∷ rest) u = do
    total ← total_app_rate floats s d_stats sessions_sent app locations (pos 0)
    first_phase s d_stats sessions_sent rest (share_job app total (suc (length rest)) u)

  -- What is left is shared out by usage. What remains then is not read again.
  unfoldable pub spread : ℕ → ℕ → Dict ℕ → Dict ℤ → Dict ℤ
  spread left_iops system_total_rate [] rates = rates
  spread left_iops system_total_rate ((app, usage) ∷ rest) rates =
      let add_iops_perc = float_over (float_of (pos usage)) (float_of (pos system_total_rate)) in
      let more = floor (float_times add_iops_perc (float_of (pos left_iops))) in
      spread left_iops system_total_rate rest
        (put app (long_of (float_plus (float_of (value app rates)) more)) rates)

  unfoldable pub second_phase : Usage → Dict ℤ
  unfolding spread
  second_phase u =
      if u.left_iops == 0 then u.rates else spread u.left_iops u.system_total_rate u.usage u.rates

  -- The system uses less than 95% of the limit.
  abbrev pub has_room : ℕ → ℤ → Bool
  has_room system_total_rate maximum_limit =
      below (double_of (pos system_total_rate)) (times (hundredths 95) (double_of maximum_limit))

  -- The job keeps its previous rate.
  abbrev pub maintains : Bool → Bool → ℤ → ℤ → Bool
  maintains change_in_system room rate previous =
      let rates_difference = double_of (pos (magnitude (rate -ℤ previous))) in
      not change_in_system
      && (below rates_difference (times (double_of rate) (hundredths 1))
          || (room && below rates_difference (times (double_of rate) (hundredths 5))))

  unfoldable pub decide_jobs : Core → Bool → List Bytes → Decided → Decided
  unfolding to_ulong add_ulong
  decide_jobs s room [] d = d
  decide_jobs s room (app ∷ apps) d =
      let rate = value app s.job_rates in
      let previous = value app d.previous in
      let keeps = maintains s.change_in_system room rate previous in
      decide_jobs s room apps (record {
        maintain = put app keeps d.maintain;
        previous = touch app d.previous;
        maintained_rate =
            if keeps then add_ulong d.maintained_rate (to_ulong previous) else d.maintained_rate;
        updated_rate = if keeps then d.updated_rate else add_ulong d.updated_rate (to_ulong rate);
      })

  -- The factor that the new rates are cut by.
  unfoldable pub varied_perc : Bool → ℤ → Decided → F
  unfolding to_ulong to_long add_ulong sub_ulong
  varied_perc room maximum_limit d =
      if room && ltb (to_ulong maximum_limit) (add_ulong d.maintained_rate d.updated_rate)
      then float_over (float_of (to_long (sub_ulong (to_ulong maximum_limit) d.maintained_rate)))
          (float_of (pos d.updated_rate))
      else narrow (hundredths 100)

  abbrev pub was_maintained : Option Bool → Bool
  was_maintained none = false
  was_maintained (some keeps) = keeps

  abbrev pub varied_rate : F → ℤ → ℤ
  varied_rate varied rate = long_of (floor (float_times (float_of (pos (to_ulong rate))) varied))

  unfoldable pub enforce_leftover :
      Core → Bytes → F → Dict Bool → Dict Locations → Dict Bool → Result (Core × Dict Bool)
  unfolding send_enforcement_rule to_ulong
  enforce_leftover s operation varied maintain [] updated = ok (s, updated)
  enforce_leftover s operation varied maintain ((app, locations) ∷ rest) updated = do
    let rate = varied_rate varied (value app s.job_rates)
    let changed = record s { job_rates = put app rate s.job_rates }
    (next, updated') ←
        (if was_maintained (lookup app maintain)
          then ok (s, updated)
          else send_enforcement_rule changed app locations operation updated)
    enforce_leftover next operation varied maintain rest updated'

  abbrev pub usage_of : Core → Usage
  usage_of s = record {
    demands = s.job_demands;
    rates = s.job_rates;
    usage = [];
    system_total_rate = 0;
    left_iops = to_ulong s.maximum_limit;
  }

  -- The two phases give the state its rates.
  abbrev pub with_rates : Core → Usage → Core
  with_rates s u = record s { job_demands = u.demands; job_rates = second_phase u }

  abbrev pub decided_of : Core → Bool → Decided
  decided_of s room = decide_jobs s room (keys s.job_location_tracker) (record {
    maintain = [];
    previous = s.job_previous_rates;
    maintained_rate = 0;
    updated_rate = 0;
  })

  -- The third phase, which decides on the rates and sends them.
  unfoldable pub third_phase : Core → ℕ → Result (Core × Dict Bool)
  unfolding decide_jobs varied_perc enforce_leftover
  third_phase s system_total_rate =
      let room = has_room system_total_rate s.maximum_limit in
      let decided = decided_of s room in
      enforce_leftover (record s { job_previous_rates = decided.previous }) s.active_op
        (varied_perc room s.maximum_limit decided) decided.maintain s.job_location_tracker []

  unfoldable pub leftover_jobs : Core → Dict StageResponse → List Bytes → Result Core
  unfolding first_phase second_phase third_phase to_ulong collect_enforcement_rule_results
  leftover_jobs s d_stats sessions_sent = do
    u ← first_phase s d_stats sessions_sent s.job_location_tracker (usage_of s)
    (next, updated) ← third_phase (with_rates s u) u.system_total_rate
    collect_enforcement_rule_results next next.job_location_tracker updated

  unfoldable pub compute_and_enforce_dynamic_leftover_rules :
      Core → Dict StageResponse → List Bytes → Result Core
  unfolding update_job_demands leftover_jobs
  compute_and_enforce_dynamic_leftover_rules s d_stats sessions_sent = do
    (operation, read) ← update_job_demands s
    if is_empty read.job_location_tracker then ok read else leftover_jobs read d_stats sessions_sent
