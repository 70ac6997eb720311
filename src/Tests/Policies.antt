-- ===== src/Tests/Policies.antt =====
-- The leftover policy with two jobs, over numbers with two decimals.
use cheferd.Prelude.{Result, some, ◌>>=◌, ◌+◌, ◌*◌, ◌/◌, ◌≡◌, refl, [], ◌∷◌, arith}
use cheferd.Prelude.Int.{
  ℤ, pos, pos_part, neg_part, magnitude, sub_ℕ, ltb_ℤ, leb_ℤ, ◌==ℤ◌, ◌+ℤ◌, ◌-ℤ◌,
}
use cheferd.Text.{codes, same}
use cheferd.Text.Number.{to_string}
use cheferd.Dict.{Dict, keys, lookup, put, emplace}
use cheferd.Core.State.{StageResponse, stats}
use cheferd.Core.Vanilla.Allocation.{total}
use cheferd.Core.Leftover.Arithmetic.{Floats, IsRounded}
use cheferd.Core.Leftover.{Usage, first_phase, usage_of}
use cheferd.Core.Leftover.Shared.{Exact, first_phase-left_iops}
use cheferd.Config.Options.{dynamic_vanilla}
use cheferd.Core.State.{Core, start}
use cheferd.Core.Loop.{Rounds, controlled_round, feedback_round}
use cheferd.Core.Loop.Ended.{Drained}
use cheferd.Core.Loop.Round.{feedback_round-Drained}
use cheferd.Tests.Controller.{two_jobs, jobs, jobs-Distinct}

-- A number of hundredths, as which an integer is exact.
abbrev hundredfold : ℤ → ℤ
hundredfold z = sub_ℕ (pos_part z * 100) (neg_part z * 100)

abbrev whole : ℤ → ℤ
whole f = sub_ℕ (pos_part f / 100) (neg_part f / 100)

abbrev product : ℤ → ℤ → ℤ
product f g =
    sub_ℕ ((pos_part f * pos_part g + neg_part f * neg_part g) / 100)
      ((pos_part f * neg_part g + neg_part f * pos_part g) / 100)

-- For a divisor above 0.
abbrev quotient : ℤ → ℤ → ℤ
quotient f g = sub_ℕ (pos_part f * 100 / magnitude g) (neg_part f * 100 / magnitude g)

abbrev fixed : Floats ℤ ℤ
fixed = record {
  float_of = hundredfold;
  double_of = hundredfold;
  long_of = whole;
  long_of_double = whole;
  widen = λ f. f;
  narrow = λ f. f;
  hundredths = λ n. pos n;
  plus = λ f g. f +ℤ g;
  times = product;
  below = λ f g. ltb_ℤ f g;
  at_most = λ f g. leb_ℤ f g;
  same_double = λ f g. f ==ℤ g;
  float_plus = λ f g. f +ℤ g;
  float_times = product;
  float_over = quotient;
  float_below = λ f g. ltb_ℤ f g;
  floor = λ f. sub_ℕ (pos_part f / 100 * 100) ((neg_part f + 99) / 100 * 100);
}

fixed-IsRounded : IsRounded fixed
fixed-IsRounded = record {
  long_of-mono = λ f g h. ground arith;
  below-long_of = λ z g h. ground arith;
}

fixed-Exact : Exact fixed 1000
fixed-Exact n h = ground arith

abbrev d_stats : Dict StageResponse
d_stats = (codes "local", stats 5 ((codes "a+1", pos 20) ∷ (codes "b+2", pos 60) ∷ [])) ∷ []

abbrev shared : Usage
shared = record {
  demands = two_jobs.job_demands;
  rates = (codes "a", pos 22) ∷ (codes "b", pos 68) ∷ [];
  usage = (codes "a", 20) ∷ (codes "b", 61) ∷ [];
  system_total_rate = 81;
  left_iops = 10;
}

first_phase-left_iops_example : total (keys jobs) shared.rates +ℤ pos 10 ≡ pos 100
unfolding first_phase same to_string put emplace ◌+ℤ◌ ◌-ℤ◌ lookup
first_phase-left_iops_example =
    first_phase-left_iops fixed fixed-IsRounded 1000 fixed-Exact two_jobs d_stats
      (codes "local" ∷ []) jobs (usage_of fixed two_jobs) shared (omega arith) (omega arith)
      jobs-Distinct refl (omega arith, (omega arith, tt))

abbrev waiting : Rounds
waiting = record {
  core = record two_jobs { pending_data_sessions = pos 1 };
  rounds_counter = 0;
  sessions_sent = [];
}

feedback_round-Drained_example :
    (t : Result Core) × (feedback_round fixed 2 (λ address. []) dynamic_vanilla waiting
      ≡ some (t >>= controlled_round fixed dynamic_vanilla waiting))
    × (Drained [] t)
unfolding start
feedback_round-Drained_example =
    feedback_round-Drained fixed 2 (λ address. []) dynamic_vanilla waiting (refl, refl)
      (omega arith) (omega arith)
