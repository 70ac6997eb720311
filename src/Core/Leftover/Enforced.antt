-- ===== src/Core/Leftover/Enforced.antt =====
-- What the leftover policy enforces: job_previous_rates holds the rate that each job was last sent
-- (src/controller/core_control_application.cpp).
use cheferd.Prelude.{◌≡◌, Bool, false, List, ℕ, if◌then◌else◌, All}
use cheferd.Prelude.Int.{ℤ}
use cheferd.Text.{Bytes, same}
use cheferd.Dict.{Dict, lookup, value}
use cheferd.Dict.Laws.{Fresh}
use cheferd.Core.State.{Core}
use cheferd.Core.Enforce.Sent.{Kept, Sent}
use cheferd.Core.Leftover.Arithmetic.{Floats}
use cheferd.Core.Leftover.Maintained.{keeps}
use cheferd.Core.Leftover.{
  maintains, decided_of, has_room, varied_perc, varied_rate, was_maintained,
}

module _ {F D : Type 0} (floats : Floats F D) where
  -- The rate that a job has been sent last.
  abbrev pub enforced : F → Bool → ℤ → ℤ → ℤ
  enforced varied keeps rate previous = if keeps then previous else varied_rate floats varied rate

  -- One job of the loop: what it is left with, and that the other jobs keep their rates.
  abbrev Applied : Core → Bytes → F → Bool → Core → Type 0
  Applied s app varied keeps next =
      (value app next.job_previous_rates
        ≡ enforced varied keeps (value app s.job_rates) (value app s.job_previous_rates))
      × (((j : Bytes) → same app j ≡ false → value j next.job_rates ≡ value j s.job_rates)
          × (((j : Bytes)
                → same app j ≡ false
                → value j next.job_previous_rates ≡ value j s.job_previous_rates)
              × Kept s next))

  module _ (varied : F) (maintain : Dict Bool) where
    abbrev Enforces : Core → Core → Bytes → Type 0
    Enforces s next app =
        value app next.job_previous_rates
        ≡ enforced varied (was_maintained floats (lookup app maintain)) (value app s.job_rates)
            (value app s.job_previous_rates)

    abbrev Outcome : Core → List Bytes → Core → Type 0
    Outcome s apps next =
        All (Enforces s next) apps
        × ((j : Bytes)
            → Fresh j apps
            → value j next.job_previous_rates ≡ value j s.job_previous_rates)

  -- What a job's previous rate is after the third phase.
  abbrev pub settled : Core → ℕ → Bytes → ℤ
  settled s system_total_rate app =
      let room = has_room floats system_total_rate s.maximum_limit in
      let rate = value app s.job_rates in
      let previous = value app s.job_previous_rates in
      enforced (varied_perc floats room s.maximum_limit (decided_of floats s room))
        (maintains floats s.change_in_system room rate previous) rate previous
