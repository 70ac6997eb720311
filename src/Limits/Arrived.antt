-- ===== src/Limits/Arrived.antt =====
-- A limit of the global controller reaches the stages of a job at one local controller
-- (src/controller/core_control_application.cpp, src/networking/local_interface.cpp,
-- src/controller/local_control_application.cpp).
use cheferd.Prelude.{◌≡◌, ◌∷◌, All, ◌>>=◌, Gives, Gives-mono, some}
use cheferd.Prelude.Int.{ℤ}
use cheferd.Text.{Bytes}
use cheferd.Dict.{lookup}
use cheferd.Dict.Laws.{Distinct, Fresh}
use cheferd.Core.State.{Envs}
use cheferd.Core.Enforce.{enforcement_rule}
use cheferd.Wire.{enforcement_rules_of}
use cheferd.Wire.Rates.{Fits, Separate, limit_each}
use cheferd.Wire.Enforcement.{IsPart, job_rules, enforcement_rules_of-enforcement_rule}
use cheferd.Local.State.{Local, Channels}
use cheferd.Local.Enforce.{create_enforcement_rule}
use cheferd.Local.Enforce.Everywhere.{
  AllReady, AllGiven, stage_keys, create_enforcement_rule-AllGiven,
}
use cheferd.Status.{RpcStatus}

-- The handler has returned OK, the stages have been given the rules, and the session with another
-- key is as it was.
abbrev pub Reached :
    {D : Type 0}
    → Local D
    → Bytes
    → Bytes
    → Bytes
    → Envs
    → ℤ
    → ℤ × ℤ
    → Channels
    → RpcStatus × ℤ × Local D
    → Type 0
Reached s app_name operation other envs limit channel channels r =
    (r.0 ≡ RpcStatus.ok)
    × (AllGiven operation (job_rules app_name envs limit) channel channels s r.2
          (limit_each envs limit)
        × (lookup other r.2.data_sessions ≡ lookup other s.data_sessions))

-- The rule of a job for one local controller, whose names hold neither of the marks | and . and
-- whose numbers have 64 bits, as the interface sends it and the local controller handles it: if the
-- operation has channels there, and every stage of the rule, with a key of its own, a session whose
-- next responses grant a rule for each channel, then the handler returns OK, every stage has been
-- given the rules that divide the limit among the channels, and no other stage anything.
pub enforcement_rule-AllGiven :
    {D : Type 0} (s : Local D) (app_name operation other : Bytes) (envs : Envs) (limit : ℤ)
    (channel : ℤ × ℤ) (channels : Channels)
    → IsPart app_name
    → IsPart operation
    → All Fits envs
    → Fits limit
    → Separate envs
    → lookup operation s.operation_to_channel_object ≡ some (channel ∷ channels)
    → Distinct (stage_keys app_name (limit_each envs limit))
    → AllReady operation (job_rules app_name envs limit) channel channels s (limit_each envs limit)
    → Fresh other (stage_keys app_name (limit_each envs limit))
    → Gives (Reached s app_name operation other envs limit channel channels) (
        enforcement_rules_of (enforcement_rule app_name operation envs limit) >>= λ rules.
        create_enforcement_rule s rules)
enforcement_rule-AllGiven s app_name operation other envs limit channel channels a o f l e c d r n =
    rw (enforcement_rules_of-enforcement_rule app_name operation envs limit a o f l e) (
      Gives-mono _ (Reached s app_name operation other envs limit channel channels) _
        (create_enforcement_rule-AllGiven operation (job_rules app_name envs limit) channel channels
          s other c d r n)
        (λ t k. (k.0, (k.1.1.0, k.1.1.1))))
