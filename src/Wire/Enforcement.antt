-- ===== src/Wire/Enforcement.antt =====
-- The enforcement rule that the global controller writes (src/controller/core_control_application.cpp)
-- as the message that the interface makes of it (src/networking/local_interface.cpp).
use mathlib.Core.List.{cons-ne-nil}
use cheferd.Prelude.{
  ℕ, ◌≡◌, ◌≢◌, refl, sym, ap, ◌∙◌, [], ◌∷◌, ◌++◌, append_assoc, arith, All, All-append, drop, false,
  ok,
}
use cheferd.Prelude.Int.{ℤ, pos}
use cheferd.Text.{Bytes, codes, Lacks}
use cheferd.Text.Tokens.{tokens_of}
use cheferd.Text.Tokens.Laws.{
  IsWord, delimited, tokens_of-fields, fields-cons, fields_single, tokens_of-delimited,
}
use cheferd.Text.Number.{to_string, is_digit, stoll}
use cheferd.Dict.Laws.{put-nil}
use cheferd.Core.State.{Envs}
use cheferd.Core.Enforce.{env_rates, enforcement_rule}
use cheferd.Wire.{EnforcementOpRules, fill_operation_rules, enforcement_rules_of, parse_rule}
use cheferd.Wire.Rates.{
  Fits, limit_each, Separate, env_rates-delimited, env_rates-Lacks, fill_env_rates-env_rates,
}

-- A word of a rule's text.
abbrev pub IsPart : Bytes → Type 0
IsPart w = IsWord b'|' w × Lacks b'.' w

abbrev operation_rule : Bytes → Bytes → Bytes → Bytes
operation_rule app_name operation rates =
    codes "0|" ++ (app_name ++ (codes "|" ++ (operation ++ (codes "|" ++ rates))))

tokens-operation_rule :
    (app_name operation rates : Bytes)
    → IsWord b'|' app_name
    → IsWord b'|' operation
    → IsWord b'|' rates
    → tokens_of (operation_rule app_name operation rates) b'|'
      ≡ codes "0" ∷ app_name ∷ operation ∷ rates ∷ []
tokens-operation_rule app_name operation rates a o r =
    tokens_of-fields _ b'|'
    ∙ fields-cons b'|' (codes "0") _ (cons-ne-nil _ _, (omega arith, tt))
    ∙ ap (◌∷◌ (codes "0")) (
        fields-cons b'|' app_name _ a
        ∙ ap (◌∷◌ app_name)
            (fields-cons b'|' operation rates o ∙ ap (◌∷◌ operation) (fields_single b'|' rates r)))

enforcement_rule-delimited :
    (app_name operation : Bytes) (envs : Envs) (limit : ℤ)
    → enforcement_rule app_name operation envs limit
      ≡ delimited b'.'
          (codes "6|" ∷ operation_rule app_name operation (env_rates envs limit ++ codes "*") ∷ [])
unfolding enforcement_rule to_string
enforcement_rule-delimited app_name operation envs limit = simp append_assoc

operation_rule-IsWord :
    (app_name operation rates : Bytes)
    → Lacks b'.' app_name
    → Lacks b'.' operation
    → Lacks b'.' rates
    → IsWord b'.' (operation_rule app_name operation rates)
operation_rule-IsWord app_name operation rates a o r =
    let dots : ℕ → Type 0 = λ x. x ≢ b'.' in
    (
      cons-ne-nil _ _,
      (
        (omega arith),
        (
          (omega arith),
          All-append dots app_name _ a
              ((omega arith), All-append dots operation _ o ((omega arith), r)),
        ),
      ),
    )

stars-Lacks :
    (c : ℕ) (envs : Envs) (limit : ℤ)
    → is_digit c ≡ false
    → c ≢ b'-'
    → c ≢ b'*'
    → c ≢ b':'
    → Lacks c (env_rates envs limit ++ codes "*")
stars-Lacks c envs limit h k s t =
    All-append (λ x. x ≢ c) (env_rates envs limit) (codes "*")
      (env_rates-Lacks c envs limit h k s t) ((λ e. s (sym e)), tt)

stars-ne-nil : (envs : Envs) (limit : ℤ) → env_rates envs limit ++ codes "*" ≢ []
stars-ne-nil envs limit e = cons-ne-nil _ _ (sym (env_rates-delimited envs limit) ∙ e)

abbrev pub job_rules : Bytes → Envs → ℤ → EnforcementOpRules
job_rules app_name envs limit = record {
  m_rule_id = pos 0;
  m_stage_name = app_name;
  env_rates = limit_each envs limit;
}

-- For a job and an operation whose names hold neither of the marks | and ., and for environments
-- and a limit of 64 bits, no environment twice, the interface makes of the rule that the global
-- controller writes the message with one operation: that operation, for that job, each of the
-- environments with the limit.
pub enforcement_rules_of-enforcement_rule :
    (app_name operation : Bytes) (envs : Envs) (limit : ℤ)
    → IsPart app_name
    → IsPart operation
    → All Fits envs
    → Fits limit
    → Separate envs
    → enforcement_rules_of (enforcement_rule app_name operation envs limit)
      ≡ ok ((operation, job_rules app_name envs limit) ∷ [])
unfolding enforcement_rules_of fill_operation_rules parse_rule stoll
enforcement_rules_of-enforcement_rule app_name operation envs limit (a, a') (o, o') f g s =
    let stars : Bytes = env_rates envs limit ++ codes "*" in
    let lacks : (c : ℕ) → is_digit c ≡ false → c ≢ b'-' → c ≢ b'*' → c ≢ b':' → Lacks c stars =
      λ c. stars-Lacks c envs limit in
    ap (λ text. fill_operation_rules (drop 1 (tokens_of text b'.')) [])
      (enforcement_rule-delimited app_name operation envs limit)
    ∙ ap (λ words. fill_operation_rules (drop 1 words) [])
        (tokens_of-delimited b'.' (codes "6|" ∷ operation_rule app_name operation stars ∷ []) (
          (cons-ne-nil _ _, ((omega arith), ((omega arith), tt))),
          (
            operation_rule-IsWord app_name operation stars a' o'
                (lacks b'.' refl (omega arith) (omega arith) (omega arith)),
            tt,
          ),
        ))
    ∙ rw
        (tokens-operation_rule app_name operation stars a o
          (stars-ne-nil envs limit, lacks b'|' refl (omega arith) (omega arith) (omega arith)))
        (rw (fill_env_rates-env_rates envs limit f g s) (ap ok (put-nil _ _)))
