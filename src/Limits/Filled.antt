-- ===== src/Limits/Filled.antt =====
-- The rule that a local controller writes for a channel fills the structure that the stage is sent
-- (src/controller/local_control_application.cpp, src/networking/paio_interface.cpp).
use mathlib.Core.List.{cons-ne-nil}
use cheferd.Prelude.{◌≡◌, refl, ap, ◌∙◌, List, [], ◌∷◌, ◌++◌, arith, ok}
use cheferd.Prelude.Int.{ℤ, minus_one}
use cheferd.Text.{Bytes, codes, same}
use cheferd.Text.Tokens.{fields}
use cheferd.Text.Tokens.Laws.{IsWord, tokens_of-fields, fields-cons, fields_single}
use cheferd.Text.Number.{to_string}
use cheferd.Text.Number.RoundTrip.{stol-to_string, stoll-to_string}
use cheferd.Rules.Raw.{EnforcementRuleRaw}
use cheferd.Rules.Convert.{convert_object_type, convert_enforcement_operation}
use cheferd.Rules.Hash.{hash, switch}
use cheferd.Paio.{parse_rule, fill_enforcement_rule}
use cheferd.Local.Enforce.{channel_rule}
use cheferd.Wire.Rates.{Fits, print-IsWord}

-- The structure that sets the rate of an object to a limit.
abbrev pub rate_rule : ℤ → ℤ × ℤ → ℤ → EnforcementRuleRaw
rate_rule rule_id (channel_id, object_id) limit = record {
  m_rule_id = rule_id;
  m_channel_id = channel_id;
  m_enforcement_object_id = object_id;
  m_enforcement_operation = 2;
  m_property_first = limit;
  m_property_second = minus_one;
  m_property_third = minus_one;
}

channel_tokens : ℤ → ℤ × ℤ → ℤ → List Bytes
channel_tokens rule_id (channel_id, object_id) limit =
    codes "6"
    ∷ to_string rule_id
    ∷ to_string channel_id
    ∷ to_string object_id
    ∷ codes "drl"
    ∷ codes "rate"
    ∷ to_string limit
    ∷ []

number-IsWord : (z : ℤ) → IsWord b'|' (to_string z)
number-IsWord z = print-IsWord z b'|' refl (omega arith)

parse_rule-channel_rule :
    (rule_id channel_id object_id limit : ℤ)
    → parse_rule (channel_rule rule_id (channel_id, object_id) limit)
      ≡ channel_tokens rule_id (channel_id, object_id) limit
unfolding parse_rule channel_rule channel_tokens
parse_rule-channel_rule rule_id channel_id object_id limit =
    tokens_of-fields _ b'|'
    ∙ fields-cons b'|' (codes "6") _ (cons-ne-nil _ _, (omega arith, tt))
    ∙ ap (◌∷◌ (codes "6")) (
        fields-cons b'|' (to_string rule_id) _ (number-IsWord rule_id)
        ∙ ap (◌∷◌ (to_string rule_id)) (
            fields-cons b'|' (to_string channel_id) _ (number-IsWord channel_id)
            ∙ ap (◌∷◌ (to_string channel_id)) (
                fields-cons b'|' (to_string object_id) _ (number-IsWord object_id)
                ∙ ap (◌∷◌ (to_string object_id)) (rate_fields limit))))
  where
    rate_fields :
        (z : ℤ)
        → fields b'|' (codes "drl|rate|" ++ to_string z)
          ≡ codes "drl" ∷ codes "rate" ∷ to_string z ∷ []
    rate_fields z =
        fields-cons b'|' (codes "drl") _
          (cons-ne-nil _ _, ((omega arith), ((omega arith), ((omega arith), tt))))
        ∙ ap (◌∷◌ (codes "drl")) (
            fields-cons b'|' (codes "rate") (to_string z) (
              cons-ne-nil _ _,
              ((omega arith), ((omega arith), ((omega arith), ((omega arith), tt)))),
            )
            ∙ ap (◌∷◌ (codes "rate")) (fields_single b'|' (to_string z) (number-IsWord z)))

-- Numbers of 64 bits that a local controller writes into the rule of a channel are those of the
-- structure that its interface sends to the stage, and the operation of that structure is `rate`.
pub fill_enforcement_rule-channel_rule :
    (rule_id channel_id object_id limit : ℤ)
    → Fits rule_id
    → Fits channel_id
    → Fits object_id
    → Fits limit
    → fill_enforcement_rule (parse_rule (channel_rule rule_id (channel_id, object_id) limit))
      ≡ ok (rate_rule rule_id (channel_id, object_id) limit)
unfolding fill_enforcement_rule channel_tokens same convert_object_type
    convert_enforcement_operation hash switch
fill_enforcement_rule-channel_rule rule_id channel_id object_id limit r c o l =
    ap fill_enforcement_rule (parse_rule-channel_rule rule_id channel_id object_id limit)
    ∙ rw (stoll-to_string rule_id r) (
        rw (stol-to_string channel_id c)
          (rw (stol-to_string object_id o) (rw (stol-to_string limit l) refl)))
