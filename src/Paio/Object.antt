-- ===== src/Paio/Object.antt =====
-- A create_object rule that PolicyGenerator writes (src/session/policy_generator.cpp) is read
-- back by the interface that sends it (src/networking/paio_interface.cpp).
use cheferd.Prelude.{ℕ, ◌≡◌, true, List, [], ◌∷◌, if◌then◌else◌}
use cheferd.Prelude.Int.{ℤ, pos, ◌==ℤ◌}
use cheferd.Text.{Bytes, codes}
use cheferd.Text.Number.{fits, long_bound, to_string}
use cheferd.Rules.Raw.{HousekeepingCreateObjectRaw}
use cheferd.Rules.Convert.{differentiation_name, context_type_name, object_type_name}
use cheferd.Paio.Channel.{received}

-- The object type that a stage gets: 1 (`drl`), or 0 for any other.
abbrev pub received_type : ℤ → ℕ
received_type z = if z ==ℤ pos 1 then 1 else 0

-- The object rule that a stage gets.
abbrev pub received_object : HousekeepingCreateObjectRaw → ℕ → HousekeepingCreateObjectRaw
received_object raw context = record raw {
  m_rule_type = 2;
  m_context_definition = pos context;
  m_operation_type = received context raw.m_operation_type;
  m_operation_context = received context raw.m_operation_context;
  m_enforcement_object_type = pos (received_type raw.m_enforcement_object_type);
}

object_tokens : HousekeepingCreateObjectRaw → ℕ → List Bytes
object_tokens raw context =
    to_string (pos 4)
    ∷ to_string raw.m_rule_id
    ∷ codes "create_object"
    ∷ to_string raw.m_channel_id
    ∷ to_string raw.m_enforcement_object_id
    ∷ context_type_name (pos context)
    ∷ differentiation_name (pos context) raw.m_operation_type
    ∷ differentiation_name (pos context) raw.m_operation_context
    ∷ object_type_name raw.m_enforcement_object_type
    ∷ to_string raw.m_property_first
    ∷ to_string raw.m_property_second
    ∷ []

-- Every number of the rule is one that a `long` holds.
pub record FitsLong (raw : HousekeepingCreateObjectRaw) : Type 0 where
  pub rule_id : fits long_bound raw.m_rule_id ≡ true
  pub channel_id : fits long_bound raw.m_channel_id ≡ true
  pub object_id : fits long_bound raw.m_enforcement_object_id ≡ true
  pub first : fits long_bound raw.m_property_first ≡ true
  pub second : fits long_bound raw.m_property_second ≡ true
