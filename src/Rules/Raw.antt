-- ===== src/Rules/Raw.antt =====
-- The structures that carry a rule, of include/cheferd/networking/interface_definitions.hpp, and
-- the conversions of C++ between the integer types of their fields. A `uint32_t` or `uint64_t` is
-- a number below its modulus, a `long` or `int` an integer.
use cheferd.Prelude.{ℕ, ◌-◌, ◌%◌, ◌^◌}
use cheferd.Prelude.Int.{ℤ, pos, negsuc}

pub record HousekeepingCreateChannelRaw : Type 0 where
  pub m_rule_id : ℕ
  pub m_rule_type : ℕ
  pub m_channel_id : ℤ
  pub m_context_definition : ℤ
  pub m_workflow_id : ℕ
  pub m_operation_type : ℕ
  pub m_operation_context : ℕ

pub record HousekeepingCreateObjectRaw : Type 0 where
  pub m_rule_id : ℤ
  pub m_rule_type : ℕ
  pub m_channel_id : ℤ
  pub m_enforcement_object_id : ℤ
  pub m_context_definition : ℤ
  pub m_operation_type : ℕ
  pub m_operation_context : ℕ
  pub m_enforcement_object_type : ℤ
  pub m_property_first : ℤ
  pub m_property_second : ℤ

pub record EnforcementRuleRaw : Type 0 where
  pub m_rule_id : ℤ
  pub m_channel_id : ℤ
  pub m_enforcement_object_id : ℤ
  pub m_enforcement_operation : ℕ
  pub m_property_first : ℤ
  pub m_property_second : ℤ
  pub m_property_third : ℤ

-- The conversion of a signed integer to an unsigned type of the given modulus.
abbrev pub wrap : ℕ → ℤ → ℕ
wrap modulus (pos n) = n % modulus
wrap modulus (negsuc n) = modulus - 1 - n % modulus

abbrev pub u32_mod : ℕ
u32_mod = 2 ^ 32

abbrev pub u64_mod : ℕ
u64_mod = 2 ^ 64
