-- ===== src/Paio.antt =====
-- The rules that `PAIOInterface` sends to a data plane stage (src/networking/paio_interface.cpp):
-- the tokens of a rule's text and the structures that are filled from them. Socket and Calls have
-- the calls that send them.
pub mod Words
pub mod Channel
pub mod Object
pub mod Socket
pub mod Calls
use cheferd.Prelude.{ℕ, ◌^◌, ◌==◌, if◌then◌else◌, List, [], ◌∷◌, Result, ok, ◌>>=◌, subscript}
use cheferd.Prelude.Int.{ℤ, pos, minus_one}
use cheferd.Text.{Bytes}
use cheferd.Text.Tokens.{tokens_of}
use cheferd.Text.Number.{stol, stoll}
use cheferd.Rules.Raw.{
  HousekeepingCreateChannelRaw, HousekeepingCreateObjectRaw, EnforcementRuleRaw, wrap, u32_mod,
  u64_mod,
}
use cheferd.Rules.Convert.{
  convert_object_type, object_type_code, convert_enforcement_operation,
  convert_context_type_definition, convert_differentiation_definitions,
}
use cheferd.Rules.Staged.{number_at}

unfoldable pub parse_rule : Bytes → List Bytes
parse_rule rule = tokens_of rule b'|'

unfoldable pub fill_create_channel_rule : List Bytes → Result HousekeepingCreateChannelRaw
fill_create_channel_rule tokens = do
  rule_id ← number_at stol tokens 1
  channel_id ← number_at stol tokens 3
  context ← subscript tokens 4
  workflow_id ← number_at stol tokens 5
  operation_type ← subscript tokens 6
  operation_context ← subscript tokens 7
  ok (record {
    m_rule_id = wrap u64_mod rule_id;
    m_rule_type = 1;
    m_channel_id = channel_id;
    m_context_definition = convert_context_type_definition context;
    m_workflow_id = wrap u32_mod workflow_id;
    m_operation_type = wrap u32_mod (convert_differentiation_definitions context operation_type);
    m_operation_context =
        wrap u32_mod (convert_differentiation_definitions context operation_context);
  })

unfoldable pub fill_create_object_rule : List Bytes → Result HousekeepingCreateObjectRaw
fill_create_object_rule tokens = do
  rule_id ← number_at stol tokens 1
  channel_id ← number_at stol tokens 3
  object_id ← number_at stol tokens 4
  context ← subscript tokens 5
  operation_type ← subscript tokens 6
  operation_context ← subscript tokens 7
  object_type ← subscript tokens 8
  property_first ← number_at stol tokens 9
  property_second ← number_at stol tokens 10
  ok (record {
    m_rule_id = rule_id;
    m_rule_type = 2;
    m_channel_id = channel_id;
    m_enforcement_object_id = object_id;
    m_context_definition = convert_context_type_definition context;
    m_operation_type = wrap u32_mod (convert_differentiation_definitions context operation_type);
    m_operation_context =
        wrap u32_mod (convert_differentiation_definitions context operation_context);
    m_enforcement_object_type = pos (object_type_code (convert_object_type object_type));
    m_property_first = property_first;
    m_property_second = property_second;
  })

-- `init` alone has a second property; the fields that the code leaves alone keep -1.
abbrev second_property : ℕ → List Bytes → Result ℤ
second_property operation_type tokens =
    if operation_type == 1 then number_at stol tokens 7 else ok minus_one

unfoldable pub fill_enforcement_rule : List Bytes → Result EnforcementRuleRaw
fill_enforcement_rule tokens = do
  object_type ← subscript tokens 4
  operation ← subscript tokens 5
  rule_id ← number_at stoll tokens 1
  channel_id ← number_at stol tokens 2
  object_id ← number_at stol tokens 3
  let operation_type = convert_enforcement_operation (convert_object_type object_type) operation
  property_first ← number_at stol tokens 6
  property_second ← second_property operation_type tokens
  ok (record {
    m_rule_id = rule_id;
    m_channel_id = channel_id;
    m_enforcement_object_id = object_id;
    m_enforcement_operation = operation_type;
    m_property_first = property_first;
    m_property_second = property_second;
    m_property_third = minus_one;
  })
