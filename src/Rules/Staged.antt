-- ===== src/Rules/Staged.antt =====
-- The staged rules of `RulesFileParser` (src/utils/rules_file_parser.cpp): the lines of a file as
-- tokens, and their conversion to housekeeping rules. A file is the list of its lines.
pub mod Laws
use cheferd.Prelude.{
  ℕ, suc, ◌+◌, ◌-◌, ◌^◌, Option, none, some, List, [], ◌∷◌, ◌++◌, ltb, if◌then◌else◌, length,
  Result, ok, fail, ◌>>=◌, subscript,
}
use cheferd.Prelude.Int.{ℤ, pos, minus_one, ◌==ℤ◌}
use cheferd.Text.{Bytes}
use cheferd.Text.Tokens.{tokens_of}
use cheferd.Text.Number.{stol, stoll}
use cheferd.Rules.Raw.{
  HousekeepingCreateChannelRaw, HousekeepingCreateObjectRaw, wrap, u32_mod, u64_mod,
}
use cheferd.Rules.Convert.{
  Housekeeping, create_channel, create_object, no_op, convert_housekeeping_operation,
  convert_object_type, object_type_code, convert_context_type_definition,
  convert_differentiation_definitions,
}

-- parse_rule splits at spaces.
unfoldable pub parse_rule : Bytes → List Bytes
parse_rule rule = tokens_of rule b' '

-- The loop of read_rules_from_file over the lines, onto the staged rules and the count.
unfoldable pub read_rules : List Bytes → List (List Bytes) → ℕ → List (List Bytes) × ℕ
read_rules [] staged total_rules = (staged, total_rules)
read_rules (line ∷ lines) staged total_rules =
    read_rules lines (staged ++ parse_rule line ∷ []) (total_rules + 1)

abbrev pub channel_min_elements : ℕ
channel_min_elements = 7

abbrev pub object_min_elements : ℕ
object_min_elements = 8

abbrev pub number_at : (Bytes → Result ℤ) → List Bytes → ℕ → Result ℤ
number_at read tokens i = do token ← subscript tokens i; read token

unfoldable pub channel_fields : List Bytes → Result HousekeepingCreateChannelRaw
channel_fields staged_rule = do
  rule_id ← number_at stoll staged_rule 0
  channel_id ← number_at stol staged_rule 2
  context ← subscript staged_rule 3
  workflow_id ← number_at stol staged_rule 4
  operation_type ← subscript staged_rule 5
  operation_context ← subscript staged_rule 6
  ok (record {
    m_rule_id = wrap u64_mod rule_id;
    m_rule_type = 1;
    m_channel_id = channel_id;
    m_context_definition = convert_context_type_definition context;
    m_workflow_id = wrap u32_mod workflow_id;
    m_operation_type = wrap u32_mod (convert_differentiation_definitions context operation_type);
    m_operation_context =
        wrap u32_mod (convert_differentiation_definitions context operation_context);
  })

unfoldable pub object_fields : List Bytes → Result HousekeepingCreateObjectRaw
object_fields staged_rule = do
  rule_id ← number_at stoll staged_rule 0
  channel_id ← number_at stol staged_rule 2
  object_id ← number_at stol staged_rule 3
  context ← subscript staged_rule 4
  operation_type ← subscript staged_rule 5
  operation_context ← subscript staged_rule 6
  object_type ← subscript staged_rule 7
  property_first ← number_at stol staged_rule 8
  property_second ← number_at stol staged_rule 9
  ok (record {
    m_rule_id = rule_id;
    m_rule_type = 2;
    m_channel_id = channel_id;
    m_enforcement_object_id = object_id;
    m_context_definition = convert_context_type_definition context;
    m_operation_type = wrap u32_mod (convert_differentiation_definitions context operation_type);
    m_operation_context =
        wrap u32_mod (convert_differentiation_definitions context operation_context);
    m_enforcement_object_type = pos (object_type_code (convert_object_type object_type));
    m_property_first = property_first;
    m_property_second = property_second;
  })

abbrev pub kept {ℓ} : {A : Type ℓ} → Result A → Result (Option A)
kept r = do a ← r; ok (some a)

-- What one round of the loops makes of a staged rule; `none` is a rule that is passed over, since
-- it is of another type or too short.
abbrev pub channel_round : Housekeeping → List Bytes → Result (Option HousekeepingCreateChannelRaw)
channel_round create_channel staged_rule =
    if ltb (length staged_rule) channel_min_elements
    then ok none
    else kept (channel_fields staged_rule)
channel_round _ staged_rule = ok none

unfoldable pub channel_rule : List Bytes → Result (Option HousekeepingCreateChannelRaw)
unfolding channel_fields
channel_rule staged_rule = do
  operation ← subscript staged_rule 1
  channel_round (convert_housekeeping_operation operation) staged_rule

abbrev pub object_round : Housekeeping → List Bytes → Result (Option HousekeepingCreateObjectRaw)
object_round create_object staged_rule =
    if ltb (length staged_rule) object_min_elements
    then ok none
    else kept (object_fields staged_rule)
object_round _ staged_rule = ok none

unfoldable pub object_rule : List Bytes → Result (Option HousekeepingCreateObjectRaw)
unfolding object_fields
object_rule staged_rule = do
  operation ← subscript staged_rule 1
  object_round (convert_housekeeping_operation operation) staged_rule

-- The loop over the staged rules with its `break`; it returns `rules_passed` and `hsk_rules`.
pub rules_loop {ℓ} :
    {A : Type ℓ}
    → (List Bytes → Result (Option A))
    → List (List Bytes)
    → ℤ
    → ℕ
    → List A
    → Result (ℕ × List A)
rules_loop convert [] total_rules passed hsk_rules = ok (passed, hsk_rules)
rules_loop convert (staged_rule ∷ rest) total_rules passed hsk_rules = do
  converted ← convert staged_rule
  elim converted [
    | none ↦ rules_loop convert rest total_rules passed hsk_rules
    | some rule ↦
        let next = rules_loop convert rest total_rules (suc passed) (hsk_rules ++ rule ∷ []) in
        if pos (suc passed) ==ℤ total_rules then ok (suc passed, hsk_rules ++ rule ∷ []) else next
  ]

abbrev pub int_max : ℕ
int_max = 2 ^ 31 - 1

abbrev limit_of : ℤ → ℤ
limit_of total_rules = if total_rules ==ℤ minus_one then pos int_max else total_rules

unfoldable pub get_create_channel_rules :
    List (List Bytes) → ℤ → Result (ℕ × List HousekeepingCreateChannelRaw)
unfolding rules_loop channel_rule
get_create_channel_rules staged_rules total_rules =
    rules_loop channel_rule staged_rules (limit_of total_rules) 0 []

unfoldable pub get_create_object_rules :
    List (List Bytes) → ℤ → Result (ℕ × List HousekeepingCreateObjectRaw)
unfolding rules_loop object_rule
get_create_object_rules staged_rules total_rules =
    rules_loop object_rule staged_rules (limit_of total_rules) 0 []

-- erase_rules removes the first rule until none is left, and counts.
unfoldable pub erase_rules : List (List Bytes) → ℕ → List (List Bytes) × ℕ
erase_rules [] removed_rules = ([], removed_rules)
erase_rules (staged_rule ∷ rest) removed_rules = erase_rules rest (removed_rules + 1)
