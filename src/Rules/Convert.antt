-- ===== src/Rules/Convert.antt =====
-- The conversions of `RulesFileParser` that choose among the `switch` statements, in both
-- directions (src/utils/rules_file_parser.cpp). A context type is its `int`.
pub mod Codes
use cheferd.Prelude.{ℕ, ◌==◌, if◌then◌else◌, [], ◌∷◌}
use cheferd.Prelude.Int.{ℤ, pos, negsuc, minus_one}
use cheferd.Text.{Bytes, codes, same}
use cheferd.Rules.Hash.{hash, switch}
use cheferd.Rules.Parse
use cheferd.Rules.Parse.{context_cases}
use cheferd.Rules.Print
use cheferd.Rules.Print.{name_of, context_names}

-- HousekeepingOperation
pub data Housekeeping : Type 0 where
  create_channel create_object no_op : Housekeeping

unfoldable pub convert_housekeeping_operation : Bytes → Housekeeping
unfolding hash
convert_housekeeping_operation operation =
    if hash operation == hash (codes "create_channel")
    then create_channel
    else if hash operation == hash (codes "create_object")
    then create_object
    else no_op

-- EnforcementObjectType: DRL is 1 and NOOP is 0.
pub data ObjectType : Type 0 where
  drl noop : ObjectType

unfoldable pub convert_object_type : Bytes → ObjectType
unfolding same
convert_object_type object_type = if same object_type (codes "drl") then drl else noop

abbrev pub object_type_code : ObjectType → ℕ
object_type_code drl = 1
object_type_code noop = 0

-- static_cast<EnforcementObjectType> of a `long`, and its name
unfoldable pub object_type_name : ℤ → Bytes
object_type_name (pos n) = if n == 1 then codes "drl" else codes "noop"
object_type_name (negsuc n) = codes "noop"

unfoldable pub convert_enforcement_operation : ObjectType → Bytes → ℕ
unfolding switch
convert_enforcement_operation drl operation =
    switch (hash operation) (("init", 1) ∷ ("rate", 2) ∷ ("refill", 4) ∷ []) 0
convert_enforcement_operation noop operation = 0

unfoldable pub enforcement_operation_name : ℕ → Bytes
unfolding name_of
enforcement_operation_name operation =
    name_of operation ((1, "init") ∷ (2, "rate") ∷ (4, "refill") ∷ []) "noop"

-- The six contexts have the codes 0 to 5; any other name has -1.
abbrev pub context_code : ℕ → ℤ
context_code v = if v == 6 then minus_one else pos v

unfoldable pub convert_context_type_definition : Bytes → ℤ
unfolding switch
convert_context_type_definition context_type =
    context_code (switch (hash context_type) context_cases 6)

unfoldable pub context_type_name : ℤ → Bytes
unfolding name_of
context_type_name (pos n) = name_of n context_names "noop"
context_type_name (negsuc n) = codes "noop"

unfoldable pub convert_differentiation_definitions : Bytes → Bytes → ℤ
unfolding hash
convert_differentiation_definitions context_type definition =
    let h = hash context_type in
    if h == hash (codes "general")
    then pos (Parse.convert_paio_general_definitions definition)
    else if h == hash (codes "posix")
    then pos (Parse.convert_posix_definitions definition)
    else if h == hash (codes "posix_meta")
    then pos (Parse.convert_posix_meta_definitions definition)
    else if h == hash (codes "lsm_kvs_simple")
    then pos (Parse.convert_posix_lsm_simple_definitions definition)
    else if h == hash (codes "lsm_kvs_detailed")
    then pos (Parse.convert_posix_lsm_detailed_definitions definition)
    else if h == hash (codes "kvs")
    then pos (Parse.convert_kvs_definitions definition)
    else minus_one

abbrev pub definition_of : ℕ → ℕ → Bytes
definition_of n definition =
    if n == 0
    then Print.convert_paio_general_definitions definition
    else if n == 1
    then Print.convert_posix_definitions definition
    else if n == 2
    then Print.convert_posix_meta_definitions definition
    else if n == 3
    then Print.convert_posix_lsm_simple_definitions definition
    else if n == 4
    then Print.convert_posix_lsm_detailed_definitions definition
    else if n == 5
    then Print.convert_kvs_definitions definition
    else []

unfoldable pub differentiation_name : ℤ → ℕ → Bytes
differentiation_name (pos n) definition = definition_of n definition
differentiation_name (negsuc n) definition = []
