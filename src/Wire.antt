-- ===== src/Wire.antt =====
-- The messages that `LocalInterface` makes of the rules that a session sends to a local controller
-- (src/networking/local_interface.cpp, protos/controllers_grpc_interface.proto). The calls of gRPC
-- that carry them are not modelled. A protobuf map is a list of entries in the order of insertion.
pub mod Enforcement
pub mod Rates
pub mod Handshake
pub mod Rpc
use cheferd.Prelude.{
  ℕ, Option, none, some, List, [], ◌∷◌, if◌then◌else◌, drop, Result, ok, ◌>>=◌, subscript,
}
use cheferd.Prelude.Int.{ℤ, ◌==ℤ◌}
use cheferd.Text.{Bytes}
use cheferd.Text.Tokens.{tokens_of}
use cheferd.Text.Number.{stoll}
use cheferd.Dict.{Dict, put}
use cheferd.Rules.Staged.{number_at}

-- map<int64, int64>
abbrev pub Rates : Type 0
Rates = List (ℤ × ℤ)

unfoldable pub put_rate : ℤ → ℤ → Rates → Rates
put_rate env rate [] = (env, rate) ∷ []
put_rate env rate ((e, r) ∷ rates) =
    if e ==ℤ env then (e, rate) ∷ rates else (e, r) ∷ put_rate env rate rates

pub record EnforcementOpRules : Type 0 where
  pub m_rule_id : ℤ
  pub m_stage_name : Bytes
  pub env_rates : Rates

-- LocalInterface::parse_rule
unfoldable pub parse_rule : Bytes → ℕ → List Bytes
parse_rule rule c = tokens_of rule c

-- The tokens between `*`, each an environment and its rate.
unfoldable pub fill_env_rates : List Bytes → Rates → Result Rates
unfolding put_rate
fill_env_rates [] rates_map = ok rates_map
fill_env_rates (token_rule ∷ rest) rates_map = do
  let tokens = tokens_of token_rule b':'
  env ← number_at stoll tokens 0
  rate ← number_at stoll tokens 1
  fill_env_rates rest (put_rate env rate rates_map)

-- The tokens between `.`, each the rule of an operation.
unfoldable pub fill_operation_rules :
    List Bytes → Dict EnforcementOpRules → Result (Dict EnforcementOpRules)
unfolding parse_rule fill_env_rates
fill_operation_rules [] op_map = ok op_map
fill_operation_rules (cur_rule ∷ rest) op_map = do
  let rule_tokens = parse_rule cur_rule b'|'
  rule_id ← number_at stoll rule_tokens 0
  stage_name ← subscript rule_tokens 1
  rates ← subscript rule_tokens 3
  rates_map ← fill_env_rates (tokens_of rates b'*') []
  operation ← subscript rule_tokens 2
  fill_operation_rules rest (
      put operation
        (record { m_rule_id = rule_id; m_stage_name = stage_name; env_rates = rates_map }) op_map)

-- create_enforcement_rule, up to the call: the first token is the number of the rule.
unfoldable pub enforcement_rules_of : Bytes → Result (Dict EnforcementOpRules)
unfolding fill_operation_rules
enforcement_rules_of rule = fill_operation_rules (drop 1 (tokens_of rule b'.')) []

unfoldable pub fill_housekeeping_rules_grpc : Bytes → List Bytes
fill_housekeeping_rules_grpc rule = drop 1 (tokens_of rule b':')

-- mark_stage_ready, up to the call.
unfoldable pub stage_ready_of : Bytes → Result Bytes
unfolding parse_rule
stage_ready_of rule = subscript (parse_rule rule b'|') 1
