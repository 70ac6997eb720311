-- ===== src/Config.antt =====
-- `ConfigFileParser` (src/utils/config_file_parser.cpp). The YAML library is a parameter: its nodes
-- and what a node is read as.
pub mod Options
use cheferd.Prelude.{
  Option, none, some, [], if◌then◌else◌, ◌||◌, Result, ok, ◌>>=◌, or_fail, undefined,
}
use cheferd.Prelude.Int.{ℤ, pos, ◌==ℤ◌}
use cheferd.Text.{Bytes, codes, same}
use cheferd.Config.Options.{
  ControlType, static, dynamic_vanilla, dynamic_leftover, mds, no_op, ControllerType, core, local,
}

-- Nodes of type N. `field` is operator[] with a key; a node that is not of the wanted form throws.
pub record Yaml (N : Type 0) : Type 0 where
  pub field : N → Bytes → Option N
  pub as_string : N → Result Bytes
  pub as_int : N → Result ℤ
  pub as_long : N → Result ℤ

-- ConfigFileParser. What is not a string has no value until it is set.
pub record Settings : Type 0 where
  pub controller_type : Option ControllerType
  pub control_type : Option ControlType
  pub core_address : Bytes
  pub local_address : Bytes
  pub housekeeping_rules_file : Bytes
  pub policies_rules_file : Bytes
  pub system_limit : Option ℤ

abbrev pub unset : Settings
unset = record {
  controller_type = none;
  control_type = none;
  core_address = [];
  local_address = [];
  housekeeping_rules_file = [];
  policies_rules_file = [];
  system_limit = none;
}

-- The default files of include/cheferd/utils/options.hpp.
abbrev pub posix_total_file : Bytes
posix_total_file = codes "../files/posix_layer_housekeeping_rules_static_total"

abbrev pub posix_dynamic_file : Bytes
posix_dynamic_file = codes "../files/posix_layer_housekeeping_rules_dynamic"

abbrev pub default_file : ControlType → Bytes → Bytes
default_file static file = posix_total_file
default_file dynamic_vanilla file = posix_dynamic_file
default_file dynamic_leftover file = posix_dynamic_file
default_file mds file = file
default_file no_op file = file

module _ {N : Type 0} (yaml : Yaml N) where
  -- A setting that is read if its node is there, and what is done if it is not.
  abbrev pub set_field :
      {A : Type 0}
      → (N → Result A)
      → (A → Settings → Settings)
      → Option N
      → Result Settings
      → Settings
      → Result Settings
  set_field read set none otherwise s = otherwise
  set_field read set (some node) otherwise s = do setting ← read node; ok (set setting s)

  abbrev pub set_string : N → Bytes → (Bytes → Settings → Settings) → Settings → Result Settings
  set_string root_node key set s = set_field yaml.as_string set (yaml.field root_node key) (ok s) s

  abbrev pub set_core_address : Bytes → Settings → Settings
  set_core_address address s = record s { core_address = address }

  abbrev pub set_housekeeping_rules_file : Bytes → Settings → Settings
  set_housekeeping_rules_file file s = record s { housekeeping_rules_file = file }

  -- select_default_housekeeping_rule. Passing on a type that has no value is undefined.
  unfoldable pub select_default_housekeeping_rule : Settings → Result Settings
  select_default_housekeeping_rule s = do
    kind ← or_fail undefined s.control_type
    ok (record s { housekeeping_rules_file = default_file kind s.housekeeping_rules_file })

  abbrev limited : N → ControlType → Settings → Result Settings
  limited root_node kind s = do
    next ←
        set_field yaml.as_long (λ limit t. record t { system_limit = some limit })
          (yaml.field root_node (codes "system_limit")) (ok s) s
    ok (record next { control_type = some kind })

  -- Any other number leaves the type as it is.
  unfoldable pub select_control_type : N → ℤ → Settings → Result Settings
  select_control_type root_node control s =
      if control ==ℤ pos 1
      then ok (record s { control_type = some static })
      else if control ==ℤ pos 2
      then limited root_node dynamic_vanilla s
      else if control ==ℤ pos 3
      then limited root_node dynamic_leftover s
      else if control ==ℤ pos 4
      then ok (record s { control_type = some mds })
      else ok s

  abbrev pub set_control_type : N → Option N → Settings → Result Settings
  set_control_type root_node none s = ok (record s { control_type = some no_op })
  set_control_type root_node (some node) s = do
    control ← yaml.as_int node
    select_control_type root_node control s

  unfoldable pub process_core_controller_config : N → Settings → Result Settings
  unfolding select_control_type select_default_housekeeping_rule
  process_core_controller_config root_node s = do
    addressed ←
        set_string root_node (codes "core_address") set_core_address
          (record s { controller_type = some ControllerType.core })
    controlled ← set_control_type root_node (yaml.field root_node (codes "control_type")) addressed
    ruled ←
        set_field yaml.as_string set_housekeeping_rules_file
          (yaml.field root_node (codes "housekeeping_rules_file"))
          (select_default_housekeeping_rule controlled) controlled
    set_string root_node (codes "policies_rules_file")
        (λ file t. record t { policies_rules_file = file }) ruled

  unfoldable pub process_local_controller_config : N → Settings → Result Settings
  process_local_controller_config root_node s = do
    addressed ←
        set_string root_node (codes "core_address") set_core_address
          (record s { controller_type = some ControllerType.local })
    set_string root_node (codes "local_address") (λ address t. record t { local_address = address })
        addressed

  abbrev process_controller : N → Option N → Settings → Result Settings
  process_controller root_node none s = ok s
  process_controller root_node (some node) s = do
    controller ← yaml.as_string node
    if same controller (codes "core")
        then process_core_controller_config root_node s
        else if same controller (codes "local")
        then process_local_controller_config root_node s
        else ok s

  -- `root_node` is what YAML::LoadFile makes of the path.
  unfoldable pub process_config_file : Result N → Settings → Result Settings
  unfolding process_core_controller_config process_local_controller_config
  process_config_file loaded s = do
    root_node ← loaded
    process_controller root_node (yaml.field root_node (codes "controller")) s
