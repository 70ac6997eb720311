-- ===== src/Controller.antt =====
-- `Controller` and the main function (src/controller/controller.cpp, src/controller/
-- controller_exec.cpp). The content of a file is the list of its lines, and none where it cannot be
-- opened.
pub mod Registered
pub mod Unset
use cheferd.Prelude.{
  ℕ, zero, suc, ◌+◌, Option, none, some, List, [], ◌∷◌, ◌++◌, map, Result, ok, ◌>>=◌, or_fail,
  undefined, out_of_range, get_elem?,
}
use cheferd.Prelude.Int.{ℤ, minus_one}
use cheferd.Text.{Bytes}
use cheferd.Rules.Staged.{read_rules, get_create_channel_rules, get_create_object_rules}
use cheferd.Policy.{
  convert_housekeeping_create_channel_string, convert_housekeeping_create_object_string,
}
use cheferd.Config.Options.{ControlType, ControllerType, core, local}
use cheferd.Config.{Yaml, Settings, unset, process_config_file}
use cheferd.Core.State as CoreState
use cheferd.Local.State as LocalState

-- `for (i = 0; i < rules_size; i++)` over the raw rules, with `at`, which throws past the end.
unfoldable pub store_rules :
    {A : Type 0} → (A → Bytes) → List A → ℕ → ℕ → List Bytes → Result (List Bytes)
store_rules convert raw i zero stored = ok stored
store_rules convert raw i (suc rounds) stored = do
  rule ← or_fail out_of_range (get_elem? raw i)
  store_rules convert raw (i + 1) rounds (stored ++ convert rule ∷ [])

-- RegisterHousekeepingRules, for the lines of the file.
unfoldable pub register_housekeeping_rules : List Bytes → List Bytes → Result (List Bytes)
unfolding store_rules
register_housekeeping_rules lines housekeeping_rules = do
  let (staged_rules, total_rules) = read_rules lines [] 0
  (channels, hsk_create_channel) ← get_create_channel_rules staged_rules minus_one
  stored ←
      store_rules convert_housekeeping_create_channel_string hsk_create_channel 0 channels
        housekeeping_rules
  (objects, hsk_create_object) ← get_create_object_rules staged_rules minus_one
  store_rules convert_housekeeping_create_object_string hsk_create_object 0 objects stored

-- What main has started: a control application of either kind.
pub data Started (D : Type 0) : Type 0 where
  core_started : ControlType → CoreState.Core → Started D
  local_started : LocalState.Local D → Started D

module _ {D : Type 0} where
  abbrev started :
      (Bytes → List Bytes) → Settings → ControllerType → ControlType → ℤ → Result (Started D)
  started lines_of s core control_type system_limit = do
    rules ← register_housekeeping_rules (lines_of s.housekeeping_rules_file) []
    ok (core_started control_type (CoreState.start rules system_limit))
  started lines_of s local control_type system_limit = ok (local_started (LocalState.start []))

  -- What the parser has read is copied first: a setting without a value makes that undefined.
  unfoldable pub main : {N : Type 0} → Yaml N → Result N → (Bytes → List Bytes) → Result (Started D)
  unfolding process_config_file register_housekeeping_rules
  main yaml loaded lines_of = do
    s ← process_config_file yaml loaded unset
    controller_type ← or_fail undefined s.controller_type
    control_type ← or_fail undefined s.control_type
    system_limit ← or_fail undefined s.system_limit
    started lines_of s controller_type control_type system_limit
