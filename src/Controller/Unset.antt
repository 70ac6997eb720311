-- ===== src/Controller/Unset.antt =====
-- The settings that main copies although nothing has set them (src/controller/controller_exec.cpp,
-- src/utils/config_file_parser.cpp).
use cheferd.Prelude.{
  ◌≡◌, refl, sym, ap, ◌∙◌, subst, true, false, Option, none, some, List, ◌⊎◌, inl, inr, Result, ok,
  or_fail, undefined, bind-Steps, ok-injective, fail-ne-ok, Throws, arith,
}
use cheferd.Prelude.Int.{ℤ, pos, ◌==ℤ◌}
use cheferd.Text.{Bytes, codes, same, same_sound}
use cheferd.Config.{
  Yaml, Settings, unset, set_field, set_housekeeping_rules_file, set_string,
  select_default_housekeeping_rule, select_control_type, set_control_type,
  process_core_controller_config, process_local_controller_config, process_config_file,
}
use cheferd.Controller.{main}

-- The limit is as it was.
abbrev SameLimit : Settings → Settings → Type 0
SameLimit s t = t.system_limit ≡ s.system_limit

local-not-core : same (codes "local") (codes "core") ≡ false
unfolding same
local-not-core = refl

module _ {N : Type 0} (yaml : Yaml N) where
  set_field-SameLimit :
      {A : Type 0} (read : N → Result A) (set : A → Settings → Settings) (node : Option N)
      (otherwise : Result Settings) (s t : Settings)
      → ((a : A) → SameLimit s (set a s))
      → ((u : Settings) → otherwise ≡ ok u → SameLimit s u)
      → set_field yaml read set node otherwise s ≡ ok t
      → SameLimit s t
  set_field-SameLimit read set none otherwise s t h k e = k t e
  set_field-SameLimit read set (some node) otherwise s t h k e =
      let (setting, f, done) = bind-Steps (read node) _ e in
      ap (λ (u : Settings). u.system_limit) (sym (ok-injective done)) ∙ h setting

  set_string-SameLimit :
      (root : N) (key : Bytes) (set : Bytes → Settings → Settings) (s t : Settings)
      → ((a : Bytes) → SameLimit s (set a s))
      → set_string yaml root key set s ≡ ok t
      → SameLimit s t
  set_string-SameLimit root key set s t h e =
      set_field-SameLimit yaml.as_string set (yaml.field root key) (ok s) s t h
        (λ u q. ap (λ (v : Settings). v.system_limit) (sym (ok-injective q))) e

  process_local-SameLimit :
      (root : N) (s t : Settings)
      → process_local_controller_config yaml root s ≡ ok t
      → SameLimit s t
  unfolding process_local_controller_config
  process_local-SameLimit root s t e =
      let (u, f, done) = bind-Steps (set_string yaml root (codes "core_address") _ _) _ e in
      set_string-SameLimit root (codes "local_address") _ u t (λ a. refl) done
      ∙ set_string-SameLimit root (codes "core_address") _ _ u (λ a. refl) f

  -- The control type is there and is neither 2 nor 3.
  abbrev IsUnlimited : Option N → Type 0
  IsUnlimited none = Unit
  IsUnlimited (some node) =
      (control : ℤ) × (yaml.as_int node ≡ ok control)
      × ((control ==ℤ pos 2) ≡ false)
      × ((control ==ℤ pos 3) ≡ false)

  select_default-SameLimit :
      (s t : Settings) → select_default_housekeeping_rule yaml s ≡ ok t → SameLimit s t
  unfolding select_default_housekeeping_rule
  select_default-SameLimit s t e =
      let (kind, f, done) = bind-Steps (or_fail undefined s.control_type) _ e in
      ap (λ (u : Settings). u.system_limit) (sym (ok-injective done))

  select_control_type-SameLimit :
      (root : N) (control : ℤ) (s t : Settings)
      → (control ==ℤ pos 2) ≡ false
      → (control ==ℤ pos 3) ≡ false
      → select_control_type yaml root control s ≡ ok t
      → SameLimit s t
  unfolding select_control_type
  select_control_type-SameLimit root control s t h k e = ground arith

  set_control_type-SameLimit :
      (root : N) (node : Option N) (s t : Settings)
      → IsUnlimited node
      → set_control_type yaml root node s ≡ ok t
      → SameLimit s t
  set_control_type-SameLimit root none s t h e =
      ap (λ (u : Settings). u.system_limit) (sym (ok-injective e))
  set_control_type-SameLimit root (some node) s t (control, read, h, k) e =
      let (number, f, done) = bind-Steps (yaml.as_int node) _ e in
      let same_number : control ≡ number = ok-injective (sym read ∙ f) in
      select_control_type-SameLimit root control s t h k
        (subst (λ z. select_control_type yaml root z s ≡ ok t) (sym same_number) done)

  process_core-SameLimit :
      (root : N) (s t : Settings)
      → IsUnlimited (yaml.field root (codes "control_type"))
      → process_core_controller_config yaml root s ≡ ok t
      → SameLimit s t
  unfolding process_core_controller_config
  process_core-SameLimit root s t h e =
      let (addressed, f, e1) = bind-Steps (set_string yaml root (codes "core_address") _ _) _ e in
      let (controlled, g, e2) = bind-Steps (set_control_type yaml root _ addressed) _ e1 in
      let (ruled, r, e3) =
        bind-Steps
          (set_field yaml yaml.as_string (set_housekeeping_rules_file yaml)
            (yaml.field root (codes "housekeeping_rules_file"))
            (select_default_housekeeping_rule yaml controlled) controlled)
          _ e2 in
      set_string-SameLimit root (codes "policies_rules_file") _ ruled t (λ a. refl) e3
      ∙ set_field-SameLimit yaml.as_string (set_housekeeping_rules_file yaml)
          (yaml.field root (codes "housekeeping_rules_file"))
          (select_default_housekeeping_rule yaml controlled) controlled ruled (λ a. refl)
          (select_default-SameLimit controlled) r
      ∙ set_control_type-SameLimit root _ addressed controlled h g
      ∙ set_string-SameLimit root (codes "core_address") _ _ addressed (λ a. refl) f

  -- A local controller, or a core controller whose control type is neither of the dynamic policies.
  abbrev pub NeedsNoLimit : N → Bytes → Type 0
  NeedsNoLimit root controller =
      (same controller (codes "local") ≡ true)
      ⊎ ((same controller (codes "core") ≡ true)
          × IsUnlimited (yaml.field root (codes "control_type")))

  module _ (root node : N) (controller : Bytes) where
    module _ (named : yaml.field root (codes "controller") ≡ some node) where
      module _ (read : yaml.as_string node ≡ ok controller) where
        process_config_file-SameLimit :
            (s t : Settings)
            → NeedsNoLimit root controller
            → process_config_file yaml (ok root) s ≡ ok t
            → SameLimit s t
        unfolding process_config_file
        process_config_file-SameLimit s t (inl l) e =
            let is_local : controller ≡ codes "local" = same_sound controller (codes "local") l in
            let not_core : same controller (codes "core") ≡ false =
              ap (λ c. same c (codes "core")) is_local ∙ local-not-core in
            process_local-SameLimit root s t (rw (named, read, not_core, l) at e)
        process_config_file-SameLimit s t (inr (c, h)) e =
            process_core-SameLimit root s t h (rw (named, read, c) at e)

        -- The main function of a local controller, and of a core controller whose control type is
        -- missing or is a number other than 2 and 3, never returns a value: it reads a system limit
        -- that nothing has set, unless it has failed before that.
        pub main-Throws :
            {D : Type 0} (lines_of : Bytes → List Bytes)
            → NeedsNoLimit root controller
            → Throws (main {D = D} yaml (ok root) lines_of)
        unfolding main
        main-Throws lines_of h a e =
            let (s, f, e1) = bind-Steps (process_config_file yaml (ok root) unset) _ e in
            let (controller_type, g, e2) = bind-Steps (or_fail undefined s.controller_type) _ e1 in
            let (control_type, k, e3) = bind-Steps (or_fail undefined s.control_type) _ e2 in
            let (limit, l, e4) = bind-Steps (or_fail undefined s.system_limit) _ e3 in
            let unread : s.system_limit ≡ none = process_config_file-SameLimit unset s h f in
            fail-ne-ok (sym (ap (or_fail undefined) unread) ∙ l)
