-- ===== src/Rules/Convert/Codes.antt =====
-- Which enumerators a rules file can name, and which codes survive being printed
-- in a rule and read back by the receiver of the rule.
use Prim.Native.String.{String}
use cheferd.Prelude.{
  Bool-cases, inl, inr, ap, ◌∙◌, ℕ, zero, suc, ◌≤◌, ◌<◌, ◌≡◌, refl, Bool, true, false, ◌&&◌, ◌||◌,
  not, List, [], ◌∷◌, arith, ltb, leb, ◌==◌, if◌then◌else◌, All,
}
use cheferd.Prelude.Int.{ℤ, pos, negsuc}
use cheferd.Text.{Bytes, codes}
use cheferd.Rules.Parse
use cheferd.Rules.Print
use cheferd.Rules.Enumerators
use cheferd.Rules.Print.{name_of}
use cheferd.Rules.Convert.{
  convert_context_type_definition, context_type_name, convert_differentiation_definitions,
  differentiation_name, definition_of,
}

abbrev pub among : ℕ → List ℕ → Bool
among d [] = false
among d (v ∷ vs) = d == v || among d vs

-- Each name converts to its place in the list, counted from n, but for those at some places, which
-- no label has and which convert to 0.
abbrev pub Numbered : (Bytes → ℕ) → List ℕ → ℕ → List String → Type 0
Numbered f unlabelled n [] = Unit
Numbered f unlabelled n (name ∷ names) =
    (f (codes name) ≡ (if among n unlabelled then 0 else n)) × Numbered f unlabelled (suc n) names

check : (Bytes → ℕ) → List ℕ → ℕ → List String → Bool
check f unlabelled n [] = true
check f unlabelled n (name ∷ names) =
    (f (codes name) == (if among n unlabelled then 0 else n)) && check f unlabelled (suc n) names

check_sound :
    (f : Bytes → ℕ) (unlabelled : List ℕ) (n : ℕ) (names : List String)
    → check f unlabelled n names ≡ true
    → Numbered f unlabelled n names
unfolding check
check_sound f unlabelled n [] h = tt
check_sound f unlabelled n (name ∷ names) h =
    (ground arith, check_sound f unlabelled (suc n) names (ground arith))

-- The names of the enumerators of each family, in the order of their values from 1 on, convert to
-- those values. The exceptions convert to 0 (`no_op`): `background` of the simple key-value store's
-- contexts, `fdopen`, `mknod`, `mknodat`, `mmap` and `munmap` of the POSIX operations, and `delete_`
-- of the store's operations, whose value 4 is that of the name `delete`.
pub enumerators-Numbered :
    Numbered Parse.convert_paio_general_definitions [] 1 Enumerators.paio_general
    × Numbered Parse.convert_posix_definitions (47 ∷ 91 ∷ 92 ∷ 93 ∷ 94 ∷ []) 1 Enumerators.posix
    × Numbered Parse.convert_posix_meta_definitions [] 1 Enumerators.posix_meta
    × Numbered Parse.convert_posix_lsm_simple_definitions (5 ∷ []) 1 Enumerators.lsm_kvs_simple
    × Numbered Parse.convert_posix_lsm_detailed_definitions [] 1 Enumerators.lsm_kvs_detailed
    × Numbered Parse.convert_kvs_definitions (4 ∷ []) 1 Enumerators.kvs
    × (Parse.convert_kvs_definitions (codes "delete") ≡ 4)
unfolding check Parse.convert_paio_general_definitions Parse.convert_posix_definitions
    Parse.convert_posix_meta_definitions Parse.convert_posix_lsm_simple_definitions
    Parse.convert_posix_lsm_detailed_definitions Parse.convert_kvs_definitions
enumerators-Numbered = (
  check_sound Parse.convert_paio_general_definitions [] 1 Enumerators.paio_general refl,
  check_sound Parse.convert_posix_definitions (47 ∷ 91 ∷ 92 ∷ 93 ∷ 94 ∷ []) 1 Enumerators.posix
      refl,
  check_sound Parse.convert_posix_meta_definitions [] 1 Enumerators.posix_meta refl,
  check_sound Parse.convert_posix_lsm_simple_definitions (5 ∷ []) 1 Enumerators.lsm_kvs_simple refl,
  check_sound Parse.convert_posix_lsm_detailed_definitions [] 1 Enumerators.lsm_kvs_detailed refl,
  check_sound Parse.convert_kvs_definitions (4 ∷ []) 1 Enumerators.kvs refl,
  refl,
)

-- Whether a code comes back unchanged: `delete_`, 4 of the store's codes, is printed with its
-- underscore, and the POSIX names are printed for 20 of the codes.
abbrev pub printed_posix : List ℕ
printed_posix =
    1 ∷ 2 ∷ 3 ∷ 4 ∷ 5 ∷ 6 ∷ 9 ∷ 14 ∷ 17 ∷ 31 ∷ 37 ∷ 39 ∷ 63 ∷ 70 ∷ 72 ∷ 75 ∷ 95 ∷ 96 ∷ 97 ∷ []

abbrev pub survives : ℕ → ℕ → Bool
survives context d =
    if context == 1
    then among d printed_posix
    else if context == 2
    then leb d 10
    else if context == 4
    then leb d 8
    else if context == 5
    then leb d 9 && not (d == 4)
    else leb d 4

-- A definition that is printed for a context and read back under that context.
abbrev pub reread : ℕ → ℕ → ℤ
reread context d =
    convert_differentiation_definitions (context_type_name (pos context))
      (differentiation_name (pos context) d)

abbrev is_pos : ℤ → ℕ → Bool
is_pos (pos n) m = n == m
is_pos negative m = false

abbrev row : ℕ → ℕ → Bool
row context d = is_pos (reread context d) (if survives context d then d else 0)

-- The row of every code below a bound.
rows_hold : ℕ → ℕ → Bool
rows_hold context zero = true
rows_hold context (suc bound) = rows_hold context bound && row context bound

row-rows_hold :
    (context bound d : ℕ) → rows_hold context bound ≡ true → d < bound → row context d ≡ true
unfolding rows_hold
row-rows_hold context zero d h less = elim less [ ]
row-rows_hold context (suc bound) d h less = ground (arith, row-rows_hold context bound d)

rows : (context : ℕ) → context < 6 → rows_hold context 100 ≡ true
unfolding rows_hold convert_differentiation_definitions context_type_name differentiation_name
    Parse.convert_paio_general_definitions Parse.convert_posix_definitions
    Parse.convert_posix_meta_definitions Parse.convert_posix_lsm_simple_definitions
    Parse.convert_posix_lsm_detailed_definitions Parse.convert_kvs_definitions
    Print.convert_paio_general_definitions Print.convert_posix_definitions
    Print.convert_posix_meta_definitions Print.convert_posix_lsm_simple_definitions
    Print.convert_posix_lsm_detailed_definitions Print.convert_kvs_definitions
rows zero h = refl
rows (suc zero) h = refl
rows (suc (suc zero)) h = refl
rows (suc (suc (suc zero))) h = refl
rows (suc (suc (suc (suc zero)))) h = refl
rows (suc (suc (suc (suc (suc zero))))) h = refl
rows (suc (suc (suc (suc (suc (suc n)))))) h = absurd (omega arith)

name_of-ge :
    (table : List (ℕ × String)) (other : String) (d : ℕ)
    → All (λ e. e.0 < 100) table
    → 100 ≤ d
    → name_of d table other ≡ codes other
unfolding name_of
name_of-ge [] other d h k = refl
name_of-ge ((label, name) ∷ rest) other d (h, hs) k = ground (arith, name_of-ge rest other d)

among-ge : (vs : List ℕ) (d : ℕ) → All (λ v. v < 100) vs → 100 ≤ d → among d vs ≡ false
among-ge [] d h k = refl
among-ge (v ∷ vs) d (h, hs) k = ground (arith, among-ge vs d)

survives-ge : (context d : ℕ) → 100 ≤ d → survives context d ≡ false
survives-ge context d h = ground (arith, among-ge printed_posix d (omega arith) h)

definition_of-ge : (context d : ℕ) → context < 6 → 100 ≤ d → definition_of context d ≡ codes "no_op"
unfolding Print.convert_paio_general_definitions Print.convert_posix_definitions
    Print.convert_posix_meta_definitions Print.convert_posix_lsm_simple_definitions
    Print.convert_posix_lsm_detailed_definitions Print.convert_kvs_definitions
definition_of-ge zero d h k = name_of-ge Print.paio_general_names "no_op" d (omega arith) k
definition_of-ge (suc zero) d h k = name_of-ge Print.posix_names "no_op" d (omega arith) k
definition_of-ge (suc (suc zero)) d h k =
    name_of-ge Print.posix_meta_names "no_op" d (omega arith) k
definition_of-ge (suc (suc (suc zero))) d h k =
    name_of-ge Print.lsm_kvs_simple_names "no_op" d (omega arith) k
definition_of-ge (suc (suc (suc (suc zero)))) d h k =
    name_of-ge Print.lsm_kvs_detailed_names "no_op" d (omega arith) k
definition_of-ge (suc (suc (suc (suc (suc zero))))) d h k =
    name_of-ge Print.kvs_names "no_op" d (omega arith) k
definition_of-ge (suc (suc (suc (suc (suc (suc n)))))) d h k = absurd (omega arith)

no_op-code :
    (context : ℕ)
    → context < 6
    → convert_differentiation_definitions (context_type_name (pos context)) (codes "no_op") ≡ pos 0
unfolding convert_differentiation_definitions context_type_name
    Parse.convert_paio_general_definitions Parse.convert_posix_definitions
    Parse.convert_posix_meta_definitions Parse.convert_posix_lsm_simple_definitions
    Parse.convert_posix_lsm_detailed_definitions Parse.convert_kvs_definitions
no_op-code zero h = refl
no_op-code (suc zero) h = refl
no_op-code (suc (suc zero)) h = refl
no_op-code (suc (suc (suc zero))) h = refl
no_op-code (suc (suc (suc (suc zero)))) h = refl
no_op-code (suc (suc (suc (suc (suc zero))))) h = refl
no_op-code (suc (suc (suc (suc (suc (suc n)))))) h = absurd (omega arith)

name-ge :
    (context d : ℕ) → context < 6 → 100 ≤ d → differentiation_name (pos context) d ≡ codes "no_op"
unfolding differentiation_name
name-ge context d h k = definition_of-ge context d h k

is_pos_sound : (z : ℤ) (m : ℕ) → is_pos z m ≡ true → z ≡ pos m
is_pos_sound (pos n) m h = ground arith
is_pos_sound (negsuc n) m h = cc

-- For each of the six contexts, a definition code that is printed in a rule and read back under the
-- context's printed name is the same code if it survives, and 0 (`no_op`) otherwise.
pub reread-survives :
    (context d : ℕ) → context < 6 → reread context d ≡ pos (if survives context d then d else 0)
reread-survives context d h = elim (Bool-cases (ltb d 100)) [
  | inl e ↦
      is_pos_sound (reread context d) _
        (row-rows_hold context 100 d (rows context h) (ground arith))
  | inr e ↦ rw (survives-ge context d (ground arith)) (large (ground arith))
]
  where
    large : 100 ≤ d → reread context d ≡ pos 0
    large k =
        ap (convert_differentiation_definitions (context_type_name (pos context)))
          (name-ge context d h k)
        ∙ no_op-code context h

-- The printed name of each of the six contexts is read back as that context.
pub context_type-reread :
    (context : ℕ)
    → context < 6
    → convert_context_type_definition (context_type_name (pos context)) ≡ pos context
unfolding convert_context_type_definition context_type_name
context_type-reread zero h = refl
context_type-reread (suc zero) h = refl
context_type-reread (suc (suc zero)) h = refl
context_type-reread (suc (suc (suc zero))) h = refl
context_type-reread (suc (suc (suc (suc zero)))) h = refl
context_type-reread (suc (suc (suc (suc (suc zero))))) h = refl
context_type-reread (suc (suc (suc (suc (suc (suc n)))))) h = absurd (omega arith)
