-- ===== src/Paio/Words.antt =====
-- What PolicyGenerator writes into a rule are words of the rule, and what a code becomes on the
-- way.
use Prim.Native.String.{String}
use cheferd.Prelude.{
  ℕ, zero, suc, ◌<◌, ◌≡◌, refl, Bool, true, false, not, ◌&&◌, inl, inr, List, [], ◌∷◌, arith, ◌==◌,
  Bool-cases,
}
use cheferd.Prelude.Int.{ℤ, pos}
use cheferd.Text.{Bytes, codes}
use cheferd.Text.Tokens.Laws.{IsWord}
use cheferd.Text.Number.{to_string}
use cheferd.Text.Number.RoundTrip.{to_string-Lacks, to_string-ne-nil}
use cheferd.Rules.Print
use cheferd.Rules.Print.{name_of}
use cheferd.Rules.Convert.{definition_of, differentiation_name, context_type_name}
use cheferd.Policy.{bar}

-- The test for a word of a rule.
unfoldable pub is_word : Bytes → Bool
is_word [] = false
is_word (x ∷ []) = not (x == bar)
is_word (x ∷ y ∷ s) = not (x == bar) && is_word (y ∷ s)

pub is_word_sound : (s : Bytes) → is_word s ≡ true → IsWord bar s
unfolding is_word
is_word_sound [] h = absurd (ground arith)
is_word_sound (x ∷ []) h = (cc, ground arith)
is_word_sound (x ∷ y ∷ s) h = (cc, (ground arith, (is_word_sound (y ∷ s) (ground arith)).1))

all_words : List (ℕ × String) → Bool
all_words [] = true
all_words ((label, name) ∷ rest) = is_word (codes name) && all_words rest

name_of-IsWord :
    (table : List (ℕ × String)) (other : String) (d : ℕ)
    → all_words table ≡ true
    → is_word (codes other) ≡ true
    → IsWord bar (name_of d table other)
unfolding name_of all_words
name_of-IsWord [] other d h k = is_word_sound (codes other) k
name_of-IsWord ((label, name) ∷ rest) other d h k = elim (Bool-cases (d == label)) [
  | inl e ↦ rw e (is_word_sound (codes name) (ground arith))
  | inr e ↦ rw e (name_of-IsWord rest other d (ground arith) k)
]

pub definition_of-IsWord : (context d : ℕ) → context < 6 → IsWord bar (definition_of context d)
unfolding all_words is_word Print.convert_paio_general_definitions Print.convert_posix_definitions
    Print.convert_posix_meta_definitions Print.convert_posix_lsm_simple_definitions
    Print.convert_posix_lsm_detailed_definitions Print.convert_kvs_definitions
definition_of-IsWord zero d h = name_of-IsWord Print.paio_general_names "no_op" d refl refl
definition_of-IsWord (suc zero) d h = name_of-IsWord Print.posix_names "no_op" d refl refl
definition_of-IsWord (suc (suc zero)) d h =
    name_of-IsWord Print.posix_meta_names "no_op" d refl refl
definition_of-IsWord (suc (suc (suc zero))) d h =
    name_of-IsWord Print.lsm_kvs_simple_names "no_op" d refl refl
definition_of-IsWord (suc (suc (suc (suc zero)))) d h =
    name_of-IsWord Print.lsm_kvs_detailed_names "no_op" d refl refl
definition_of-IsWord (suc (suc (suc (suc (suc zero))))) d h =
    name_of-IsWord Print.kvs_names "no_op" d refl refl
definition_of-IsWord (suc (suc (suc (suc (suc (suc n)))))) d h = absurd (omega arith)

pub context_type_name-IsWord : (context : ℕ) → IsWord bar (context_type_name (pos context))
unfolding context_type_name all_words is_word
context_type_name-IsWord context = name_of-IsWord Print.context_names "noop" context refl refl

pub differentiation_name-IsWord :
    (context d : ℕ) → context < 6 → IsWord bar (differentiation_name (pos context) d)
unfolding differentiation_name
differentiation_name-IsWord context d h = definition_of-IsWord context d h

pub to_string-IsWord : (z : ℤ) → IsWord bar (to_string z)
to_string-IsWord z = (to_string-ne-nil z, to_string-Lacks z bar refl (omega arith))
