-- ===== src/Text/Tokens.antt =====
-- The tokenizer that the program spells out in five classes: `RulesFileParser::parse_rule`,
-- `PAIOInterface::parse_rule`, `LocalInterface::parse_rule`,
-- `CoreControlApplication::parse_rule_with_break` and `LocalControlApplication::parse_rule`.
pub mod Laws
use cheferd.Prelude.{
  ℕ, zero, suc, Option, none, some, List, [], ◌∷◌, ◌++◌, ◌==◌, if◌then◌else◌, length, ◌≡◌, refl,
}
use mathlib.Core.Option.{get_or}
use cheferd.Text.{Bytes, codes}
use cheferd.Text.Find.{find, find_first_not_of, substr, index_of, index_not}

-- The `while` loop, with fuel; `last` is the variable `end`.
pub tokens_loop : ℕ → Bytes → ℕ → Option ℕ → List Bytes → Option (List Bytes)
tokens_loop zero rule c last tokens = none
tokens_loop (suc fuel) rule c last tokens = elim (find_first_not_of rule c last) [
  | none ↦ some tokens
  | some start ↦
      tokens_loop fuel rule c (find rule c start)
        (tokens ++ substr rule start (find rule c start) ∷ [])
]

-- Each round consumes a byte at least, so one round more than the text has bytes is enough.
unfoldable pub run_tokens : Bytes → ℕ → Option (List Bytes)
unfolding tokens_loop
run_tokens rule c = tokens_loop (suc (length rule)) rule c (some 0) []

-- The tokens that a call leaves in its vector.
unfoldable pub tokens_of : Bytes → ℕ → List Bytes
unfolding run_tokens
tokens_of rule c = get_or (run_tokens rule c) []

-- What the loop computes, by recursion on the text: its maximal runs of other bytes than `c`.
abbrev grow : ℕ → List Bytes → List Bytes
grow x [] = (x ∷ []) ∷ []
grow x (w ∷ ws) = (x ∷ w) ∷ ws

abbrev join_word : ℕ → ℕ → Bytes → List Bytes → List Bytes
join_word c x [] ws = (x ∷ []) ∷ ws
join_word c x (y ∷ s) ws = if y == c then (x ∷ []) ∷ ws else grow x ws

unfoldable pub fields : ℕ → Bytes → List Bytes
fields c [] = []
fields c (x ∷ s) = let rest = fields c s in if x == c then rest else join_word c x s rest

run_tokens_pipes : run_tokens (codes "|a||bc|") b'|' ≡ some (codes "a" ∷ codes "bc" ∷ [])
unfolding run_tokens index_of index_not
run_tokens_pipes = refl

fields_pipes : fields b'|' (codes "|a||bc|") ≡ codes "a" ∷ codes "bc" ∷ []
unfolding fields
fields_pipes = refl
