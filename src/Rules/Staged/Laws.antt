-- ===== src/Rules/Staged/Laws.antt =====
-- What the two loops over the staged rules compute, and which object rules they cannot convert.
use mathlib.Core.Path.{ap₂, subst}
use cheferd.Prelude.{
  ℕ, suc, ◌+◌, ◌≤◌, ◌<◌, ◌≡◌, refl, sym, ap, ◌∙◌, inl, inr, false, Option, none, some, List, [],
  ◌∷◌, ◌++◌, append_assoc, append-nil, arith, ltb, length, get_elem?, Result, ok, fail, undefined,
  ◌>>=◌, subscript, or_fail, Result-cases, Throws, Throws-returns, returns, bind-Throws,
  bind_left-Throws, get_elem?-ge,
}
use cheferd.Prelude.Int.{ℤ, pos, minus_one, ◌==ℤ◌}
use cheferd.Text.{Bytes}
use cheferd.Text.Number.{stol, stoll}
use cheferd.Rules.Convert.{create_object, convert_housekeeping_operation}
use cheferd.Rules.Staged.{
  channel_rule, object_fields, object_rule, object_round, object_min_elements, rules_loop, int_max,
  get_create_channel_rules, get_create_object_rules, number_at,
}

-- Every staged rule in turn: those of the wanted type are converted and the others left out, and
-- the first fault ends the run.
pub collect {ℓ} :
    {A : Type ℓ} → (List Bytes → Result (Option A)) → List (List Bytes) → Result (List A)
collect convert [] = ok []
collect convert (staged_rule ∷ rest) = do
  converted ← convert staged_rule
  others ← collect convert rest
  elim converted [ none ↦ ok others | some rule ↦ ok (rule ∷ others) ]

abbrev pub counted {ℓ} : {A : Type ℓ} → ℕ → List A → Result (List A) → Result (ℕ × List A)
counted n before (ok rules) = ok (n + length rules, before ++ rules)
counted n before (fail e) = fail e

module _ {ℓ} {A : Type ℓ} (convert : List Bytes → Result (Option A)) where
  rules_loop-collect :
      (rules : List (List Bytes)) (limit n : ℕ) (before : List A)
      → n + length rules < limit
      → rules_loop convert rules (pos limit) n before ≡ counted n before (collect convert rules)
  unfolding rules_loop collect
  rules_loop-collect [] limit n before h = ground (arith, append-nil before)
  rules_loop-collect (staged_rule ∷ rest) limit n before h =
      elim (Result-cases (convert staged_rule)) [
        | inr (x, e) ↦ rw e refl
        | inl (none, e) ↦ rw e (
            rules_loop-collect rest limit n before (omega arith)
            ∙ ap (counted n before) (same_result (collect convert rest)))
        | inl (some rule, e) ↦
            rw (e, limit_ahead (omega arith))
              (rules_loop-collect rest limit (suc n) (before ++ rule ∷ []) (omega arith)
                ∙ one_more rule (collect convert rest))
      ]
    where
      same_result : (r : Result (List A)) → r ≡ (r >>= λ others. ok others)
      same_result (ok xs) = refl
      same_result (fail x) = refl

      one_more :
          (rule : A) (r : Result (List A))
          → counted (suc n) (before ++ rule ∷ []) r
            ≡ counted n before (r >>= λ others. ok (rule ∷ others))
      one_more rule (ok xs) =
          ap₂ (λ k ys. ok (k, ys)) (omega arith) (append_assoc before (rule ∷ []) xs)
      one_more rule (fail x) = refl

      limit_ahead : suc n < limit → (pos (suc n) ==ℤ pos limit) ≡ false
      limit_ahead k = ground arith

-- With no limit, and fewer staged rules than the largest `int`, the call converts every
-- create_channel rule of the file in order and returns their number, or ends in the first fault.
pub get_create_channel_rules-collect :
    (staged_rules : List (List Bytes))
    → length staged_rules < int_max
    → get_create_channel_rules staged_rules minus_one
      ≡ counted 0 [] (collect channel_rule staged_rules)
unfolding get_create_channel_rules
get_create_channel_rules-collect staged_rules h =
    rules_loop-collect channel_rule staged_rules int_max 0 [] (omega arith)

-- With no limit, and fewer staged rules than the largest `int`, the call converts every
-- create_object rule of the file in order and returns their number, or ends in the first fault.
pub get_create_object_rules-collect :
    (staged_rules : List (List Bytes))
    → length staged_rules < int_max
    → get_create_object_rules staged_rules minus_one
      ≡ counted 0 [] (collect object_rule staged_rules)
unfolding get_create_object_rules
get_create_object_rules-collect staged_rules h =
    rules_loop-collect object_rule staged_rules int_max 0 [] (omega arith)

number_at-Throws :
    (read : Bytes → Result ℤ) (tokens : List Bytes) (i : ℕ)
    → length tokens ≤ i
    → Throws (number_at read tokens i)
number_at-Throws read tokens i h = rw (get_elem?-ge tokens i h) (λ z e. cc)

object_fields-short :
    (staged_rule : List Bytes) → length staged_rule < 10 → Throws (object_fields staged_rule)
unfolding object_fields
object_fields-short staged_rule h = bind-Throws (number_at stoll staged_rule 0) _ λ _.
    bind-Throws (number_at stol staged_rule 2) _ λ _.
      bind-Throws (number_at stol staged_rule 3) _ λ _. bind-Throws (subscript staged_rule 4) _ λ _.
        bind-Throws (subscript staged_rule 5) _ λ _. bind-Throws (subscript staged_rule 6) _ λ _.
          bind-Throws (subscript staged_rule 7) _ λ _.
            bind-Throws (number_at stol staged_rule 8) _ λ _.
              bind_left-Throws (number_at stol staged_rule 9) _
                (number_at-Throws stol staged_rule 9 (omega arith))

object_rule_short-Throws :
    (operation : Bytes) (staged_rule : List Bytes)
    → get_elem? staged_rule 1 ≡ some operation
    → convert_housekeeping_operation operation ≡ create_object
    → object_min_elements ≤ length staged_rule
    → length staged_rule < 10
    → Throws (object_rule staged_rule)
unfolding object_rule
object_rule_short-Throws operation staged_rule at type long short =
    subst
      (λ o. Throws (
        or_fail undefined o >>= λ name.
        object_round (convert_housekeeping_operation name) staged_rule))
      (sym at)
      (subst (λ h. Throws (object_round h staged_rule)) (sym type)
        (rw long_enough
          (bind_left-Throws (object_fields staged_rule) _ (object_fields-short staged_rule short))))
  where
    long_enough : ltb (length staged_rule) object_min_elements ≡ false
    long_enough = ground arith

-- The conversion of a create_object rule of 8 or 9 elements, which is not fewer than the length
-- test asks for, does not return.
pub object_rule-short :
    (operation : Bytes) (staged_rule : List Bytes)
    → get_elem? staged_rule 1 ≡ some operation
    → convert_housekeeping_operation operation ≡ create_object
    → object_min_elements ≤ length staged_rule
    → length staged_rule < 10
    → returns (object_rule staged_rule) ≡ false
object_rule-short operation staged_rule at type long short =
    Throws-returns (object_rule staged_rule)
      (object_rule_short-Throws operation staged_rule at type long short)
