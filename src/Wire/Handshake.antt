-- ===== src/Wire/Handshake.antt =====
-- The housekeeping rules in the handshake of the global controller with a local controller.
use mathlib.Core.List.{cons-ne-nil}
use cheferd.Prelude.{
  ◌≡◌, sym, ap, ◌∙◌, List, [], ◌∷◌, ◌++◌, arith, All, drop, append-nil, append_assoc, subscript, ok,
}
use cheferd.Text.{Bytes, codes}
use cheferd.Text.Tokens.{tokens_of, fields}
use cheferd.Text.Tokens.Laws.{
  IsWord, tokens_of-fields, fields-cons, fields_single, tokens_of-delimited, delimited,
}
use cheferd.Text.Number.{to_string}
use cheferd.Core.Stages.{joined_rules, handshake_rule, ready_rule}
use cheferd.Wire.{fill_housekeeping_rules_grpc, stage_ready_of, parse_rule}

fields-joined_rules :
    (w : Bytes) (rules : List Bytes)
    → IsWord b':' w
    → All (IsWord b':') rules
    → fields b':' (w ++ joined_rules rules) ≡ w ∷ rules
fields-joined_rules w [] h hs = ap (fields b':') (append-nil w) ∙ fields_single b':' w h
fields-joined_rules w (rule ∷ rules) h (g, gs) =
    fields-cons b':' w (rule ++ joined_rules rules) h
    ∙ ap (◌∷◌ w) (fields-joined_rules rule rules g gs)

-- The rules that the global controller joins in its handshake, none of them empty or with a colon,
-- are the rules that the interface takes out of it, in their order.
pub fill_housekeeping_rules_grpc-handshake_rule :
    (rules : List Bytes)
    → All (IsWord b':') rules
    → fill_housekeeping_rules_grpc (handshake_rule rules) ≡ rules
unfolding fill_housekeeping_rules_grpc handshake_rule to_string
fill_housekeeping_rules_grpc-handshake_rule rules h = ap (drop 1) (
    tokens_of-fields _ b':'
    ∙ fields-joined_rules (codes "11|") rules
        (cons-ne-nil _ _, ((omega arith), ((omega arith), ((omega arith), tt)))) h)

-- A stage whose name and environment hold no | is the one that the interface marks as ready.
pub stage_ready_of_rule :
    (stage_name stage_env : Bytes)
    → IsWord b'|' (stage_name ++ b'+' ∷ stage_env)
    → stage_ready_of (ready_rule stage_name stage_env) ≡ ok (stage_name ++ b'+' ∷ stage_env)
unfolding stage_ready_of parse_rule ready_rule to_string
stage_ready_of_rule stage_name stage_env h =
    let key : Bytes = stage_name ++ b'+' ∷ stage_env in
    let text : ready_rule stage_name stage_env ≡ delimited b'|' (codes "1" ∷ key ∷ []) =
      ap (λ t. codes "1|" ++ t) (sym (append_assoc stage_name (b'+' ∷ stage_env) (codes "|"))) in
    ap (λ t. subscript (tokens_of t b'|') 1) text
    ∙ ap (λ words. subscript words 1)
        (tokens_of-delimited b'|' (codes "1" ∷ key ∷ [])
          ((cons-ne-nil _ _, ((omega arith), tt)), (h, tt)))
