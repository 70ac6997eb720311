-- ===== src/Admin/Demanded.antt =====
-- The demands that the system administrator's file sets, by way of the queue of the global controller
-- (src/controller/system_admin.cpp, src/controller/core_control_application.cpp).
use mathlib.Core.List.{cons-ne-nil}
use cheferd.Prelude.{
  ℕ, zero, suc, ◌≡◌, refl, sym, ap, ◌∙◌, true, ◌||◌, List, [], ◌∷◌, ◌++◌, map, append_assoc,
  append-nil, arith, length, All, Result, ok, ◌>>=◌,
}
use cheferd.Prelude.Int.{ℤ}
use cheferd.Text.{Bytes, codes, same}
use cheferd.Text.Tokens.{tokens_of}
use cheferd.Text.Tokens.Laws.{IsWord, tokens_of-fields, fields-delimiter, fields-delimited}
use cheferd.Text.Number.{to_string, fits, long_bound}
use cheferd.Text.Number.RoundTrip.{to_string-Lacks, to_string-ne-nil}
use cheferd.Dict.{Dict, put}
use cheferd.Core.State.{Core, dequeue_rule_from_queue, enqueue_rule_in_queue}
use cheferd.Core.Enforce.{update_job_demands}
use cheferd.Core.Enforce.Limits.{apply_rule-demand_rule}
use cheferd.Admin.{stage_lines, rule_text, milliseconds, enf_rule, submit_rules, administer}

-- What a line of the file orders.
pub record Order : Type 0 where
  pub id : Bytes
  pub time : Bytes
  pub kind : Bytes
  pub job : Bytes
  pub operation : Bytes
  pub demand : ℤ

abbrev pub words_of : Order → List Bytes
words_of o = o.id ∷ o.time ∷ o.kind ∷ o.job ∷ o.operation ∷ to_string o.demand ∷ []

-- The rule that is sent for it.
abbrev pub text_of : Order → Bytes
text_of o = rule_text o.id o.kind o.job o.operation (to_string o.demand)

-- Words without a bar, of the kind `demand` or `job`, a demand of 64 bits, and a time that is read.
abbrev pub IsOrder : Order → Type 0
IsOrder o =
    All (IsWord b'|') (o.id ∷ o.kind ∷ o.job ∷ o.operation ∷ [])
    × ((same o.kind (codes "demand") || same o.kind (codes "job")) ≡ true)
    × (fits long_bound o.demand ≡ true)
    × ((time : ℤ) × (milliseconds (words_of o) ≡ ok time))

-- The demands that orders leave, later ones over earlier ones.
abbrev pub demanded : List Order → Dict ℤ → Dict ℤ
demanded [] demands = demands
demanded (o ∷ orders) demands = demanded orders (put o.job o.demand demands)

abbrev pub last_operation : List Order → Bytes → Bytes
last_operation [] operation = operation
last_operation (o ∷ orders) operation = last_operation orders o.operation

-- So many reads of the queue, one in each round of a policy.
unfoldable pub updates : ℕ → Core → Result Core
unfolding update_job_demands
updates zero s = ok s
updates (suc n) s = do (operation, next) ← update_job_demands s; updates n next

enf_rule-words_of :
    (o : Order) (time : ℤ)
    → milliseconds (words_of o) ≡ ok time
    → enf_rule (words_of o) ≡ ok (text_of o, time)
unfolding enf_rule
enf_rule-words_of o time e = rw e refl

submit_rules-orders :
    (orders : List Order) (s : Core)
    → All IsOrder orders
    → submit_rules (map words_of orders) s
      ≡ ok (record s { pending_rules_queue = s.pending_rules_queue ++ map text_of orders })
unfolding submit_rules enqueue_rule_in_queue
submit_rules-orders [] s h =
    ap (λ q. ok (record s { pending_rules_queue = q })) (sym (append-nil s.pending_rules_queue))
submit_rules-orders (o ∷ orders) s (h, hs) = rw (enf_rule-words_of o h.3.0 h.3.1) (
    submit_rules-orders orders _ hs
    ∙ ap (λ q. ok (record s { pending_rules_queue = q }))
        (append_assoc s.pending_rules_queue (text_of o ∷ []) (map text_of orders)))

tokens-text_of :
    (o : Order)
    → IsOrder o
    → tokens_of (text_of o) b'|' ≡ o.id ∷ o.kind ∷ o.job ∷ o.operation ∷ to_string o.demand ∷ []
tokens-text_of o h =
    tokens_of-fields (text_of o) b'|'
    ∙ fields-delimiter b'|' _
    ∙ fields-delimited b'|' (o.id ∷ o.kind ∷ o.job ∷ o.operation ∷ to_string o.demand ∷ []) (
      h.0.0,
      (
        h.0.1.0,
        (
          h.0.1.1.0,
          (
            h.0.1.1.1.0,
            ((to_string-ne-nil o.demand, to_string-Lacks o.demand b'|' refl (omega arith)), tt),
          ),
        ),
      ),
    )

updates-orders :
    (orders : List Order) (s : Core)
    → All IsOrder orders
    → s.pending_rules_queue ≡ map text_of orders
    → updates (length orders) s
      ≡ ok (record s {
        pending_rules_queue = [];
        job_demands = demanded orders s.job_demands;
        active_op = last_operation orders s.active_op;
      })
unfolding updates update_job_demands dequeue_rule_from_queue
updates-orders [] s h q = ap (λ r. ok (record s { pending_rules_queue = r })) q
updates-orders (o ∷ orders) s (h, hs) q = rw q (
    rw
      (apply_rule-demand_rule (record s { pending_rules_queue = map text_of orders }) (text_of o)
        o.id o.kind o.job o.operation o.demand (cons-ne-nil _ _) (tokens-text_of o h) h.1 h.2)
      (updates-orders orders _ hs refl))

stage_lines-tokens :
    (lines : List Bytes) (staged : List (List Bytes))
    → stage_lines lines staged ≡ staged ++ map (λ line. tokens_of line b' ') lines
unfolding stage_lines
stage_lines-tokens [] staged = sym (append-nil staged)
stage_lines-tokens (line ∷ lines) staged =
    stage_lines-tokens lines _ ∙ append_assoc staged (tokens_of line b' ' ∷ []) _

-- If the tokens of the lines of the administrator's file are those of orders, and no other rule
-- waits, then the file is submitted, and as many reads of the queue as it has lines leave the jobs
-- the demands that it orders, later ones over earlier ones, make the operation of the last line the
-- active one, and leave no rule waiting.
pub administer-demanded :
    (lines : List Bytes) (orders : List Order) (s : Core)
    → map (λ line. tokens_of line b' ') lines ≡ map words_of orders
    → All IsOrder orders
    → s.pending_rules_queue ≡ []
    → administer lines s >>= updates (length orders)
      ≡ ok (record s {
        pending_rules_queue = [];
        job_demands = demanded orders s.job_demands;
        active_op = last_operation orders s.active_op;
      })
unfolding administer
administer-demanded lines orders s t h q = rw (stage_lines-tokens lines [] ∙ t) (
    rw (submit_rules-orders orders s h)
      (updates-orders orders _ h (ap (λ r. r ++ map text_of orders) q)))
