-- ===== src/Core/Enforce/Limits.antt =====
-- The jobs' demands that a rule sets.
use cheferd.Prelude.{◌≡◌, ◌≢◌, refl, true, ◌||◌, List, [], ◌∷◌, ◌++◌, arith, All, ok}
use cheferd.Prelude.Int.{ℤ}
use cheferd.Text.{Bytes, codes, same}
use cheferd.Text.Tokens.{tokens_of}
use cheferd.Text.Tokens.Laws.{IsWord, delimited, tokens_of-delimited}
use cheferd.Text.Number.{to_string, fits, long_bound}
use cheferd.Text.Number.RoundTrip.{stol-to_string, to_string-Lacks, to_string-ne-nil}
use cheferd.Dict.{put}
use cheferd.Core.State.{Core, dequeue_rule_from_queue, parse_rule_with_break}
use cheferd.Core.Enforce.{apply_rule, update_job_demands}

-- The text of a rule that sets a job's demand.
abbrev pub demand_rule : Bytes → Bytes → Bytes → Bytes → ℤ → List Bytes
demand_rule id kind job operation demand = id ∷ kind ∷ job ∷ operation ∷ to_string demand ∷ []

pub apply_rule-demand_rule :
    (s : Core) (rule id kind job operation : Bytes) (demand : ℤ)
    → rule ≢ []
    → tokens_of rule b'|' ≡ demand_rule id kind job operation demand
    → (same kind (codes "demand") || same kind (codes "job")) ≡ true
    → fits long_bound demand ≡ true
    → apply_rule s rule
      ≡ ok (
        operation,
        record s { job_demands = put job demand s.job_demands; active_op = operation },
      )
unfolding parse_rule_with_break
apply_rule-demand_rule s [] id kind job operation demand n t k f = absurd (n refl)
apply_rule-demand_rule s (c ∷ r) id kind job operation demand n t k f =
    rw t (rw k (rw (stol-to_string demand f) refl))

delimited-ne-nil : (id : Bytes) (rest : Bytes) → IsWord b'|' id → (id ++ b'|' ∷ rest) ≢ []
delimited-ne-nil [] rest h e = h.0 refl
delimited-ne-nil (c ∷ id) rest h e = cc

-- The oldest rule of the queue, if it is written with `job` or `demand`, words for its job and its
-- operation and a demand that a `long` holds, leaves the queue, sets the job's demand and makes the
-- operation the active one, which is also what the call returns.
pub update_job_demands-demand_rule :
    (s : Core) (id kind job operation : Bytes) (demand : ℤ) (rest : List Bytes)
    → All (IsWord b'|') (id ∷ kind ∷ job ∷ operation ∷ [])
    → (same kind (codes "demand") || same kind (codes "job")) ≡ true
    → fits long_bound demand ≡ true
    → s.pending_rules_queue ≡ delimited b'|' (demand_rule id kind job operation demand) ∷ rest
    → update_job_demands s
      ≡ ok (
        operation,
        record s {
          pending_rules_queue = rest;
          job_demands = put job demand s.job_demands;
          active_op = operation;
        },
      )
unfolding update_job_demands dequeue_rule_from_queue parse_rule_with_break
update_job_demands-demand_rule s id kind job operation demand rest words k f q = rw q (
    apply_rule-demand_rule (record s { pending_rules_queue = rest }) _ id kind job operation demand
      (delimited-ne-nil id _ words.0)
      (tokens_of-delimited b'|' (demand_rule id kind job operation demand) (
        words.0,
        (
          words.1.0,
          (
            words.1.1.0,
            (
              words.1.1.1.0,
              ((to_string-ne-nil demand, to_string-Lacks demand b'|' refl (λ e. ground arith)), tt),
            ),
          ),
        ),
      ))
      k f)
