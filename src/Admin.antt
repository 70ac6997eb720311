-- ===== src/Admin.antt =====
-- `SystemAdmin` (src/controller/system_admin.cpp): the rules of its file, one on each line, become
-- rules in the queue of the global controller. The file is the list of its lines; the wait before
-- each rule is left out.
pub mod Demanded
use cheferd.Prelude.{
  ℕ, suc, ◌+◌, ◌*◌, List, [], ◌∷◌, ◌++◌, if◌then◌else◌, Result, ok, fail, ◌>>=◌, subscript,
  undefined,
}
use cheferd.Prelude.Int.{ℤ, pos, negsuc}
use cheferd.Text.{Bytes}
use cheferd.Text.Tokens.{tokens_of}
use cheferd.Text.Number.{fits, long_bound, stoll}
use cheferd.Rules.Staged.{number_at}
use cheferd.Core.State.{Core, enqueue_rule_in_queue}

-- The lines as tokens between spaces.
unfoldable pub stage_lines : List Bytes → List (List Bytes) → List (List Bytes)
stage_lines [] staged = staged
stage_lines (line ∷ lines) staged = stage_lines lines (staged ++ tokens_of line b' ' ∷ [])

abbrev bar : ℕ
bar = b'|'

abbrev pub thousandfold : ℤ → ℤ
thousandfold (pos n) = pos (n * 1000)
thousandfold (negsuc n) = negsuc (n * 1000 + 999)

-- `std::stoll (time) * 1000`, whose overflow is undefined.
abbrev pub milliseconds : List Bytes → Result ℤ
milliseconds staged_rule = do
  time ← number_at stoll staged_rule 1
  if fits long_bound (thousandfold time) then ok (thousandfold time) else fail undefined

abbrev pub rule_text : Bytes → Bytes → Bytes → Bytes → Bytes → Bytes
rule_text id kind job operation demand =
    bar ∷ (id ++ bar ∷ (kind ++ bar ∷ (job ++ bar ∷ (operation ++ bar ∷ (demand ++ bar ∷ [])))))

-- The rule that a line is sent as, and when.
unfoldable pub enf_rule : List Bytes → Result (Bytes × ℤ)
enf_rule staged_rule = do
  id ← subscript staged_rule 0
  kind ← subscript staged_rule 2
  job ← subscript staged_rule 3
  operation ← subscript staged_rule 4
  demand ← subscript staged_rule 5
  time ← milliseconds staged_rule
  ok (rule_text id kind job operation demand, time)

unfoldable pub submit_rules : List (List Bytes) → Core → Result Core
unfolding enf_rule
submit_rules [] s = ok s
submit_rules (staged_rule ∷ rest) s = do
  (rule, time) ← enf_rule staged_rule
  submit_rules rest (enqueue_rule_in_queue s rule)

-- operator (), for the lines of the file.
unfoldable pub administer : List Bytes → Core → Result Core
unfolding stage_lines submit_rules
administer lines s = submit_rules (stage_lines lines []) s
