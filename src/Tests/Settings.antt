-- ===== src/Tests/Settings.antt =====
-- A configuration of a local controller, a file of housekeeping rules and the administrator's file.
use cheferd.Prelude.{
  ◌≡◌, refl, Option, none, some, List, [], ◌∷◌, arith, map, Result, ok, fail, ◌>>=◌, out_of_range,
  inl, if◌then◌else◌, Throws,
}
use cheferd.Prelude.Int.{ℤ, pos}
use cheferd.Text.{Bytes, codes, same}
use cheferd.Text.Number.{stoll, to_string}
use cheferd.Text.Find.{index_of, index_not}
use cheferd.Text.Tokens.{tokens_of}
use cheferd.Paio.Words.{is_word, is_word_sound}
use cheferd.Dict.{put}
use cheferd.Rules.Staged.{parse_rule, channel_rule, object_rule}
use cheferd.Rules.Staged.Laws.{collect}
use cheferd.Config.{Yaml}
use cheferd.Controller.{register_housekeeping_rules, main}
use cheferd.Controller.Registered.{texts_of, register_housekeeping_rules-texts_of}
use cheferd.Controller.Unset.{main-Throws}
use cheferd.Core.State.{Core}
use cheferd.Admin.{administer}
use cheferd.Admin.Demanded.{Order, IsOrder, updates, administer-demanded}
use cheferd.Tests.Controller.{two_jobs}

abbrev lines : List Bytes
lines = codes "1 create_channel 1000 posix 1000 write no_op" ∷ codes "2 create_object 1000 1" ∷ []

register_housekeeping_rules-texts_of_example : register_housekeeping_rules lines [] ≡ (do
  channels ← collect channel_rule (map parse_rule lines)
  objects ← collect object_rule (map parse_rule lines)
  ok (texts_of channels objects))
register_housekeeping_rules-texts_of_example =
    register_housekeeping_rules-texts_of lines (omega arith)

-- The nodes of a document: its root, and the scalars.
data Node : Type 0 where
  root : Node
  scalar : Bytes → Node

abbrev scalar_text : Node → Result Bytes
scalar_text root = fail out_of_range
scalar_text (scalar text) = ok text

abbrev root_field : Node → Bytes → Option Node
root_field root key = if same key (codes "controller") then some (scalar (codes "local")) else none
root_field (scalar text) key = none

abbrev yaml : Yaml Node
yaml = record {
  field = root_field;
  as_string = scalar_text;
  as_int = λ node. fail out_of_range;
  as_long = λ node. fail out_of_range;
}

main-Throws_example : Throws (main {D = ℤ} yaml (ok root) (λ path. []))
unfolding same
main-Throws_example =
    main-Throws yaml root (scalar (codes "local")) (codes "local") refl refl (λ path. []) (inl refl)

abbrev order : Order
order = record {
  id = codes "1";
  time = codes "10";
  kind = codes "demand";
  job = codes "a";
  operation = codes "read";
  demand = pos 70;
}

abbrev quiet : Core
quiet = record two_jobs { pending_rules_queue = [] }

order-IsOrder : IsOrder order
unfolding same is_word stoll index_of
order-IsOrder = (
  (
    is_word_sound (codes "1") refl,
    (
      is_word_sound (codes "demand") refl,
      (is_word_sound (codes "a") refl, (is_word_sound (codes "read") refl, tt)),
    ),
  ),
  refl,
  refl,
  (pos 10000, refl),
)

administer-demanded_example :
    administer (codes "1 10 demand a read 70" ∷ []) quiet >>= updates 1
    ≡ ok (record quiet {
      pending_rules_queue = [];
      job_demands = put (codes "a") (pos 70) two_jobs.job_demands;
      active_op = codes "read";
    })
unfolding tokens_of index_of index_not to_string
administer-demanded_example =
    administer-demanded (codes "1 10 demand a read 70" ∷ []) (order ∷ []) quiet refl
      (order-IsOrder, tt) refl
