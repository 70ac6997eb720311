-- ===== src/Tests/Stages.antt =====
-- A local controller with one stage of the job `app`, which has two channels for reading, and the
-- rule of that job.
use cheferd.Prelude.{
  ◌≡◌, refl, Bool, true, List, [], ◌∷◌, ◌++◌, arith, ok, ◌>>=◌, Gives, some, Option,
}
use cheferd.Prelude.Int.{ℤ, pos, minus_one, ◌==ℤ◌, ◌+ℤ◌}
use cheferd.Text.{Bytes, codes, same}
use cheferd.Text.Number.{to_string, stoi}
use cheferd.Text.Tokens.{tokens_of}
use cheferd.Text.Find.{index_of, index_not}
use cheferd.Paio.Words.{is_word, is_word_sound}
use cheferd.Paio.{fill_enforcement_rule, parse_rule}
use cheferd.Dict.{Dict, lookup, put}
use cheferd.Core.Enforce.{enforcement_rule}
use cheferd.Wire.{EnforcementOpRules, enforcement_rules_of}
use cheferd.Wire.Enforcement.{IsPart, job_rules, enforcement_rules_of-enforcement_rule}
use cheferd.Session.DataPlane.{StageResponse, ack}
use cheferd.Local.State.{Local, Session, Channels, start}
use cheferd.Local.Handshake.{local_handshake}
use cheferd.Local.Handshake.Collected.{channels_at, channels_for, local_handshake-channels_for}
use cheferd.Local.Enforce.{channel_rule, create_enforcement_rule, limit_per_channel}
use cheferd.Local.Enforce.Stage.{passed_on}
use cheferd.Local.Enforce.Everywhere.{AllGiven, message_of, create_enforcement_rule-AllGiven}
use cheferd.Local.Enforce.Refused.{create_enforcement_rule_refused}
use cheferd.Local.Statistics.{collect_global_statistics}
use cheferd.Local.Statistics.Reported.{
  Answering, sessions_of, rates_of, alive, collect_global_statistics-alive,
}
use cheferd.Local.Stages.{submit_housekeeping_rules}
use cheferd.Local.Stages.Installed.{acks, submit_housekeeping_rules-all_ok}
use cheferd.Limits.Filled.{rate_rule, fill_enforcement_rule-channel_rule}
use cheferd.Limits.Arrived.{Reached, enforcement_rule-AllGiven}
use cheferd.Status.{RpcStatus, ack_ok, ack_error}

abbrev grant : Option (StageResponse ℤ)
grant = some (ack 6 (pos 1))

abbrev refusal : Option (StageResponse ℤ)
refusal = some (ack 6 (pos 0))

abbrev session : List (Option (StageResponse ℤ)) → Session ℤ
session responses = record {
  submission_queue = [];
  completion_queue = responses;
  working_session = true;
}

abbrev channels : Channels
channels = (pos 2, pos 1) ∷ []

abbrev local : List (Option (StageResponse ℤ)) → Local ℤ
local responses = record (start []) {
  data_sessions = (codes "app+7", session responses) ∷ [];
  operation_to_channel_object = (codes "read", (pos 1, pos 1) ∷ channels) ∷ [];
  active_data_plane_sessions = pos 1;
}

abbrev granting : Local ℤ
granting = local (grant ∷ grant ∷ [])

abbrev refusing : Local ℤ
refusing = local (refusal ∷ [])

abbrev rules : EnforcementOpRules
rules = job_rules (codes "app") (pos 7 ∷ []) (pos 50)

app-IsPart : IsPart (codes "app")
unfolding is_word
app-IsPart = (is_word_sound (codes "app") refl, omega arith)

read-IsPart : IsPart (codes "read")
unfolding is_word
read-IsPart = (is_word_sound (codes "read") refl, omega arith)

enforcement_rules_of-enforcement_rule_example :
    enforcement_rules_of (enforcement_rule (codes "app") (codes "read") (pos 7 ∷ []) (pos 50))
    ≡ ok ((codes "read", rules) ∷ [])
enforcement_rules_of-enforcement_rule_example =
    enforcement_rules_of-enforcement_rule (codes "app") (codes "read") (pos 7 ∷ []) (pos 50)
      app-IsPart read-IsPart (refl, tt) refl (tt, tt)

fill_enforcement_rule-channel_rule_example :
    fill_enforcement_rule (parse_rule (channel_rule (pos 0) (pos 1, pos 1) (pos 25)))
    ≡ ok (rate_rule (pos 0) (pos 1, pos 1) (pos 25))
fill_enforcement_rule-channel_rule_example =
    fill_enforcement_rule-channel_rule (pos 0) (pos 1) (pos 1) (pos 25) refl refl refl refl

enforcement_rule-AllGiven_example :
    Gives
      (Reached granting
        (codes "app")
        (codes "read")
        (codes "b+3")
        (pos 7 ∷ [])
        (pos 50)
        (pos 1, pos 1)
        channels)
      (enforcement_rules_of (enforcement_rule (codes "app") (codes "read") (pos 7 ∷ []) (pos 50))
        >>= λ rs. create_enforcement_rule granting rs)
unfolding lookup same to_string
enforcement_rule-AllGiven_example =
    enforcement_rule-AllGiven granting (codes "app") (codes "read") (codes "b+3") (pos 7 ∷ [])
      (pos 50) (pos 1, pos 1) channels app-IsPart read-IsPart (refl, tt) refl (tt, tt) refl (tt, tt)
      ((session (grant ∷ grant ∷ []), refl, (refl, (refl, tt))), tt) (refl, tt)

create_enforcement_rule-AllGiven_example :
    Gives
      (λ r.
        (r.0 ≡ RpcStatus.ok)
        × ((r.1 ≡ message_of rules.env_rates ack_error)
            × (AllGiven (codes "read") rules (pos 1, pos 1) channels granting r.2 rules.env_rates
                × (lookup (codes "b+3") r.2.data_sessions
                    ≡ lookup (codes "b+3") granting.data_sessions))))
      (create_enforcement_rule granting ((codes "read", rules) ∷ []))
unfolding lookup same to_string
create_enforcement_rule-AllGiven_example =
    create_enforcement_rule-AllGiven (codes "read") rules (pos 1, pos 1) channels granting
      (codes "b+3") refl (tt, tt) ((session (grant ∷ grant ∷ []), refl, (refl, (refl, tt))), tt)
      (refl, tt)

create_enforcement_rule_refused_example :
    Gives
      (λ r.
        (r.0 ≡ RpcStatus.ok)
        × ((r.1 ≡ ack_ok)
            × (lookup (codes "app+7") r.2.data_sessions
                ≡ some (
                    passed_on
                      (session (refusal ∷ []))
                      (channel_rule (pos 0) (pos 1, pos 1) (limit_per_channel (pos 50) 2) ∷ [])))))
      (create_enforcement_rule refusing ((codes "read", rules) ∷ []))
unfolding lookup same to_string
create_enforcement_rule_refused_example =
    create_enforcement_rule_refused refusing (codes "read") (codes "app+7") rules (pos 7) (pos 50)
      [] [] (pos 1, pos 1) channels (session (refusal ∷ [])) refusal [] refl refl refl refl refl

abbrev answers : Dict (Answering ℤ)
answers =
    (codes "app+7", record { session = session []; kind = 5; rate = pos 30 })
    ∷ (codes "app+8", record { session = session []; kind = 5; rate = minus_one })
    ∷ []

abbrev is_lost : ℤ → Bool
is_lost rate = rate ==ℤ minus_one

abbrev asked : Local ℤ
asked = record (local []) {
  data_sessions = sessions_of answers;
  active_data_plane_sessions = pos 2;
}

collect_global_statistics-alive_example :
    Gives
      (λ r.
        (r.1 ≡ rates_of answers)
        × ((r.2.data_sessions ≡ alive is_lost answers)
            × (r.2.active_data_plane_sessions +ℤ pos 1 ≡ pos 2)))
      (collect_global_statistics is_lost asked)
unfolding same
collect_global_statistics-alive_example =
    collect_global_statistics-alive is_lost asked answers refl ((refl, tt), (tt, tt))

abbrev preparing : Local ℤ
preparing = record (start (codes "4|1" ∷ codes "4|2" ∷ [])) {
  preparing_data_sessions = (codes "app+7", session (acks (pos 1 ∷ pos 0 ∷ []))) ∷ [];
}

submit_housekeeping_rules-all_ok_example :
    Gives
      (λ r.
        (r.0 ≡ 0)
        × ((left : Session ℤ) × (lookup (codes "app+7") r.1.preparing_data_sessions ≡ some left)
            × (left.submission_queue ≡ codes "4|1" ∷ codes "4|2" ∷ [])))
      (submit_housekeeping_rules preparing (codes "app+7"))
unfolding lookup same start
submit_housekeeping_rules-all_ok_example =
    submit_housekeeping_rules-all_ok preparing (codes "app+7") (session (acks (pos 1 ∷ pos 0 ∷ [])))
      (pos 1 ∷ pos 0 ∷ []) [] refl refl refl

abbrev three_channels : Dict Channels
three_channels =
    put (codes "read") ((pos 1, pos 1) ∷ (pos 2, pos 1) ∷ (pos 3, pos 1) ∷ [])
      granting.operation_to_channel_object

abbrev channel_text : Bytes
channel_text = codes "4|1|create_channel|3|posix|0|read|no_op|"

local_handshake-channels_for_example :
    (cs : Channels) × (channels_for (codes "read") (channel_text ∷ []) ≡ ok cs)
    × (channels_at (codes "read") three_channels
        ≡ channels_at (codes "read") granting.operation_to_channel_object ++ cs)
    × (channel_text ∷ [] ≡ [] ++ channel_text ∷ [])
unfolding local_handshake lookup same tokens_of index_of index_not stoi start
local_handshake-channels_for_example =
    local_handshake-channels_for granting
      (record granting {
        housekeeping_rules = channel_text ∷ [];
        operation_to_channel_object = three_channels;
      })
      (channel_text ∷ []) (codes "read") RpcStatus.ok ack_ok refl
