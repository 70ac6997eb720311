-- ===== src/Tests/Sessions.antt =====
-- A session of a stage on a socket that takes all that is written and acknowledges it, and on one
-- that takes nothing.
use cheferd.Prelude.{◌≡◌, refl, true, [], ◌∷◌, ◌++◌, map, arith, ok, fail, blocked, Gives}
use cheferd.Prelude.Int.{ℤ, pos, minus_one}
use cheferd.Text.{Bytes, codes, same}
use cheferd.Text.Number.{stoi, stol, stoll}
use cheferd.Text.Find.{index_of, index_not}
use cheferd.Text.Tokens.{tokens_of}
use cheferd.Rules.Convert.{convert_enforcement_operation, convert_object_type}
use cheferd.Rules.Raw.{EnforcementRuleRaw}
use cheferd.Paio.{fill_enforcement_rule, parse_rule}
use cheferd.Paio.Socket.{Sizes, Socket, size_of, no_operation, operation, enforcement, logged}
use cheferd.Paio.Calls.{create_enforcement_rule, enforcement_operation}
use cheferd.Paio.Calls.Delivered.{create_enforcement_rule-logged, FailsClean}
use cheferd.Status.{PStatus, ack_ok}
use cheferd.Session.DataPlane.{StageResponse, ack, send_rule, send_stage_handshake}
use cheferd.Session.DataPlane.Answered.{kind, expected, send_rule-expected, sender}
use cheferd.Session.Queue.{
  State, submit_rule, session_round, get_result, here, submitted, worked, got, rounds,
}
use cheferd.Session.Queue.Ordered.{expected_all, owed, Run-owed}
use cheferd.Session.Queue.Drained.{rounds-completion_queue}
use cheferd.Session.Handshake.{start_session}
use cheferd.Local.State.{start}
use cheferd.Local.Stages.{call_stage_handshake}
use cheferd.Local.Stages.Blocked.{as_seen, submitted_to, start_session_blocked}

abbrev sizes : Sizes
sizes = record {
  operation_size = pos 16;
  channel_size = pos 48;
  object_size = pos 72;
  enforcement_size = pos 56;
  ready_size = pos 1;
  address_size = pos 104;
  handshake_size = pos 400;
  stats_size = pos 8;
}

-- Every structure is taken whole, and every rule is granted.
abbrev pub granting : Socket ℤ (Unit {0})
granting = record {
  sizes = sizes;
  write = λ sent s. (size_of sizes sent, s);
  read_ack = λ message s. (pos 4, pos 1, s);
  read_handshake = λ raw s. (pos 400, raw, s);
  read_stats = λ s. (pos 8, pos 25, s);
}

-- No write succeeds.
abbrev closed : Socket ℤ (Unit {0})
closed = record granting { write = λ sent s. (minus_one, s) }

granting-FailsClean : FailsClean granting
granting-FailsClean m s h = absurd (omega arith)

abbrev granted : StageResponse ℤ
granted = ack 1 (pos 1)

abbrev rate_text : Bytes
rate_text = codes "6|0|1|1|drl|rate|50"

create_enforcement_rule-logged_example :
    (raw : EnforcementRuleRaw) × (fill_enforcement_rule (parse_rule rate_text) ≡ ok raw)
    × (pos 1 ≡ ack_ok)
    × (operation (enforcement_operation granting no_operation)
          ∷ enforcement (record {
            m_rule_id = pos 0;
            m_channel_id = pos 1;
            m_enforcement_object_id = pos 1;
            m_enforcement_operation = 2;
            m_property_first = pos 50;
            m_property_second = minus_one;
            m_property_third = minus_one;
          })
          ∷ []
        ≡ operation (enforcement_operation granting no_operation) ∷ enforcement raw ∷ [])
unfolding create_enforcement_rule logged same tokens_of convert_enforcement_operation
    convert_object_type stoi stol stoll index_of index_not
create_enforcement_rule-logged_example =
    create_enforcement_rule-logged granting no_operation rate_text (pos 0) (pos 1) tt tt [] _ refl

send_rule-expected_example : map kind (granted ∷ []) ≡ expected (codes "1|")
unfolding send_rule stoi index_of
send_rule-expected_example =
    send_rule-expected granting minus_one (codes "1|") tt tt PStatus.ok (granted ∷ []) refl

abbrev pub idle : State (StageResponse ℤ) (Unit {0})
idle = record {
  submission_queue = [];
  completion_queue = [];
  working_session = true;
  connection = tt;
}

abbrev busy : State (StageResponse ℤ) (Unit {0})
busy = record idle { submission_queue = codes "1|" ∷ [] }

abbrev answered_session : State (StageResponse ℤ) (Unit {0})
answered_session = record idle { completion_queue = granted ∷ [] }

Run-owed_example :
    map kind (granted ∷ []) ++ owed (sender granting minus_one) idle
    ≡ expected_all (sender granting minus_one) (codes "1|" ∷ [])
unfolding session_round submit_rule get_result send_rule stoi index_of
Run-owed_example =
    Run-owed (sender granting minus_one) idle idle (codes "1|" ∷ []) (granted ∷ []) refl (
      got {t = answered_session} {response = granted}
        (worked {t = busy} (submitted (codes "1|") here) refl) refl)

rounds-completion_queue_example :
    Gives
      (λ u.
        (u.submission_queue ≡ [])
        × (map kind u.completion_queue
            ≡ [] ++ expected_all (sender granting minus_one) (codes "1|" ∷ [])))
      (rounds (sender granting minus_one) 1 busy)
unfolding send_rule stoi index_of
rounds-completion_queue_example =
    rounds-completion_queue (sender granting minus_one) busy refl
      ((λ s. ((PStatus.ok, granted ∷ [], s), refl)), tt)

start_session_blocked_example :
    Gives
      (λ ended.
        (map kind ended.completion_queue ≡ 0 ∷ [])
        × (ended.submission_queue ≡ codes "12|/tmp/a.socket|-1|" ∷ [])
        × (call_stage_handshake (start []) (as_seen closed ended) [] ≡ fail blocked))
      (start_session closed (submitted_to closed tt (codes "12|/tmp/a.socket|-1|" ∷ []) true))
unfolding send_stage_handshake
start_session_blocked_example =
    start_session_blocked closed tt (codes "12|/tmp/a.socket|-1|" ∷ []) true (start []) [] refl
