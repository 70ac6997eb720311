-- ===== src/Tests/Texts.antt =====
-- Texts, and the rules of a rules file.
use cheferd.Prelude.{◌≡◌, refl, some, List, [], ◌∷◌, arith, if◌then◌else◌, ok}
use cheferd.Prelude.Int.{pos, negsuc}
use cheferd.Text.{Bytes, codes}
use cheferd.Text.Tokens.{run_tokens, fields}
use cheferd.Text.Tokens.Laws.{run_tokens-fields}
use cheferd.Text.Number.{to_string, stoi, stol}
use cheferd.Text.Number.RoundTrip.{stoi-to_string, stol-to_string}
use cheferd.Rules.Raw.{HousekeepingCreateChannelRaw, HousekeepingCreateObjectRaw}
use cheferd.Rules.Convert.Codes.{reread, survives, reread-survives}
use cheferd.Policy.{convert_housekeeping_create_channel_string}
use cheferd.Paio.{parse_rule, fill_create_channel_rule}
use cheferd.Paio.Channel.{received_channel, fill_create_channel-convert}

run_tokens-fields_example : run_tokens (codes "|a||b") b'|' ≡ some (fields b'|' (codes "|a||b"))
run_tokens-fields_example = run_tokens-fields (codes "|a||b") b'|'

stoi_minus_41 : stoi (to_string (negsuc 41)) ≡ ok (negsuc 41)
stoi_minus_41 = stoi-to_string (negsuc 41) refl

stol_5000000000 : stol (to_string (pos 5000000000)) ≡ ok (pos 5000000000)
stol_5000000000 = stol-to_string (pos 5000000000) refl

-- posix, `write`
abbrev channel : HousekeepingCreateChannelRaw
channel = record {
  m_rule_id = 3;
  m_rule_type = 1;
  m_channel_id = pos 1000;
  m_workflow_id = 1000;
  m_context_definition = pos 1;
  m_operation_type = 2;
  m_operation_context = 0;
}

abbrev object : HousekeepingCreateObjectRaw
object = record {
  m_rule_id = pos 4;
  m_rule_type = 2;
  m_channel_id = pos 1000;
  m_enforcement_object_id = pos 1;
  m_context_definition = pos 1;
  m_operation_type = 2;
  m_operation_context = 0;
  m_enforcement_object_type = pos 1;
  m_property_first = pos 100;
  m_property_second = pos 100000;
}

fill_create_channel-convert_example :
    fill_create_channel_rule (parse_rule (convert_housekeeping_create_channel_string channel))
    ≡ ok (received_channel channel 1)
fill_create_channel-convert_example =
    fill_create_channel-convert channel 1 (omega arith) (omega arith) refl (omega arith)

reread-survives_example : reread 5 4 ≡ pos (if survives 5 4 then 4 else 0)
reread-survives_example = reread-survives 5 4 (omega arith)

abbrev channel_line : List Bytes
channel_line =
    codes "1"
    ∷ codes "create_channel"
    ∷ codes "1000"
    ∷ codes "posix"
    ∷ codes "1000"
    ∷ codes "write"
    ∷ codes "no_op"
    ∷ []
