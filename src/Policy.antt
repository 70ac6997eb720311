-- ===== src/Policy.antt =====
-- `PolicyGenerator` (src/session/policy_generator.cpp): a housekeeping rule as one line of text,
-- each of its fields followed by `|`.
use cheferd.Prelude.{ℕ, [], ◌∷◌, ◌++◌}
use cheferd.Prelude.Int.{pos}
use cheferd.Text.{Bytes, codes}
use cheferd.Text.Number.{to_string}
use cheferd.Rules.Raw.{HousekeepingCreateChannelRaw, HousekeepingCreateObjectRaw}
use cheferd.Rules.Convert.{context_type_name, differentiation_name, object_type_name}

-- The codes of include/cheferd/networking/interface_definitions.hpp.
abbrev pub create_hsk_rule : ℕ
create_hsk_rule = 4

abbrev pub bar : ℕ
bar = b'|'

unfoldable pub convert_housekeeping_create_channel_string : HousekeepingCreateChannelRaw → Bytes
convert_housekeeping_create_channel_string hsk_raw =
    to_string (pos create_hsk_rule)
    ++ bar
      ∷ (to_string (pos hsk_raw.m_rule_id)
          ++ bar
            ∷ (codes "create_channel"
                ++ bar
                  ∷ (to_string hsk_raw.m_channel_id
                      ++ bar
                        ∷ (context_type_name hsk_raw.m_context_definition
                            ++ bar
                              ∷ (to_string (pos hsk_raw.m_workflow_id)
                                  ++ bar
                                    ∷ (differentiation_name hsk_raw.m_context_definition
                                          hsk_raw.m_operation_type
                                        ++ bar
                                          ∷ (differentiation_name hsk_raw.m_context_definition
                                                hsk_raw.m_operation_context
                                              ++ bar ∷ [])))))))

unfoldable pub convert_housekeeping_create_object_string : HousekeepingCreateObjectRaw → Bytes
convert_housekeeping_create_object_string hsk_raw =
    to_string (pos create_hsk_rule)
    ++ bar
      ∷ (to_string hsk_raw.m_rule_id
          ++ bar
            ∷ (codes "create_object"
                ++ bar
                  ∷ (to_string hsk_raw.m_channel_id
                      ++ bar
                        ∷ (to_string hsk_raw.m_enforcement_object_id
                            ++ bar
                              ∷ (context_type_name hsk_raw.m_context_definition
                                  ++ bar
                                    ∷ (differentiation_name hsk_raw.m_context_definition
                                          hsk_raw.m_operation_type
                                        ++ bar
                                          ∷ (differentiation_name hsk_raw.m_context_definition
                                                hsk_raw.m_operation_context
                                              ++ bar
                                                ∷ (object_type_name
                                                      hsk_raw.m_enforcement_object_type
                                                    ++ bar
                                                      ∷ (to_string hsk_raw.m_property_first
                                                          ++ bar
                                                            ∷ (to_string hsk_raw.m_property_second
                                                            ++ bar ∷ []))))))))))
