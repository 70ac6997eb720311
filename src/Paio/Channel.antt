-- ===== src/Paio/Channel.antt =====
-- A create_channel rule that PolicyGenerator writes (src/session/policy_generator.cpp) is read
-- back by the interface that sends it (src/networking/paio_interface.cpp).
use cheferd.Prelude.{
  ℕ, ◌%◌, ◌<◌, ◌≡◌, refl, ap, ◌∙◌, true, List, [], ◌∷◌, arith, if◌then◌else◌, All, ok,
}
use cheferd.Prelude.Int.{pos}
use cheferd.Text.{Bytes, codes}
use cheferd.Text.Tokens.Laws.{IsWord, fields-delimited, tokens_of-fields}
use cheferd.Text.Number.{fits, long_bound, to_string}
use cheferd.Text.Number.RoundTrip.{stol-to_string}
use cheferd.Rules.Raw.{HousekeepingCreateChannelRaw, u32_mod, wrap}
use cheferd.Rules.Convert.{differentiation_name, context_type_name}
use cheferd.Rules.Convert.Codes.{
  among, printed_posix, reread, survives, reread-survives, context_type-reread,
}
use cheferd.Policy.{bar, convert_housekeeping_create_channel_string}
use cheferd.Paio.{parse_rule, fill_create_channel_rule}
use cheferd.Paio.Words.{
  is_word, is_word_sound, context_type_name-IsWord, differentiation_name-IsWord, to_string-IsWord,
}

-- What is left of a definition code at the stage.
abbrev pub received : ℕ → ℕ → ℕ
received context d = if survives context d then d else 0

among-le : (vs : List ℕ) (d : ℕ) → All (λ v. v < 100) vs → among d vs ≡ true → d < 100
among-le [] d h k = absurd (ground arith)
among-le (v ∷ vs) d (h, hs) k = ground (arith, among-le vs d)

received-lt : (context d : ℕ) → received context d < 100
received-lt context d = ground (arith, among-le printed_posix d (omega arith))

pub wrap-received :
    (context d : ℕ) → context < 6 → wrap u32_mod (reread context d) ≡ received context d
wrap-received context d h =
    ap (wrap u32_mod) (reread-survives context d h)
    ∙ mod_small (received context d) (received-lt context d)
  where
    mod_small : (n : ℕ) → n < 100 → n % u32_mod ≡ n
    mod_small n k = omega arith

-- The channel rule that a stage gets: the codes that are not printed have become 0.
abbrev pub received_channel : HousekeepingCreateChannelRaw → ℕ → HousekeepingCreateChannelRaw
received_channel raw context = record raw {
  m_rule_type = 1;
  m_context_definition = pos context;
  m_operation_type = received context raw.m_operation_type;
  m_operation_context = received context raw.m_operation_context;
}

create_channel-IsWord : IsWord bar (codes "create_channel")
unfolding is_word
create_channel-IsWord = is_word_sound (codes "create_channel") refl

channel_tokens : HousekeepingCreateChannelRaw → ℕ → List Bytes
channel_tokens raw context =
    to_string (pos 4)
    ∷ to_string (pos raw.m_rule_id)
    ∷ codes "create_channel"
    ∷ to_string raw.m_channel_id
    ∷ context_type_name (pos context)
    ∷ to_string (pos raw.m_workflow_id)
    ∷ differentiation_name (pos context) raw.m_operation_type
    ∷ differentiation_name (pos context) raw.m_operation_context
    ∷ []

parse-channel :
    (raw : HousekeepingCreateChannelRaw) (context : ℕ)
    → context < 6
    → parse_rule (
        convert_housekeeping_create_channel_string
          (record raw { m_context_definition = pos context }))
      ≡ channel_tokens raw context
unfolding parse_rule convert_housekeeping_create_channel_string channel_tokens
parse-channel raw context h =
    tokens_of-fields _ bar
    ∙ fields-delimited bar (channel_tokens raw context) (
      to_string-IsWord _,
      (
        to_string-IsWord _,
        (
          create_channel-IsWord,
          (
            to_string-IsWord _,
            (
              context_type_name-IsWord context,
              (
                to_string-IsWord _,
                (
                  differentiation_name-IsWord context _ h,
                  (differentiation_name-IsWord context _ h, tt),
                ),
              ),
            ),
          ),
        ),
      ),
    )

-- The text of a create_channel rule, of one of the six contexts and with numbers that their types
-- can hold (and an identifier that a `long` can), is read back as the rule that it was written
-- from, but for the operation codes, of which those that are not printed have become 0.
pub fill_create_channel-convert :
    (raw : HousekeepingCreateChannelRaw) (context : ℕ)
    → context < 6
    → raw.m_rule_id < long_bound
    → fits long_bound raw.m_channel_id ≡ true
    → raw.m_workflow_id < u32_mod
    → fill_create_channel_rule (
        parse_rule (
          convert_housekeeping_create_channel_string
            (record raw { m_context_definition = pos context })))
      ≡ ok (received_channel raw context)
unfolding fill_create_channel_rule channel_tokens
fill_create_channel-convert raw context h id channel workflow =
    ap fill_create_channel_rule (parse-channel raw context h)
    ∙ rw
        (
          stol-to_string (pos raw.m_rule_id) (ground arith),
          stol-to_string raw.m_channel_id channel,
          stol-to_string (pos raw.m_workflow_id) (ground arith),
        )
        (ground (
          arith,
          context_type-reread context h,
          wrap-received context raw.m_operation_type h,
          wrap-received context raw.m_operation_context h,
        ))
