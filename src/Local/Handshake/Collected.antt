-- ===== src/Local/Handshake/Collected.antt =====
-- The channels that a local controller learns from its handshake
-- (src/controller/local_control_application.cpp).
use cheferd.Prelude.{
  ◌≡◌, refl, sym, ap, subst, ◌∙◌, Option, none, some, List, [], ◌∷◌, ◌++◌, append_assoc, append-nil,
  if◌then◌else◌, inl, inr, Bool-cases, Option-cases, Result, ok, ◌>>=◌, bind-Steps, ok-injective,
  subscript,
}
use cheferd.Prelude.Int.{ℤ, pos}
use cheferd.Text.{Bytes, codes, same, same_sound}
use cheferd.Text.Number.{stoi}
use cheferd.Rules.Staged.{number_at}
use cheferd.Dict.{Dict, lookup}
use cheferd.Dict.Laws.{lookup-put, lookup-emplace}
use cheferd.Local.State.{Local, Channels}
use cheferd.Status.{RpcStatus}
use cheferd.Local.Handshake.{
  parse_rule, operation_of, add_channel, listed, channel_of, Replied, add_rules, local_handshake,
}

abbrev pub or_none : Option Channels → Channels
or_none none = []
or_none (some cs) = cs

-- The channels of an operation, none where it has no entry.
abbrev pub channels_at : Bytes → Dict Channels → Channels
channels_at operation channels = or_none (lookup operation channels)

-- The channel that the tokens of a rule make for an operation.
abbrev pub channel_for : Bytes → List Bytes → Result Channels
channel_for operation tokens = do
  kind ← subscript tokens 2
  if same kind (codes "create_channel")
      then (do
        channel_id ← number_at stoi tokens 3
        op ← operation_of tokens
        ok (if same op operation then (channel_id, pos 1) ∷ [] else []))
      else ok []

-- Those of a list of rules, in their order.
abbrev pub channels_for : Bytes → List Bytes → Result Channels
channels_for operation [] = ok []
channels_for operation (rule ∷ rules) = do
  first ← channel_for operation (parse_rule rule)
  rest ← channels_for operation rules
  ok (first ++ rest)

add_channel-channels_at :
    (op operation : Bytes) (channel : ℤ × ℤ) (channels : Dict Channels)
    → channels_at operation (add_channel op channel channels)
      ≡ channels_at operation channels ++ (if same op operation then channel ∷ [] else [])
unfolding add_channel
add_channel-channels_at op operation channel channels = elim (Option-cases (lookup op channels)) [
  | inl e ↦
      rw (e, listed)
        (ap or_none (lookup-emplace op operation (channel ∷ []) channels)
          ∙ elim (Bool-cases (same op operation)) [
            | inl b ↦ rw b (
                rw e (
                  ap (λ o. or_none o ++ channel ∷ [])
                    (sym (subst (λ k. lookup k channels ≡ none) (same_sound op operation b) e))))
            | inr b ↦ rw b (sym (append-nil (channels_at operation channels)))
          ])
  | inr (cs, e) ↦
      rw (e, listed)
        (ap or_none (lookup-put op operation (cs ++ channel ∷ []) channels)
          ∙ elim (Bool-cases (same op operation)) [
            | inl b ↦ rw b (
                ap (λ o. or_none o ++ channel ∷ [])
                  (sym (subst (λ k. lookup k channels ≡ some cs) (same_sound op operation b) e)))
            | inr b ↦ rw b (sym (append-nil (channels_at operation channels)))
          ])
]

-- What a rule adds to the channels of an operation.
channel_of-channel_for :
    (operation : Bytes) (tokens : List Bytes) (channels next : Dict Channels) (kind : Bytes)
    → subscript tokens 2 ≡ ok kind
    → channel_of tokens channels kind ≡ ok next
    → (cs : Channels) × (channel_for operation tokens ≡ ok cs)
      × (channels_at operation next ≡ channels_at operation channels ++ cs)
channel_of-channel_for operation tokens channels next kind k e =
    elim (Bool-cases (same kind (codes "create_channel"))) [
      | inl b ↦
          let (channel_id, i, after) = bind-Steps (number_at stoi tokens 3) _ (rw b at e) in
          let (op, o, done) = bind-Steps (operation_of tokens) _ after in
          (
            if same op operation then (channel_id, pos 1) ∷ [] else [],
            rw k (rw b (rw i (rw o refl))),
            ap (channels_at operation) (sym (ok-injective done))
                ∙ add_channel-channels_at op operation (channel_id, pos 1) channels,
          )
      | inr b ↦ (
        [],
        rw k (rw b refl),
        ap (channels_at operation) (sym (ok-injective (rw b at e)))
            ∙ sym (append-nil (channels_at operation channels)),
      )
    ]

add_rules-channels_for :
    (operation : Bytes) (rules : List Bytes) (channels last : Dict Channels)
    → add_rules rules channels ≡ ok last
    → (cs : Channels) × (channels_for operation rules ≡ ok cs)
      × (channels_at operation last ≡ channels_at operation channels ++ cs)
unfolding add_rules
add_rules-channels_for operation [] channels last e =
    ([], refl, ap (channels_at operation) (sym (ok-injective e)) ∙ sym (append-nil _))
add_rules-channels_for operation (rule ∷ rules) channels last e =
    let (kind, k, after) = bind-Steps (subscript (parse_rule rule) 2) _ e in
    let (next, n, rest) = bind-Steps (channel_of (parse_rule rule) channels kind) _ after in
    let (first, f, grown) =
      channel_of-channel_for operation (parse_rule rule) channels next kind k n in
    let (others, g, left) = add_rules-channels_for operation rules next last rest in
    (
      first ++ others,
      rw f (rw g refl),
      left
          ∙ ap (λ cs. cs ++ others) grown
          ∙ append_assoc (channels_at operation channels) first others,
    )

-- When the handshake with the global controller returns, the local controller has the housekeeping
-- rules that it had and then those of the handshake; and an operation has the channels that it had
-- and then one for each of the create_channel rules of the handshake that are for it, in the order
-- of the rules.
pub local_handshake-channels_for :
    {D : Type 0} (s next : Local D) (rules : List Bytes) (operation : Bytes) (result : RpcStatus)
    (message : ℤ)
    → local_handshake s rules ≡ ok (result, message, next)
    → (cs : Channels) × (channels_for operation rules ≡ ok cs)
      × (channels_at operation next.operation_to_channel_object
          ≡ channels_at operation s.operation_to_channel_object ++ cs)
      × (next.housekeeping_rules ≡ s.housekeeping_rules ++ rules)
unfolding local_handshake
local_handshake-channels_for {D} s next rules operation result message e =
    let (channels, a, done) = bind-Steps (add_rules rules s.operation_to_channel_object) _ e in
    let (cs, c, grown) =
      add_rules-channels_for operation rules s.operation_to_channel_object channels a in
    (
      cs,
      c,
      ap (λ (r : Replied D). channels_at operation r.2.operation_to_channel_object)
            (sym (ok-injective done))
          ∙ grown,
      ap (λ (r : Replied D). r.2.housekeeping_rules) (sym (ok-injective done)),
    )
