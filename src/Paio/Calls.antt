-- ===== src/Paio/Calls.antt =====
-- The calls of `PAIOInterface` on the socket of a data plane stage
-- (src/networking/paio_interface.cpp). A call returns its status, the message of the
-- acknowledgement as it leaves it, and the socket's next state.
pub mod Delivered
use cheferd.Prelude.{
  ℕ, Bool, true, false, ◌||◌, Option, none, some, List, [], ◌∷◌, if◌then◌else◌, length, ltb, leb,
  Result, ok, fail, ◌>>=◌, subscript, undefined,
}
use cheferd.Prelude.Int.{ℤ, pos, minus_one, ◌==ℤ◌, leb_ℤ}
use cheferd.Text.{Bytes}
use cheferd.Text.Number.{stoi}
use cheferd.Rules.Convert.{
  Housekeeping, create_channel, create_object, no_op, convert_housekeeping_operation,
}
use cheferd.Rules.Staged.{number_at}
use cheferd.Paio.{
  parse_rule, fill_create_channel_rule, fill_create_object_rule, fill_enforcement_rule,
}
use cheferd.Paio.Socket.{
  ControlOperation, StageSimplifiedHandshakeRaw, Sent, operation, channel, object, enforcement,
  ready, address, Socket, size_of,
}
use cheferd.Status.{
  PStatus, error, notsupported, ack_ok, ack_error, stage_handshake_type, stage_ready_type,
  create_hsk_rule_type, create_enf_rule_type, collect_detailed_stats_type,
  collect_global_stats_type,
}

-- stage_max_handshake_address_size
abbrev pub address_max_size : ℕ
address_max_size = 100

-- static_cast<int> of the housekeeping operation
abbrev pub subtype_of : Housekeeping → ℤ
subtype_of create_channel = pos 1
subtype_of create_object = pos 2
subtype_of no_op = pos 0

module _ {D S : Type 0} (socket : Socket D S) where
  abbrev pub Reply : Type 0
  Reply = PStatus × ℤ × S

  -- A write, and what follows it where all the bytes were written.
  abbrev pub sending : Sent → ℤ → S → (S → Reply) → Reply
  sending sent message s next =
      let (n, s') = socket.write sent s in
      if n ==ℤ size_of socket.sizes sent then next s' else (error, message, s')

  abbrev acknowledged : ℤ → ℤ → PStatus
  acknowledged n message =
      if leb_ℤ n (pos 0) || message ==ℤ ack_error
      then error
      else if message ==ℤ ack_ok
      then PStatus.ok
      else error

  -- The receive phase.
  abbrev pub receiving : ℤ → S → Reply
  receiving message s =
      let (n, received, s') = socket.read_ack message s in (acknowledged n received, received, s')

  unfoldable pub stage_handshake :
      ControlOperation → StageSimplifiedHandshakeRaw → S → PStatus × StageSimplifiedHandshakeRaw × S
  stage_handshake op stage_info_obj s =
      let sent : ControlOperation = record op {
        m_operation_id = minus_one;
        m_operation_type = pos stage_handshake_type;
        m_size = socket.sizes.handshake_size;
      } in
      let (n, s') = socket.write (operation sent) s in
      if n ==ℤ socket.sizes.operation_size
      then (let (m, received, s'') = socket.read_handshake stage_info_obj s' in
          (if m ==ℤ socket.sizes.handshake_size then PStatus.ok else error, received, s''))
      else (error, stage_info_obj, s')

  -- strcpy of an address that does not fit, with its end, is undefined.
  abbrev addressed : Bytes → ℤ → S → Result Reply
  addressed text port s =
      if ltb (length text) address_max_size
      then (let (n, s') = socket.write (address text port) s in
          ok (
            if n ==ℤ socket.sizes.address_size
            then (PStatus.ok, ack_ok, s')
            else (error, ack_error, s')))
      else fail undefined

  unfoldable pub stage_handshake_address : Bytes → S → Result Reply
  unfolding parse_rule
  stage_handshake_address rule s = do
    let tokens = parse_rule rule
    text ← subscript tokens 1
    port ← number_at stoi tokens 2
    addressed text port s

  abbrev housekeeping_operation : ControlOperation → Housekeeping → ℤ → ControlOperation
  housekeeping_operation op kind size = record op {
    m_operation_id = pos 10;
    m_operation_type = pos create_hsk_rule_type;
    m_operation_subtype = subtype_of kind;
    m_size = size;
  }

  -- The two writes of a rule, and the acknowledgement.
  abbrev pub submitting : ControlOperation → Sent → ℤ → S → Reply
  submitting op sent message s =
      sending (operation op) message s (λ s'. sending sent message s' (receiving message))

  unfoldable pub housekeeping_rule :
      Housekeeping → ControlOperation → List Bytes → ℤ → S → Result Reply
  unfolding fill_create_channel_rule fill_create_object_rule
  housekeeping_rule create_channel op tokens message s = do
    raw ← fill_create_channel_rule tokens
    ok (
        submitting (housekeeping_operation op create_channel socket.sizes.channel_size)
          (channel raw) message s)
  housekeeping_rule create_object op tokens message s = do
    raw ← fill_create_object_rule tokens
    ok (
        submitting (housekeeping_operation op create_object socket.sizes.object_size) (object raw)
          message s)
  housekeeping_rule no_op op tokens message s = ok (error, message, s)

  abbrev pub housekeeping_of : List Bytes → ControlOperation → ℤ → S → Result Reply
  housekeeping_of [] op message s = ok (error, message, s)
  housekeeping_of (token ∷ tokens) op message s = do
    kind ← subscript (token ∷ tokens) 2
    housekeeping_rule (convert_housekeeping_operation kind) op (token ∷ tokens) message s

  unfoldable pub create_housekeeping_rule : ControlOperation → Bytes → ℤ → S → Result Reply
  unfolding parse_rule housekeeping_rule
  create_housekeeping_rule op rule message s = housekeeping_of (parse_rule rule) op message s

  unfoldable pub mark_stage_ready : ControlOperation → ℤ → S → Reply
  mark_stage_ready op message s =
      submitting
        (record op {
          m_operation_id = minus_one;
          m_operation_type = pos stage_ready_type;
          m_size = socket.sizes.ready_size;
        })
        ready message s

  abbrev pub enforcement_operation : ControlOperation → ControlOperation
  enforcement_operation op = record op {
    m_operation_id = pos 10;
    m_operation_type = pos create_enf_rule_type;
    m_size = socket.sizes.enforcement_size;
  }

  abbrev pub enforcement_of : List Bytes → ControlOperation → ℤ → S → Result Reply
  enforcement_of [] op message s = ok (error, message, s)
  enforcement_of (token ∷ tokens) op message s = do
    raw ← fill_enforcement_rule (token ∷ tokens)
    ok (submitting (enforcement_operation op) (enforcement raw) message s)

  unfoldable pub create_enforcement_rule : ControlOperation → Bytes → ℤ → S → Result Reply
  unfolding parse_rule fill_enforcement_rule
  create_enforcement_rule op rule message s = enforcement_of (parse_rule rule) op message s

  -- The second write and the reads of RemoveRule: any positive number of bytes is enough.
  abbrev removing : ControlOperation → ℤ → S → Reply
  removing op message s =
      let (n, s') = socket.write (operation (record op { m_operation_id = pos 300 })) s in
      if leb_ℤ n (pos 0)
      then (error, message, s')
      else (let (m, first, s'') = socket.read_ack message s' in
          if leb_ℤ m (pos 0)
          then (error, first, s'')
          else (let (k, second, s''') = socket.read_ack first s'' in
              (if leb_ℤ k (pos 0) then error else PStatus.ok, second, s''')))

  unfoldable pub remove_rule : ControlOperation → ℤ → S → Reply
  remove_rule op message s =
      let sent : ControlOperation = record op {
        m_operation_id = minus_one;
        m_size = socket.sizes.operation_size;
      } in
      sending (operation sent) message s (removing sent message)

  unfoldable pub collect_statistics : PStatus
  collect_statistics = notsupported

  -- The rate is given where it was read whole.
  unfoldable pub collect_global_statistics : ControlOperation → S → Option D × S
  collect_global_statistics op s =
      let sent : ControlOperation = record op {
        m_operation_id = minus_one;
        m_operation_type = pos collect_detailed_stats_type;
        m_operation_subtype = pos collect_global_stats_type;
        m_size = socket.sizes.stats_size;
      } in
      let (n, s') = socket.write (operation sent) s in
      if n ==ℤ socket.sizes.operation_size
      then (let (m, rate, s'') = socket.read_stats s' in
          (if m ==ℤ socket.sizes.stats_size then some rate else none, s''))
      else (none, s')
