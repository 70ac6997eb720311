-- ===== src/Paio/Socket.antt =====
-- The socket of a data plane stage: `::write` and `::read` with the values that they return, as
-- parameters of the model, and the structures that pass through it
-- (src/networking/paio_interface.cpp, include/cheferd/networking/interface_definitions.hpp).
use cheferd.Prelude.{List, [], ◌∷◌, ◌++◌, if◌then◌else◌}
use cheferd.Prelude.Int.{ℤ, minus_one, ◌==ℤ◌}
use cheferd.Text.{Bytes}
use cheferd.Rules.Raw.{
  HousekeepingCreateChannelRaw, HousekeepingCreateObjectRaw, EnforcementRuleRaw,
}

pub record ControlOperation : Type 0 where
  pub m_operation_id : ℤ
  pub m_operation_type : ℤ
  pub m_operation_subtype : ℤ
  pub m_size : ℤ

-- ControlOperation operation {}
abbrev pub no_operation : ControlOperation
no_operation = record {
  m_operation_id = minus_one;
  m_operation_type = minus_one;
  m_operation_subtype = minus_one;
  m_size = minus_one;
}

pub record StageSimplifiedHandshakeRaw : Type 0 where
  pub m_stage_name : Bytes
  pub m_stage_env : Bytes
  pub m_pid : ℤ
  pub m_ppid : ℤ
  pub m_stage_hostname : Bytes
  pub m_stage_user : Bytes

-- StageSimplifiedHandshakeRaw handshake_obj {}
abbrev pub no_handshake : StageSimplifiedHandshakeRaw
no_handshake = record {
  m_stage_name = [];
  m_stage_env = [];
  m_pid = minus_one;
  m_ppid = minus_one;
  m_stage_hostname = [];
  m_stage_user = [];
}

-- The structures that are written.
pub data Sent : Type 0 where
  operation : ControlOperation → Sent
  channel : HousekeepingCreateChannelRaw → Sent
  object : HousekeepingCreateObjectRaw → Sent
  enforcement : EnforcementRuleRaw → Sent
  ready : Sent
  address : Bytes → ℤ → Sent

-- `sizeof` of each structure.
pub record Sizes : Type 0 where
  pub operation_size : ℤ
  pub channel_size : ℤ
  pub object_size : ℤ
  pub enforcement_size : ℤ
  pub ready_size : ℤ
  pub address_size : ℤ
  pub handshake_size : ℤ
  pub stats_size : ℤ

abbrev pub size_of : Sizes → Sent → ℤ
size_of z (operation o) = z.operation_size
size_of z (channel c) = z.channel_size
size_of z (object o) = z.object_size
size_of z (enforcement e) = z.enforcement_size
size_of z ready = z.ready_size
size_of z (address a p) = z.address_size

-- What the operating system does of a socket in the state S. A read is given the structure as it
-- stands and returns what it leaves there. A rate of type D is a `double`.
pub record Socket (D S : Type 0) : Type 0 where
  pub sizes : Sizes
  pub write : Sent → S → ℤ × S
  pub read_ack : ℤ → S → ℤ × ℤ × S
  pub read_handshake : StageSimplifiedHandshakeRaw → S → ℤ × StageSimplifiedHandshakeRaw × S
  pub read_stats : S → ℤ × D × S

-- The same socket with a record of the structures that were written whole.
unfoldable pub logged : {D S : Type 0} → Socket D S → Socket D (S × List Sent)
logged socket = record {
  sizes = socket.sizes;
  write = λ sent s.
      let (n, next) = socket.write sent s.0 in
      (n, (next, if n ==ℤ size_of socket.sizes sent then s.1 ++ sent ∷ [] else s.1));
  read_ack = λ message s. let (n, m, next) = socket.read_ack message s.0 in (n, m, (next, s.1));
  read_handshake = λ raw s. let (n, r, next) = socket.read_handshake raw s.0 in (n, r, (next, s.1));
  read_stats = λ s. let (n, rate, next) = socket.read_stats s.0 in (n, rate, (next, s.1));
}
