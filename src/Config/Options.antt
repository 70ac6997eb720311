-- ===== src/Config/Options.antt =====
-- The options that the configuration selects (include/cheferd/utils/options.hpp).

pub data ControlType : Type 0 where
  no_op static dynamic_vanilla dynamic_leftover mds : ControlType

pub data ControllerType : Type 0 where
  core local : ControllerType

pub data CommunicationType : Type 0 where
  unix inet grpc : CommunicationType
