-- ===== src/Lib.antt =====
-- Cheferd is the control plane of a software-defined storage system. A global controller
-- (src/controller/core_control_application.cpp) keeps the jobs that run at data plane stages,
-- divides a limit of the system among them and sends enforcement rules to local controllers, which
-- pass them to the stages. Rules are texts with `|` between their fields. The housekeeping rules,
-- which make the channels and objects of a stage, come from a rules file
-- (src/utils/rules_file_parser.cpp), are written as texts by the policy generator
-- (src/session/policy_generator.cpp) and are parsed again by the interface to the stages
-- (src/networking/paio_interface.cpp).
--
-- The files: Prelude: lists, tests, faults and integers. A C++ call that can fail returns a
-- `Result`, whose faults are the two exceptions of the standard library that are thrown, undefined
-- behaviour, and a wait that nothing ends. Text: strings as lists of bytes, the searches of
-- std::string (Find), the tokenizer (Tokens: the loop of RulesFileParser::parse_rule,
-- PAIOInterface::parse_rule and parse_rule_with_break), and the numbers of std::to_string,
-- std::stoi, std::stol and std::stoll (Number). Rules: src/utils/rules_file_parser.cpp. Hash is the
-- hash behind its `switch`es, Parse and Print the two tables of each family of operations,
-- Enumerators the enumerations of include/cheferd/utils/context_propagation_definitions.hpp with
-- the codes of each family, Convert the conversions that use
-- them, Raw the structures of include/cheferd/networking/interface_definitions.hpp, and Staged the
-- rules of a file. Policy: src/session/policy_generator.cpp. Paio:
-- src/networking/paio_interface.cpp. Channel and Object have the structures that are filled from
-- the tokens of a rule, Socket the socket to a stage, Calls the calls over it. Dict:
-- std::unordered_map and std::map with keys that are strings, and their laws. Core:
-- src/controller/core_control_application.cpp. State has the fields of CoreControlApplication and
-- its queues, with SubmitRule and GetResult of src/session/local_controller_session.cpp; Enforce
-- update_job_demands, send_enforcement_rule and collect_enforcement_rule_results; Static and
-- Vanilla the two policies over integers; Leftover the policy over floating point, with what the
-- jobs use in Measured; Stages the handlers of new local controllers and stages, and remove_stage;
-- Statistics the collection of statistics, which removes the stages that are gone; Loop
-- execute_feedback_loop, its rounds and the loops in them that wait for no more sessions; Connect
-- the handlers of src/networking/core_connection_manager.cpp. Status: src/utils/status.cpp, the
-- status of a procedure call, and the numbers of the rules in
-- include/cheferd/networking/interface_definitions.hpp. Wire: src/networking/local_interface.cpp,
-- which makes messages of the global controller's rules. Rates and Enforcement have the way of an
-- enforcement rule, Handshake those of the texts of the handshakes, and Rpc the calls with their
-- replies. Session: the sessions with their queues. Queue has the worker and the two queues of
-- src/session/data_plane_session.cpp, which src/session/local_controller_session.cpp has as well;
-- DataPlane, LocalController and Handshake have SendRule of the three classes, the last with the
-- loop of src/session/handshake_session.cpp. Local: src/controller/local_control_application.cpp.
-- State has the fields of LocalControlApplication; Handshake, Enforce and Statistics the handlers
-- of the calls of the global controller; Stages the connection of a stage, from its handshake to
-- its housekeeping rules; Loop the feedback loop and its stop; Accept the loop of
-- src/networking/local_connection_manager.cpp that accepts stages, with its sockets in Sockets.
-- Config: src/utils/config_file_parser.cpp, with the options of include/cheferd/utils/options.hpp.
-- Controller: src/controller/controller.cpp and src/controller/controller_exec.cpp, the
-- registration of the housekeeping rules and what the main function does with the configuration.
-- Admin: src/controller/system_admin.cpp, the rules that an administrator's file submits. Limits:
-- the way of a limit through Core, Wire, Local and Paio. Tests: the theorems at small inputs.
--
-- How they meet. Core writes a rule as a text and puts it into the queue of the session of a local
-- controller (Session.LocalController), whose worker gives it to Wire; the message that Wire makes
-- is handled by Local, which writes a rule for each channel into the queues of the stages
-- (Session.DataPlane), whose workers give them to Paio; the answers go the same way back.
--
-- The administrator's rules (Admin) wait in Core's queue until a round of a policy takes them. The
-- rules that Controller registers from the file that Config names are those that a local controller
-- is given at its handshake, and that its stages are given before they are ready.
--
-- Parameters. The socket to a stage is a record of its writes and reads, which may fail, over a
-- state of any type; the local controller behind a procedure call is a record of its handlers; the
-- rates that stages report are of any type, with the operations on `double` that the code uses. In
-- Core a reported rate has an integer as its value. The floating point of the leftover policy is a
-- record of its operations over two types, whose conversions to integers are total; the YAML
-- library is a record of what its nodes are read as; the operating system behind the sockets of a
-- local controller is a record of its calls.
--
-- Bounds and fuel. The tokenizer's loop runs on fuel, one more than the text's length, which is
-- enough since every round but the last takes at least one byte. The loops over lists are
-- structural. The loops of execute_feedback_loop run on fuel that their caller chooses, one more
-- than sessions wait; those of the local controller run on a list of answers, one for each round. A
-- loop that another thread ends runs for a number of rounds, or on a list of what its flag is at
-- each test. A `long` or `int` of the control applications is an integer without a bound, save for
-- the delay of the loop that accepts stages: its overflow is not modelled, nor is std::floor of a
-- quotient through a `double`, which is exact below 2 ^ 53. Conversions to uint32_t and uint64_t
-- wrap, and so does the `unsigned long` of the leftover policy; std::stoi, std::stol and std::stoll
-- throw outside their ranges. The order of an unordered_map is that of first insertion.
--
-- Not modelled: threads, locks and condition variables. Each handler is one step, and the worker of
-- a session is, for the applications, given by the responses that are still to come; the worker
-- itself is in Session, where its steps and those of its client stand in any order. Nor: the
-- servers and clients of the procedure calls, clocks and sleeps, logging, the creation of threads,
-- and the command line, which is only handed to its library. A file is the list of its lines.
pub mod Prelude
pub mod Text
pub mod Rules
pub mod Policy
pub mod Paio
pub mod Dict
pub mod Core
pub mod Admin
pub mod Config
pub mod Controller
pub mod Limits
pub mod Local
pub mod Session
pub mod Status
pub mod Tests
pub mod Wire
