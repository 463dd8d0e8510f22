-- ===== src/Lib.antt =====
-- Verification of the core of Knights, a C++ server stack of gateways and chat servers over TCP and RUDP.
--
-- A gateway accepts clients over TCP and UDP. Its RUDP engine makes a reliable channel of datagrams: the ACK
-- window tells which packets arrived, the retransmission queue keeps what the peer has not acknowledged, the
-- round trip estimator sets the timeout. Decoded frames reach the dispatcher, which checks the policy of the
-- opcode and runs the handler at once, on the strand of the session or through the job queue of the workers.
-- Around these stand a memory pool for buffers, a registry of server instances and the guards of the gateway.
-- The gateway chooses a backend of the registry for each client and keeps the choice in a directory in front of
-- Redis; it gives each TCP session a ticket with which it binds a UDP endpoint, and selects sessions for RUDP.
-- The processes share an application host, for readiness and shutdown, a task scheduler and signed commands.
--
-- The files and the code:
--   Base: native numbers, lists, bits, texts, maps and Boolean tests; no code of the program.
--   Protocol/Bytes, Protocol/Packet: core/include/server/core/protocol/packet.hpp; Bytes holds its big-endian
--     accessors, Packet the header, is_valid_utf8, write_lp_utf8 and read_lp_utf8.
--   Rudp/AckWindow: AckWindow::reset and observe of core/src/net/rudp/ack_window.cpp.
--   Rudp/Retransmission: RetransmissionQueue of core/src/net/rudp/retransmission_queue.cpp.
--   Rudp/Packet: header and codec of core/include/server/core/net/rudp/rudp_packet.hpp.
--   Rudp/Rtt: RttEstimator::update of core/include/server/core/net/rudp/rudp_peer_state.hpp.
--   Rudp/Engine: RudpEngine of core/src/net/rudp/rudp_engine.cpp; Datagram holds process_datagram, Send holds
--     queue_reliable_payload and poll, Run the histories of calls,
--     Data and Exchange the path of a payload from one engine to its peer.
--   Rudp/Reliability: the queue of a sender against the window of its receiver.
--   Net/RetryBudget, Net/CircuitBreaker: core/include/server/core/net/resilience_controls.hpp.
--   Net/Dispatcher: Dispatcher of core/src/net/dispatcher.cpp, the policies of
--     core/include/server/core/protocol/opcode_policy.hpp and Session::post_serialized.
--   Gateway/SequencedMetrics, Gateway/AbuseGuard: gateway/include/gateway/udp_sequenced_metrics.hpp and
--     udp_bind_abuse_guard.hpp.
--   Gateway/RudpRolloutPolicy: gateway/include/gateway/rudp_rollout_policy.hpp.
--   Gateway/SessionDirectory: SessionDirectory of gateway/src/session_directory.cpp; Threads holds its
--     calls step by step, Schedule several gateways whose calls interleave, Alone one call without
--     interruption, Store a Redis server.
--   Gateway/Routing: select_best_server and on_backend_connected of gateway/src/gateway_app.cpp.
--   Gateway/UdpBind: make_udp_bind_ticket_frame up to its frame, and apply_udp_bind_request, of
--     gateway/src/gateway_app.cpp; Request holds parse_udp_bind_req and the map of sessions, Wire the fields that
--     make_udp_bind_res_frame writes of a ticket.
--   Gateway/Datagrams: do_udp_receive of gateway/src/gateway_app.cpp.
--   Gateway/BackendConnection: the send queue of BackendConnection in gateway/src/gateway_app.cpp.
--   Security/AdminCommandAuth: core/src/security/admin_command_auth.cpp.
--   App/AppHost: AppHost of core/src/app/app_host.cpp.
--   Memory: MemoryPool of core/src/memory/memory_pool.cpp; Client adds clients that return what they hold.
--   Concurrent/JobQueue, Concurrent/LockedQueue: core/src/concurrent/job_queue.cpp and
--     core/include/server/core/concurrent/locked_queue.hpp; Order is the contract that both fill.
--   Concurrent/TaskScheduler: TaskScheduler of core/src/concurrent/task_scheduler.cpp.
--   State/InstanceRegistry: core/src/state/instance_registry.cpp.
--   Tests: the theorems at concrete inputs.
--
-- A method is a function from the state before to the state after and the answer; a mutex makes a call one
-- step. The calls of the session directory hold none between the cache and Redis, and are also modelled as
-- threads whose steps interleave. A blocking call of a queue that would sleep is a step that changes nothing and is made again.
-- Unsigned types wrap by `% 2 ^ w` where the code's sum or product can; times are arguments. A hash map is a
-- function or an association list. Loops are recursion on the list that they walk. Fuel stands in five places:
-- the length of the text in `is_valid_utf8` and in the allowlist, whose rounds take a byte or a token each; the
-- number of delayed tasks in `collect_ready`, whose rounds take one; the eight bytes of a number that is hashed or
-- written in hexadecimal; and 20 digits in `std::to_string`, which each number below 2 ^ 64 has at most.
-- `HMAC`, the generated table of opcodes, the Redis client and the order of equal keys in
-- `std::priority_queue` are parameters with the laws that the code relies on.
--
-- Not modelled: metrics, logs and sockets, which decide nothing here; what wakes a sleeping thread;
-- TokenBucket, whose arithmetic is in double; the chat service, the admission and the connect retries of
-- the gateway, plugins and scripts; OpenSSL, LZ4, Redis, PostgreSQL and Lua, which the repository only calls.
mod Base
pub mod Protocol
pub mod Rudp
pub mod Net
pub mod Gateway
pub mod Memory
pub mod Concurrent
pub mod State
pub mod App
pub mod Security
mod Tests
