-- ===== src/Tests/Gateway.antt =====
-- The theorems on the routing of the gateway, the rollout of RUDP and the UDP bind tickets.
use knights.Base.{
  ◌++◌, if◌then◌else◌, ◌==◌, ℕ, ◌≤◌, ◌≡◌, refl, true, false, Option, none, some, List, [], ◌∷◌,
  elem, arith,
}
use knights.State.InstanceRegistry.{InstanceRecord}
use knights.Gateway.SessionDirectory.{SessionDirectory, find_backend, look, keep_value, remember}
use knights.Gateway.SessionDirectory.Threads
use knights.Gateway.SessionDirectory.Schedule
use knights.Gateway.SessionDirectory.Schedule.{
  Group, Event, begins, steps, happens, IsFresh, answers_agree,
}
use knights.Base.Maps
use knights.Gateway.SessionDirectory.Store.{Store, in_memory, in_memory-Lasting}
use knights.Gateway.Routing.{
  least_connections, select_known, select_best_server, on_backend_connected,
}
use knights.Gateway.Routing.Choice.{Least, least_connections-Least}
use knights.Gateway.Routing.Sticky.{is_bound_to, select_best_server-on_backend_connected}
use knights.Gateway.RudpRolloutPolicy.{
  RudpRolloutPolicy, parse_rudp_opcode_allowlist, parse_u16_token, trim_ascii, from_chars,
}
use knights.Gateway.RudpRolloutPolicy.Allowlist.{join, elem-parse_rudp_opcode_allowlist}
use knights.Gateway.SequencedMetrics.{reset}
use knights.Rudp.Engine.{default_config}
use knights.Gateway.UdpBind.{
  SessionState, GatewayConfig, UdpBindTicket, issue_ticket, apply_udp_bind_request,
  make_udp_bind_token, udp_bind_retry_delay_ms, judge, secure_equals, apply_retry_backoff,
  server_busy,
}
use knights.Gateway.UdpBind.Binding.{
  IsBound, after_requests, granted_to_others, after_requests-IsBound,
  apply_udp_bind_request-granted, apply_udp_bind_request-issue_ticket,
}
use knights.Protocol.Bytes.{read_be16, read_be32}
use knights.Protocol.Packet.{check_utf8, next_codepoint, decode_header}
use knights.Rudp.Packet.{looks_like_rudp}
use knights.Net.Dispatcher.{OpcodePolicy, default_opcode_policy, both, transport_allows}
use knights.Gateway.AbuseGuard.{new_guard}
use knights.Gateway.UdpBind.Request.{parse_udp_bind_req}
use knights.Gateway.UdpBind.Wire.{ticket_fields, parse_udp_bind_req-ticket_fields}
use knights.Gateway.Datagrams.{UdpGateway, receive, bound_session, forward}
use knights.Gateway.Datagrams.Forwarding.{all_of, is_legitimate, receive-legitimate}
use knights.Gateway.BackendConnection.{send, exceeds_queue_budget, on_connected, on_written}
use knights.Gateway.BackendConnection.Sound.{Call as BackendCall, sends, connects, writes, Sound}
use knights.Gateway.BackendConnection.Queue.{after, taken, written, after-Sound}
use knights.Gateway.UdpBind.Backoff.{left, apply_udp_bind_request-refused}

abbrev gateway_start : SessionDirectory
gateway_start = record { has_redis = true; key_prefix = 47 ∷ []; ttl = 30; cache = [] }

-- Two gateways and no calls.
abbrev fresh_group : Group Store
fresh_group = record { directories = λ i. gateway_start; server = []; threads = λ j. Threads.idle }

-- Both gateways find nothing for the client 1; the first one binds it, and the `SET NX` of the second fails.
abbrev racing_calls : List Event
racing_calls =
    steps 1 8 8
    ∷ steps 1 7 7
    ∷ steps 0 6 6
    ∷ steps 1 5 5
    ∷ steps 0 4 4
    ∷ steps 1 3 3
    ∷ steps 0 2 2
    ∷ steps 1 1 1
    ∷ steps 0 0 0
    ∷ begins 1 (1 ∷ []) (some (6 ∷ []))
    ∷ begins 0 (1 ∷ []) (some (5 ∷ []))
    ∷ []

abbrev after_race : Group Store
after_race = Schedule.after in_memory (λ j. j) fresh_group racing_calls

first_answer : after_race.threads 0 ≡ Threads.returned (1 ∷ []) (some (5 ∷ []))
unfolding Schedule.after happens Threads.thread_step Threads.start Threads.first_step
    Threads.look_step look Threads.after_cache Threads.after_get Threads.found_none Threads.set_step
    remember
first_answer = refl

second_answer : after_race.threads 1 ≡ Threads.returned (1 ∷ []) (some (5 ∷ []))
unfolding Schedule.after happens Threads.thread_step Threads.start Threads.first_step
    Threads.look_step look Threads.after_cache Threads.after_get Threads.after_reread
    Threads.found_none Threads.set_step remember
second_answer = refl

fresh_group-IsFresh : IsFresh in_memory (λ j. j) in_memory-Lasting (47 ∷ []) (1 ∷ []) fresh_group
fresh_group-IsFresh = record {
  is_whole = refl;
  same_prefix = λ i. refl;
  has_server = λ i. refl;
  no_entry = λ i. refl;
  no_call = λ j. refl;
}

answers_agree_example :
    ◌≡◌ {A = List ℕ} (5 ∷ []) (5 ∷ []) × (Maps.find (47 ∷ 1 ∷ []) after_race.server ≡ some (5 ∷ []))
answers_agree_example =
    answers_agree in_memory (λ j. j) in_memory-Lasting (47 ∷ []) (1 ∷ []) fresh_group racing_calls 0
      1 (5 ∷ []) (5 ∷ []) fresh_group-IsFresh first_answer second_answer

abbrev instance_of : ℕ → ℕ → InstanceRecord
instance_of id sessions = record {
  instance_id = id ∷ [];
  host = 49 ∷ [];
  port = 6000;
  role = [];
  game_mode = [];
  region = [];
  shard = [];
  tags = [];
  capacity = 100;
  active_sessions = sessions;
  ready = true;
  last_heartbeat_ms = 0;
}

abbrev backends : List InstanceRecord
backends = instance_of 1 7 ∷ instance_of 2 3 ∷ instance_of 3 3 ∷ []

least_connections-Least_example : Least backends (least_connections none backends)
least_connections-Least_example = least_connections-Least backends

select_best_server-on_backend_connected_example :
    let out = select_best_server in_memory gateway_start [] (1 ∷ []) (some backends) 0 0 in
    let connected = on_backend_connected in_memory out.0 out.1 (1 ∷ []) (2 ∷ []) 1 1 in
    is_bound_to
      (2 ∷ [])
      (select_best_server in_memory gateway_start connected.1 (1 ∷ []) (some backends) 2 2).2
    ≡ true
unfolding select_best_server least_connections select_known find_backend look keep_value
select_best_server-on_backend_connected_example =
    select_best_server-on_backend_connected in_memory in_memory-Lasting (47 ∷ []) (1 ∷ [])
      gateway_start gateway_start [] (instance_of 2 3) backends 0 0 1 1 2 2 refl refl
      (refl, refl, refl) (refl, refl, refl) refl

abbrev canary : RudpRolloutPolicy
canary = record { enabled = true; canary_percent = 50; opcode_allowlist = 4 ∷ [] }

-- " 7", "0xA" and "x"
elem-parse_rudp_opcode_allowlist_example :
    elem 10
      (parse_rudp_opcode_allowlist (join (32 ∷ 55 ∷ []) ((48 ∷ 120 ∷ 65 ∷ []) ∷ (120 ∷ []) ∷ [])))
    ≡ true
unfolding parse_u16_token trim_ascii from_chars
elem-parse_rudp_opcode_allowlist_example =
    elem-parse_rudp_opcode_allowlist 10 (32 ∷ 55 ∷ []) ((48 ∷ 120 ∷ 65 ∷ []) ∷ (120 ∷ []) ∷ []) refl

abbrev bind_digest : List ℕ → List ℕ → Option (List ℕ)
bind_digest key text = some (171 ∷ [])

abbrev bind_config : GatewayConfig
bind_config = record {
  udp_listen_port = 7000;
  udp_bind_secret = 9 ∷ [];
  udp_bind_ttl_ms = 5000;
  udp_bind_retry_backoff_ms = 200;
  udp_bind_retry_backoff_max_ms = 2000;
  udp_bind_retry_max_attempts = 6;
  rudp_rollout_policy = canary;
  rudp_config = default_config;
}

abbrev tcp_session : SessionState
tcp_session = record {
  udp_bound = false;
  udp_endpoint = [];
  udp_nonce = 0;
  udp_expires_unix_ms = 0;
  udp_ticket_issued_unix_ms = 0;
  udp_bind_fail_attempts = 0;
  udp_bind_retry_after_unix_ms = 0;
  udp_token = [];
  udp_sequenced_metrics = reset;
  rudp_selected = false;
  rudp_fallback_to_tcp = false;
  rudp_engine = none;
}

abbrev udp_session : SessionState
udp_session = record tcp_session {
  udp_bound = true;
  udp_endpoint = 1 ∷ [];
  udp_nonce = 8;
  udp_expires_unix_ms = 6000;
  udp_token = 97 ∷ 98 ∷ [];
}

abbrev good_request : UdpBindTicket
good_request = record {
  session_id = 115 ∷ [];
  nonce = 8;
  expires_unix_ms = 6000;
  token = 97 ∷ 98 ∷ [];
}

after_requests-IsBound_example :
    IsBound
      (after_requests bind_digest bind_config udp_session
        ((good_request, 2 ∷ [], 1000) ∷ (good_request, 1 ∷ [], 9000) ∷ []))
      (1 ∷ [])
    × (granted_to_others bind_digest bind_config udp_session
          (1 ∷ [])
          ((good_request, 2 ∷ [], 1000) ∷ (good_request, 1 ∷ [], 9000) ∷ [])
        ≡ 0)
after_requests-IsBound_example =
    after_requests-IsBound bind_digest bind_config udp_session (1 ∷ [])
      ((good_request, 2 ∷ [], 1000) ∷ (good_request, 1 ∷ [], 9000) ∷ []) (refl, refl)

apply_udp_bind_request-granted_example :
    (good_request.nonce ≡ udp_session.udp_nonce)
    × (good_request.expires_unix_ms ≡ udp_session.udp_expires_unix_ms)
    × (1000 ≤ udp_session.udp_expires_unix_ms)
    × (good_request.token ≡ udp_session.udp_token)
    × (good_request.token ≡ make_udp_bind_token bind_digest bind_config (115 ∷ []) 8 6000)
unfolding apply_udp_bind_request judge secure_equals make_udp_bind_token
apply_udp_bind_request-granted_example =
    apply_udp_bind_request-granted bind_digest bind_config udp_session good_request (1 ∷ []) 1000
      refl

apply_udp_bind_request-issue_ticket_example :
    let issued = issue_ticket bind_digest bind_config tcp_session (115 ∷ []) 8 1000 in
    (sent : UdpBindTicket) × (issued.1 ≡ some sent)
    × ((apply_udp_bind_request bind_digest bind_config issued.0 sent (1 ∷ []) 3000).1 ≡ 0)
    × IsBound
        (apply_udp_bind_request bind_digest bind_config issued.0 sent (1 ∷ []) 3000).0
        (1 ∷ [])
apply_udp_bind_request-issue_ticket_example =
    apply_udp_bind_request-issue_ticket bind_digest bind_config tcp_session (115 ∷ []) 8 1000 3000
      (1 ∷ []) (λ key text. refl) (omega arith) refl refl (omega arith) (omega arith) (omega arith)
      (omega arith)

apply_udp_bind_request-refused_example :
    ((left bind_digest bind_config udp_session good_request (2 ∷ []) 1000).udp_bind_fail_attempts
      ≤ 6)
    × (apply_udp_bind_request bind_digest bind_config
          (left bind_digest bind_config udp_session good_request (2 ∷ []) 1000)
          good_request
          (1 ∷ [])
          1100
        ≡ (left bind_digest bind_config udp_session good_request (2 ∷ []) 1000, server_busy))
unfolding apply_udp_bind_request udp_bind_retry_delay_ms judge secure_equals make_udp_bind_token
    apply_retry_backoff
apply_udp_bind_request-refused_example =
    apply_udp_bind_request-refused bind_digest bind_config udp_session good_request good_request
      (2 ∷ []) (1 ∷ []) 1000 1100 refl refl (omega arith) (omega arith)

-- A gateway with the session, for which opcode 5 may use UDP.
abbrev udp_gateway : UdpGateway
udp_gateway = record {
  config = bind_config;
  sessions = (115 ∷ [], udp_session) ∷ [];
  udp_bind_abuse_guard = new_guard;
  udp_opcode_allowlist = 5 ∷ [];
}

abbrev five_on_udp : ℕ → Option OpcodePolicy
five_on_udp m = if m == 5 then some (record default_opcode_policy { transport = both }) else none

-- A header alone, with opcode 5.
abbrev five_frame : List ℕ
five_frame = 0 ∷ 0 ∷ 0 ∷ 5 ∷ 0 ∷ 0 ∷ 0 ∷ 0 ∷ 0 ∷ 1 ∷ 0 ∷ 0 ∷ 0 ∷ 0 ∷ []

receive-legitimate_example :
    all_of
      (is_legitimate five_on_udp udp_gateway (1 ∷ []) five_frame)
      (receive five_on_udp bind_digest (λ e. "peer") udp_gateway (1 ∷ []) five_frame 1000).forwarded
    ≡ true
receive-legitimate_example =
    receive-legitimate five_on_udp bind_digest (λ e. "peer") udp_gateway (1 ∷ []) five_frame 1000

-- The frame is forwarded.
five_is_forwarded :
    (receive five_on_udp bind_digest (λ e. "peer") udp_gateway (1 ∷ []) five_frame 1000).forwarded
    ≡ (115 ∷ [], five_frame) ∷ []
unfolding receive looks_like_rudp decode_header bound_session forward transport_allows read_be16
    read_be32
five_is_forwarded = refl

parse_udp_bind_req-ticket_fields_example :
    parse_udp_bind_req (ticket_fields good_request) ≡ some good_request
unfolding check_utf8 next_codepoint
parse_udp_bind_req-ticket_fields_example =
    parse_udp_bind_req-ticket_fields good_request (omega arith) refl (omega arith) refl
      (omega arith) (omega arith)

-- Two payloads are taken before the connection is up, and the first is written.
abbrev backend_calls : List BackendCall
backend_calls = writes ∷ connects ∷ sends (2 ∷ []) ∷ sends (1 ∷ []) ∷ []

after-Sound_example :
    Sound 100 (after 100 backend_calls)
    × (taken 100 backend_calls ≡ written 100 backend_calls ++ (after 100 backend_calls).write_queue)
unfolding send exceeds_queue_budget on_connected on_written
after-Sound_example = after-Sound 100 backend_calls (omega arith) (omega arith) refl
