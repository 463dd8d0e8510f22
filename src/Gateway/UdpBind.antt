-- ===== src/Gateway/UdpBind.antt =====
-- The UDP bind tickets of gateway/src/gateway_app.cpp. A session is bound to the endpoint that shows the token of
-- its last ticket; wrong requests are slowed down. Texts and endpoints are lists of bytes, and the empty list
-- is the endpoint that is not set. `HMAC` is a parameter that answers `none` for a null pointer; times are
-- milliseconds on 64 bits.
pub mod Binding
pub mod Backoff
pub mod Request
pub mod Wire
use knights.Base.{
  ℕ, ◌+◌, ◌-◌, ◌*◌, ◌^◌, min, Bool, true, false, not, ◌&&◌, ◌||◌, Option, none, some, List, [], ◌∷◌,
  ◌++◌, ltb, ◌==◌, if◌then◌else◌, is_empty, length,
}
use knights.Base.Bits.{shl, u32, u64}
use knights.Base.Texts.{same_text}
use knights.Security.AdminCommandAuth.{to_hex, to_string}
use knights.Gateway.SequencedMetrics.{UdpSequencedMetrics, reset}
use knights.Rudp.Engine.{RudpEngine, RudpConfig, new_engine}
use knights.Gateway.RudpRolloutPolicy.{RudpRolloutPolicy, session_selected}

pub record SessionState : Type 0 where
  pub udp_bound : Bool
  pub udp_endpoint : List ℕ
  pub udp_nonce : ℕ
  pub udp_expires_unix_ms : ℕ
  pub udp_ticket_issued_unix_ms : ℕ
  pub udp_bind_fail_attempts : ℕ
  pub udp_bind_retry_after_unix_ms : ℕ
  pub udp_token : List ℕ
  pub udp_sequenced_metrics : UdpSequencedMetrics
  pub rudp_selected : Bool
  pub rudp_fallback_to_tcp : Bool
  pub rudp_engine : Option RudpEngine

-- The members of `GatewayApp` that the tickets use.
pub record GatewayConfig : Type 0 where
  pub udp_listen_port : ℕ
  pub udp_bind_secret : List ℕ
  pub udp_bind_ttl_ms : ℕ
  pub udp_bind_retry_backoff_ms : ℕ
  pub udp_bind_retry_backoff_max_ms : ℕ
  pub udp_bind_retry_max_attempts : ℕ
  pub rudp_rollout_policy : RudpRolloutPolicy
  pub rudp_config : RudpConfig

-- `UdpBindTicket` and `ParsedUdpBindRequest`
pub record UdpBindTicket : Type 0 where
  pub session_id : List ℕ
  pub nonce : ℕ
  pub expires_unix_ms : ℕ
  pub token : List ℕ

abbrev pub invalid_payload : ℕ
invalid_payload = 0x0007

abbrev pub server_busy : ℕ
server_busy = 0x0008

abbrev pub unauthorized : ℕ
unauthorized = 0x0101

abbrev pub forbidden : ℕ
forbidden = 0x0102

unfoldable pub secure_equals : List ℕ → List ℕ → Bool
secure_equals l r =
    if not (length l == length r) then false else if is_empty l then true else same_text l r

unfoldable pub make_bind_signing_input : List ℕ → ℕ → ℕ → List ℕ
make_bind_signing_input session_id nonce expires =
    session_id ++ (124 ∷ (to_string nonce ++ (124 ∷ to_string expires)))

abbrev pub hex_or_nothing : Option (List ℕ) → List ℕ
hex_or_nothing none = []
hex_or_nothing (some digest) = to_hex digest

-- What a bind request meets: a session that still waits, a refusal with its code, or a grant.
pub data Verdict : Type 0 where
  in_backoff : Verdict
  refused : ℕ → Verdict
  granted : Verdict

unfoldable pub udp_bind_retry_delay_ms : GatewayConfig → ℕ → ℕ
udp_bind_retry_delay_ms c attempt =
    let capped_attempt = min attempt 8 in
    let factor = shl 1 (if capped_attempt == 0 then 0 else capped_attempt - 1) in
    let base_delay = u64 (c.udp_bind_retry_backoff_ms * factor) in
    u32 (min base_delay c.udp_bind_retry_backoff_max_ms)

-- The closure `apply_retry_backoff`.
unfoldable pub apply_retry_backoff : GatewayConfig → SessionState → ℕ → SessionState
apply_retry_backoff c s now =
    let next_attempt = min (u32 (s.udp_bind_fail_attempts + 1)) c.udp_bind_retry_max_attempts in
    record s {
      udp_bind_fail_attempts = next_attempt;
      udp_bind_retry_after_unix_ms = u64 (now + udp_bind_retry_delay_ms c next_attempt);
    }

abbrev pub or_new : RudpEngine → Option RudpEngine → RudpEngine
or_new fresh none = fresh
or_new fresh (some e) = e

-- The writes of a bind that is granted.
unfoldable pub bind_to : GatewayConfig → SessionState → List ℕ → SessionState
bind_to c s endpoint = record s {
  udp_bound = true;
  udp_endpoint = endpoint;
  udp_sequenced_metrics = reset;
  udp_bind_fail_attempts = 0;
  udp_bind_retry_after_unix_ms = 0;
  rudp_fallback_to_tcp = false;
  rudp_engine =
      if s.rudp_selected
      then some (or_new (new_engine c.rudp_config) s.rudp_engine)
      else s.rudp_engine;
}

abbrev pub after_verdict : GatewayConfig → SessionState → List ℕ → ℕ → Verdict → SessionState × ℕ
after_verdict c s endpoint now in_backoff = (s, server_busy)
after_verdict c s endpoint now (refused code) = (apply_retry_backoff c s now, code)
after_verdict c s endpoint now granted = (bind_to c s endpoint, 0)

-- The writes of a ticket that is issued.
unfoldable pub give_ticket :
    GatewayConfig → SessionState → List ℕ → ℕ → ℕ → ℕ → List ℕ → SessionState
give_ticket c s session_id nonce now expires token =
    let policy = c.rudp_rollout_policy in
    let selected =
      session_selected policy session_id nonce && not (is_empty policy.opcode_allowlist) in
    record s {
      udp_nonce = nonce;
      udp_expires_unix_ms = expires;
      udp_ticket_issued_unix_ms = now;
      udp_bind_fail_attempts = 0;
      udp_bind_retry_after_unix_ms = 0;
      udp_token = token;
      udp_bound = false;
      udp_endpoint = [];
      udp_sequenced_metrics = reset;
      rudp_fallback_to_tcp = false;
      rudp_selected = selected;
      rudp_engine = if selected then some (new_engine c.rudp_config) else none;
    }

module _ (hmac : List ℕ → List ℕ → Option (List ℕ)) where
  unfoldable pub make_udp_bind_token : GatewayConfig → List ℕ → ℕ → ℕ → List ℕ
  make_udp_bind_token c session_id nonce expires =
      if is_empty c.udp_bind_secret
      then []
      else hex_or_nothing
          (hmac c.udp_bind_secret (make_bind_signing_input session_id nonce expires))

  -- `make_udp_bind_ticket_frame` up to the frame: the session and the ticket, for the number of the random
  -- generator and the time.
  unfoldable pub issue_ticket :
      GatewayConfig → SessionState → List ℕ → ℕ → ℕ → SessionState × Option UdpBindTicket
  issue_ticket c s session_id nonce now =
      let expires = u64 (now + c.udp_bind_ttl_ms) in
      let token = make_udp_bind_token c session_id nonce expires in
      if c.udp_listen_port == 0
      then (s, none)
      else (if is_empty c.udp_bind_secret
          then (s, none)
          else (if is_empty token then (s, none) else (
            give_ticket c s session_id nonce now expires token,
            some (record {
              session_id = session_id;
              nonce = nonce;
              expires_unix_ms = expires;
              token = token;
            }),
          )))

  -- The checks of `apply_udp_bind_request` on a session that is known.
  unfoldable pub judge : GatewayConfig → SessionState → UdpBindTicket → List ℕ → ℕ → Verdict
  judge c s req endpoint now =
      let expected = make_udp_bind_token c req.session_id req.nonce req.expires_unix_ms in
      if ltb now s.udp_bind_retry_after_unix_ms
      then in_backoff
      else (if s.udp_expires_unix_ms == 0 || (s.udp_nonce == 0 || is_empty s.udp_token)
          then refused unauthorized
          else (if ltb req.expires_unix_ms now
              then refused unauthorized
              else (if ltb s.udp_expires_unix_ms now
                  then refused unauthorized
                  else (if not (req.expires_unix_ms == s.udp_expires_unix_ms)
                        || not (req.nonce == s.udp_nonce)
                      then refused unauthorized
                      else (if not (secure_equals req.token s.udp_token)
                            || not (secure_equals req.token expected)
                          then refused unauthorized
                          else (if s.udp_bound && not (same_text s.udp_endpoint endpoint)
                              then refused forbidden
                              else granted))))))

  -- `apply_udp_bind_request` on a session that is known: the session and the code, which is 0 for a bind.
  unfoldable pub apply_udp_bind_request :
      GatewayConfig → SessionState → UdpBindTicket → List ℕ → ℕ → SessionState × ℕ
  apply_udp_bind_request c s req endpoint now =
      if is_empty req.session_id || is_empty req.token
      then (s, invalid_payload)
      else after_verdict c s endpoint now (judge c s req endpoint now)
