-- ===== src/Gateway/UdpBind/Request.antt =====
-- `parse_udp_bind_req` of gateway/src/gateway_app.cpp and its numbers, and `apply_udp_bind_request` on the map of
-- sessions.
use knights.Base.{
  ℕ, ◌||◌, Option, none, some, List, [], ◌∷◌, ltb, if◌then◌else◌, is_empty, length, drop, bit_or,
}
use knights.Base.Bits.{shl}
use knights.Base.Maps.{find, put}
use knights.Protocol.Bytes.{byte_at, byte_of}
use knights.Protocol.Packet.{read_lp_utf8}
use knights.Gateway.UdpBind.{
  SessionState, GatewayConfig, UdpBindTicket, apply_udp_bind_request, invalid_payload, unauthorized,
}

abbrev pub Sessions : Type 0
Sessions = List (List ℕ × SessionState)

unfoldable pub write_be64 : ℕ → List ℕ
write_be64 v =
    byte_of v 56
    ∷ byte_of v 48
    ∷ byte_of v 40
    ∷ byte_of v 32
    ∷ byte_of v 24
    ∷ byte_of v 16
    ∷ byte_of v 8
    ∷ byte_of v 0
    ∷ []

-- The number and what follows it.
unfoldable pub read_be64 : List ℕ → Option (ℕ × List ℕ)
read_be64 input =
    let b = byte_at input in
    let upper =
      bit_or (bit_or (bit_or (shl (b 0) 56) (shl (b 1) 48)) (shl (b 2) 40)) (shl (b 3) 32) in
    let all =
      bit_or (bit_or (bit_or (bit_or upper (shl (b 4) 24)) (shl (b 5) 16)) (shl (b 6) 8)) (b 7) in
    if ltb (length input) 8 then none else some (all, drop 8 input)

-- The steps of the parser, each on what the last one left.
abbrev pub parse_token : List ℕ → ℕ → ℕ → Option (List ℕ × List ℕ) → Option UdpBindTicket
parse_token session_id nonce expires none = none
parse_token session_id nonce expires (some (token, input)) =
    if is_empty input
    then some (record {
      session_id = session_id;
      nonce = nonce;
      expires_unix_ms = expires;
      token = token;
    })
    else none

abbrev pub parse_expires : List ℕ → ℕ → Option (ℕ × List ℕ) → Option UdpBindTicket
parse_expires session_id nonce none = none
parse_expires session_id nonce (some (expires, input)) =
    parse_token session_id nonce expires (read_lp_utf8 input)

abbrev pub parse_nonce : List ℕ → Option (ℕ × List ℕ) → Option UdpBindTicket
parse_nonce session_id none = none
parse_nonce session_id (some (nonce, input)) = parse_expires session_id nonce (read_be64 input)

abbrev pub parse_session_id : Option (List ℕ × List ℕ) → Option UdpBindTicket
parse_session_id none = none
parse_session_id (some (session_id, input)) = parse_nonce session_id (read_be64 input)

unfoldable pub parse_udp_bind_req : List ℕ → Option UdpBindTicket
parse_udp_bind_req payload = parse_session_id (read_lp_utf8 payload)

module _ (hmac : List ℕ → List ℕ → Option (List ℕ)) where
  abbrev pub bind_found :
      GatewayConfig → Sessions → UdpBindTicket → List ℕ → ℕ → Option SessionState → Sessions × ℕ
  bind_found c sessions req endpoint now none = (sessions, unauthorized)
  bind_found c sessions req endpoint now (some s) =
      let (s', code) = apply_udp_bind_request hmac c s req endpoint now in
      (put req.session_id s' sessions, code)

  unfoldable pub bind_session : GatewayConfig → Sessions → UdpBindTicket → List ℕ → ℕ → Sessions × ℕ
  bind_session c sessions req endpoint now =
      if is_empty req.session_id || is_empty req.token
      then (sessions, invalid_payload)
      else bind_found c sessions req endpoint now (find req.session_id sessions)
