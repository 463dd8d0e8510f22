-- ===== src/Net/Dispatcher/Policy.antt =====
-- The policy checks against an order of the statuses and a mask of the transports.
use knights.Base.{ℕ, ◌≡◌, refl, leb, not, ◌==◌, bit_and}
use knights.Net.Dispatcher.{
  SessionStatus, any, authenticated, in_room, admin, TransportMask, no_transport, only_tcp,
  only_udp, both, TransportKind, tcp, udp, transport_allows, satisfies_required_state,
}

-- The statuses grow from none to the administrator's.
abbrev pub rank : SessionStatus → ℕ
rank any = 0
rank authenticated = 1
rank in_room = 2
rank admin = 3

-- The byte of a mask, and the bit that stands for a transport.
abbrev pub mask_byte : TransportMask → ℕ
mask_byte no_transport = 0
mask_byte only_tcp = 1
mask_byte only_udp = 2
mask_byte both = 3

abbrev pub kind_bit : TransportKind → ℕ
kind_bit tcp = 1
kind_bit udp = 2

-- A session meets a required status exactly when its own status stands at least as high.
pub satisfies_required_state-rank :
    (required current : SessionStatus)
    → satisfies_required_state required current ≡ leb (rank required) (rank current)
unfolding satisfies_required_state
satisfies_required_state-rank any any = refl
satisfies_required_state-rank any authenticated = refl
satisfies_required_state-rank any in_room = refl
satisfies_required_state-rank any admin = refl
satisfies_required_state-rank authenticated any = refl
satisfies_required_state-rank authenticated authenticated = refl
satisfies_required_state-rank authenticated in_room = refl
satisfies_required_state-rank authenticated admin = refl
satisfies_required_state-rank in_room any = refl
satisfies_required_state-rank in_room authenticated = refl
satisfies_required_state-rank in_room in_room = refl
satisfies_required_state-rank in_room admin = refl
satisfies_required_state-rank admin any = refl
satisfies_required_state-rank admin authenticated = refl
satisfies_required_state-rank admin in_room = refl
satisfies_required_state-rank admin admin = refl

-- A mask allows a transport exactly when the bit of the transport is set in the mask's byte.
pub transport_allows-bit_and :
    (mask : TransportMask) (kind : TransportKind)
    → transport_allows mask kind ≡ not (bit_and (mask_byte mask) (kind_bit kind) == 0)
unfolding transport_allows
transport_allows-bit_and no_transport tcp = refl
transport_allows-bit_and no_transport udp = refl
transport_allows-bit_and only_tcp tcp = refl
transport_allows-bit_and only_tcp udp = refl
transport_allows-bit_and only_udp tcp = refl
transport_allows-bit_and only_udp udp = refl
transport_allows-bit_and both tcp = refl
transport_allows-bit_and both udp = refl
