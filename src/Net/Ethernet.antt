-- ===== src/Net/Ethernet.antt =====
-- The frames of src/network/ethernet.c, and the raw sending of network.c. The payload of a frame is
-- the list of the bytes that are in use behind its header. A network card is an argument: whether the
-- interface has a function to send or receive with, and the frame that is received.
pub mod Deliver
use cgos.Base.{
  ℕ, ◌+◌, ◌-◌, ◌*◌, ◌/◌, ◌%◌, ◌^◌, Bool, true, false, not, ◌&&◌, ◌||◌, List, [], ◌∷◌, ◌++◌, ltb,
  ◌==◌, if◌then◌else◌, length, replicate, Option, none, some,
}
use cgos.Net.Route.{Interface}
use cgos.Net.Checksum.{bswap16}

-- `ethernet_frame_t`; the type is as it lies in memory.
pub record Frame : Type 0 where
  pub dest_mac : List ℕ
  pub src_mac : List ℕ
  pub ethertype : ℕ
  pub payload : List ℕ

-- ETH_HLEN, ETH_ZLEN, ETH_FRAME_LEN
abbrev pub eth_hlen : ℕ
eth_hlen = 14

abbrev pub eth_zlen : ℕ
eth_zlen = 60

abbrev pub eth_frame_len : ℕ
eth_frame_len = 1514

-- ETH_TYPE_IP, ETH_TYPE_ARP
abbrev pub eth_type_ip : ℕ
eth_type_ip = 0x0800

abbrev pub eth_type_arp : ℕ
eth_type_arp = 0x0806

-- NET_INVALID_PARAM, NET_ERROR, or what the card sends.
pub data RawSent : Type 0 where
  invalid_param error : RawSent
  sent : Frame → RawSent

unfoldable pub network_send_raw : Bool → Interface → Frame → RawSent
network_send_raw has_card iface frame =
    if not iface.active then invalid_param else if has_card then sent frame else error

-- The zeros behind a short payload.
unfoldable pub padding : ℕ → List ℕ
padding payload_len = replicate (eth_zlen - (eth_hlen + payload_len)) 0

unfoldable pub ethernet_send_frame : Bool → Interface → List ℕ → ℕ → List ℕ → RawSent
unfolding network_send_raw padding
ethernet_send_frame has_card iface dest_mac ethertype payload =
    if length payload == 0
    then invalid_param
    else if ltb (eth_frame_len - eth_hlen) (length payload)
    then error
    else network_send_raw has_card iface record {
      dest_mac = dest_mac;
      src_mac = iface.mac_address;
      ethertype = bswap16 ethertype;
      payload = payload ++ padding (length payload);
    }

-- none stands for a result that is not positive.
unfoldable pub network_receive_raw : Bool → Interface → Option Frame → Option Frame
network_receive_raw has_card iface arrived =
    if not iface.active then none else if has_card then arrived else none

abbrev pub swapped : Option Frame → Option Frame
swapped none = none
swapped (some frame) = some (record frame { ethertype = bswap16 frame.ethertype })

unfoldable pub ethernet_receive_frame : Bool → Interface → Option Frame → Option Frame
unfolding network_receive_raw
ethernet_receive_frame has_card iface arrived = swapped (network_receive_raw has_card iface arrived)

-- Whether memcmp of two hardware addresses returns 0.
unfoldable pub same_mac : List ℕ → List ℕ → Bool
same_mac [] [] = true
same_mac [] (y ∷ ys) = false
same_mac (x ∷ xs) [] = false
same_mac (x ∷ xs) (y ∷ ys) = (x == y) && same_mac xs ys

unfoldable pub ethernet_is_broadcast : List ℕ → Bool
unfolding same_mac
ethernet_is_broadcast mac = same_mac mac (replicate 6 255)

-- Where the payload of a frame goes.
pub data Handler : Type 0 where
  to_arp to_ip : List ℕ → Handler
  ignored : Handler

unfoldable pub ethernet_process_frame : Interface → Frame → Handler
unfolding same_mac ethernet_is_broadcast
ethernet_process_frame iface frame =
    if not (same_mac frame.dest_mac iface.mac_address) && not (ethernet_is_broadcast frame.dest_mac)
    then ignored
    else if frame.ethertype == eth_type_arp
    then to_arp frame.payload
    else if frame.ethertype == eth_type_ip
    then to_ip frame.payload
    else ignored

unfoldable pub ethernet_set_multicast : ℕ → List ℕ
ethernet_set_multicast ip =
    0x01 ∷ 0x00 ∷ 0x5E ∷ (ip / 2 ^ 16 % 2 ^ 7) ∷ (ip / 2 ^ 8 % 2 ^ 8) ∷ (ip % 2 ^ 8) ∷ []
