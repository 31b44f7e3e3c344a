-- ===== src/Net/Send.antt =====
-- udp_send, ip_send and io_net_send of source/net.c. The calls of wait, during which interrupts bring
-- in packets, are a parameter.
pub mod RoundTrip
use nano_s.Common.{
  ℕ, zero, suc, ◌+◌, ◌*◌, ◌/◌, ◌%◌, ◌^◌, min, Bool, true, false, not, List, [], ◌∷◌, ◌++◌, length,
  take, replicate, Option, none, some, ◌==◌, if◌then◌else◌,
}
use nano_s.Fs.Types.{error_io, error_not_found}
use nano_s.Net.{
  Net, word, net_checksum, find_mac_in_table, get_effective_ip, arp_request, same_bytes,
}

abbrev pub no_error : ℕ
no_error = 0

abbrev pub error_not_available : ℕ
error_not_available = 0xFFFFFFFB

-- The two bytes of BSWAP_16(v) in memory.
abbrev pub be16_bytes : ℕ → List ℕ
be16_bytes v = v / 256 % 256 ∷ v % 256 ∷ []

unfoldable pub ip_header : (id protocol len checksum : ℕ) → (src dst : List ℕ) → List ℕ
ip_header id protocol len checksum src dst =
    0x45
    ∷ 0
    ∷ (be16_bytes len
        ++ (be16_bytes id ++ (0 ∷ 0 ∷ 128 ∷ protocol ∷ (be16_bytes checksum ++ (src ++ dst)))))

unfoldable pub ip_packet : (id protocol : ℕ) → (src dst bytes : List ℕ) → List ℕ
unfolding ip_header net_checksum
ip_packet id protocol src dst bytes =
    let len = length bytes + 20 in
    let checksum = net_checksum (ip_header id protocol len 0 src dst) in
    ip_header id protocol len checksum src dst ++ bytes

unfoldable pub ip_send : (protocol : ℕ) → (dst bytes : List ℕ) → Net → ℕ × Net
unfolding ip_packet find_mac_in_table get_effective_ip
ip_send protocol dst bytes net =
    let id = (net.ip_id + 1) % word in
    let packet = ip_packet id protocol net.local_ip dst bytes in
    elim (find_mac_in_table net (get_effective_ip net dst)) [
      | none ↦ (error_io, record net { ip_id = id })
      | some mac ↦ (no_error, record net { ip_id = id; sent = (mac, 0x0800, packet) ∷ net.sent })
    ]

-- The header before the checksum, of the pseudo header and of UDP.
unfoldable pub udp_header : (src_port dst_port len checksum : ℕ) → List ℕ
udp_header src_port dst_port len checksum =
    be16_bytes src_port ++ (be16_bytes dst_port ++ (be16_bytes len ++ be16_bytes checksum))

unfoldable pub udp_packet : (src_port dst_port : ℕ) → (src dst bytes : List ℕ) → List ℕ
unfolding udp_header net_checksum
udp_packet src_port dst_port src dst bytes =
    let len = length bytes + 8 in
    let pseudo = src ++ (dst ++ (0 ∷ 17 ∷ be16_bytes len)) in
    let checksum = net_checksum (pseudo ++ (udp_header src_port dst_port len 0 ++ bytes)) in
    udp_header src_port dst_port len checksum ++ bytes

-- The room for data in the buffer of 256 bytes, less all headers.
abbrev pub max_data : ℕ
max_data = 202

-- The loop of provide_mac_address, `left` requests before its end.
unfoldable pub provide_loop : (wait : Net → Net) → (left : ℕ) → List ℕ → Net → ℕ × Net
unfolding find_mac_in_table arp_request
provide_loop wait zero ip net = elim (find_mac_in_table net ip) [
  | none ↦ (error_not_found, net)
  | some mac ↦ (no_error, net)
]
provide_loop wait (suc left) ip net =
    let rest = provide_loop wait left ip (wait (arp_request ip net)) in
    elim (find_mac_in_table net ip) [ none ↦ rest | some mac ↦ (no_error, net) ]

unfoldable pub provide_mac_address : (wait : Net → Net) → List ℕ → Net → ℕ × Net
unfolding provide_loop get_effective_ip
provide_mac_address wait ip net = provide_loop wait 16 (get_effective_ip net ip) net

unfoldable pub udp_send :
    (wait : Net → Net) → (dst : List ℕ) → (src_port dst_port : ℕ) → List ℕ → Net → ℕ × Net
unfolding provide_mac_address udp_packet ip_send
udp_send wait dst src_port dst_port bytes net =
    let first = provide_mac_address wait dst net in
    let second = provide_mac_address wait first.1.local_gate first.1 in
    let ready = second.1 in
    let packet = udp_packet src_port dst_port ready.local_ip dst (take max_data bytes) in
    if not (first.0 == no_error)
    then (error_not_found, first.1)
    else if not (second.0 == no_error)
    then (error_not_found, ready)
    else ip_send 17 dst packet ready

unfoldable pub io_net_send :
    (wait : Net → Net) → (dst : List ℕ) → (port : ℕ) → List ℕ → Net → ℕ × Net
unfolding udp_send
io_net_send wait dst port bytes net =
    if net.enabled then udp_send wait dst 8086 port bytes net else (error_not_available, net)
