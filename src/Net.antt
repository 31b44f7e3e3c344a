-- ===== src/Net.antt =====
-- The network module of source/net.c above the card: addresses, the ARP table, the checksum and the
-- buffer of received data. A packet is the list of the bytes from its start on, as far as the buffer
-- of the card holds them.
pub mod Arp
pub mod Receive
pub mod Checksum
pub mod Send
mod Tests
use nano_s.Common.{
  ℕ, zero, suc, ◌+◌, ◌-◌, ◌*◌, ◌/◌, ◌%◌, ◌^◌, min, bit_and, Bool, true, false, not, ◌&&◌, ◌||◌,
  List, [], ◌∷◌, ◌++◌, length, take, drop, get_or, Option, none, some, replicate, ◌==◌, ltb,
  if◌then◌else◌,
}
use nano_s.Ulib.Text.{sub32}

abbrev pub ip_len : ℕ
ip_len = 4

abbrev pub mac_len : ℕ
mac_len = 6

abbrev pub arp_table_len : ℕ
arp_table_len = 8

-- An entry of the ARP table.
pub record ArpEntry : Type 0 where
  pub ip : List ℕ
  pub mac : List ℕ

-- The packet that io_net_recv takes; it is empty if its size is 0.
pub record NetPacket : Type 0 where
  pub ip : List ℕ
  pub port : ℕ
  pub size : ℕ
  pub buff : List ℕ

-- The state, and the calls of eth_send: the MAC address, the type and the packet, the last one first.
-- `ip_id` is the static variable of ip_send.
pub record Net : Type 0 where
  pub enabled : Bool
  pub local_mac : List ℕ
  pub local_ip : List ℕ
  pub local_gate : List ℕ
  pub local_net : List ℕ
  pub rcv_port : ℕ
  pub rcv_buff : NetPacket
  pub arp_table : List ArpEntry
  pub ip_id : ℕ
  pub sent : List (List ℕ × ℕ × List ℕ)

-- `memcmp(a, b, n) == 0` for addresses of the same length.
unfoldable pub same_bytes : List ℕ → List ℕ → Bool
same_bytes [] [] = true
same_bytes [] (y ∷ ys) = false
same_bytes (x ∷ xs) [] = false
same_bytes (x ∷ xs) (y ∷ ys) = x == y && same_bytes xs ys

-- The addresses agree in the bits of the mask.
unfoldable pub same_net : (mask a b : List ℕ) → Bool
same_net (m ∷ mask) (x ∷ a) (y ∷ b) = bit_and x m == bit_and y m && same_net mask a b
same_net _ _ _ = true

unfoldable pub get_effective_ip : Net → List ℕ → List ℕ
unfolding same_net same_bytes
get_effective_ip net ip =
    if not (same_net net.local_net ip net.local_ip) || same_bytes ip net.local_ip
    then net.local_gate
    else ip

unfoldable pub find_in : List ℕ → List ArpEntry → Option (List ℕ)
unfolding same_bytes
find_in ip [] = none
find_in ip (e ∷ es) = if same_bytes e.ip ip then some e.mac else find_in ip es

unfoldable pub find_mac_in_table : Net → List ℕ → Option (List ℕ)
unfolding same_bytes find_in
find_mac_in_table net ip =
    if same_bytes ip net.local_ip then some net.local_mac else find_in ip net.arp_table

abbrev pub word : ℕ
word = 2 ^ 32

-- The byte at `i`, and the 16 bits there in network order.
abbrev pub byte : List ℕ → ℕ → ℕ
byte p i = get_or p i 0

abbrev pub be16 : List ℕ → ℕ → ℕ
be16 p i = byte p i * 256 + byte p (i + 1)

abbrev pub bswap_16 : ℕ → ℕ
bswap_16 v = v % 256 * 256 + v / 256 % 256

unfoldable pub net_checksum_final : ℕ → ℕ
net_checksum_final sum =
    let folded = (sum % 65536 + sum / 65536) % word in
    let temp = 65535 - folded % 65536 in bswap_16 temp

-- Words are read lowest byte first.
unfoldable pub net_checksum_acc : List ℕ → ℕ
net_checksum_acc [] = 0
net_checksum_acc (a ∷ []) = a
net_checksum_acc (a ∷ b ∷ p) = (a + b * 256 + net_checksum_acc p) % word

unfoldable pub net_checksum : List ℕ → ℕ
unfolding net_checksum_acc net_checksum_final
net_checksum p = net_checksum_final (net_checksum_acc p)

-- The packet of an ARP request or reply.
unfoldable pub arp_packet : Net → (op : ℕ) → (mac ip : List ℕ) → List ℕ
arp_packet net op mac ip =
    0 ∷ 1 ∷ 8 ∷ 0 ∷ mac_len ∷ ip_len ∷ 0 ∷ op ∷ (net.local_mac ++ (net.local_ip ++ (mac ++ ip)))

unfoldable pub arp_request : List ℕ → Net → Net
unfolding arp_packet
arp_request ip net =
    let broadcast = replicate mac_len 0xFF in
    record net { sent = (broadcast, 0x0806, arp_packet net 1 broadcast ip) ∷ net.sent }

unfoldable pub arp_reply : (mac ip : List ℕ) → Net → Net
unfolding arp_packet
arp_reply mac ip net = record net { sent = (mac, 0x0806, arp_packet net 2 mac ip) ∷ net.sent }

-- `memcpy(mac, sha)` through the pointer into the table.
unfoldable pub update_in : (ip mac : List ℕ) → List ArpEntry → List ArpEntry
unfolding same_bytes
update_in ip mac [] = []
update_in ip mac (e ∷ es) =
    if same_bytes e.ip ip then record e { mac = mac } ∷ es else e ∷ update_in ip mac es

abbrev pub is_empty : List ArpEntry → Bool
is_empty [] = true
is_empty (e ∷ es) = false

-- The first entry that is free, or the last one.
unfoldable pub insert_in : (ip mac : List ℕ) → List ArpEntry → List ArpEntry
insert_in ip mac [] = []
insert_in ip mac (e ∷ es) =
    let rest = insert_in ip mac es in
    if byte e.ip 0 == 0 || is_empty es then record { ip = ip; mac = mac } ∷ es else e ∷ rest

-- What an ARP reply teaches. The pointer may be that to the local MAC address.
unfoldable pub learn : (ip mac : List ℕ) → Net → Net
unfolding same_bytes find_in update_in insert_in
learn ip mac net =
    if same_bytes ip net.local_ip
    then record net { local_mac = mac }
    else elim (find_in ip net.arp_table) [
      | some old ↦ record net { arp_table = update_in ip mac net.arp_table }
      | none ↦ record net { arp_table = insert_in ip mac net.arp_table }
    ]

unfoldable pub arp_recv_process : List ℕ → Net → Net
unfolding learn arp_reply same_bytes
arp_recv_process p net =
    let sha = take mac_len (drop 8 p) in
    let spa = take ip_len (drop 14 p) in
    let to_us = same_bytes (take ip_len (drop 24 p)) net.local_ip in
    if not (be16 p 0 == 1 && be16 p 2 == 0x0800)
    then net
    else if be16 p 6 == 2 && to_us
    then learn spa sha net
    else if be16 p 6 == 1 && to_us
    then arp_reply sha spa net
    else net

-- The size of a UDP packet counts its header of 8 bytes; the subtraction is one of uints.
unfoldable pub ip_recv_process : List ℕ → Net → Net
ip_recv_process p net =
    let u = drop 20 p in
    let size = min (sub32 (be16 u 4) 8) 256 in
    if ltb 0 net.rcv_buff.size
    then net
    else if byte p 9 == 17 && be16 u 2 == net.rcv_port
    then record net {
      rcv_buff = record {
        ip = take ip_len (drop 12 p);
        port = be16 u 0;
        size = size;
        buff = take size (drop 8 u);
      };
    }
    else net

-- The bytes received with the address of the sender, if there are any, up to the size of the
-- caller's buffer.
unfoldable pub io_net_recv : (buff_size : ℕ) → Net → Option (List ℕ × ℕ × List ℕ) × Net
io_net_recv buff_size net =
    if net.enabled && ltb 0 net.rcv_buff.size
    then (
      some (
        net.rcv_buff.ip,
        net.rcv_buff.port,
        take (min net.rcv_buff.size buff_size) net.rcv_buff.buff,
      ),
      record net { rcv_buff = record (net.rcv_buff) { size = 0 } },
    )
    else (none, net)

unfoldable pub io_net_recv_set_port : ℕ → Net → Net
io_net_recv_set_port port net =
    if port == net.rcv_port
    then net
    else record net { rcv_buff = record (net.rcv_buff) { size = 0 }; rcv_port = port }
