-- ===== src/Net/Send/RoundTrip.antt =====
-- What udp_send of source/net.c builds against what ip_recv_process and io_net_recv take apart.
use nano_s.Common.{
  ℕ, zero, suc, ◌+◌, ◌*◌, ◌/◌, ◌%◌, ◌≡◌, ◌≤◌, ◌<◌, refl, ap, true, List, [], ◌∷◌, length, take,
  drop, some, arith, ◌∙◌, if◌then◌else◌,
}
use nano_s.Net.{Net, be16, ip_recv_process, io_net_recv, word, find_mac_in_table, get_effective_ip}
use nano_s.Net.Receive.{IsFor, payload, io_net_recv-ip_recv_process}
use nano_s.Net.Send.{
  ip_packet, udp_packet, ip_header, udp_header, max_data, provide_loop, provide_mac_address,
  udp_send, ip_send, io_net_send, no_error, error_not_available,
}

-- An address of four bytes.
pub record IsAddress (ip : List ℕ) : Type 0 where
  pub a : ℕ
  pub b : ℕ
  pub c : ℕ
  pub d : ℕ
  pub bytes : ip ≡ a ∷ b ∷ c ∷ d ∷ []

take_all : (xs : List ℕ) → take (length xs) xs ≡ xs
take_all [] = refl
take_all (x ∷ xs) = ap (◌∷◌ x) (take_all xs)

be16-be16_bytes : (v : ℕ) → v < 65536 → v / 256 % 256 * 256 + v % 256 ≡ v
be16-be16_bytes v h = omega arith

-- The parts of a packet.
record Parts (src port n : ℕ) (ip from : List ℕ) (p : List ℕ) (xs : List ℕ) : Type 0 where
  for_port : IsFor port n p
  sender : take 4 (drop 12 p) ≡ from
  src_port : be16 (drop 20 p) 0 ≡ src
  content : payload n p ≡ xs

packet-Parts :
    (id src_port port a b c d : ℕ) (dst xs : List ℕ)
    → IsAddress dst
    → src_port < 65536
    → port < 65536
    → 0 < length xs
    → length xs ≤ 256
    → let src = a ∷ b ∷ c ∷ d ∷ [] in
      Parts src_port port
        (length xs)
        dst
        src
        (ip_packet id 17 src dst (udp_packet src_port port src dst xs))
        xs
unfolding ip_packet udp_packet ip_header udp_header
packet-Parts id src_port port a b c d dst xs addr h₁ h₂ h₃ h₄ = rw addr.bytes (record {
  for_port = record {
    udp = refl;
    dst_port = be16-be16_bytes port h₂;
    len = be16-be16_bytes (length xs + 8) (omega arith);
    some_data = h₃;
    fits = h₄;
  };
  sender = refl;
  src_port = be16-be16_bytes src_port h₁;
  content = take_all xs;
})

-- The sender knows the hardware addresses that it needs.
pub record CanSend (dst : List ℕ) (net : Net) : Type 0 where
  pub enabled : net.enabled ≡ true
  pub local_ip : IsAddress net.local_ip
  pub dst_ip : IsAddress dst
  pub dst_mac : List ℕ
  pub dst_known : find_mac_in_table net (get_effective_ip net dst) ≡ some dst_mac
  pub gate_mac : List ℕ
  pub gate_known : find_mac_in_table net (get_effective_ip net net.local_gate) ≡ some gate_mac

-- The receiver waits for a packet with an empty buffer.
pub record Listens (port : ℕ) (net : Net) : Type 0 where
  pub enabled : net.enabled ≡ true
  pub rcv_port : net.rcv_port ≡ port
  pub empty : net.rcv_buff.size ≡ 0

-- The packet for the data as far as there is room for it.
abbrev pub packet_for : (dst : List ℕ) (port : ℕ) (xs : List ℕ) (net : Net) → List ℕ
packet_for dst port xs net =
    ip_packet ((net.ip_id + 1) % word) 17 net.local_ip dst
      (udp_packet 8086 port net.local_ip dst (take max_data xs))

provide_loop_known :
    (wait : Net → Net) (left : ℕ) (ip mac : List ℕ) (net : Net)
    → find_mac_in_table net ip ≡ some mac
    → provide_loop wait left ip net ≡ (no_error, net)
unfolding provide_loop
provide_loop_known wait zero ip mac net h = rw (provide_loop, h) refl
provide_loop_known wait (suc left) ip mac net h = rw (provide_loop, h) refl

provide_mac_address_known :
    (wait : Net → Net) (ip mac : List ℕ) (net : Net)
    → find_mac_in_table net (get_effective_ip net ip) ≡ some mac
    → provide_mac_address wait ip net ≡ (no_error, net)
unfolding provide_mac_address
provide_mac_address_known wait ip mac net h =
    provide_loop_known wait 16 (get_effective_ip net ip) mac net h

-- The state after the packet is sent.
abbrev pub after_send : (mac dst : List ℕ) (port : ℕ) (xs : List ℕ) (net : Net) → Net
after_send mac dst port xs net = record net {
  ip_id = (net.ip_id + 1) % word;
  sent = (mac, 0x0800, packet_for dst port xs net) ∷ net.sent;
}

ip_send_known :
    (protocol : ℕ) (dst mac xs : List ℕ) (net : Net)
    → find_mac_in_table net (get_effective_ip net dst) ≡ some mac
    → ip_send protocol dst xs net ≡ (
      no_error,
      record net {
        ip_id = (net.ip_id + 1) % word;
        sent =
            (mac, 0x0800, ip_packet ((net.ip_id + 1) % word) protocol net.local_ip dst xs)
            ∷ net.sent;
      },
    )
unfolding ip_send
ip_send_known protocol dst mac xs net h = rw (ip_send, h) refl

udp_send_known :
    (wait : Net → Net) (dst : List ℕ) (port : ℕ) (xs : List ℕ) (net : Net)
    → (c : CanSend dst net)
    → udp_send wait dst 8086 port xs net ≡ (no_error, after_send c.dst_mac dst port xs net)
unfolding udp_send
udp_send_known wait dst port xs net c =
    rw
      (
        provide_mac_address_known wait dst c.dst_mac net c.dst_known,
        provide_mac_address_known wait net.local_gate c.gate_mac net c.gate_known,
      )
      (ip_send_known 17 dst c.dst_mac (udp_packet 8086 port net.local_ip dst (take max_data xs)) net
        c.dst_known)

io_net_send_known :
    (wait : Net → Net) (dst : List ℕ) (port : ℕ) (xs : List ℕ) (net : Net)
    → (c : CanSend dst net)
    → io_net_send wait dst port xs net ≡ (no_error, after_send c.dst_mac dst port xs net)
unfolding io_net_send
io_net_send_known wait dst port xs net c =
    ap (λ on. if on then udp_send wait dst 8086 port xs net else (error_not_available, net))
      c.enabled
    ∙ udp_send_known wait dst port xs net c

length-take-≤ : (n : ℕ) (xs : List ℕ) → length (take n xs) ≤ n
length-take-≤ zero xs = omega arith
length-take-≤ (suc n) [] = omega arith
length-take-≤ (suc n) (x ∷ xs) = let ih = length-take-≤ n xs in omega arith

length-take-pos : (n : ℕ) (xs : List ℕ) → 0 < length xs → 0 < length (take (suc n) xs)
length-take-pos n [] h = h
length-take-pos n (x ∷ xs) h = omega arith

packet-received :
    (dst : List ℕ) (port : ℕ) (xs : List ℕ) (net receiver : Net) (room : ℕ)
    → CanSend dst net
    → Listens port receiver
    → port < 65536
    → 0 < length xs
    → max_data ≤ room
    → (io_net_recv room (ip_recv_process (packet_for dst port xs net) receiver)).0
      ≡ some (net.local_ip, 8086, take max_data xs)
packet-received dst port xs net receiver room c l h₁ h₂ h₃ =
    let me = c.local_ip in
    let short = length-take-≤ max_data xs in
    let parts : Parts 8086 port (length (take max_data xs)) dst net.local_ip
        (packet_for dst port xs net) (take max_data xs) =
      rw me.bytes (
        packet-Parts ((net.ip_id + 1) % word) 8086 port me.a me.b me.c me.d dst (take max_data xs)
          c.dst_ip (omega arith) h₁ (length-take-pos 201 xs h₂) (omega arith)) in
    let got =
      (io_net_recv-ip_recv_process (packet_for dst port xs net) receiver (length (take max_data xs))
        room l.enabled l.empty (rw l.rcv_port parts.for_port) (omega arith)).0 in
    rw (got, parts.sender, parts.src_port, parts.content) refl

-- A station that is enabled and knows the hardware addresses of the effective address of the receiver
-- and of its gate sends data that is not empty without error, and hands exactly one packet to the card,
-- for that hardware address. A station that listens on the port and has nothing in its buffer, and
-- takes the packet, gets from io_net_recv with room for 202 bytes the data cut to 202 bytes, with
-- the address and the port of the sender.
pub io_net_recv-io_net_send :
    (wait : Net → Net) (dst : List ℕ) (port : ℕ) (xs : List ℕ) (net receiver : Net) (room : ℕ)
    → (c : CanSend dst net) → Listens port receiver
    → port < 65536
    → 0 < length xs
    → max_data ≤ room
    → (io_net_send wait dst port xs net ≡ (no_error, after_send c.dst_mac dst port xs net))
      × ((io_net_recv room (ip_recv_process (packet_for dst port xs net) receiver)).0
          ≡ some (net.local_ip, 8086, take max_data xs))
io_net_recv-io_net_send wait dst port xs net receiver room c l h₁ h₂ h₃ = (
  io_net_send_known wait dst port xs net c,
  packet-received dst port xs net receiver room c l h₁ h₂ h₃,
)
