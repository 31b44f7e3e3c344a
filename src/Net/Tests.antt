-- ===== src/Net/Tests.antt =====
-- Runs of the network module of source/net.c, and the theorems at concrete inputs.
use nano_s.Common.{
  ℕ, ◌%◌, ◌≡◌, refl, true, List, [], ◌∷◌, ◌++◌, replicate, take, drop, some, none, arith,
}
use nano_s.Net.{
  Net, ArpEntry, find_mac_in_table, arp_recv_process, ip_recv_process, io_net_recv, net_checksum,
  be16, get_effective_ip,
}
use nano_s.Net.Checksum.{total, net_checksum-verifies}
use nano_s.Net.Send.{be16_bytes, io_net_send, no_error}
use nano_s.Net.Send.RoundTrip.{CanSend, Listens, packet_for, after_send, io_net_recv-io_net_send}
use nano_s.Net.Receive.{payload, io_net_recv-ip_recv_process}

abbrev no_entry : ArpEntry
no_entry = record { ip = replicate 4 0; mac = replicate 6 0 }

abbrev started : Net
started = record {
  enabled = true;
  local_mac = 1 ∷ 2 ∷ 3 ∷ 4 ∷ 5 ∷ 6 ∷ [];
  local_ip = 192 ∷ 168 ∷ 2 ∷ 15 ∷ [];
  local_gate = 192 ∷ 168 ∷ 2 ∷ 2 ∷ [];
  local_net = 255 ∷ 255 ∷ 255 ∷ 0 ∷ [];
  rcv_port = 8086;
  rcv_buff = record { ip = replicate 4 0; port = 0; size = 0; buff = [] };
  arp_table = replicate 8 no_entry;
  ip_id = 0;
  sent = [];
}

abbrev gate_mac : List ℕ
gate_mac = 9 ∷ 9 ∷ 9 ∷ 9 ∷ 9 ∷ 9 ∷ []

-- The reply of the gate, and where it takes the hardware address.
abbrev reply : List ℕ
reply =
    0
    ∷ 1
    ∷ 8
    ∷ 0
    ∷ 6
    ∷ 4
    ∷ 0
    ∷ 2
    ∷ (gate_mac ++ (started.local_gate ++ (started.local_mac ++ started.local_ip)))

reply_lem :
    find_mac_in_table
      (arp_recv_process reply started)
      (get_effective_ip started (8 ∷ 8 ∷ 8 ∷ 8 ∷ []))
    ≡ some gate_mac
unfolding find_mac_in_table arp_recv_process get_effective_ip
reply_lem = refl

-- An IP packet with 3 bytes of data for port 8086 (0x1F96).
abbrev packet : List ℕ
packet =
    replicate 9 0
    ++ (17 ∷ 0 ∷ 0 ∷ 10 ∷ 0 ∷ 0 ∷ 7 ∷ 0 ∷ 0 ∷ 0 ∷ 0 ∷ 0x12 ∷ 0x34 ∷ 0x1F ∷ 0x96 ∷ 0 ∷ 11 ∷ 0 ∷ 0
        ∷ 65 ∷ 66 ∷ 67 ∷ [])

io_net_recv-ip_recv_process_example :
    let out = io_net_recv 100 (ip_recv_process packet started) in
    (out.0 ≡ some (take 4 (drop 12 packet), be16 (drop 20 packet) 0, payload 3 packet))
    × ((io_net_recv 100 out.1).0 ≡ none)
io_net_recv-ip_recv_process_example =
    io_net_recv-ip_recv_process packet started 3 100 refl refl
      (record {
        udp = refl;
        dst_port = refl;
        len = refl;
        some_data = omega arith;
        fits = omega arith;
      })
      (omega arith)

-- The header of an IP packet, up to the checksum and behind it.
abbrev head_before : List ℕ
head_before = 0x45 ∷ 0 ∷ 0 ∷ 33 ∷ 0 ∷ 1 ∷ 0 ∷ 0 ∷ 128 ∷ 17 ∷ []

abbrev head_behind : List ℕ
head_behind = 192 ∷ 168 ∷ 2 ∷ 15 ∷ 192 ∷ 168 ∷ 2 ∷ 20 ∷ []

net_checksum-verifies_example :
    total 1 (
        head_before
        ++ (be16_bytes (net_checksum (head_before ++ (0 ∷ 0 ∷ head_behind))) ++ head_behind))
      % 65535
    ≡ 0
net_checksum-verifies_example = net_checksum-verifies head_before head_behind refl (omega arith)

-- The checksum of an odd number of bytes takes the last one in.
odd_lem : net_checksum (1 ∷ 2 ∷ 3 ∷ []) ≡ 0xFBFD
unfolding net_checksum
odd_lem = refl

-- A sum that carries again when it is folded: the receiver's test fails.
abbrev carrying : List ℕ
carrying = 0xFF ∷ 0xFF ∷ 0xFF ∷ 0xFF ∷ 1 ∷ 0 ∷ []

carry_lem : total 1 (carrying ++ be16_bytes (net_checksum carrying)) % 65535 ≡ 1
unfolding net_checksum
carry_lem = refl

abbrev other_ip : List ℕ
other_ip = 192 ∷ 168 ∷ 2 ∷ 20 ∷ []

abbrev other_mac : List ℕ
other_mac = 7 ∷ 7 ∷ 7 ∷ 7 ∷ 7 ∷ 7 ∷ []

-- It knows the gate and another station.
abbrev ready : Net
ready = record started {
  arp_table =
      record { ip = other_ip; mac = other_mac }
      ∷ record { ip = started.local_gate; mac = gate_mac }
      ∷ replicate 6 no_entry;
}

abbrev message : List ℕ
message = 72 ∷ 105 ∷ []

ready_can_send : CanSend other_ip ready
unfolding find_mac_in_table get_effective_ip
ready_can_send = record {
  enabled = refl;
  local_ip = record { a = 192; b = 168; c = 2; d = 15; bytes = refl };
  dst_ip = record { a = 192; b = 168; c = 2; d = 20; bytes = refl };
  dst_mac = other_mac;
  dst_known = refl;
  gate_mac = gate_mac;
  gate_known = refl;
}

started-Listens : Listens 8086 started
started-Listens = record { enabled = refl; rcv_port = refl; empty = refl }

io_net_recv-io_net_send_example :
    (io_net_send (λ net. net) other_ip 8086 message ready
      ≡ (no_error, after_send other_mac other_ip 8086 message ready))
    × ((io_net_recv 256 (ip_recv_process (packet_for other_ip 8086 message ready) started)).0
        ≡ some (ready.local_ip, 8086, message))
unfolding ready_can_send
io_net_recv-io_net_send_example =
    io_net_recv-io_net_send (λ net. net) other_ip 8086 message ready started 256 ready_can_send
      started-Listens (omega arith) (omega arith) (omega arith)
