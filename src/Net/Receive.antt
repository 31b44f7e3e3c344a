-- ===== src/Net/Receive.antt =====
-- The buffer of received data of source/net.c.
use nano_s.Common.{
  ◌∷◌, [], ℕ, zero, suc, ◌+◌, ◌≡◌, ◌≤◌, ◌<◌, refl, ap, min, true, ◌&&◌, List, take, drop, none,
  some, ◌==◌, ltb, Bool-cases, inl, inr, eq→==, lt→ltb, arith,
}
use nano_s.Ulib.Text.{sub32}
use nano_s.Net.{Net, be16, byte, ip_recv_process, io_net_recv, io_net_recv_set_port}

-- A UDP packet for this port with `n` bytes of data.
pub record IsFor (port n : ℕ) (p : List ℕ) : Type 0 where
  pub udp : byte p 9 ≡ 17
  pub dst_port : be16 (drop 20 p) 2 ≡ port
  pub len : be16 (drop 20 p) 4 ≡ n + 8
  pub some_data : 0 < n
  pub fits : n ≤ 256

abbrev pub payload : ℕ → List ℕ → List ℕ
payload n p = take n (drop 8 (drop 20 p))

received-size : (n len : ℕ) → len ≡ n + 8 → n ≤ 256 → min (sub32 len 8) 256 ≡ n
received-size n len e h = omega arith

take-take_same : (n : ℕ) (xs : List ℕ) → take n (take n xs) ≡ take n xs
take-take_same zero xs = refl
take-take_same (suc n) [] = refl
take-take_same (suc n) (x ∷ xs) = ap (◌∷◌ x) (take-take_same n xs)

-- Of a UDP packet for the reception port that comes when the buffer is empty, io_net_recv with room
-- for all of it returns the data and the address and port of the sender, and leaves the buffer
-- empty: the next call returns nothing.
pub io_net_recv-ip_recv_process :
    (p : List ℕ) (net : Net) (n room : ℕ)
    → net.enabled ≡ true
    → net.rcv_buff.size ≡ 0
    → IsFor net.rcv_port n p
    → n ≤ room
    → let out = io_net_recv room (ip_recv_process p net) in
      (out.0 ≡ some (take 4 (drop 12 p), be16 (drop 20 p) 0, payload n p))
      × ((io_net_recv room out.1).0 ≡ none)
unfolding io_net_recv ip_recv_process
io_net_recv-ip_recv_process p net n room on empty f fits =
    let size = received-size n (be16 (drop 20 p) 4) f.len f.fits in
    let all : min n room ≡ n = omega arith in
    rw
      (
        empty,
        on,
        eq→== (byte p 9) 17 f.udp,
        eq→== (be16 (drop 20 p) 2) net.rcv_port f.dst_port,
        size,
        lt→ltb 0 n f.some_data,
        all,
      )
      (rw take-take_same refl, refl)

-- The size of what is in the buffer never exceeds its 256 bytes: a received packet, a call of
-- io_net_recv and a change of the port keep that, whatever the packet says of its length.
rcv_buff_bounded :
    (p : List ℕ) (net : Net) (room port : ℕ)
    → net.rcv_buff.size ≤ 256
    → ((ip_recv_process p net).rcv_buff.size ≤ 256)
      × ((io_net_recv room net).1.rcv_buff.size ≤ 256)
      × ((io_net_recv_set_port port net).rcv_buff.size ≤ 256)
unfolding io_net_recv ip_recv_process io_net_recv_set_port
rcv_buff_bounded p net room port h = (
  elim (Bool-cases (ltb 0 net.rcv_buff.size)) [
    | inl full ↦ rw full h
    | inr empty ↦
        rw empty (elim (Bool-cases (byte p 9 == 17 && be16 (drop 20 p) 2 == net.rcv_port)) [
          | inl ours ↦ rw ours (omega arith)
          | inr not_ours ↦ rw not_ours h
        ])
  ],
  elim (Bool-cases (net.enabled && ltb 0 net.rcv_buff.size)) [
    | inl some_data ↦ rw some_data (omega arith)
    | inr none_there ↦ rw none_there h
  ],
  elim (Bool-cases (port == net.rcv_port)) [
    | inl same ↦ rw same h
    | inr other ↦ rw other (omega arith)
  ],
)
