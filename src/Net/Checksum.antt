-- ===== src/Net/Checksum.antt =====
-- The checksum of source/net.c against the test that the receiver of a packet makes.
use nano_s.Common.{ℕ, ◌+◌, ◌-◌, ◌*◌, ◌/◌, ◌%◌, ◌≡◌, ◌<◌, refl, arith, List, [], ◌∷◌, ◌++◌, length}
use nano_s.Net.{net_checksum, net_checksum_acc, net_checksum_final, bswap_16}
use nano_s.Net.Send.{be16_bytes}

-- The sum of the 16-bit words of a packet, lowest byte first, with no limit: the bytes at even
-- places count once, those at odd places 256 times.
abbrev pub total : (weight : ℕ) → List ℕ → ℕ
total weight [] = 0
total weight (a ∷ p) = a * weight + total (257 - weight) p

net_checksum_acc_lem : (p : List ℕ) → total 1 p < 4294967296 → net_checksum_acc p ≡ total 1 p
unfolding net_checksum_acc
net_checksum_acc_lem [] h = refl
net_checksum_acc_lem (a ∷ []) h = omega arith
net_checksum_acc_lem (a ∷ b ∷ p) h = let rest = net_checksum_acc_lem p (omega arith) in omega arith

total-append : (pre q : List ℕ) → length pre % 2 ≡ 0 → total 1 (pre ++ q) ≡ total 1 pre + total 1 q
total-append [] q even = omega arith
total-append (a ∷ []) q even = absurd (omega arith)
total-append (a ∷ b ∷ pre) q even = let rest = total-append pre q (omega arith) in omega arith

final-verifies :
    (sum : ℕ)
    → sum % 65536 + sum / 65536 < 65536
    → (sum + bswap_16 (net_checksum_final sum)) % 65535 ≡ 0
unfolding net_checksum_final
final-verifies sum h = omega arith

-- The two bytes of the checksum, read as a word.
total-stored :
    (sum : ℕ) → let v = net_checksum_final sum in v / 256 % 256 * 1 + v % 256 * 256 ≡ bswap_16 v
unfolding net_checksum_final
total-stored sum = omega arith

-- For a packet with two bytes of 0 at an even place for the checksum, whose words have a sum that,
-- folded once to 16 bits, does not carry again: with the checksum in these two bytes, highest first,
-- the packet passes the receiver's test, the sum of its words being a multiple of 65535.
pub net_checksum-verifies :
    (before behind : List ℕ)
    → let packet = before ++ (0 ∷ 0 ∷ behind) in
      length before % 2 ≡ 0
      → total 1 packet % 65536 + total 1 packet / 65536 < 65536
      → total 1 (before ++ (be16_bytes (net_checksum packet) ++ behind)) % 65535 ≡ 0
unfolding net_checksum
net_checksum-verifies before behind even small =
    let packet = before ++ (0 ∷ 0 ∷ behind) in
    let v = net_checksum_final (net_checksum_acc packet) in
    let acc = net_checksum_acc_lem packet (omega arith) in
    let passed = final-verifies (net_checksum_acc packet) (rw acc small) in
    let stored = total-stored (net_checksum_acc packet) in
    let a = total-append before (0 ∷ 0 ∷ behind) even in
    let b = total-append before (be16_bytes v ++ behind) even in omega arith
