-- ===== src/Net/Arp.antt =====
-- The ARP table of source/net.c.
use nano_s.Common.{
  subst, ◌⊎◌, ℕ, ◌≡◌, ◌≢◌, ◌<◌, refl, sym, Bool, true, false, ◌||◌, List, [], ◌∷◌, length, Option,
  none, some, ◌==◌, Bool-cases, inl, inr, eq→==, arith,
}
use nano_s.Net.{
  Net, ArpEntry, same_bytes, find_in, find_mac_in_table, update_in, insert_in, is_empty, byte,
  learn,
}

same_bytes_self : (xs : List ℕ) → same_bytes xs xs ≡ true
unfolding same_bytes
same_bytes_self [] = refl
same_bytes_self (x ∷ xs) = rw (eq→== x x refl) (same_bytes_self xs)

none≢some : (x : List ℕ) → none ≢ some x
none≢some x e = subst is_none e tt
  where
    is_none : Option (List ℕ) → Type 0
    is_none none = Unit {0}
    is_none (some x) = ⊥

find-update :
    (ip mac old : List ℕ) (es : List ArpEntry)
    → find_in ip es ≡ some old
    → find_in ip (update_in ip mac es) ≡ some mac
unfolding find_in update_in
find-update ip mac old [] h = absurd (none≢some old h)
find-update ip mac old (e ∷ es) h = elim (Bool-cases (same_bytes e.ip ip)) [
  | inl this ↦ rw (this, this) refl
  | inr other ↦ rw (other, other) (find-update ip mac old es (rw other at h))
]

not-last : (es : List ArpEntry) → is_empty es ≡ false → 0 < length es
not-last [] z = absurd (ground arith)
not-last (e ∷ es) z = omega arith

or-right : (a b : Bool) → (a || b) ≡ false → b ≡ false
or-right false b h = h
or-right true b h = absurd (ground arith)

find-insert :
    (ip mac : List ℕ) (es : List ArpEntry)
    → 0 < length es
    → find_in ip es ≡ none
    → find_in ip (insert_in ip mac es) ≡ some mac
unfolding find_in insert_in
find-insert ip mac [] some' h = absurd (omega arith)
find-insert ip mac (e ∷ es) some' h = elim (Bool-cases (byte e.ip 0 == 0 || is_empty es)) [
  | inl here ↦ rw (here, same_bytes_self ip) refl
  | inr later ↦ elim (Bool-cases (same_bytes e.ip ip)) [
    | inl this ↦ absurd (none≢some e.mac (sym (rw this at h)))
    | inr other ↦
        rw (later, other)
          (find-insert ip mac es (not-last es (or-right (byte e.ip 0 == 0) (is_empty es) later))
            (rw other at h))
  ]
]

Option-cases : (r : Option (List ℕ)) → ((old : List ℕ) × (r ≡ some old)) ⊎ (r ≡ none)
Option-cases none = inr refl
Option-cases (some x) = inl (x, refl)

-- After an ARP reply for an address, the search for the address gives the hardware address of the
-- reply, whether the table knew the address or not; the address may also be the local one, and
-- then the local hardware address is replaced.
find_mac_in_table-learn :
    (ip mac : List ℕ) (net : Net)
    → 0 < length net.arp_table
    → find_mac_in_table (learn ip mac net) ip ≡ some mac
unfolding find_mac_in_table learn
find_mac_in_table-learn ip mac net room = elim (Bool-cases (same_bytes ip net.local_ip)) [
  | inl local ↦ rw (local, local) refl
  | inr remote ↦ elim (Option-cases (find_in ip net.arp_table)) [
    | inl (old, known) ↦ rw (remote, known, remote) (find-update ip mac old net.arp_table known)
    | inr unknown ↦ rw (remote, unknown, remote) (find-insert ip mac net.arp_table room unknown)
  ]
]
