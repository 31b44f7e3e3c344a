-- ===== src/Fs/Format/Empty.antt =====
-- The entries table that fs_format of source/fs.c writes.
use nano_s.Common.{
  ℕ, zero, suc, ◌+◌, ◌≤◌, ◌<◌, ◌≡◌, ◌⊎◌, refl, subst, ap, ◌∙◌, inl, inr, ◌==◌, Bool-cases, ==→eq,
  ==→ne, arith,
}
use nano_s.Fs.Types.{System}
use nano_s.Fs.Monad.{Res, ok}
use nano_s.Fs.Disk.Sectors.{Healthy}
use nano_s.Fs.Table.Access.{
  entry_at, table_limit, put_entry, put_entry-same, put_entry-other, put_entry-Healthy,
  write_entry-ok,
}
use nano_s.Fs.Chain.{zero_entry}
use nano_s.Fs.Format.{clear_table}

-- The entries from `lo` on, below `hi`, are empty and the others are as they were.
pub record Cleared (s : System) (disk lo hi : ℕ) (out : Res (Unit {0}) × System) : Type 0 where
  pub result : out.0 ≡ ok tt
  pub healthy : Healthy out.1 disk
  pub inside : (m : ℕ) → lo ≤ m → m < hi → entry_at out.1 disk m ≡ zero_entry
  pub outside : (m : ℕ) → (m < lo) ⊎ (hi ≤ m) → entry_at out.1 disk m ≡ entry_at s disk m

Cleared-then :
    (s : System) (disk lo hi : ℕ) {out : Res (Unit {0}) × System}
    → lo < hi
    → Cleared (put_entry s disk lo zero_entry) disk (lo + 1) hi out
    → Cleared s disk lo hi out
Cleared-then s disk lo hi less r = record {
  result = r.result;
  healthy = r.healthy;
  inside = λ m l u. elim (Bool-cases (m == lo)) [
    | inl e ↦
        let at_lo = ==→eq m lo e in
        r.outside m (inl (omega (arith, at_lo)))
        ∙ ap (entry_at (put_entry s disk lo zero_entry) disk) at_lo
        ∙ put_entry-same s disk lo zero_entry
    | inr ne ↦ r.inside m (omega (arith, ==→ne m lo ne)) u
  ];
  outside = λ m away.
      r.outside m (elim away [ inl l ↦ inl (omega arith) | inr u ↦ inr u ])
      ∙ put_entry-other s disk lo m zero_entry
          (λ e. elim away [ inl l ↦ absurd (omega arith) | inr u ↦ absurd (omega arith) ]);
}

plus-suc : (n left : ℕ) → n + 1 + left ≡ n + suc left
plus-suc n left = omega arith

-- On a disk whose sectors work, clear_table from entry n on, for `left` entries of the table,
-- succeeds; each of these is empty afterwards, and every other entry is as it was.
clear_table-Cleared :
    (left n disk : ℕ) {s : System}
    → Healthy s disk
    → n + left ≤ table_limit
    → Cleared s disk n (n + left) (clear_table disk left n s)
unfolding clear_table
clear_table-Cleared zero n disk h small = record {
  result = refl;
  healthy = h;
  inside = λ m l u. absurd (omega arith);
  outside = λ m away. refl;
}
clear_table-Cleared (suc left) n disk {s} h small =
    rw (write_entry-ok h zero_entry n (omega arith)) (
      Cleared-then s disk n (n + suc left) (omega arith) (
        subst
          (λ hi.
            Cleared (put_entry s disk n zero_entry) disk (n + 1) hi
              (clear_table disk left (n + 1) (put_entry s disk n zero_entry)))
          (plus-suc n left)
          (clear_table-Cleared left (n + 1) disk (put_entry-Healthy h n zero_entry) (omega arith))))
