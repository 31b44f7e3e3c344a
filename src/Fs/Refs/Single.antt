-- ===== src/Fs/Refs/Single.antt =====
-- Reference counts and references of an entry with no chained entries.
use nano_s.Common.{
  ℕ, zero, suc, ◌+◌, ◌-◌, ◌%◌, ◌≤◌, ◌<◌, ◌≡◌, refl, ap, ◌∙◌, true, false, arith, lt→ltb,
}
use nano_s.Fs.Types.{Entry, System, word, sfs_entryrefs, is_dir, is_file}
use nano_s.Fs.Monad.{ok}
use nano_s.Fs.Disk.Sectors.{Healthy}
use nano_s.Fs.Table.Access.{
  entry_at, table_limit, get_entry_n-ok, write_entry-ok, put_entry, put_entry-same,
  put_entry-Healthy,
}
use nano_s.Fs.Chain.{
  set_entry_refcount, set_entry_size, size_behind, needed_entries, advance_chain, clear_refs,
  first_unused, get_entry_refcount, get_nref_entry_from_entry, nref_loop,
}
use nano_s.Fs.Refs.{set_ref, add_ref_in_entry}

one_entry : (refcount : ℕ) → refcount ≤ sfs_entryrefs → needed_entries refcount - 1 ≡ 0
unfolding needed_entries
one_entry refcount small = ground arith

module _ {s : System} {disk : ℕ} (h : Healthy s disk) (n : ℕ) (inside : n < table_limit)
    (alone : (entry_at s disk n).next ≡ 0) where
  -- With no chained entry and at most 120 references to keep, set_entry_refcount writes the entry
  -- once, with the references from index `min(119, refcount)` on cleared, and succeeds: it needs no
  -- free entry and no fuel.
  pub set_entry_refcount-single :
      (fuel refcount : ℕ)
      → refcount ≤ sfs_entryrefs
      → set_entry_refcount fuel disk n refcount s ≡ (
        ok 0,
        put_entry s disk n (record (entry_at s disk n) {
          ref = clear_refs (first_unused refcount) (entry_at s disk n).ref;
        }),
      )
  unfolding set_entry_refcount advance_chain
  set_entry_refcount-single fuel refcount small =
      rw
        (
          get_entry_n-ok h n inside,
          one_entry refcount small,
          write_entry-ok h
              (record (entry_at s disk n) {
                ref = clear_refs (first_unused refcount) (entry_at s disk n).ref;
              })
              n inside,
          alone,
        )
        refl

  pub set_entry_size-single :
      (fuel size : ℕ)
      → size_behind (entry_at s disk n) size ≡ 0
      → set_entry_size (suc fuel) disk n size s
        ≡ (ok 0, put_entry s disk n (record (entry_at s disk n) { size = size }))
  unfolding set_entry_size
  set_entry_size-single fuel size fits =
      rw
        (
          get_entry_n-ok h n inside,
          fits,
          write_entry-ok h (record (entry_at s disk n) { size = size }) n inside,
          alone,
        )
        refl

-- The number of references of a directory with 120 items or fewer is in the entry itself.
pub first_entry :
    (disk n i : ℕ) (e : Entry) (s : System)
    → i < sfs_entryrefs
    → get_nref_entry_from_entry e disk n i s ≡ (ok (e, n), s)
unfolding get_nref_entry_from_entry nref_loop
first_entry disk n zero e s small = refl
first_entry disk n (suc i) e s small = rw (lt→ltb (suc i) sfs_entryrefs small) refl

-- The entry of a directory after one more reference.
abbrev pub with_ref : Entry → ℕ → Entry
with_ref e ref = record (set_ref e (e.size % sfs_entryrefs) ref) { size = e.size + 1 }

pub dir_fits :
    (e : Entry) (size : ℕ)
    → is_file e ≡ false
    → is_dir e ≡ true
    → size ≤ sfs_entryrefs
    → size_behind e size ≡ 0
unfolding size_behind
dir_fits e size file dir small = rw (file, dir) (omega arith)

module _ {s : System} {disk : ℕ} (h : Healthy s disk) (n : ℕ) (inside : n < table_limit)
    (alone : (entry_at s disk n).next ≡ 0) where
  pub add_ref-single :
      (fuel ref : ℕ)
      → is_dir (entry_at s disk n) ≡ true
      → is_file (entry_at s disk n) ≡ false
      → (entry_at s disk n).size < sfs_entryrefs
      → add_ref_in_entry (suc fuel) disk n ref s ≡ (
        ok 0,
        put_entry
            (put_entry s disk n
              (set_ref (entry_at s disk n) ((entry_at s disk n).size % sfs_entryrefs) ref))
            disk
            n
            (with_ref (entry_at s disk n) ref),
      )
  unfolding add_ref_in_entry get_entry_refcount
  add_ref-single fuel ref dir file small =
      let e = entry_at s disk n in
      let i = e.size % sfs_entryrefs in
      let next : (e.size + 1) % word ≡ e.size + 1 = omega arith in
      let s1 = put_entry s disk n (set_ref e i ref) in
      let h1 : Healthy s1 disk = put_entry-Healthy h n (set_ref e i ref) in
      let same : entry_at s1 disk n ≡ set_ref e i ref = put_entry-same s disk n (set_ref e i ref) in
      rw
        (
          get_entry_n-ok h n inside,
          file,
          dir,
          first_entry disk n e.size e s small,
          next,
          write_entry-ok h (set_ref e i ref) n inside,
        )
        (set_entry_size-single h1 n inside (ap (λ x. x.next) same ∙ alone) fuel (e.size + 1) (
            ap (λ x. size_behind x (e.size + 1)) same
            ∙ dir_fits (set_ref e i ref) (e.size + 1) file dir (omega arith))
          ∙ ap (λ x. (ok 0, put_entry s1 disk n (record x { size = e.size + 1 }))) same)
