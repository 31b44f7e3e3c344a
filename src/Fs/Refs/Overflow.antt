-- ===== src/Fs/Refs/Overflow.antt =====
-- add_ref_in_entry of source/fs.c for a directory whose entry is full.
use nano_s.Common.{
  ℕ, suc, ◌+◌, ◌%◌, ◌<◌, ◌≡◌, ◌≢◌, refl, sym, subst, ap, ◌∙◌, true, false, replicate, get_or, ltb,
  arith, ne→==, get_or-replicate, Bool-cases, inl, inr,
}
use nano_s.Fs.Types.{Entry, System, word, sfs_entryrefs, error_not_found, is_dir, is_file}
use nano_s.Fs.Monad.{ok, err}
use nano_s.Fs.Disk.Sectors.{Healthy}
use nano_s.Fs.Table.{find_free_entry, get_entry_n, write_entry}
use nano_s.Fs.Table.Access.{
  entry_at, table_limit, put_entry, put_entry-same, put_entry-other, put_entry-Healthy,
  get_entry_n-ok, write_entry-ok,
}
use nano_s.Fs.Chain.{
  get_nref_entry_from_entry, nref_loop, needed_entries, advance_chain, extend_chain, clear_refs,
  first_unused, set_entry_refcount, set_entry_size, size_behind, get_entry_refcount,
}
use nano_s.Fs.Refs.{set_ref, ref_at, add_ref_in_entry, create_refentry}
use nano_s.Fs.Refs.Single.{set_entry_size-single, dir_fits}
use nano_s.Fs.Refs.Items.{IsDirectory, get_or-clear_refs}

no-refs : (i : ℕ) → get_or (clear_refs (first_unused 121) (replicate sfs_entryrefs 0)) i 0 ≡ 0
no-refs i =
    get_or-clear_refs (first_unused 121) i (replicate sfs_entryrefs 0)
    ∙ (elim (Bool-cases (ltb i (first_unused 121))) [
      | inl e ↦ rw (e, get_or-replicate {A = ℕ} sfs_entryrefs i 0) refl
      | inr e ↦ rw e refl
    ])

-- add_ref_in_entry, when the reference needs an entry that is not there.
abbrev Missing : (fuel disk n ref m : ℕ) → (e r : Entry) → (s s' t : System) → ℕ → Type 0
Missing fuel disk n ref m e r s s' t size =
    get_nref_entry_from_entry e disk n size s ≡ (err error_not_found, s)
    → create_refentry fuel disk n size s ≡ (ok (r, m), s')
    → write_entry (set_ref r (size % sfs_entryrefs) ref) disk m s' ≡ (ok tt, t)
    → add_ref_in_entry fuel disk n ref s ≡ set_entry_size fuel disk n ((size + 1) % word) t

add_ref-Missing :
    (fuel disk n ref m : ℕ) (e r : Entry) {s s' t : System}
    → get_entry_n disk n s ≡ (ok e, s)
    → is_file e ≡ false
    → is_dir e ≡ true
    → Missing fuel disk n ref m e r s s' t e.size
unfolding add_ref_in_entry get_entry_refcount
add_ref-Missing fuel disk n ref m e r got file dir missing created wrote =
    rw (got, file, dir, missing, created, wrote) refl

module _ {s : System} {disk : ℕ} (h : Healthy s disk) (n f : ℕ) (inside : n < table_limit)
    (inside' : f < table_limit) (root : n ≢ 0) (fresh : f ≢ n) (fresh' : f ≢ 0)
    (d : IsDirectory (entry_at s disk n)) (full : (entry_at s disk n).size ≡ sfs_entryrefs)
    (free : find_free_entry disk s ≡ (ok f, s)) where
  abbrev e : Entry
  e = entry_at s disk n

  -- The chained entry.
  abbrev second : Entry
  second = record e { parent = n; next = 0; size = 0; ref = replicate sfs_entryrefs 0 }

  abbrev cleared : Entry
  cleared = record second { ref = clear_refs (first_unused 121) second.ref }

  abbrev s1 : System
  s1 = put_entry s disk n (record e { next = f })

  abbrev s2 : System
  s2 = put_entry s1 disk f second

  abbrev s3 : System
  s3 = put_entry s2 disk f cleared

  h1 : Healthy s1 disk
  h1 = put_entry-Healthy h n (record e { next = f })

  h2 : Healthy s2 disk
  h2 = put_entry-Healthy h1 f second

  h3 : Healthy s3 disk
  h3 = put_entry-Healthy h2 f cleared

  grown : (fuel : ℕ) → set_entry_refcount fuel disk n 121 s ≡ (ok 0, s3)
  unfolding set_entry_refcount advance_chain extend_chain needed_entries
  grown fuel =
      rw
        (
          get_entry_n-ok h n inside,
          d.alone,
          free,
          write_entry-ok h (record e { next = f }) n inside,
          write_entry-ok h1 second f inside',
          write_entry-ok h2 cleared f inside',
        )
        refl

  root-same : entry_at s3 disk 0 ≡ entry_at s disk 0
  root-same =
      put_entry-other s2 disk f 0 cleared (λ z. fresh' (sym z))
      ∙ put_entry-other s1 disk f 0 second (λ z. fresh' (sym z))
      ∙ put_entry-other s disk n 0 (record e { next = f }) (λ z. root (sym z))

  module _ (ref : ℕ) where
    abbrev new_root : Entry
    new_root = set_ref (entry_at s3 disk 0) 0 ref

    abbrev s4 : System
    s4 = put_entry s3 disk 0 new_root

    h4 : Healthy s4 disk
    h4 = put_entry-Healthy h3 0 new_root

    first-now : entry_at s4 disk n ≡ record e { next = f }
    first-now =
        put_entry-other s3 disk 0 n new_root root
        ∙ put_entry-other s2 disk f n cleared (λ z. fresh (sym z))
        ∙ put_entry-other s1 disk f n second (λ z. fresh (sym z))
        ∙ put_entry-same s disk n (record e { next = f })

    second-now : entry_at s4 disk f ≡ cleared
    second-now = put_entry-other s3 disk 0 f new_root fresh' ∙ put_entry-same s2 disk f cleared

    abbrev s5 : System
    s5 = put_entry s4 disk n (record e { next = f; size = 121 })

    h5 : Healthy s5 disk
    h5 = put_entry-Healthy h4 n (record e { next = f; size = 121 })

    second-then : entry_at s5 disk f ≡ cleared
    second-then = put_entry-other s4 disk n f (record e { next = f; size = 121 }) fresh ∙ second-now

    abbrev s6 : System
    s6 = put_entry s5 disk f (record cleared { size = 1 })

    one-behind : size_behind (record e { next = f }) 121 ≡ 1
    unfolding size_behind
    one-behind = rw (d.no_file, d.dir) refl

    sized : (fuel : ℕ) → set_entry_size (suc (suc fuel)) disk n 121 s4 ≡ (ok 0, s6)
    unfolding set_entry_size
    sized fuel =
        rw
          (
            get_entry_n-ok h4 n inside,
            first-now,
            one-behind,
            write_entry-ok h4 (record e { next = f; size = 121 }) n inside,
            ne→== f 0 fresh',
          )
          (set_entry_size-single h5 f inside' (ap (λ x. x.next) second-then) fuel 1 (
              ap (λ x. size_behind x 1) second-then
              ∙ dir_fits cleared 1 d.no_file d.dir (omega arith))
            ∙ ap (λ x. (ok 0, put_entry s5 disk f (record x { size = 1 }))) second-then)

    past-end : get_nref_entry_from_entry e disk n 120 s ≡ (err error_not_found, s)
    unfolding get_nref_entry_from_entry nref_loop
    past-end = rw d.alone refl

    created : (fuel : ℕ) → create_refentry fuel disk n 120 s ≡ (ok (entry_at s3 disk 0, 0), s3)
    unfolding create_refentry
    created fuel = rw (grown fuel, get_entry_n-ok h3 0 (omega arith)) refl

    added : (fuel : ℕ) → add_ref_in_entry (suc (suc fuel)) disk n ref s ≡ (ok 0, s6)
    added fuel =
        subst (Missing (suc (suc fuel)) disk n ref 0 e (entry_at s3 disk 0) s s3 s4) full
          (add_ref-Missing (suc (suc fuel)) disk n ref 0 e (entry_at s3 disk 0)
            (get_entry_n-ok h n inside) d.no_file d.dir)
          past-end (created (suc (suc fuel))) (write_entry-ok h3 new_root 0 (omega arith))
        ∙ sized fuel

    root-then : entry_at s6 disk 0 ≡ set_ref (entry_at s disk 0) 0 ref
    root-then =
        put_entry-other s5 disk f 0 (record cleared { size = 1 }) (λ z. fresh' (sym z))
        ∙ put_entry-other s4 disk n 0 (record e { next = f; size = 121 }) (λ z. root (sym z))
        ∙ put_entry-same s3 disk 0 new_root
        ∙ ap (λ x. set_ref x 0 ref) root-same

    -- The 121st item of a directory: add_ref_in_entry reports success and chains a new entry, which
    -- gets no reference at all, while the reference of entry 0, the root directory, to its first
    -- item is overwritten by the reference to the new one.
    pub add_ref_in_entry-full :
        (fuel : ℕ)
        → let out = add_ref_in_entry (suc (suc fuel)) disk n ref s in
          (out.0 ≡ ok 0)
          × (entry_at out.1 disk 0 ≡ set_ref (entry_at s disk 0) 0 ref)
          × ((i : ℕ) → ref_at (entry_at out.1 disk f) i ≡ 0)
    add_ref_in_entry-full fuel = rw (added fuel) (
      refl,
      root-then,
      λ i.
          ap (λ x. ref_at x i) (put_entry-same s5 disk f (record cleared { size = 1 })) ∙ no-refs i,
    )
