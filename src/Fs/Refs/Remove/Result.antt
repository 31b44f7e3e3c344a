-- ===== src/Fs/Refs/Remove/Result.antt =====
-- What remove_ref_in_entry of source/fs.c leaves in the directory.
use nano_s.Common.{
  take-append, length-take, ◌⊎◌, ℕ, zero, suc, ◌+◌, ◌-◌, ◌%◌, ◌≤◌, ◌<◌, ◌≡◌, ◌≢◌, refl, sym, subst,
  ap, ◌∙◌, true, false, List, [], ◌∷◌, ◌++◌, take, length, get_or, ◌==◌, if◌then◌else◌, arith,
  ==→ne, Bool-cases, inl, inr,
}
use nano_s.Fs.Types.{Entry, System, word, sfs_entryrefs, is_dir}
use nano_s.Fs.Monad.{ok, pure, ◌>>◌}
use nano_s.Fs.Disk.Sectors.{Healthy}
use nano_s.Fs.Table.Access.{
  entry_at, table_limit, put_entry, put_entry-same, put_entry-other, put_entry-Healthy,
  get_entry_n-ok, write_entry-ok,
}
use nano_s.Fs.Chain.{
  clear_refs, first_unused, set_entry_refcount, set_entry_size, get_entry_refcount, size_behind,
}
use nano_s.Fs.Refs.{removal_loop, remove_ref_in_entry}
use nano_s.Fs.Refs.Single.{set_entry_refcount-single, set_entry_size-single, dir_fits}
use nano_s.Fs.Refs.Items.{items, IsDirectory}
use nano_s.Fs.Refs.Remove.{contains, remove_first, Inv, length-remove_first}
use nano_s.Fs.Refs.Remove.Loop.{at, Ends, loop-Ends}

take-take : (k : ℕ) (xs : List ℕ) → take k (take (suc k) xs) ≡ take k xs
take-take zero xs = refl
take-take (suc k) [] = refl
take-take (suc k) (x ∷ xs) = ap (◌∷◌ x) (take-take k xs)

take-clear_refs : (k : ℕ) (xs : List ℕ) → take k (clear_refs k xs) ≡ take k xs
unfolding clear_refs
take-clear_refs zero xs = refl
take-clear_refs (suc k) [] = refl
take-clear_refs (suc k) (x ∷ xs) = ap (◌∷◌ x) (take-clear_refs k xs)

length-clear_refs : (k : ℕ) (xs : List ℕ) → length (clear_refs k xs) ≡ length xs
unfolding clear_refs
length-clear_refs k [] = refl
length-clear_refs zero (x ∷ xs) = omega (arith, length-clear_refs zero xs)
length-clear_refs (suc k) (x ∷ xs) = omega (arith, length-clear_refs k xs)

take-all_but_last :
    (k : ℕ) (ys zs : List ℕ) (x : ℕ)
    → take (suc k) ys ≡ zs ++ (x ∷ [])
    → length zs ≡ k
    → take k ys ≡ zs
take-all_but_last k ys zs x e len =
    sym (take-take k ys)
    ∙ ap (take k) e
    ∙ ap (λ j. take j (zs ++ (x ∷ []))) (sym len)
    ∙ take-append zs (x ∷ [])

remove_first-absent : (v : ℕ) (xs : List ℕ) → contains v xs ≡ false → remove_first v xs ≡ xs
remove_first-absent v [] h = refl
remove_first-absent v (x ∷ xs) h = elim (Bool-cases (x == v)) [
  | inl e ↦ absurd (ground arith)
  | inr e ↦ rw e (ap (◌∷◌ x) (remove_first-absent v xs (rw e at h)))
]

-- The entry after the removal.
abbrev less : Entry → List ℕ → Entry
less e ys = record e { ref = clear_refs (first_unused (e.size - 1)) ys; size = e.size - 1 }

some-items : (v : ℕ) (e : Entry) → contains v (items e) ≡ true → 0 < e.size
some-items v e h = elim (Bool-cases (e.size == 0)) [
  | inl z ↦ absurd (ground arith)
  | inr nz ↦ omega (arith, ==→ne e.size 0 nz)
]

length-items : (e : Entry) → IsDirectory e → length (items e) ≡ e.size
length-items e d = omega (arith, length-take e.size e.ref, d.full, d.room)

less-items :
    (e : Entry) (ref : ℕ) (ys : List ℕ)
    → IsDirectory e
    → 0 < e.size
    → Inv e ref e.size true ys
    → items (less e ys) ≡ remove_first ref (items e)
less-items e ref ys d some i =
    let k : first_unused (e.size - 1) ≡ e.size - 1 = omega (arith, d.room) in
    let next : suc (e.size - 1) ≡ e.size = omega arith in
    rw (k, take-clear_refs (e.size - 1) ys)
      (take-all_but_last (e.size - 1) ys (remove_first ref (items e)) (get_or e.ref e.size 0)
        (rw next (i.shifted refl))
        (omega (arith, length-remove_first ref (items e) (sym i.before), length-items e d)))

less-IsDirectory :
    (e : Entry) (ys : List ℕ) → IsDirectory e → length ys ≡ sfs_entryrefs → IsDirectory (less e ys)
less-IsDirectory e ys d full = record {
  dir = d.dir;
  no_file = d.no_file;
  alone = d.alone;
  full = length-clear_refs (first_unused (e.size - 1)) ys ∙ full;
  room = omega (arith, d.room);
}

-- The three writes of the entry, after the loop.
abbrev first_two : System → (disk n : ℕ) → Entry → List ℕ → System
first_two s disk n e ys =
    put_entry (put_entry s disk n (record e { ref = ys })) disk n
      (record e { ref = clear_refs (first_unused (e.size - 1)) ys })

abbrev written : System → (disk n : ℕ) → Entry → List ℕ → System
written s disk n e ys = put_entry (first_two s disk n e ys) disk n (less e ys)

written-other :
    (s : System) (disk n : ℕ) (e : Entry) (ys : List ℕ) (m : ℕ)
    → m ≢ n
    → entry_at (written s disk n e ys) disk m ≡ entry_at s disk m
written-other s disk n e ys m ne =
    put_entry-other (first_two s disk n e ys) disk n m (less e ys) ne
    ∙ put_entry-other (put_entry s disk n (record e { ref = ys })) disk n m
        (record e { ref = clear_refs (first_unused (e.size - 1)) ys }) ne
    ∙ put_entry-other s disk n m (record e { ref = ys }) ne

one_less : (k : ℕ) → 0 < k → k ≤ sfs_entryrefs → (k + (word - 1)) % word ≡ k - 1
one_less k some room = omega arith

module _ {s : System} {disk : ℕ} (h : Healthy s disk) (n : ℕ) (inside : n < table_limit) where
  tail-writes :
      (fuel : ℕ) (e : Entry) (ys : List ℕ)
      → IsDirectory e
      → let s1 = put_entry s disk n (record e { ref = ys }) in
        (do
          set_entry_refcount (suc fuel) disk n (e.size - 1)
          if is_dir e then set_entry_size (suc fuel) disk n (e.size - 1) else pure 0)
          s1
        ≡ (ok 0, written s disk n e ys)
  tail-writes fuel e ys d =
      let e1 = record e { ref = ys } in
      let e2 = record e { ref = clear_refs (first_unused (e.size - 1)) ys } in
      let s1 = put_entry s disk n e1 in
      let s2 = put_entry s1 disk n e2 in
      let same1 : entry_at s1 disk n ≡ e1 = put_entry-same s disk n e1 in
      let same2 : entry_at s2 disk n ≡ e2 = put_entry-same s1 disk n e2 in
      let h1 : Healthy s1 disk = put_entry-Healthy h n e1 in
      let h2 : Healthy s2 disk = put_entry-Healthy h1 n e2 in
      rw
        (
          set_entry_refcount-single h1 n inside (ap (λ x. x.next) same1 ∙ d.alone) (suc fuel)
              (e.size - 1) (omega (arith, d.room)),
          d.dir,
          same1,
        )
        (set_entry_size-single h2 n inside (ap (λ x. x.next) same2 ∙ d.alone) fuel (e.size - 1) (
            ap (λ x. size_behind x (e.size - 1)) same2
            ∙ dir_fits e2 (e.size - 1) d.no_file d.dir (omega (arith, d.room)))
          ∙ ap (λ x. (ok 0, put_entry s2 disk n (record x { size = e.size - 1 }))) same2)

  start-Inv : (e : Entry) (ref : ℕ) → IsDirectory e → Inv e ref 0 false e.ref
  start-Inv e ref d = record {
    full = d.full;
    ahead = λ k l. refl;
    before = refl;
    unfound = λ u. refl;
    shifted = λ u. absurd (ground arith);
  }

  -- The run when the reference is there, and when it is not.
  removed :
      (fuel ref : ℕ) (d : IsDirectory (entry_at s disk n))
      → let e = entry_at s disk n in
        let out = remove_ref_in_entry (suc fuel) disk n ref s in
        Ends e n ref s (removal_loop (suc fuel) disk ref (at e n 0 false e.ref e) s)
        → ((ys : List ℕ) × Inv e ref e.size true ys × (out ≡ (ok 0, written s disk n e ys)))
          ⊎ (contains ref (items e) ≡ false) × (out ≡ (ok 0, s))
  unfolding remove_ref_in_entry get_entry_refcount
  removed fuel ref d l = elim (Bool-cases l.found) [
    | inl yes' ↦
        let some = some-items ref (entry_at s disk n) (sym l.inv.before ∙ yes') in
        inl (
          l.ys,
          subst (λ b. Inv (entry_at s disk n) ref (entry_at s disk n).size b l.ys) yes' l.inv,
          rw
              (
                get_entry_n-ok h n inside,
                d.no_file,
                d.dir,
                l.result,
                yes',
                one_less (entry_at s disk n).size some (omega (arith, d.room)),
                write_entry-ok h (record (entry_at s disk n) { ref = l.ys }) n inside,
              )
              (rw d.dir at (tail-writes fuel (entry_at s disk n) l.ys d)),
        )
    | inr no' ↦ inr (
      sym l.inv.before ∙ no',
      rw (get_entry_n-ok h n inside, d.no_file, d.dir, l.result, no') refl,
    )
  ]

  -- remove_ref_in_entry, for a directory in one entry and with more fuel than it has items,
  -- succeeds: the first item with this value is gone and the others keep their order, and the list
  -- is the same if no item has it. The entry stays a directory, and every other entry of the table is
  -- as it was.
  pub remove_ref_in_entry-removes :
      (fuel ref : ℕ)
      → IsDirectory (entry_at s disk n)
      → (entry_at s disk n).size ≤ fuel
      → let out = remove_ref_in_entry (suc fuel) disk n ref s in
        (out.0 ≡ ok 0)
        × (items (entry_at out.1 disk n) ≡ remove_first ref (items (entry_at s disk n)))
        × IsDirectory (entry_at out.1 disk n)
        × ((m : ℕ) → m ≢ n → entry_at out.1 disk m ≡ entry_at s disk m)
  remove_ref_in_entry-removes fuel ref d enough =
      let e = entry_at s disk n in
      let l =
        loop-Ends disk n ref e s d e.size (suc fuel) 0 false e.ref e (omega arith) (omega arith)
          (λ x. refl) (start-Inv e ref d) in
      elim (removed fuel ref d l) [
        | inl (ys, i, result) ↦
            let some = some-items ref e (sym i.before) in
            let now = put_entry-same (first_two s disk n e ys) disk n (less e ys) in
            rw result (
              refl,
              ap items now ∙ less-items e ref ys d some i,
              subst IsDirectory (sym now) (less-IsDirectory e ys d i.full),
              written-other s disk n e ys,
            )
        | inr (absent, result) ↦
            rw result (refl, sym (remove_first-absent ref (items e) absent), d, λ m ne. refl)
      ]
