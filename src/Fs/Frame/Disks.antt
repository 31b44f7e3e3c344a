-- ===== src/Fs/Frame/Disks.antt =====
-- The operations of source/fs.c that change one disk leave the others alone.
use nano_s.Common.{
  ℕ, zero, suc, Bool, true, false, List, [], ◌∷◌, ◌≡◌, ◌≢◌, refl, sym, ◌∙◌, subst, ne→==,
  if◌then◌else◌, ◌==◌,
}
use nano_s.Fs.Types.{System, Entry, Block, error_not_found}
use nano_s.Fs.Monad.{Res, ok, err, spin, M, and_then, ◌>>=◌, recode, recode_res}
use nano_s.Fs.Disk.{disk_write_sector, put_block, write_block}
use nano_s.Fs.Table.{write_entry}
use nano_s.Fs.Chain.{
  set_time_loop, set_entry_size, extend_chain, advance_chain, delete_rest, set_entry_refcount,
}
use nano_s.Fs.Refs.{
  if_missing, if_missing_res, create_refentry, add_ref_in_entry, Removal, turn, removal_loop,
  remove_ref_in_entry,
}
use nano_s.Fs.Dir.{for_each, delete_n}
use nano_s.Fs.Frame.{ReadsOnly, pure-ReadsOnly, fail-ReadsOnly, stuck-ReadsOnly, get-ReadsOnly}
use nano_s.Fs.Frame.ReadOnly.{
  get_entry_n-ReadsOnly, disk_read_sector-ReadsOnly, check_disk-ReadsOnly, get_nref-ReadsOnly,
  find_free_entry-ReadsOnly, find_free_block-ReadsOnly,
}

-- Two states that agree but for the blocks of one disk and the readings of the clock.
pub record Elsewhere (disk : ℕ) (s s' : System) : Type 0 where
  pub others : (d n : ℕ) → d ≢ disk → s'.blocks d n ≡ s.blocks d n
  pub same_info : s'.info ≡ s.info
  pub same_system : s'.system_disk ≡ s.system_disk

pub Elsewhere-trans :
    (disk : ℕ) (a b c : System) → Elsewhere disk a b → Elsewhere disk b c → Elsewhere disk a c
Elsewhere-trans disk a b c p q = record {
  others = λ d n h. q.others d n h ∙ p.others d n h;
  same_info = q.same_info ∙ p.same_info;
  same_system = q.same_system ∙ p.same_system;
}

pub Elsewhere-refl : (disk : ℕ) (s : System) → Elsewhere disk s s
Elsewhere-refl disk s = record { others = λ d n h. refl; same_info = refl; same_system = refl }

-- However the run ends, it has changed no other disk.
pub record WritesOnly {A : Type 0} (disk : ℕ) (m : M A) : Type 0 where
  pub elsewhere : (s : System) → Elsewhere disk s (m s).1

and_then-Elsewhere :
    {A B : Type 0} (disk : ℕ) (s : System) (r : Res A × System) (k : A → M B)
    → ((a : A) → WritesOnly disk (k a))
    → Elsewhere disk s r.1
    → Elsewhere disk s (and_then r k).1
and_then-Elsewhere disk s (ok a, s') k h p = Elsewhere-trans disk s s' _ p ((h a).elsewhere s')
and_then-Elsewhere disk s (err code, s') k h p = p
and_then-Elsewhere disk s (spin, s') k h p = p

pub bind-WritesOnly :
    {A B : Type 0} (disk : ℕ) (m : M A) (k : A → M B)
    → WritesOnly disk m
    → ((a : A) → WritesOnly disk (k a))
    → WritesOnly disk (m >>= k)
bind-WritesOnly disk m k hm hk = record {
  elsewhere = λ s. and_then-Elsewhere disk s (m s) k hk (hm.elsewhere s);
}

recode-Elsewhere :
    {A : Type 0} (disk code : ℕ) (s : System) (r : Res A × System)
    → Elsewhere disk s r.1
    → Elsewhere disk s (recode_res code r).1
recode-Elsewhere disk code s (ok a, s') p = p
recode-Elsewhere disk code s (err _, s') p = p
recode-Elsewhere disk code s (spin, s') p = p

pub recode-WritesOnly :
    {A : Type 0} (disk code : ℕ) (m : M A) → WritesOnly disk m → WritesOnly disk (recode code m)
recode-WritesOnly disk code m h = record {
  elsewhere = λ s. recode-Elsewhere disk code s (m s) (h.elsewhere s);
}

pub if-Elsewhere :
    {A : Type 0} (disk : ℕ) (s : System) (b : Bool) (x y : A × System)
    → Elsewhere disk s x.1
    → Elsewhere disk s y.1
    → Elsewhere disk s (if b then x else y).1
if-Elsewhere disk s true x y hx hy = hx
if-Elsewhere disk s false x y hx hy = hy

missing-Elsewhere :
    {A : Type 0} (disk : ℕ) (s : System) (r : Res A × System) (k : M A)
    → WritesOnly disk k
    → Elsewhere disk s r.1
    → Elsewhere disk s (if_missing_res r k).1
missing-Elsewhere disk s (ok a, s') k h p = p
missing-Elsewhere disk s (err code, s') k h p =
    if-Elsewhere disk s (code == error_not_found) _ _
      (Elsewhere-trans disk s s' _ p (h.elsewhere s')) p
missing-Elsewhere disk s (spin, s') k h p = p

pub missing-WritesOnly :
    {A : Type 0} (disk : ℕ) (m k : M A)
    → WritesOnly disk m
    → WritesOnly disk k
    → WritesOnly disk (if_missing m k)
missing-WritesOnly disk m k hm hk = record {
  elsewhere = λ s. missing-Elsewhere disk s (m s) k hk (hm.elsewhere s);
}

pub if-WritesOnly :
    {A : Type 0} (disk : ℕ) (b : Bool) (m k : M A)
    → WritesOnly disk m
    → WritesOnly disk k
    → WritesOnly disk (if b then m else k)
if-WritesOnly disk true m k hm hk = hm
if-WritesOnly disk false m k hm hk = hk

pub read-WritesOnly : {A : Type 0} (disk : ℕ) (m : M A) → ReadsOnly m → WritesOnly disk m
read-WritesOnly disk m h = record {
  elsewhere = λ s. subst (Elsewhere disk s) (sym (h.kept s)) (Elsewhere-refl disk s);
}

pub ruleset writes = (
  bind-WritesOnly, recode-WritesOnly, if-WritesOnly, missing-WritesOnly, read-WritesOnly,
  pure-ReadsOnly, fail-ReadsOnly, stuck-ReadsOnly, get-ReadsOnly, get_entry_n-ReadsOnly,
  disk_read_sector-ReadsOnly, check_disk-ReadsOnly, get_nref-ReadsOnly, find_free_entry-ReadsOnly,
  find_free_block-ReadsOnly,
)

pub put_block-Elsewhere :
    (disk n : ℕ) (b : Block) (s : System) → Elsewhere disk s (put_block s disk n b)
put_block-Elsewhere disk n b s = record {
  others = λ d m h. rw (ne→== d disk h) refl;
  same_info = refl;
  same_system = refl;
}

pub disk_write_sector-WritesOnly :
    (disk n : ℕ) (b : Block) → WritesOnly disk (disk_write_sector disk n b)
unfolding disk_write_sector
disk_write_sector-WritesOnly disk n b = record {
  elsewhere = λ s.
      if-Elsewhere disk s (s.write_fault disk n == 0) _ _ (put_block-Elsewhere disk n b s)
        (Elsewhere-refl disk s);
}

write_block-WritesOnly : (disk n : ℕ) (b : Block) → WritesOnly disk (write_block disk n b)
unfolding write_block
write_block-WritesOnly disk n b = search (writes, disk_write_sector-WritesOnly)

pub write_entry-WritesOnly : (e : Entry) (disk n : ℕ) → WritesOnly disk (write_entry e disk n)
unfolding write_entry
write_entry-WritesOnly e disk n = search (writes, write_block-WritesOnly)

pub set_time_loop-WritesOnly :
    (fuel disk fstime n : ℕ) → WritesOnly disk (set_time_loop fuel disk fstime n)
unfolding set_time_loop
set_time_loop-WritesOnly zero disk fstime n = search writes
set_time_loop-WritesOnly (suc fuel) disk fstime n =
    search (writes, write_entry-WritesOnly, set_time_loop-WritesOnly fuel disk) depth 8

pub set_entry_size-WritesOnly :
    (fuel disk n size : ℕ) → WritesOnly disk (set_entry_size fuel disk n size)
unfolding set_entry_size
set_entry_size-WritesOnly zero disk n size = search writes
set_entry_size-WritesOnly (suc fuel) disk n size =
    search (writes, write_entry-WritesOnly, set_entry_size-WritesOnly fuel disk) depth 8

pub extend_chain-WritesOnly : (disk : ℕ) (e : Entry × ℕ) → WritesOnly disk (extend_chain disk e)
unfolding extend_chain
extend_chain-WritesOnly disk (e, n) = search (writes, write_entry-WritesOnly) depth 8

advance_chain-WritesOnly :
    (more disk : ℕ) (e : Entry × ℕ) → WritesOnly disk (advance_chain more disk e)
unfolding advance_chain
advance_chain-WritesOnly zero disk (e, n) = search writes
advance_chain-WritesOnly (suc more) disk (e, n) =
    search (writes, extend_chain-WritesOnly, advance_chain-WritesOnly more disk) depth 8

delete_rest-WritesOnly : (fuel disk next : ℕ) → WritesOnly disk (delete_rest fuel disk next)
unfolding delete_rest
delete_rest-WritesOnly zero disk next = search writes
delete_rest-WritesOnly (suc fuel) disk next =
    search (writes, write_entry-WritesOnly, delete_rest-WritesOnly fuel disk) depth 8

pub set_entry_refcount-WritesOnly :
    (fuel disk n refcount : ℕ) → WritesOnly disk (set_entry_refcount fuel disk n refcount)
unfolding set_entry_refcount
set_entry_refcount-WritesOnly fuel disk n refcount =
    search (writes, advance_chain-WritesOnly, write_entry-WritesOnly, delete_rest-WritesOnly) depth
      8

create_refentry-WritesOnly :
    (fuel disk n refcount : ℕ) → WritesOnly disk (create_refentry fuel disk n refcount)
unfolding create_refentry
create_refentry-WritesOnly fuel disk n refcount =
    search (writes, set_entry_refcount-WritesOnly) depth 8

pub add_ref_in_entry-WritesOnly :
    (fuel disk n ref : ℕ) → WritesOnly disk (add_ref_in_entry fuel disk n ref)
unfolding add_ref_in_entry
add_ref_in_entry-WritesOnly fuel disk n ref =
    search (writes, create_refentry-WritesOnly, write_entry-WritesOnly, set_entry_size-WritesOnly)
      depth 8

turn-WritesOnly : (disk : ℕ) (st : Removal) → WritesOnly disk (turn disk st)
unfolding turn
turn-WritesOnly disk st = search (writes, write_entry-WritesOnly) depth 8

removal_loop-WritesOnly :
    (fuel disk ref : ℕ) (st : Removal) → WritesOnly disk (removal_loop fuel disk ref st)
unfolding removal_loop
removal_loop-WritesOnly zero disk ref st = search writes
removal_loop-WritesOnly (suc fuel) disk ref st =
    search (writes, turn-WritesOnly, removal_loop-WritesOnly fuel disk ref) depth 8

remove_ref_in_entry-WritesOnly :
    (fuel disk n ref : ℕ) → WritesOnly disk (remove_ref_in_entry fuel disk n ref)
unfolding remove_ref_in_entry
remove_ref_in_entry-WritesOnly fuel disk n ref =
    search
      (
        writes, removal_loop-WritesOnly, write_entry-WritesOnly, set_entry_refcount-WritesOnly,
        set_entry_size-WritesOnly,
      )
      depth 10

for_each-WritesOnly :
    (disk : ℕ) (f : ℕ → M ℕ)
    → ((n : ℕ) → WritesOnly disk (f n))
    → (ns : List ℕ) → WritesOnly disk (for_each f ns)
for_each-WritesOnly disk f h [] = search writes
for_each-WritesOnly disk f h (n ∷ ns) =
    bind-WritesOnly disk (f n) (λ _. for_each f ns) (h n) (λ _. for_each-WritesOnly disk f h ns)

-- The deletion of an entry, with all that is in it, changes no other disk: however deep the
-- directories are nested and however it ends, the blocks of the others, the disk table and the
-- choice of the system disk are what they were.
pub delete_n-WritesOnly : (fuel depth disk n : ℕ) → WritesOnly disk (delete_n fuel depth disk n)
unfolding delete_n
delete_n-WritesOnly fuel zero disk n = search writes
delete_n-WritesOnly fuel (suc depth) disk n =
    search
      (
        writes,
        remove_ref_in_entry-WritesOnly,
        write_entry-WritesOnly,
        for_each-WritesOnly,
        delete_n-WritesOnly fuel depth disk,
      )
      depth 10
