-- ===== src/Fs/Refs.antt =====
-- References of an entry (add_ref_in_entry and remove_ref_in_entry of source/fs.c).
pub mod Single
pub mod Items
pub mod Remove
pub mod Overflow
use nano_s.Common.{
  ℕ, zero, suc, ◌+◌, ◌-◌, ◌%◌, Bool, false, not, ◌||◌, get_or, set, ◌==◌, ltb, if◌then◌else◌,
}
use nano_s.Fs.Types.{Entry, System, word, sfs_entryrefs, error_not_found, is_dir}
use nano_s.Fs.Monad.{M, Res, ok, err, spin, pure, stuck, ◌>>=◌, ◌>>◌}
use nano_s.Fs.Table.{get_entry_n, write_entry}
use nano_s.Fs.Chain.{
  zero_entry, get_nref_entry_from_entry, set_entry_refcount, set_entry_size, get_entry_refcount,
}

-- A reference; C reads past the array where the index is not below SFS_ENTRYREFS.
abbrev pub ref_at : Entry → ℕ → ℕ
ref_at e i = get_or e.ref i 0

abbrev pub set_ref : Entry → ℕ → ℕ → Entry
set_ref e i r = record e { ref = set e.ref i r }

-- `else` takes over, in the state that is reached, where the first part returns ERROR_NOT_FOUND.
abbrev pub if_missing_res : {A : Type 0} → Res A × System → M A → Res A × System
if_missing_res (ok a, s) k = (ok a, s)
if_missing_res (err code, s) k = if code == error_not_found then k s else (err code, s)
if_missing_res (spin, s) k = (spin, s)

abbrev pub if_missing : {A : Type 0} → M A → M A → M A
if_missing m k s = if_missing_res (m s) k

-- "Create if does not exist": the entry that is read next has the index that set_entry_refcount
-- returns.
unfoldable pub create_refentry : (fuel : ℕ) → (disk nentry refcount : ℕ) → M (Entry × ℕ)
unfolding set_entry_refcount get_entry_n
create_refentry fuel disk nentry refcount = do
  n ← set_entry_refcount fuel disk nentry ((refcount + 1) % word)
  e ← get_entry_n disk n
  pure (e, n)

unfoldable pub add_ref_in_entry : (fuel : ℕ) → (disk nentry ref : ℕ) → M ℕ
unfolding get_entry_n get_nref_entry_from_entry create_refentry write_entry set_entry_size
    get_entry_refcount
add_ref_in_entry fuel disk nentry ref = do
  e ← get_entry_n disk nentry
  let refcount = get_entry_refcount e
  (r, n) ←
      if_missing (get_nref_entry_from_entry e disk nentry refcount)
        (create_refentry fuel disk nentry refcount)
  write_entry (set_ref r (refcount % sfs_entryrefs) ref) disk n
  if is_dir e then set_entry_size fuel disk nentry ((e.size + 1) % word) else pure 0

-- The variables of the loop of remove_ref_in_entry.
pub record Removal : Type 0 where
  pub current : Entry
  pub ncurrent : ℕ
  pub following : Entry
  pub found : Bool
  pub refcount : ℕ
  pub r : ℕ

-- The step to the next chained entry, and the look ahead before it.
unfoldable pub turn : ℕ → Removal → M Removal
unfolding get_entry_n write_entry get_entry_refcount
turn disk st =
    if st.r == sfs_entryrefs
    then (do
      write_entry st.current disk st.ncurrent
      e ← get_entry_n disk st.current.next
      pure (record st {
        current = e;
        ncurrent = st.current.next;
        refcount = get_entry_refcount e;
        r = 0;
      }))
    else if st.r + 1 == sfs_entryrefs
    then (if st.following.next == 0
        then pure (record st { following = zero_entry })
        else (do e ← get_entry_n disk st.following.next; pure (record st { following = e })))
    else pure st

-- Find the reference; from there on every reference takes the value of the next one.
unfoldable pub shift : ℕ → Removal → Removal
shift ref st =
    let found = st.found || ref_at st.current st.r == ref in
    record st {
      found = found;
      current =
          if found
          then set_ref st.current st.r (ref_at st.following ((st.r + 1) % sfs_entryrefs))
          else st.current;
      r = st.r + 1;
    }

unfoldable pub removal_loop : (fuel : ℕ) → (disk ref : ℕ) → Removal → M Removal
unfolding turn shift
removal_loop zero disk ref st = stuck
removal_loop (suc fuel) disk ref st =
    if ltb st.r st.refcount
    then (do st' ← turn disk st; removal_loop fuel disk ref (shift ref st'))
    else pure st

unfoldable pub remove_ref_in_entry : (fuel : ℕ) → (disk nentry ref : ℕ) → M ℕ
unfolding get_entry_n removal_loop write_entry set_entry_refcount set_entry_size get_entry_refcount
remove_ref_in_entry fuel disk nentry ref = do
  e ← get_entry_n disk nentry
  st ← removal_loop fuel disk ref (record {
    current = e;
    ncurrent = nentry;
    following = e;
    found = false;
    refcount = get_entry_refcount e;
    r = 0;
  })
  if not st.found then pure 0 else do
    write_entry st.current disk st.ncurrent
    set_entry_refcount fuel disk nentry ((st.refcount + (word - 1)) % word)
    if is_dir e then set_entry_size fuel disk nentry ((st.refcount + (word - 1)) % word) else pure 0
