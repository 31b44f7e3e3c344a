-- ===== src/Fs/Path.antt =====
-- Paths (disk names, string_to_name, path_get_disk, path_parse_disk_parent_name and fs_get_entry of
-- source/fs.c).
pub mod Names
use nano_s.Common.{
  ℕ, zero, suc, ◌+◌, ◌-◌, ◌*◌, ◌/◌, ◌%◌, Bool, true, false, not, ◌&&◌, ◌||◌, List, [], ◌∷◌, length,
  drop, replicate, ◌==◌, ltb, leb, if◌then◌else◌,
}
use nano_s.Ulib.Text.{cstr, strcmp, strtok, strncpy, strchr, codes}
use nano_s.Fs.Types.{
  Entry, System, sfs_namesize, max_disk, unknown_value, error_not_found, block_size, word,
}
use nano_s.Fs.Monad.{M, pure, stuck, get, ◌>>=◌}
use nano_s.Fs.Table.{search}

abbrev pub root_dir_name : List ℕ
root_dir_name = b'.' ∷ []

abbrev pub path_separator : ℕ
path_separator = b'/'

unfoldable pub disk_to_string : System → ℕ → List ℕ
disk_to_string s disk = if ltb disk max_disk then (s.info disk).name else codes "unk"

unfoldable pub string_to_disk_from : (left i : ℕ) → List ℕ → System → ℕ
unfolding strcmp
string_to_disk_from zero i str s = error_not_found
string_to_disk_from (suc left) i str s =
    let rest = string_to_disk_from left (i + 1) str s in
    if strcmp str (s.info i).name == 0 then i else rest

unfoldable pub string_to_disk : List ℕ → System → ℕ
unfolding string_to_disk_from
string_to_disk str s = string_to_disk_from max_disk 0 str s

unfoldable pub string_is_disk_from : (left i : ℕ) → List ℕ → System → Bool
unfolding strcmp
string_is_disk_from zero i str s = false
string_is_disk_from (suc left) i str s =
    strcmp str (s.info i).name == 0 || string_is_disk_from left (i + 1) str s

unfoldable pub string_is_disk : List ℕ → System → Bool
unfolding string_is_disk_from
string_is_disk str s = string_is_disk_from max_disk 0 str s

unfoldable pub blocks_to_mb : ℕ → ℕ
blocks_to_mb blocks = blocks * block_size % word / 1048576

abbrev pub between : ℕ → ℕ → ℕ → Bool
between lo hi c = leb lo c && leb c hi

-- The characters that a name may hold.
unfoldable pub is_name_char : ℕ → Bool
is_name_char c =
    between b'0' b'9' c
    || between b'A' b'Z' c
    || between b'a' b'z' c
    || c == b'.'
    || c == b'-'
    || c == b'_'
    || c == b'('
    || c == b')'
    || c == b'['
    || c == b']'

abbrev pub name_char : ℕ → ℕ
name_char c = if is_name_char c then c else b'_'

-- The loop from index `i` on: the byte at SFS_NAMESIZE - 1 ends the name.
unfoldable pub string_to_name_from : ℕ → List ℕ → List ℕ
unfolding is_name_char
string_to_name_from i [] = []
string_to_name_from i (c ∷ s) =
    if c == 0 || i == sfs_namesize - 1 then [] else name_char c ∷ string_to_name_from (suc i) s

unfoldable pub string_to_name : List ℕ → List ℕ
unfolding string_to_name_from
string_to_name str = string_to_name_from 0 str

-- `char tokpath[64]`, cleared and filled with the path.
unfoldable pub tokpath : List ℕ → List ℕ
unfolding strncpy cstr
tokpath path = cstr (strncpy (replicate 64 0) path 64).1

unfoldable pub path_get_disk : List ℕ → System → ℕ
unfolding tokpath strtok string_is_disk string_to_disk
path_get_disk path s =
    let tok = (strtok path_separator (tokpath path)).token in
    if not (length tok == 0) && string_is_disk tok s then string_to_disk tok s else s.system_disk

-- Where the walk along a path stands; `pos` is the offset of the name in the path.
pub record Walk : Type 0 where
  pub disk : ℕ
  pub parent : ℕ
  pub pos : ℕ

-- The loop of path_parse_disk_parent_name. `rest` is what is left of tokpath, at offset `at`, and
-- `first` tells that no token has been seen. The tokens hold no separator, so the call of
-- fs_get_entry, with its parent and its disk known, is the search of one directory.
unfoldable pub walk : (fuel : ℕ) → (first : Bool) → (rest : List ℕ) → (at : ℕ) → Walk → M Walk
unfolding strtok string_is_disk string_to_disk search
walk zero first rest at w = stuck
walk (suc fuel) first [] at w = pure w
walk (suc fuel) first (c ∷ cs) at w = do
  let t = strtok path_separator (c ∷ cs)
  let here = at + t.skipped
  let after = here + length t.token + 1
  let w' = record w { pos = here }
  s ← get
  if first && (not (length t.token == 0) && string_is_disk t.token s)
      then walk fuel false t.rest after (record w' { disk = string_to_disk t.token s })
      else if not (length t.token == 0) && not (length t.rest == 0)
      then (do
        (e, n) ← search w.disk w.parent t.token
        walk fuel false t.rest after (record w' { parent = n }))
      else pure w'

unfoldable pub path_parse_disk_parent_name : List ℕ → M Walk
unfolding walk tokpath
path_parse_disk_parent_name path = do
  s ← get
  walk (length (tokpath path) + 1) true (tokpath path) 0
      (record { disk = s.system_disk; parent = 0; pos = 0 })

-- The path, parent and disk that fs_get_entry settles on first.
pub record Request : Type 0 where
  pub path : List ℕ
  pub parent : ℕ
  pub disk : ℕ

unfoldable pub request : (path : List ℕ) → (parent disk : ℕ) → System → Request
unfolding string_is_disk string_to_disk
request path parent disk s =
    let whole = disk == unknown_value && string_is_disk path s in
    let disk' = if whole then string_to_disk path s else disk in
    record {
      path = if whole then root_dir_name else path;
      parent = if parent == unknown_value then 0 else parent;
      disk = if disk' == unknown_value then s.system_disk else disk';
    }

unfoldable pub fs_get_entry : (path : List ℕ) → (parent disk : ℕ) → M (Entry × ℕ)
unfolding request path_parse_disk_parent_name search strchr
fs_get_entry path parent disk = do
  s ← get
  let r = request path parent disk s
  if r.parent == 0 && not (strchr r.path path_separator == 0)
      then (do w ← path_parse_disk_parent_name r.path; search w.disk w.parent (drop w.pos r.path))
      else search r.disk r.parent r.path
