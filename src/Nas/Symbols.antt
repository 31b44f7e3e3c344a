-- ===== src/Nas/Symbols.antt =====
-- The symbol table and the table of references of source/programs/nas.c.
pub mod Lookup
use nano_s.Common.{
  ℕ, zero, suc, ◌+◌, Bool, not, List, [], ◌∷◌, replicate, length, ◌==◌, if◌then◌else◌,
}
use nano_s.Ulib.Text.{strcmp, strncpy, head_or_zero}
use nano_s.Fs.Types.{error_not_found}
use nano_s.Nas.{Symbol, SymbolRef, Idata, InstrId, name_size}

abbrev pub is_free : Symbol → Bool
is_free s = head_or_zero s.name == 0

-- The index of the symbol and the table, from index `s` on.
unfoldable pub find_or_add_from : (s : ℕ) → List ℕ → List Symbol → ℕ × List Symbol
unfolding strcmp strncpy
find_or_add_from s name [] = (error_not_found, [])
find_or_add_from s name (x ∷ table) =
    let (i, table') = find_or_add_from (s + 1) name table in
    if is_free x
    then (s, record x { name = (strncpy x.name name name_size).1 } ∷ table)
    else if strcmp x.name name == 0
    then (s, x ∷ table)
    else (i, x ∷ table')

unfoldable pub find_or_add_symbol : List ℕ → List Symbol → ℕ × List Symbol
unfolding find_or_add_from
find_or_add_symbol name table = find_or_add_from 0 name table

unfoldable pub find_symbol_from : (s : ℕ) → List ℕ → List Symbol → ℕ
unfolding strcmp
find_symbol_from s name [] = error_not_found
find_symbol_from s name (x ∷ table) =
    let rest = find_symbol_from (s + 1) name table in
    if is_free x then error_not_found else if strcmp x.name name == 0 then s else rest

unfoldable pub find_symbol : List ℕ → List Symbol → ℕ
unfolding find_symbol_from
find_symbol name table = find_symbol_from 0 name table

-- A reference at offset 0 is free.
unfoldable pub append_symbol_ref : SymbolRef → List SymbolRef → List SymbolRef
append_symbol_ref new [] = []
append_symbol_ref new (r ∷ refs) =
    if r.offset == 0 then new ∷ refs else r ∷ append_symbol_ref new refs
