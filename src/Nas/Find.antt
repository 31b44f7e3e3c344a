-- ===== src/Nas/Find.antt =====
-- find_instruction of source/programs/nas.c.
pub mod Row
use nano_s.Common.{
  ℕ, zero, suc, ◌+◌, Bool, true, false, not, ◌&&◌, ◌||◌, List, [], ◌∷◌, Option, none, some, get_or,
  ◌==◌, if◌then◌else◌,
}
use nano_s.Ulib.Text.{strcmp}
use nano_s.Nas.{InstrId, Idata, i_data, all_ids}

-- The operands from number `i` on, `left` of them: of the same type, and of the value that the row
-- asks for, if it asks for one.
unfoldable pub operands_match : (left i : ℕ) → (ci row : Idata) → Bool
operands_match zero i ci row = true
operands_match (suc left) i ci row =
    get_or ci.op_type i 0 == get_or row.op_type i 0
    && ((get_or row.op_value i 0 == 0 || get_or row.op_value i 0 == get_or ci.op_value i 0)
        && operands_match left (i + 1) ci row)

unfoldable pub is_match : (ci row : Idata) → Bool
unfolding operands_match strcmp
is_match ci row =
    strcmp ci.mnemonic row.mnemonic == 0 && (ci.nops == row.nops && operands_match ci.nops 0 ci row)

unfoldable pub find_row : Idata → List InstrId → Option InstrId
unfolding is_match
find_row ci [] = none
find_row ci (id ∷ ids) = if is_match ci (i_data id) then some id else find_row ci ids

-- `none` stands for ERROR_NOT_FOUND.
unfoldable pub find_instruction : Idata → Option InstrId
unfolding find_row
find_instruction ci = find_row ci all_ids
