-- ===== src/Nas/Assemble.antt =====
-- main of source/programs/nas.c: the lines of the source are assembled one by one, then the
-- references to symbols are resolved and the output is written.
pub mod Unary
use nano_s.Common.{
  ℕ, zero, suc, ◌+◌, ◌-◌, ◌%◌, Bool, true, false, not, ◌&&◌, ◌||◌, List, [], ◌∷◌, ◌++◌, length,
  take, drop, set, get_or, replicate, Option, none, some, ◌==◌, ltb, if◌then◌else◌,
}
use nano_s.Ulib.Text.{codes, strcmp, strlen, strncpy, strncat, strchr, stou, head_or_zero}
use nano_s.Nas.{
  word, Asm, Idata, InstrId, SymbolRef, RegData, i_data, r_data, o_any, o_rmd, o_md, o_ix, s_label,
  s_datad, s_dataw, s_datab, no_symbol, start,
}
use nano_s.Nas.Encode.{encode_instruction, encode_data}
use nano_s.Nas.Find.{find_instruction}
use nano_s.Nas.Symbols.{find_or_add_symbol, append_symbol_ref}
use nano_s.Nas.Lines.{sisu, tokenize_line, read_line, Line, line, eof}
use nano_s.Fs.Types.{System, wf_create, wf_truncate}
use nano_s.Fs.Monad.{M, attempt, pure, stuck, ◌>>=◌, ◌>>◌}
use nano_s.Fs.File.{fs_read_file, fs_write_file}

abbrev same : List ℕ → List ℕ → Bool
same a b = strcmp a b == 0

-- An operand that is read: its text without the brackets, and whether it had them.
unfoldable pub without_brackets : List ℕ → Bool × List ℕ
unfolding strlen
without_brackets t =
    if head_or_zero t == b'[' && get_or t (strlen t - 1) 0 == b']'
    then (true, drop 1 (take (strlen t - 1) t))
    else (false, t)

-- The first register with this name, as its index and type.
unfoldable pub find_register : (r : ℕ) → List ℕ → List RegData → Option (ℕ × ℕ)
unfolding strcmp
find_register r t [] = none
find_register r t (x ∷ regs) =
    if same t x.name then some (r, x.type) else find_register (suc r) t regs

abbrev memory_or : (is_pointer : Bool) → ℕ → ℕ → ℕ
memory_or is_pointer type type' = if is_pointer then type else type'

-- Type and value of an operand that may be a register.
unfoldable pub register_operand : (is_pointer : Bool) → Option (ℕ × ℕ) → ℕ × ℕ
register_operand is_pointer none = (o_any, 0)
register_operand is_pointer (some (r, type)) = (memory_or is_pointer o_rmd type, r)

-- The variables of the loop over the operands: `symbol` is the last symbol met with the number of
-- its operand.
pub record Operands : Type 0 where
  pub asm : Asm
  pub ci : Idata
  pub symbol : Option (ℕ × ℕ)

abbrev put_operand : (op type value : ℕ) → Idata → Idata
put_operand op type value ci = record ci {
  op_type = set ci.op_type op type;
  op_value = set ci.op_value op value;
}

-- A write to an operand behind the second is dropped: in C it goes past the array, and no row of the
-- table has as many operands as the line then has.
unfoldable pub read_operand : (op : ℕ) → List ℕ → Operands → Operands
unfolding without_brackets find_register register_operand sisu stou find_or_add_symbol
read_operand op token st =
    let (is_pointer, t) = without_brackets token in
    let (type, value) = register_operand is_pointer (find_register 0 t r_data) in
    let other = memory_or is_pointer o_md o_ix in
    let (symbol, table) = find_or_add_symbol t st.asm.s_table in
    if not (type == o_any)
    then record st { ci = put_operand op type value st.ci }
    else if sisu t
    then record st { ci = put_operand op other (stou t) st.ci }
    else record {
      asm = record (st.asm) { s_table = table };
      ci = put_operand op other (stou t) st.ci;
      symbol = some (symbol, op);
    }

unfoldable pub read_operands : (op : ℕ) → List (List ℕ) → Operands → Operands
unfolding read_operand
read_operands op [] st = st
read_operands op (t ∷ tokens) st = read_operands (op + 1) tokens (read_operand op t st)

abbrev with_code : Asm → List ℕ × ℕ → Asm
with_code asm (buffer, offset) = record asm { obuff = buffer; ooffset = offset }

-- "Append symbol reference to table"
unfoldable pub remember : InstrId → Idata → Option (ℕ × ℕ) → Asm → Asm
unfolding append_symbol_ref
remember id ci none asm = asm
remember id ci (some (symbol, operand)) asm = record asm {
  s_ref =
      append_symbol_ref
        (record {
          offset = asm.ooffset;
          symbol = symbol;
          operand = operand;
          instr_id = id;
          instruction = ci;
        })
        asm.s_ref;
}

unfoldable pub write_instruction : Operands → Option InstrId → Option Asm
unfolding remember encode_instruction
write_instruction st none = none
write_instruction st (some id) =
    let ci = record (st.ci) { opcode = (i_data id).opcode } in
    let asm = remember id ci st.symbol st.asm in
    some (with_code asm (encode_instruction asm.origin asm.obuff asm.ooffset id ci.op_value))

-- "Get instruction info"
unfoldable pub new_operands : (mnemonic : List ℕ) → (nops : ℕ) → Asm → Operands
unfolding strncpy
new_operands mnemonic nops asm = record {
  asm = asm;
  ci = record {
    mnemonic = (strncpy (replicate 6 0) mnemonic 6).1;
    opcode = 0;
    nops = nops;
    op_type = o_any ∷ o_any ∷ [];
    op_value = 0 ∷ 0 ∷ [];
  };
  symbol = none;
}

unfoldable pub read_instruction : (mnemonic : List ℕ) → List (List ℕ) → Asm → Operands
unfolding new_operands read_operands
read_instruction mnemonic operands asm =
    read_operands 0 operands (new_operands mnemonic (length operands) asm)

unfoldable pub assemble_instruction : (mnemonic : List ℕ) → List (List ℕ) → Asm → Option Asm
unfolding read_instruction find_instruction write_instruction
assemble_instruction mnemonic operands asm =
    let st = read_instruction mnemonic operands asm in write_instruction st (find_instruction st.ci)

-- "s_table[symbol].value = ooffset": with the table full the index is ERROR_NOT_FOUND, and the write
-- is dropped here; in C it goes past the table.
unfoldable pub define_symbol : (type : ℕ) → List ℕ → Asm → Asm
unfolding find_or_add_symbol
define_symbol type name asm =
    let (symbol, table) = find_or_add_symbol name asm.s_table in
    let s = get_or table symbol no_symbol in
    record asm { s_table = set table symbol (record s { value = asm.ooffset; type = type }) }

unfoldable pub put_data : (type : ℕ) → List (List ℕ) → Asm → Asm
unfolding encode_data stou
put_data type [] asm = asm
put_data type (t ∷ tokens) asm =
    put_data type tokens (with_code asm (encode_data asm.obuff asm.ooffset type (stou t)))

abbrev data_type : List ℕ → Option ℕ
data_type t =
    if same t (codes "dd")
    then some s_datad
    else if same t (codes "dw")
    then some s_dataw
    else if same t (codes "db")
    then some s_datab
    else none

unfoldable pub define_data : Option ℕ → List (List ℕ) → Asm → Option Asm
unfolding define_symbol put_data assemble_instruction
define_data (some type) (name ∷ directive ∷ values) asm =
    some (put_data type values (define_symbol type name asm))
define_data none (mnemonic ∷ operands) asm = assemble_instruction mnemonic operands asm
define_data _ _ asm = some asm

abbrev is_label : List ℕ → Bool
is_label t = get_or t (strlen t - 1) 0 == b':'

-- A line by its tokens; `none` is the error that ends the program with no output.
unfoldable pub assemble_line : List (List ℕ) → Asm → Option Asm
unfolding define_symbol define_data assemble_instruction strcmp strlen stou
assemble_line [] asm = some asm
assemble_line (t ∷ []) asm =
    if is_label t
    then some (define_symbol s_label (take (strlen t - 1) t) asm)
    else assemble_instruction t [] asm
assemble_line (t ∷ u ∷ []) asm =
    if same t (codes "ORG")
    then some (record asm { origin = stou u })
    else assemble_instruction t (u ∷ []) asm
assemble_line (t ∷ u ∷ v ∷ tokens) asm = define_data (data_type u) (t ∷ u ∷ v ∷ tokens) asm

-- "Symbol table is filled, resolve references"
unfoldable pub resolve : List SymbolRef → Asm → Asm
unfolding encode_instruction
resolve [] asm = asm
resolve (r ∷ refs) asm =
    let value = ((get_or asm.s_table r.symbol no_symbol).value + asm.origin) % word in
    let op = set r.instruction.op_value r.operand value in
    let asm' = record asm {
      obuff = (encode_instruction asm.origin asm.obuff r.offset r.instr_id op).0;
    } in
    let rest = resolve refs asm' in if r.offset == 0 then asm else rest

abbrev no_output : Asm → Asm
no_output asm = record asm { ooffset = 0 }

-- The loop over the lines. An error of reading or in a line ends it and leaves no output. Each line
-- takes at least a byte of the file.
unfoldable pub assemble_lines : (fuel : ℕ) → (file : List ℕ) → (foffset : ℕ) → Asm → M Asm
unfolding read_line tokenize_line assemble_line
assemble_lines zero file foffset asm = stuck
assemble_lines (suc fuel) file foffset asm = do
  l ← attempt (read_line file foffset)
  elim l [
    | none ↦ pure (no_output asm)
    | some l' ↦ elim l' [
      | eof ↦ pure asm
      | line buff next ↦ elim (assemble_line (tokenize_line 32 buff) asm) [
        | none ↦ pure (no_output asm)
        | some asm' ↦ assemble_lines fuel file next asm'
      ]
    ]
  ]

abbrev ofile_size : ℕ
ofile_size = 14

unfoldable pub output_name : List ℕ → List ℕ
unfolding strncpy strchr strncat
output_name file =
    let ofile = (strncpy (replicate ofile_size 0) file ofile_size).1 in
    let dot = strchr ofile b'.' in
    let cut = if dot == 0 then ofile else set ofile (dot - 1) 0 in
    (strncat (set cut (ofile_size - 4 - 2) 0) (codes ".bin") ofile_size).1

unfoldable pub finish : Asm → Asm
unfolding resolve
finish asm = if asm.ooffset == 0 then asm else resolve asm.s_ref asm

abbrev wrote_all : Option ℕ → ℕ → Bool
wrote_all none n = false
wrote_all (some m) n = m == n

-- The exit code. The file written is read again for the debug output.
unfoldable pub nas_main : (fuel : ℕ) → (file : List ℕ) → M ℕ
unfolding assemble_lines finish output_name fs_write_file fs_read_file
nas_main fuel file = do
  asm' ← assemble_lines fuel file 0 start
  let asm = finish asm'
  if asm.ooffset == 0 then pure 0 else do
    result ← attempt (
        fs_write_file fuel (take asm.ooffset asm.obuff) (output_name file) 0
          (wf_create + wf_truncate))
    if wrote_all result asm.ooffset
        then attempt (fs_read_file (output_name file) 0 asm.ooffset) >> pure 0
        else pure 1
