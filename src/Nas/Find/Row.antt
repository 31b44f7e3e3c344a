-- ===== src/Nas/Find/Row.antt =====
-- What find_instruction of source/programs/nas.c finds.
use nano_s.Common.{
  ℕ, zero, suc, ◌≡◌, refl, subst, ◌+◌, ◌<◌, Bool, true, false, ◌&&◌, ◌||◌, List, [], ◌∷◌, some,
  get_or, ◌==◌, Bool-cases, inl, inr, ==→eq, arith,
}
use nano_s.Ulib.Text.{strcmp}
use nano_s.Nas.{all_ids, InstrId, Idata, i_data, push}
use nano_s.Nas.Find.{operands_match, is_match, find_row, find_instruction}

-- A line with the mnemonic, the number and the types of operands of a row of the table.
abbrev pub like_row : InstrId → (v₀ v₁ : ℕ) → Idata
like_row id v₀ v₁ = record (i_data id) { opcode = 0; op_value = v₀ ∷ v₁ ∷ [] }

find_instruction_row : (id : InstrId) (v₀ v₁ : ℕ) → find_instruction (like_row id v₀ v₁) ≡ some id
unfolding find_instruction
find_instruction_row push v₀ v₁ = refl
find_instruction_row _ v₀ v₁ = refl

split : (a b : Bool) → (a && b) ≡ true → (a ≡ true) × (b ≡ true)
split true true h = (refl, refl)
split true false h = absurd (ground arith)
split false b h = absurd (ground arith)

operands_match-types :
    (left i : ℕ) (ci row : Idata)
    → operands_match left i ci row ≡ true
    → (k : ℕ) → k < left
    → get_or ci.op_type (i + k) 0 ≡ get_or row.op_type (i + k) 0
unfolding operands_match
operands_match-types zero i ci row h k lt = absurd (omega arith)
operands_match-types (suc left) i ci row h k lt =
    let same = get_or ci.op_type i 0 == get_or row.op_type i 0 in
    let value = get_or row.op_value i 0 == 0 || get_or row.op_value i 0 == get_or ci.op_value i 0 in
    let later = operands_match left (i + 1) ci row in
    let (h₀, h₁) = split same (value && later) h in
    at k lt h₀ (split value later h₁).1 (operands_match-types left (i + 1) ci row)
  where
    at :
        (k : ℕ)
        → k < suc left
        → (get_or ci.op_type i 0 == get_or row.op_type i 0) ≡ true
        → operands_match left (i + 1) ci row ≡ true
        → (operands_match left (i + 1) ci row ≡ true
            → (k : ℕ) → k < left
            → get_or ci.op_type (i + 1 + k) 0 ≡ get_or row.op_type (i + 1 + k) 0)
        → get_or ci.op_type (i + k) 0 ≡ get_or row.op_type (i + k) 0
    at zero lt h₀ h₁ ih =
        let e : i + 0 ≡ i = omega arith in
        rw e (==→eq (get_or ci.op_type i 0) (get_or row.op_type i 0) h₀)
    at (suc k) lt h₀ h₁ ih =
        let e : i + suc k ≡ i + 1 + k = omega arith in rw e (ih h₁ k (omega arith))

-- A line fits a row: it has its mnemonic, and as many operands of the same types.
pub record Fits (ci row : Idata) : Type 0 where
  pub mnemonic : strcmp ci.mnemonic row.mnemonic ≡ 0
  pub nops : ci.nops ≡ row.nops
  pub types : (k : ℕ) → k < ci.nops → get_or ci.op_type k 0 ≡ get_or row.op_type k 0

is_match-Fits : (ci row : Idata) → is_match ci row ≡ true → Fits ci row
unfolding is_match
is_match-Fits ci row h =
    let test = strcmp ci.mnemonic row.mnemonic == 0 in
    let counts = ci.nops == row.nops in
    let matches = operands_match ci.nops 0 ci row in
    let (name, rest) = split test (counts && matches) h in
    let (n, types) = split counts matches rest in
    record {
      mnemonic = ==→eq (strcmp ci.mnemonic row.mnemonic) 0 name;
      nops = ==→eq ci.nops row.nops n;
      types = λ k lt.
          let e : 0 + k ≡ k = omega arith in
          rw e at (operands_match-types ci.nops 0 ci row types k lt);
    }

find_row-Fits :
    (ci : Idata) (ids : List InstrId) (id : InstrId)
    → find_row ci ids ≡ some id
    → Fits ci (i_data id)
unfolding find_row
find_row-Fits ci [] id h = absurd (ground arith)
find_row-Fits ci (x ∷ ids) id h = elim (Bool-cases (is_match ci (i_data x))) [
  | inl this ↦
      let e : some x ≡ some id = rw this at h in
      subst (λ y. Fits ci (i_data y)) (cc e) (is_match-Fits ci (i_data x) this)
  | inr other ↦ find_row-Fits ci ids id (rw other at h)
]

-- The instruction that find_instruction returns has the mnemonic of the line, and as many operands
-- of the same types; and a line with the mnemonic, the number and the types of operands of a row of
-- the table, whatever their values, gives the instruction of that row.
pub find_instruction-Fits :
    (ci : Idata) (id : InstrId) (v₀ v₁ : ℕ)
    → (find_instruction ci ≡ some id → Fits ci (i_data id))
      × (find_instruction (like_row id v₀ v₁) ≡ some id)
find_instruction-Fits ci id v₀ v₁ =
    (unfold find_instruction in find_row-Fits ci all_ids id, find_instruction_row id v₀ v₁)
