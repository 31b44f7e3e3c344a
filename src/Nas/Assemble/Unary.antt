-- ===== src/Nas/Assemble/Unary.antt =====
-- The rows of the table of source/programs/nas.c for mul, div and not.
use nano_s.Common.{
  ℕ, ◌+◌, ◌≡◌, ◌≢◌, ◌∙◌, refl, sym, ap, Bool, true, false, List, [], ◌∷◌, length, get_or, some,
  ◌==◌, Bool-cases, inl, inr, ==→ne, get_or-set_self, length-set, arith,
}
use nano_s.Nas.{Asm, Idata, InstrId, i_data, r_data, o_any, o_md, o_ix, mul_rd, div_rd, not_rd}
use nano_s.Nas.Find.{find_instruction}
use nano_s.Nas.Find.Row.{Fits, find_instruction-Fits}
use nano_s.Nas.Lines.{sisu}
use nano_s.Ulib.Text.{stou}
use nano_s.Nas.Assemble.{
  Operands, put_operand, memory_or, without_brackets, find_register, register_operand, read_operand,
  read_operands, new_operands, read_instruction,
}

-- An operand that is read has a type that is known.
record Put (op : ℕ) (ci ci' : Idata) : Type 0 where
  type : ℕ
  value : ℕ
  known : type ≢ o_any
  here : ci' ≡ put_operand op type value ci

other_type : (is_pointer : Bool) → memory_or is_pointer o_md o_ix ≢ o_any
other_type true = omega arith
other_type false = omega arith

read_operand-Put :
    (op : ℕ) (token : List ℕ) (st : Operands) → Put op st.ci (read_operand op token st).ci
unfolding read_operand
read_operand-Put op token st =
    let pt = without_brackets token in
    let tv = register_operand pt.0 (find_register 0 pt.1 r_data) in
    elim (Bool-cases (tv.0 == o_any)) [
      | inl unknown ↦ elim (Bool-cases (sisu pt.1)) [
        | inl number ↦ record {
          type = memory_or pt.0 o_md o_ix;
          value = stou pt.1;
          known = other_type pt.0;
          here = rw (unknown, number) refl;
        }
        | inr symbol ↦ record {
          type = memory_or pt.0 o_md o_ix;
          value = stou pt.1;
          known = other_type pt.0;
          here = rw (unknown, symbol) refl;
        }
      ]
      | inr known ↦ record {
        type = tv.0;
        value = tv.1;
        known = ==→ne tv.0 o_any known;
        here = rw known refl;
      }
    ]

read_operands-nops :
    (op : ℕ) (tokens : List (List ℕ)) (st : Operands)
    → (read_operands op tokens st).ci.nops ≡ st.ci.nops
unfolding read_operands
read_operands-nops op [] st = refl
read_operands-nops op (t ∷ tokens) st =
    let p = read_operand-Put op t st in
    read_operands-nops (op + 1) tokens (read_operand op t st) ∙ ap (λ ci. Idata.nops ci) p.here

-- A line with two operands leaves the second one with a known type.
second-known :
    (u v : List ℕ) (st : Operands)
    → length st.ci.op_type ≡ 2
    → get_or (read_operands 0 (u ∷ v ∷ []) st).ci.op_type 1 0 ≢ o_any
unfolding read_operands
second-known u v st two =
    let p = read_operand-Put 0 u st in
    let q = read_operand-Put 1 v (read_operand 0 u st) in
    let e : get_or (read_operand 1 v (read_operand 0 u st)).ci.op_type 1 0 ≡ q.type =
      ap (λ (ci : Idata). get_or ci.op_type 1 0) q.here
      ∙ get_or-set_self (read_operand 0 u st).ci.op_type 1 q.type 0 (
          omega (
            arith,
            ap (λ (ci : Idata). length ci.op_type) p.here,
            length-set st.ci.op_type 0 p.type,
          )) in
    rw e q.known

never_two :
    (id : InstrId)
    → (i_data id).nops ≡ 2
    → get_or (i_data id).op_type 1 0 ≡ o_any
    → (mnemonic : List ℕ) (operands : List (List ℕ)) (asm : Asm)
    → Fits (read_instruction mnemonic operands asm).ci (i_data id)
    → ⊥
unfolding read_instruction new_operands
never_two id n any mnemonic operands asm f =
    let st = new_operands mnemonic (length operands) asm in
    by_count operands (sym (read_operands-nops 0 operands st) ∙ f.nops ∙ n) f
  where
    by_count :
        (operands : List (List ℕ))
        → length operands ≡ 2
        → Fits
            (read_operands 0 operands (new_operands mnemonic (length operands) asm)).ci
            (i_data id)
        → ⊥
    by_count [] e g = omega arith
    by_count (u ∷ []) e g = omega arith
    by_count (u ∷ v ∷ []) e g =
        let st = new_operands mnemonic 2 asm in
        second-known u v st refl
          (g.types 1 (omega (arith, read_operands-nops 0 (u ∷ v ∷ []) st)) ∙ any)
    by_count (u ∷ v ∷ w ∷ rest) e g = omega arith

-- No line assembles to mul, div or not: their rows ask for a second operand of no known type, and
-- every operand that is read has a type.
pub mul-div-not_unreachable :
    (mnemonic : List ℕ) (operands : List (List ℕ)) (asm : Asm)
    → let found = find_instruction (read_instruction mnemonic operands asm).ci in
      (found ≢ some mul_rd) × (found ≢ some div_rd) × (found ≢ some not_rd)
mul-div-not_unreachable mnemonic operands asm =
    let never =
      λ (id : InstrId) (n : (i_data id).nops ≡ 2) (any : get_or (i_data id).op_type 1 0 ≡ o_any)
          (e : find_instruction (read_instruction mnemonic operands asm).ci ≡ some id).
        never_two id n any mnemonic operands asm
          ((find_instruction-Fits (read_instruction mnemonic operands asm).ci id 0 0).0 e) in
    (never mul_rd refl refl, never div_rd refl refl, never not_rd refl refl)
