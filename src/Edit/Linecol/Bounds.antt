-- ===== src/Edit/Linecol/Bounds.antt =====
-- Bounds of the conversions between offsets and places in source/programs/edit.c.
use nano_s.Common.{
  ℕ, zero, suc, ◌+◌, ◌-◌, ◌≡◌, ◌≤◌, ◌<◌, ◌||◌, refl, List, [], ◌∷◌, ◌==◌, leb, if◌then◌else◌,
  Bool-cases, inl, inr, arith,
}
use nano_s.Ulib.Text.{strlen}
use nano_s.Edit.{screen_width}
use nano_s.Edit.Linecol.{
  newline, to_linecol, buffer_offset_to_linecol, skip_lines, skip_cols, linecol_to_buffer_offset,
}

skip_lines-strlen :
    (buff : List ℕ) (c line offset : ℕ)
    → let r = skip_lines buff c line offset in r.1 + strlen r.0 ≡ offset + strlen buff
unfolding skip_lines strlen
skip_lines-strlen [] c line offset = refl
skip_lines-strlen (x ∷ buff) c line offset =
    let ends = x == newline || leb screen_width c in
    let ih =
      skip_lines-strlen buff (if ends then 1 else c + 1) (if ends then line - 1 else line)
        (offset + 1) in
    elim (Bool-cases (x == 0)) [
      | inl z ↦ rw (z, z) refl
      | inr nz ↦ elim (Bool-cases (line == 0)) [
        | inl there ↦ rw (nz, there) (rw nz refl)
        | inr further ↦ rw (nz, further) (omega (arith, ih))
      ]
    ]

skip_cols-strlen :
    (buff : List ℕ) (col offset : ℕ) → skip_cols buff col offset ≤ offset + strlen buff
unfolding skip_cols strlen
skip_cols-strlen [] col offset = omega arith
skip_cols-strlen (x ∷ buff) col offset =
    ground (arith, skip_cols-strlen buff (col - 1) (offset + 1))

-- No place lies behind the end of the text.
pub linecol_to_buffer_offset-strlen :
    (buff : List ℕ) (col line : ℕ) → linecol_to_buffer_offset buff col line ≤ strlen buff
unfolding linecol_to_buffer_offset
linecol_to_buffer_offset-strlen buff col line =
    let r = skip_lines buff 0 line 0 in
    omega (arith, skip_lines-strlen buff 0 line 0, skip_cols-strlen r.0 col r.1)

to_linecol-col :
    (offset : ℕ) (buff : List ℕ) (col line : ℕ)
    → col < screen_width
    → (to_linecol offset buff col line).0 < screen_width
unfolding to_linecol
to_linecol-col zero buff col line h = h
to_linecol-col (suc offset) [] col line h = h
to_linecol-col (suc offset) (x ∷ buff) col line h =
    let ends = x == newline || leb screen_width (col + 1) in
    ground (
      arith,
      to_linecol-col offset buff (if ends then 0 else col + 1) (if ends then line + 1 else line),
    )

pub buffer_offset_to_linecol-col :
    (buff : List ℕ) (offset : ℕ) → (buffer_offset_to_linecol buff offset).0 < screen_width
unfolding buffer_offset_to_linecol
buffer_offset_to_linecol-col buff offset = to_linecol-col offset buff 0 0 (omega arith)
