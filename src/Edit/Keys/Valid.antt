-- ===== src/Edit/Keys/Valid.antt =====
-- What the keys of source/programs/edit.c keep: the buffer ends with a 0, the cursor stands in it,
-- and on the screen it stands in the editor area.
use nano_s.Common.{
  ℕ, zero, suc, ◌+◌, ◌-◌, ◌≡◌, ◌≤◌, ◌<◌, ap, List, [], ◌∷◌, length, min, ltb, Bool-cases, inl, inr,
  ltb→lt, arith,
}
use nano_s.Ulib.Text.{strlen}
use nano_s.Edit.{screen_width, screen_height, Editor}
use nano_s.Edit.Linecol.{buffer_offset_to_linecol}
use nano_s.Edit.Linecol.Bounds.{linecol_to_buffer_offset-strlen, buffer_offset_to_linecol-col}
use nano_s.Edit.Keys.{
  Key, ignored, save, up, down, left, right, home, end, page_down, page_up, backspace, delete,
  escape, insert, remove_at, insert_at, move_to, act, scrolled, update_display,
}

-- The last byte is a 0.
abbrev pub IsTerminated : List ℕ → Type 0
IsTerminated [] = ⊥
IsTerminated (x ∷ []) = x ≡ 0
IsTerminated (x ∷ y ∷ buff) = IsTerminated (y ∷ buff)

pub record IsValid (ed : Editor) : Type 0 where
  pub terminated : IsTerminated ed.buff
  pub inside : ed.buff_cursor_offset < length ed.buff

strlen-lt-length : (buff : List ℕ) → IsTerminated buff → strlen buff < length buff
unfolding strlen
strlen-lt-length [] t = absurd t
strlen-lt-length (x ∷ []) t = rw t (omega arith)
strlen-lt-length (x ∷ y ∷ buff) t = ground (arith, strlen-lt-length (y ∷ buff) t)

IsTerminated-insert :
    (i k : ℕ) (buff : List ℕ)
    → IsTerminated buff
    → i < length buff
    → IsTerminated (insert_at i k buff)
IsTerminated-insert i k [] t h = absurd t
IsTerminated-insert zero k (x ∷ buff) t h = t
IsTerminated-insert (suc i) k (x ∷ []) t h = absurd (omega arith)
IsTerminated-insert (suc zero) k (x ∷ y ∷ buff) t h = t
IsTerminated-insert (suc (suc i)) k (x ∷ y ∷ buff) t h =
    IsTerminated-insert (suc i) k (y ∷ buff) t (omega arith)

length-insert_at :
    (i k : ℕ) (buff : List ℕ) → i < length buff → length (insert_at i k buff) ≡ length buff + 1
length-insert_at i k [] h = absurd (omega arith)
length-insert_at zero k (x ∷ buff) h = omega arith
length-insert_at (suc i) k (x ∷ buff) h = omega (arith, length-insert_at i k buff (omega arith))

IsTerminated-remove :
    (i : ℕ) (buff : List ℕ)
    → IsTerminated buff
    → suc i < length buff
    → IsTerminated (remove_at i buff)
IsTerminated-remove i [] t h = absurd t
IsTerminated-remove zero (x ∷ []) t h = absurd (omega arith)
IsTerminated-remove zero (x ∷ y ∷ buff) t h = t
IsTerminated-remove (suc i) (x ∷ []) t h = absurd (omega arith)
IsTerminated-remove (suc zero) (x ∷ y ∷ []) t h = absurd (omega arith)
IsTerminated-remove (suc zero) (x ∷ y ∷ z ∷ buff) t h = t
IsTerminated-remove (suc (suc i)) (x ∷ y ∷ buff) t h =
    IsTerminated-remove (suc i) (y ∷ buff) t (omega arith)

length-remove_at :
    (i : ℕ) (buff : List ℕ) → i < length buff → length (remove_at i buff) + 1 ≡ length buff
length-remove_at i [] h = absurd (omega arith)
length-remove_at zero (x ∷ buff) h = omega arith
length-remove_at (suc i) (x ∷ buff) h = omega (arith, length-remove_at i buff (omega arith))

move_to-IsValid : (f : ℕ × ℕ → ℕ × ℕ) {ed : Editor} → IsValid ed → IsValid (move_to f ed)
unfolding move_to
move_to-IsValid f {ed} v =
    let p = f (buffer_offset_to_linecol ed.buff ed.buff_cursor_offset) in
    record {
      terminated = v.terminated;
      inside = omega (
        arith,
        linecol_to_buffer_offset-strlen ed.buff p.0 p.1,
        strlen-lt-length ed.buff v.terminated,
      );
    }

act-IsValid : (key : Key) {ed : Editor} → IsValid ed → IsValid (act key ed)
unfolding act
act-IsValid ignored v = v
act-IsValid save v = v
act-IsValid escape v = v
act-IsValid up {ed} v =
    elim (Bool-cases (ltb 0 (buffer_offset_to_linecol ed.buff ed.buff_cursor_offset).1)) [
      | inl below ↦ rw below (move_to-IsValid (λ p. (p.0, p.1 - 1)) v)
      | inr first ↦ rw first v
    ]
act-IsValid down v = move_to-IsValid (λ p. (p.0, p.1 + 1)) v
act-IsValid home v = move_to-IsValid (λ p. (0, p.1)) v
act-IsValid end v = move_to-IsValid (λ p. (0xFFFF, p.1)) v
act-IsValid page_down v = move_to-IsValid (λ p. (p.0, p.1 + (screen_height - 1))) v
act-IsValid page_up v = move_to-IsValid (λ p. (p.0, p.1 - min p.1 (screen_height - 1))) v
act-IsValid left {ed} v = elim (Bool-cases (ltb 0 ed.buff_cursor_offset)) [
  | inl inner ↦ rw inner (record { terminated = v.terminated; inside = omega (arith, v.inside) })
  | inr start ↦ rw start v
]
act-IsValid right {ed} v = elim (Bool-cases (ltb ed.buff_cursor_offset (length ed.buff - 1))) [
  | inl inner ↦
      let h = ltb→lt ed.buff_cursor_offset (length ed.buff - 1) inner in
      rw inner (record { terminated = v.terminated; inside = omega arith })
  | inr last ↦ rw last v
]
act-IsValid backspace {ed} v = elim (Bool-cases (ltb 0 ed.buff_cursor_offset)) [
  | inl inner ↦
      let i = ed.buff_cursor_offset - 1 in
      let h = ltb→lt 0 ed.buff_cursor_offset inner in
      let low : suc i < length ed.buff = omega (arith, v.inside) in
      rw inner (record {
        terminated = IsTerminated-remove i ed.buff v.terminated low;
        inside = omega (arith, length-remove_at i ed.buff (omega arith));
      })
  | inr start ↦ rw start v
]
act-IsValid delete {ed} v = elim (Bool-cases (ltb ed.buff_cursor_offset (length ed.buff - 1))) [
  | inl inner ↦
      let i = ed.buff_cursor_offset in
      let h = ltb→lt i (length ed.buff - 1) inner in
      rw inner (record {
        terminated = IsTerminated-remove i ed.buff v.terminated (omega arith);
        inside = omega (arith, length-remove_at i ed.buff (omega arith));
      })
  | inr last ↦ rw last v
]
act-IsValid (insert k) {ed} v = record {
  terminated = IsTerminated-insert ed.buff_cursor_offset k ed.buff v.terminated v.inside;
  inside = omega (arith, length-insert_at ed.buff_cursor_offset k ed.buff v.inside, v.inside);
}

-- The cursor on the screen stands in the editor area, at the place of the offset.
pub record IsShown (ed : Editor) : Type 0 where
  pub col : ed.cursor_col < screen_width
  pub top : 1 ≤ ed.cursor_row
  pub bottom : ed.cursor_row < screen_height
  pub place :
      buffer_offset_to_linecol ed.buff ed.buff_cursor_offset
      ≡ (ed.cursor_col, ed.current_line + (ed.cursor_row - 1))

scrolled_range :
    (line current : ℕ)
    → (scrolled line current ≤ line) × (line ≤ scrolled line current + (screen_height - 2))
scrolled_range line current = ground arith

update_display-IsShown : (ed : Editor) → IsShown (update_display ed)
unfolding update_display
update_display-IsShown ed =
    let p = buffer_offset_to_linecol ed.buff ed.buff_cursor_offset in
    let r = scrolled_range p.1 ed.current_line in
    record {
      col = buffer_offset_to_linecol-col ed.buff ed.buff_cursor_offset;
      top = omega arith;
      bottom = omega (arith, r.0, r.1);
      place = ap (λ line. (p.0, line)) (omega (arith, r.0, r.1));
    }

-- After any key the buffer still ends with a 0 and the cursor stands in it, whatever the text; and
-- once the display is updated, the cursor stands in the editor area of the screen, at the column of
-- the offset and as far below the first line shown as its line is.
pub keys-IsValid :
    (key : Key) (ed : Editor)
    → IsValid ed
    → IsValid (update_display (act key ed)) × IsShown (update_display (act key ed))
unfolding update_display
keys-IsValid key ed v =
    let w = act-IsValid key v in
    (record { terminated = w.terminated; inside = w.inside }, update_display-IsShown (act key ed))
