-- ===== src/Hwio/Screen/Cells.antt =====
-- What the loops over the video memory of source/hwio.c leave in each cell of the screen, and that
-- they write nowhere else.
use nano_s.Common.{
  ℕ, zero, suc, ◌+◌, ◌-◌, ◌*◌, ◌/◌, ◌%◌, ◌^◌, ◌≤◌, ◌<◌, ◌≡◌, ◌≢◌, ◌⊎◌, inl, inr, refl, ap, ap₂, ◌∙◌,
  ◌==◌, Bool-cases, arith, ==→eq, ==→ne, eq→==, ne→==,
}
use nano_s.Common.Bits.{bit_or_disjoint}
use nano_s.Ulib.Memory.{Memory, store, memcpy}
use nano_s.Ulib.Memory.Overlap.{memcpy-Copied}
use nano_s.Hwio.Screen.{
  vga_memory, vga_width, vga_height, blank, at_default, Vga, cursor, set_cursor, put_cell,
  fill_cells, clear_column, clear_columns,
}

-- The character and the attribute at a place.
unfoldable pub cell : Memory → ℕ → ℕ × ℕ
cell m pos = (m (vga_memory + 2 * pos), m (vga_memory + 2 * pos + 1))

abbrev pub IsOutside : ℕ → Type 0
IsOutside x = (x < vga_memory) ⊎ (vga_memory + 4480 ≤ x)

-- Nothing but the screen differs.
abbrev pub Same : Memory → Memory → Type 0
Same m m0 = (x : ℕ) → IsOutside x → m x ≡ m0 x

pub cursor-set_cursor : (pos : ℕ) (s : Vga) → pos < 2 ^ 16 → cursor (set_cursor pos s) ≡ pos
unfolding cursor set_cursor
cursor-set_cursor pos s h =
    bit_or_disjoint 8 (pos % 2 ^ 8) (pos / 2 ^ 8 % 2 ^ 8) (omega arith) ∙ omega arith

store_ne : (m : Memory) (a v x : ℕ) → x ≢ a → store m a v x ≡ m x
store_ne m a v x ne = rw (ne→== x a ne) refl

store_eq : (m : Memory) (a v x : ℕ) → x ≡ a → store m a v x ≡ v
store_eq m a v x e = rw (eq→== x a e) refl

pub cell-put_cell : (pos c attr : ℕ) (m : Memory) → cell (put_cell pos c attr m) pos ≡ (c, attr)
unfolding cell put_cell
cell-put_cell pos c attr m =
    ap₂ (λ a b. (a, b))
      (store_ne (store m (vga_memory + 2 * pos) c) _ attr _ (omega arith)
        ∙ store_eq m (vga_memory + 2 * pos) c _ refl)
      (store_eq (store m (vga_memory + 2 * pos) c) (vga_memory + 2 * pos + 1) attr _ refl)

pub cell-put_cell_ne :
    (pos c attr q : ℕ) (m : Memory) → q ≢ pos → cell (put_cell pos c attr m) q ≡ cell m q
unfolding cell put_cell
cell-put_cell_ne pos c attr q m ne =
    ap₂ (λ a b. (a, b))
      (store_ne (store m (vga_memory + 2 * pos) c) _ attr _ (omega arith)
        ∙ store_ne m (vga_memory + 2 * pos) c _ (omega arith))
      (store_ne (store m (vga_memory + 2 * pos) c) _ attr _ (omega arith)
        ∙ store_ne m (vga_memory + 2 * pos) c _ (omega arith))

pub put_cell-Same :
    (pos c attr : ℕ) (m m0 : Memory) → pos < 2240 → Same m m0 → Same (put_cell pos c attr m) m0
unfolding put_cell
put_cell-Same pos c attr m m0 h same x (inl out) =
    store_ne (store m (vga_memory + 2 * pos) c) _ attr x (omega arith)
    ∙ store_ne m (vga_memory + 2 * pos) c x (omega arith)
    ∙ same x (inl out)
put_cell-Same pos c attr m m0 h same x (inr out) =
    store_ne (store m (vga_memory + 2 * pos) c) _ attr x (omega arith)
    ∙ store_ne m (vga_memory + 2 * pos) c x (omega arith)
    ∙ same x (inr out)

pub cell-fill_cells_below :
    (left i q : ℕ) (m : Memory) → q < i → cell (fill_cells left i m) q ≡ cell m q
unfolding fill_cells
cell-fill_cells_below zero i q m h = refl
cell-fill_cells_below (suc left) i q m h =
    cell-fill_cells_below left (i + 1) q _ (omega arith)
    ∙ cell-put_cell_ne i blank at_default q m (omega arith)

pub cell-fill_cells :
    (left i q : ℕ) (m : Memory)
    → i ≤ q
    → q < i + left
    → cell (fill_cells left i m) q ≡ (blank, at_default)
unfolding fill_cells
cell-fill_cells zero i q m low high = absurd (omega arith)
cell-fill_cells (suc left) i q m low high = elim (Bool-cases (q == i)) [
  | inl e ↦
      cell-fill_cells_below left (i + 1) q _ (omega (arith, ==→eq q i e))
      ∙ ap (cell (put_cell i blank at_default m)) (==→eq q i e)
      ∙ cell-put_cell i blank at_default m
  | inr ne ↦ cell-fill_cells left (i + 1) q _ (omega (arith, ==→ne q i ne)) (omega arith)
]

pub fill_cells-Same :
    (left i : ℕ) (m m0 : Memory) → i + left ≤ 2240 → Same m m0 → Same (fill_cells left i m) m0
unfolding fill_cells
fill_cells-Same zero i m m0 h same = same
fill_cells-Same (suc left) i m m0 h same =
    fill_cells-Same left (i + 1) _ m0 (omega arith)
      (put_cell-Same i blank at_default m m0 (omega arith) same)

-- The rows moved up by one; the last one stays.
unfoldable pub moved : Memory → Memory
moved m = (memcpy vga_memory (vga_memory + 2 * vga_width) (2 * (vga_height - 1) * vga_width) m).1

pub cell-moved : (q : ℕ) (m : Memory) → q < 2160 → cell (moved m) q ≡ cell m (q + 80)
unfolding cell moved
cell-moved q m h =
    let copied = (memcpy-Copied vga_memory (vga_memory + 160) 4320 m).1 in
    ap₂ (λ a b. (a, b)) (copied.done (2 * q) (omega arith) (omega arith) ∙ ap m (omega arith))
      (ap (memcpy vga_memory (vga_memory + 160) 4320 m).1 (omega arith)
        ∙ copied.done (2 * q + 1) (omega arith) (omega arith)
        ∙ ap m (omega arith))

pub moved-Same : (m m0 : Memory) → Same m m0 → Same (moved m) m0
unfolding moved
moved-Same m m0 same x (inl out) =
    (memcpy-Copied vga_memory (vga_memory + 160) 4320 m).1.below x (omega arith) ∙ same x (inl out)
moved-Same m m0 same x (inr out) =
    (memcpy-Copied vga_memory (vga_memory + 160) 4320 m).1.above x (omega arith) ∙ same x (inr out)

cell-clear_column_other :
    (x left y q : ℕ) (m : Memory)
    → x < 80
    → q % 80 ≢ x
    → cell (clear_column x left y m) q ≡ cell m q
unfolding clear_column
cell-clear_column_other x zero y q m h ne = refl
cell-clear_column_other x (suc left) y q m h ne =
    cell-clear_column_other x left (y + 1) q _ h ne
    ∙ cell-put_cell_ne (80 * y + x) blank at_default q m (omega arith)

cell-clear_column_above :
    (x left y r : ℕ) (m : Memory)
    → x < 80
    → r < y
    → cell (clear_column x left y m) (80 * r + x) ≡ cell m (80 * r + x)
unfolding clear_column
cell-clear_column_above x zero y r m h up = refl
cell-clear_column_above x (suc left) y r m h up =
    cell-clear_column_above x left (y + 1) r _ h (omega arith)
    ∙ cell-put_cell_ne (80 * y + x) blank at_default (80 * r + x) m (omega arith)

cell-clear_column :
    (x left y r : ℕ) (m : Memory)
    → x < 80
    → y ≤ r
    → r < y + left
    → cell (clear_column x left y m) (80 * r + x) ≡ (blank, at_default)
unfolding clear_column
cell-clear_column x zero y r m h low high = absurd (omega arith)
cell-clear_column x (suc left) y r m h low high = elim (Bool-cases (r == y)) [
  | inl e ↦
      cell-clear_column_above x left (y + 1) r _ h (omega (arith, ==→eq r y e))
      ∙ ap (λ j. cell (put_cell (80 * y + x) blank at_default m) (80 * j + x)) (==→eq r y e)
      ∙ cell-put_cell (80 * y + x) blank at_default m
  | inr ne ↦ cell-clear_column x left (y + 1) r _ h (omega (arith, ==→ne r y ne)) (omega arith)
]

cell-clear_columns_left :
    (left x q : ℕ) (m : Memory)
    → x + left ≤ 80
    → q % 80 < x
    → cell (clear_columns left x m) q ≡ cell m q
unfolding clear_columns
cell-clear_columns_left zero x q m h before = refl
cell-clear_columns_left (suc left) x q m h before =
    cell-clear_columns_left left (x + 1) q _ (omega arith) (omega arith)
    ∙ cell-clear_column_other x 28 0 q m (omega arith) (omega arith)

pub cell-clear_columns :
    (left x r c : ℕ) (m : Memory)
    → x + left ≤ 80
    → x ≤ c
    → c < x + left
    → r < 28
    → cell (clear_columns left x m) (80 * r + c) ≡ (blank, at_default)
unfolding clear_columns
cell-clear_columns zero x r c m h low high row = absurd (omega arith)
cell-clear_columns (suc left) x r c m h low high row = elim (Bool-cases (c == x)) [
  | inl e ↦
      cell-clear_columns_left left (x + 1) (80 * r + c) _ (omega arith) (omega (arith, ==→eq c x e))
      ∙ ap (λ j. cell (clear_column x 28 0 m) (80 * r + j)) (==→eq c x e)
      ∙ cell-clear_column x 28 0 r m (omega arith) (omega arith) (omega arith)
  | inr ne ↦
      cell-clear_columns left (x + 1) r c _ (omega arith) (omega (arith, ==→ne c x ne))
        (omega arith) row
]

clear_column-Same :
    (x left y : ℕ) (m m0 : Memory)
    → x < 80
    → y + left ≤ 28
    → Same m m0
    → Same (clear_column x left y m) m0
unfolding clear_column
clear_column-Same x zero y m m0 h rows same = same
clear_column-Same x (suc left) y m m0 h rows same =
    clear_column-Same x left (y + 1) _ m0 h (omega arith)
      (put_cell-Same (80 * y + x) blank at_default m m0 (omega arith) same)

pub clear_columns-Same :
    (left x : ℕ) (m m0 : Memory) → x + left ≤ 80 → Same m m0 → Same (clear_columns left x m) m0
unfolding clear_columns
clear_columns-Same zero x m m0 h same = same
clear_columns-Same (suc left) x m m0 h same =
    clear_columns-Same left (x + 1) _ m0 (omega arith)
      (clear_column-Same x 28 0 m m0 (omega arith) (omega arith) same)
