-- ===== src/Ulib/Getstr.antt =====
-- The input line of source/ulib/ulib.c (getstr): the keys are a list, the buffer is in the one
-- memory, and what goes to the screen is a list of calls.
pub mod Lists
pub mod Keys
pub mod Taken
pub mod Put
pub mod Chars
pub mod Step
pub mod Refine
use nano_s.Common.{
  ℕ, zero, suc, ◌+◌, ◌-◌, ◌%◌, ◌^◌, Bool, true, false, not, ◌&&◌, ◌||◌, ◌==◌, ltb, if◌then◌else◌,
  List, [], ◌∷◌, ◌++◌, Option, none, some,
}
use nano_s.Ulib.Memory.{Memory, store, memcpy}

-- The loop of memset.
unfoldable pub fill : (a v left : ℕ) → Memory → Memory
fill a v zero m = m
fill a v (suc left) m = fill (a + 1) v left (store m a v)

-- strlen, of a string that ends within `room` bytes.
unfoldable pub strlen_at : Memory → (a room : ℕ) → ℕ
strlen_at m a zero = 0
strlen_at m a (suc room) = let rest = strlen_at m (a + 1) room in if m a == 0 then 0 else suc rest

-- What a key does to the buffer and the offset, and whether the string is shown again.
pub record Typed : Type 0 where
  pub memory : Memory
  pub offset : ℕ
  pub shown : Bool

-- The calls of a redraw.
pub data Output : Type 0 where
  show_cursor : Bool → Output
  cursor_pos : (col row : ℕ) → Output
  char : ℕ → Output

module _ (str n : ℕ) where
  abbrev length_of : Memory → ℕ
  length_of m = strlen_at m str n

  -- The chain of `else if`, but for Return.
  unfoldable pub type_key : (k : ℕ) → Memory → (i : ℕ) → Typed
  type_key k m i =
      if k == 0
      then record { memory = m; offset = i; shown = false }
      else if k == 0x08
      then if ltb 0 i
        then record {
          memory = (memcpy (str + (i - 1)) (str + i) (n - i) m).1;
          offset = i - 1;
          shown = true;
        }
        else record { memory = m; offset = i; shown = true }
      else if k == 0xE0
      then record {
        memory = if ltb i (n - 1) then (memcpy (str + i) (str + (i + 1)) (n - i - 1) m).1 else m;
        offset = i;
        shown = true;
      }
      else if k == 0xE8 && ltb 0 i
      then record { memory = m; offset = i - 1; shown = true }
      else if k == 0xE9 && ltb i (length_of m)
      then record { memory = m; offset = i + 1; shown = true }
      else if k == 0xE2
      then record { memory = m; offset = 0; shown = true }
      else if k == 0xE1
      then record { memory = m; offset = length_of m; shown = true }
      else if not (k == 0x09) && (ltb k 0x20 || ltb 0x7E k)
      then record { memory = m; offset = i; shown = false }
      else if ltb (length_of m) (n - 1) && not (k % 2 ^ 8 == 0)
      then record {
        memory = store (memcpy (str + (i + 1)) (str + i) (n - i - 2) m).1 (str + i) (k % 2 ^ 8);
        offset = i + 1;
        shown = true;
      }
      else record { memory = m; offset = i; shown = true }

  unfoldable pub chars : Memory → (left p : ℕ) → List Output
  chars m zero p = []
  chars m (suc left) p = char (m (str + p)) ∷ chars m left (p + 1)

  unfoldable pub redraw : (col row : ℕ) → Memory → (i : ℕ) → List Output
  unfolding chars
  redraw col row m i =
      show_cursor false
      ∷ cursor_pos col row
      ∷ (chars m n 0 ++ (cursor_pos (col + i) row ∷ show_cursor true ∷ []))

  -- The loop, until Return is pressed; there is no result if the keys end before.
  unfoldable pub key_loop :
      (col row : ℕ) → List ℕ → Memory → (i : ℕ) → Option (Memory × List Output)
  unfolding type_key redraw
  key_loop col row [] m i = none
  key_loop col row (k ∷ keys) m i =
      let t = type_key k m i in
      let rest = key_loop col row keys t.memory t.offset in
      if k == 0x0D then some (m, []) else elim rest [
        | none ↦ none
        | some r ↦ some (r.0, (if t.shown then redraw col row t.memory t.offset else []) ++ r.1)
      ]

  -- The memory, the output and the length.
  unfoldable pub getstr : (col row : ℕ) → List ℕ → Memory → Option (Memory × List Output × ℕ)
  unfolding key_loop
  getstr col row keys m = elim (key_loop col row keys (fill str 0 n m) 0) [
    | none ↦ none
    | some r ↦
        let ended = store r.0 (str + (n - 1)) 0 in
        some (ended, show_cursor true ∷ (r.1 ++ (char 0x0A ∷ [])), length_of ended)
  ]
