-- ===== src/Nas/Encode/Place.antt =====
-- Where encode_instruction of source/programs/nas.c writes: an instruction is encoded a second time
-- when the symbol in it is resolved.
use nano_s.Common.{
  ℕ, zero, suc, ◌+◌, ◌≡◌, ◌≢◌, ◌≤◌, ◌<◌, ◌⊎◌, inl, inr, ◌∙◌, refl, ap, List, [], ◌∷◌, length,
  get_or, set, get_or-set_ne, arith,
}
use nano_s.Nas.{InstrId, push}
use nano_s.Nas.Encode.{instruction_bytes, write_bytes, encode_instruction}

set-set : (xs : List ℕ) (i v w : ℕ) → set (set xs i v) i w ≡ set xs i w
set-set [] i v w = refl
set-set (x ∷ xs) zero v w = refl
set-set (x ∷ xs) (suc i) v w = ap (◌∷◌ x) (set-set xs i v w)

set_comm : (xs : List ℕ) (i j v w : ℕ) → i < j → set (set xs i v) j w ≡ set (set xs j w) i v
set_comm [] i j v w h = refl
set_comm (x ∷ xs) i zero v w h = absurd (omega arith)
set_comm (x ∷ xs) zero (suc j) v w h = refl
set_comm (x ∷ xs) (suc i) (suc j) v w h = ap (◌∷◌ x) (set_comm xs i j v w (omega arith))

write_bytes-set :
    (buffer : List ℕ) (i offset v : ℕ) (bytes : List ℕ)
    → i < offset
    → write_bytes (set buffer i v) offset bytes ≡ set (write_bytes buffer offset bytes) i v
unfolding write_bytes
write_bytes-set buffer i offset v [] h = refl
write_bytes-set buffer i offset v (b ∷ bytes) h =
    rw (set_comm buffer i offset v b h)
      (write_bytes-set (set buffer offset b) i (offset + 1) v bytes (omega arith))

write_bytes_again :
    (buffer : List ℕ) (offset : ℕ) (xs ys : List ℕ)
    → length xs ≡ length ys
    → write_bytes (write_bytes buffer offset xs) offset ys ≡ write_bytes buffer offset ys
unfolding write_bytes
write_bytes_again buffer offset [] [] h = refl
write_bytes_again buffer offset [] (y ∷ ys) h = absurd (omega arith)
write_bytes_again buffer offset (x ∷ xs) [] h = absurd (omega arith)
write_bytes_again buffer offset (x ∷ xs) (y ∷ ys) h =
    rw
      (
        write_bytes-set buffer offset (offset + 1) x xs (omega arith),
        set-set (write_bytes buffer (offset + 1) xs) offset x y,
        write_bytes-set (write_bytes buffer (offset + 1) xs) offset (offset + 1) y ys (omega arith),
        write_bytes_again buffer (offset + 1) xs ys (omega arith),
        write_bytes-set buffer offset (offset + 1) y ys (omega arith),
      )
      refl

-- An index outside of what is written.
abbrev pub IsOutside : (offset n i : ℕ) → Type 0
IsOutside offset n i = (i < offset) ⊎ (offset + n ≤ i)

write_bytes-outside :
    (buffer : List ℕ) (offset i : ℕ) (bytes : List ℕ)
    → IsOutside offset (length bytes) i
    → get_or (write_bytes buffer offset bytes) i 0 ≡ get_or buffer i 0
unfolding write_bytes
write_bytes-outside buffer offset i [] h = refl
write_bytes-outside buffer offset i (b ∷ bytes) h =
    write_bytes-outside (set buffer offset b) (offset + 1) i bytes (further h)
    ∙ get_or-set_ne buffer offset i b 0 (elsewhere h)
  where
    further : IsOutside offset (suc (length bytes)) i → IsOutside (offset + 1) (length bytes) i
    further (inl below) = inl (omega arith)
    further (inr above) = inr (omega arith)

    elsewhere : IsOutside offset (suc (length bytes)) i → offset ≢ i
    elsewhere (inl below) = omega arith
    elsewhere (inr above) = omega arith

length-instruction_bytes :
    (id : InstrId) (g o a b a' b' : ℕ)
    → length (instruction_bytes id g o a b) ≡ length (instruction_bytes id g o a' b')
unfolding instruction_bytes
length-instruction_bytes push g o a b a' b' = refl
length-instruction_bytes _ g o a b a' b' = refl

-- Encoding an instruction again at its place, with other operands, gives the buffer and the offset
-- that encoding it with those operands at first would have given; and an encoding changes no byte
-- outside of the bytes from its offset to the offset returned.
pub encode_instruction_again :
    (g : ℕ) (buffer : List ℕ) (offset : ℕ) (id : InstrId) (op op' : List ℕ)
    → let first = encode_instruction g buffer offset id op in
      (encode_instruction g first.0 offset id op' ≡ encode_instruction g buffer offset id op')
      × ((i : ℕ) → (i < offset) ⊎ (first.1 ≤ i) → get_or first.0 i 0 ≡ get_or buffer i 0)
unfolding encode_instruction
encode_instruction_again g buffer offset id op op' =
    let xs = instruction_bytes id g offset (get_or op 0 0) (get_or op 1 0) in
    let ys = instruction_bytes id g offset (get_or op' 0 0) (get_or op' 1 0) in
    (
      ap (λ out. (out, offset + length ys))
          (write_bytes_again buffer offset xs ys (
            length-instruction_bytes id g offset (get_or op 0 0) (get_or op 1 0) (get_or op' 0 0)
              (get_or op' 1 0))),
      λ i h. write_bytes-outside buffer offset i xs h,
    )
