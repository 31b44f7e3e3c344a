-- ===== src/Edit/Show/Put.antt =====
-- A sequence of calls of editor_putchar of source/programs/edit.c that fills the editor area.
use nano_s.Common.{
  ℕ, suc, ◌+◌, ◌≡◌, ◌≢◌, ◌⊎◌, ◌∙◌, refl, sym, ap, ap₂, not, List, [], ◌∷◌, ◌++◌, map, length,
  get_or, set, ◌==◌, if◌then◌else◌, Bool-cases, inl, inr, ==→eq, arith,
}
use nano_s.Edit.{Screen}
use nano_s.Edit.Show.{vga_char}

abbrev pub screen_of : List ℕ → List ℕ → Screen
screen_of copy shown = record { copy = copy; shown = shown }

-- editor_putchar by its offset.
unfoldable pub put_at : (offset c : ℕ) → Screen → Screen
put_at offset c sc =
    if not (c == get_or sc.copy offset 0)
    then screen_of (set sc.copy offset c) (set sc.shown offset (vga_char c))
    else sc

unfoldable pub put_list : (offset : ℕ) → List ℕ → Screen → Screen
unfolding put_at
put_list offset [] sc = sc
put_list offset (c ∷ cs) sc = put_list (offset + 1) cs (put_at offset c sc)

pub put_list-append :
    (offset : ℕ) (cs ds : List ℕ) (sc : Screen)
    → put_list offset (cs ++ ds) sc ≡ put_list (offset + length cs) ds (put_list offset cs sc)
unfolding put_list
put_list-append offset [] ds sc = ap (λ k. put_list k ds sc) (omega arith)
put_list-append offset (c ∷ cs) ds sc =
    put_list-append (offset + 1) cs ds (put_at offset c sc)
    ∙ ap (λ k. put_list k ds (put_list (offset + 1) cs (put_at offset c sc))) (omega arith)

-- The characters known to the copy are those shown; the others are 0 in the copy.
abbrev pub Mirrors : List ℕ → List ℕ → Type 0
Mirrors [] [] = Unit {0}
Mirrors [] (y ∷ ys) = ⊥
Mirrors (x ∷ xs) [] = ⊥
Mirrors (x ∷ xs) (y ∷ ys) = ((x ≡ 0) ⊎ (y ≡ vga_char x)) × Mirrors xs ys

abbrev pub NoZero : List ℕ → Type 0
NoZero [] = Unit {0}
NoZero (c ∷ cs) = (c ≢ 0) × NoZero cs

abbrev behind : (x y : ℕ) → Screen → Screen
behind x y sc = screen_of (x ∷ sc.copy) (y ∷ sc.shown)

put_at-behind :
    (x y offset c : ℕ) (sc : Screen)
    → put_at (suc offset) c (behind x y sc) ≡ behind x y (put_at offset c sc)
unfolding put_at
put_at-behind x y offset c sc = elim (Bool-cases (c == get_or sc.copy offset 0)) [
  | inl same ↦ rw same refl
  | inr other ↦ rw other refl
]

put_list-behind :
    (x y offset : ℕ) (cs : List ℕ) (sc : Screen)
    → put_list (suc offset) cs (behind x y sc) ≡ behind x y (put_list offset cs sc)
unfolding put_list
put_list-behind x y offset [] sc = refl
put_list-behind x y offset (c ∷ cs) sc =
    let e : suc offset + 1 ≡ suc (offset + 1) = omega arith in
    rw (e, put_at-behind x y offset c sc) (put_list-behind x y (offset + 1) cs (put_at offset c sc))

put_at-head :
    (c x y : ℕ) (sc : Screen)
    → c ≢ 0
    → (x ≡ 0) ⊎ (y ≡ vga_char x)
    → put_at 0 c (behind x y sc) ≡ behind c (vga_char c) sc
unfolding put_at
put_at-head c x y sc nz h = elim (Bool-cases (c == x)) [
  | inl same ↦ rw same (kept (==→eq c x same) h)
  | inr other ↦ rw other refl
]
  where
    kept : c ≡ x → (x ≡ 0) ⊎ (y ≡ vga_char x) → behind x y sc ≡ behind c (vga_char c) sc
    kept e (inl z) = absurd (nz (e ∙ z))
    kept e (inr m) = ap₂ (λ a b. behind a b sc) (sym e) (m ∙ ap vga_char (sym e))

-- Characters that fill the area are copied and shown, whatever of them were there before.
pub put_list_all :
    (cs xs ys : List ℕ)
    → Mirrors xs ys
    → length xs ≡ length cs
    → NoZero cs
    → put_list 0 cs (screen_of xs ys) ≡ screen_of cs (map vga_char cs)
unfolding put_list
put_list_all [] [] [] m h nz = refl
put_list_all [] [] (y ∷ ys) m h nz = absurd m
put_list_all [] (x ∷ xs) ys m h nz = absurd (omega arith)
put_list_all (c ∷ cs) [] ys m h nz = absurd (omega arith)
put_list_all (c ∷ cs) (x ∷ xs) [] m h nz = absurd m
put_list_all (c ∷ cs) (x ∷ xs) (y ∷ ys) m h nz =
    let one : 0 + 1 ≡ suc 0 = omega arith in
    rw
      (
        put_at-head c x y (screen_of xs ys) nz.0 m.0,
        put_list-behind c (vga_char c) 0 cs (screen_of xs ys),
      )
      (ap (behind c (vga_char c)) (put_list_all cs xs ys m.1 (omega arith) nz.1))
