-- ===== src/Fs/Refs/Remove/Loop.antt =====
-- The loop of remove_ref_in_entry of source/fs.c.
use nano_s.Common.{
  ℕ, zero, suc, ◌+◌, ◌%◌, ◌<◌, ◌≡◌, refl, subst, ap, ◌∙◌, Bool, true, false, ◌||◌, List, length,
  get_or, set, ◌==◌, if◌then◌else◌, arith, lt→ltb, le→ltb, ne→==, ==→eq, ==→ne, Bool-cases, inl,
  inr,
}
use nano_s.Fs.Types.{Entry, System, sfs_entryrefs}
use nano_s.Fs.Monad.{Res, ok}
use nano_s.Fs.Chain.{zero_entry}
use nano_s.Fs.Refs.{ref_at, Removal, turn, shift, removal_loop}
use nano_s.Fs.Refs.Items.{IsDirectory}
use nano_s.Fs.Refs.Remove.{Inv, Inv-again, Inv-found, Inv-missed, get_or-past}

-- The variables of the loop, and the entry that it looks ahead to.
abbrev pub at : (e : Entry) (n r : ℕ) → Bool → List ℕ → Entry → Removal
at e n r found ys fol = record {
  current = record e { ref = ys };
  ncurrent = n;
  following = fol;
  found = found;
  refcount = e.size;
  r = r;
}

abbrev look_ahead : Entry → ℕ → Entry
look_ahead e r = if r + 1 == sfs_entryrefs then zero_entry else e

next-reference :
    (e : Entry) (r : ℕ)
    → length e.ref ≡ sfs_entryrefs
    → r < sfs_entryrefs
    → ref_at (look_ahead e r) ((r + 1) % sfs_entryrefs) ≡ get_or e.ref (suc r) 0
next-reference e r full small = elim (Bool-cases (r + 1 == 120)) [
  | inl last ↦
      let i : (r + 1) % 120 ≡ 0 = omega (arith, ==→eq (r + 1) 120 last) in
      rw (last, i, get_or-past e.ref (suc r) (omega (arith, ==→eq (r + 1) 120 last))) refl
  | inr inner ↦
      let i : (r + 1) % 120 ≡ suc r = omega (arith, ==→ne (r + 1) 120 inner) in rw (inner, i) refl
]

turn-single :
    (disk n r : ℕ) (e : Entry) (found : Bool) (ys : List ℕ) (s : System)
    → e.next ≡ 0
    → r < sfs_entryrefs
    → turn disk (at e n r found ys e) s ≡ (ok (at e n r found ys (look_ahead e r)), s)
unfolding turn
turn-single disk n r e found ys s alone small = elim (Bool-cases (r + 1 == 120)) [
  | inl last ↦ rw (ne→== r 120 (omega arith), last, alone) refl
  | inr inner ↦ rw (ne→== r 120 (omega arith), inner) refl
]

-- How the loop ends: after all references, with the state of the disks unchanged.
pub record Ends (e : Entry) (n ref : ℕ) (s : System) (out : Res Removal × System) : Type 0 where
  pub found : Bool
  pub ys : List ℕ
  pub fol : Entry
  pub result : out ≡ (ok (at e n e.size found ys fol), s)
  pub inv : Inv e ref e.size found ys

module _ (disk n ref : ℕ) (e : Entry) (s : System) (d : IsDirectory e) where
  shift-found :
      (r v : ℕ) (found : Bool) (ys : List ℕ) (fol : Entry)
      → (found || ref_at (record e { ref = ys }) r == ref) ≡ true
      → ref_at fol ((r + 1) % sfs_entryrefs) ≡ v
      → shift ref (at e n r found ys fol) ≡ at e n (r + 1) true (set ys r v) fol
  unfolding shift
  shift-found r v found ys fol h e' = rw (h, e') refl

  shift-missed :
      (r : ℕ) (ys : List ℕ) (fol : Entry)
      → (ref_at (record e { ref = ys }) r == ref) ≡ false
      → shift ref (at e n r false ys fol) ≡ at e n (r + 1) false ys fol
  unfolding shift
  shift-missed r ys fol h = rw h refl

  -- One round: the new variables, which keep the invariant.
  step-Inv :
      (r : ℕ) (found : Bool) (ys : List ℕ)
      → r < e.size
      → Inv e ref r found ys
      → (f : Bool) × (zs : List ℕ) × Inv e ref (suc r) f zs
        × (shift ref (at e n r found ys (look_ahead e r)) ≡ at e n (r + 1) f zs (look_ahead e r))
  step-Inv r found ys h i =
      let small : r < sfs_entryrefs = omega (arith, d.room) in
      let v = get_or e.ref (suc r) 0 in
      let next = next-reference e r d.full small in
      elim (Bool-cases found) [
        | inl before ↦
            let j = subst (λ b. Inv e ref r b ys) before i in
            (
              true,
              set ys r v,
              Inv-again e ref r v ys d.full small refl j,
              rw before (shift-found r v true ys (look_ahead e r) refl next),
            )
        | inr not_yet ↦
            let j = subst (λ b. Inv e ref r b ys) not_yet i in
            let here = ap (λ x. x == ref) (j.ahead r (omega arith)) in
            elim (Bool-cases (get_or e.ref r 0 == ref)) [
              | inl this ↦ (
                true,
                set ys r v,
                Inv-found e ref r v ys d.full small refl (==→eq _ _ this) j,
                rw not_yet (shift-found r v false ys (look_ahead e r) (here ∙ this) next),
              )
              | inr other ↦ (
                false,
                ys,
                Inv-missed e ref r ys d.full small other j,
                rw not_yet (shift-missed r ys (look_ahead e r) (here ∙ other)),
              )
            ]
      ]

  plus-one : (r : ℕ) → suc r ≡ r + 1
  plus-one r = omega arith

  pub loop-Ends :
      (left fuel r : ℕ) (found : Bool) (ys : List ℕ) (fol : Entry)
      → r + left ≡ e.size
      → left < fuel
      → (0 < left → fol ≡ e)
      → Inv e ref r found ys
      → Ends e n ref s (removal_loop fuel disk ref (at e n r found ys fol) s)
  unfolding removal_loop
  loop-Ends left zero r found ys fol m h f i = absurd (omega arith)
  loop-Ends zero (suc fuel) r found ys fol m h f i =
      let all : r ≡ e.size = omega arith in
      rw (all, le→ltb e.size e.size (omega arith))
        (record {
          found = found;
          ys = ys;
          fol = fol;
          result = refl;
          inv = subst (λ k. Inv e ref k found ys) all i;
        })
  loop-Ends (suc left) (suc fuel) r found ys fol m h f i =
      rw
        (
          lt→ltb r e.size (omega arith),
          f (omega arith),
          turn-single disk n r e found ys s d.alone (omega (arith, d.room)),
        )
        (let (f', zs, j, e') = step-Inv r found ys (omega arith) i in
          rw e' (
            loop-Ends left fuel (r + 1) f' zs (look_ahead e r) (omega arith) (omega arith)
              (λ l. rw (ne→== (r + 1) 120 (omega (arith, d.room))) refl)
              (subst (λ k. Inv e ref k f' zs) (plus-one r) j)))
