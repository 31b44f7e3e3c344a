-- ===== src/Hwio/Clock/Steady.antt =====
-- The time that io_getdatetime of source/hwio.c reads, one register after the other, is that of
-- one moment, though the clock goes on meanwhile.
use nano_s.Common.{
  ℕ, zero, suc, ◌+◌, ◌-◌, ◌≤◌, ◌<◌, ◌≡◌, inl, inr, refl, sym, ap, ◌∙◌, true, false, subst, Option,
  none, some, Bool-cases, ltb, ltb→lt, ltb→le, arith,
}
use nano_s.Fs.Types.{Time}
use nano_s.Hwio.Clock.{
  status_a, status_b, uip, convert, Round, done, again, read_fields, read_loop, io_getdatetime,
}
use nano_s.Hwio.Clock.Rounds.{
  IsClear, IsSteady, at_moment, IsRound, whole, given_up, read_fields-IsRound,
}

module _ (cmos : ℕ → ℕ → ℕ) where
  -- The flag is clear from the read `quiet` on, for the reads of one round.
  abbrev pub IsQuiet : ℕ → Type 0
  IsQuiet quiet = (t : ℕ) → quiet ≤ t → t ≤ quiet + 12 → IsClear cmos t

  data IsRead : Option (Time × ℕ) → Type 0 where
    moment : (t : ℕ) → IsClear cmos t → IsRead (some (at_moment cmos t, t + 13))

  unfoldable on_round : ℕ → Round → Option (Time × ℕ)
  on_round fuel (done time u) = some (time, u)
  on_round fuel (again u) = read_loop cmos fuel u

  loop_set :
      (fuel t : ℕ)
      → uip (cmos t status_a) ≡ true
      → read_loop cmos (suc fuel) t ≡ read_loop cmos fuel (t + 1)
  unfolding read_loop
  loop_set fuel t e =
      ap
        (λ b. elim b [
          | true ↦ read_loop cmos fuel (t + 1)
          | false ↦ elim (read_fields cmos (t + 1)) [
            | done time u ↦ some (time, u)
            | again u ↦ read_loop cmos fuel u
          ]
        ])
        e

  on_round_lem :
      (fuel : ℕ) (r : Round)
      → elim r [ done time u ↦ some (time, u) | again u ↦ read_loop cmos fuel u ] ≡ on_round fuel r
  unfolding on_round
  on_round_lem fuel (done time u) = refl
  on_round_lem fuel (again u) = refl

  loop_clear :
      (fuel t : ℕ)
      → IsClear cmos t
      → read_loop cmos (suc fuel) t ≡ on_round fuel (read_fields cmos (t + 1))
  unfolding read_loop
  loop_clear fuel t e =
      ap
        (λ b. elim b [
          | true ↦ read_loop cmos fuel (t + 1)
          | false ↦ elim (read_fields cmos (t + 1)) [
            | done time u ↦ some (time, u)
            | again u ↦ read_loop cmos fuel u
          ]
        ])
        e
      ∙ on_round_lem fuel (read_fields cmos (t + 1))

  -- A set flag is read before the quiet time.
  set_early :
      (quiet u : ℕ) → IsQuiet quiet → uip (cmos u status_a) ≡ true → u ≤ quiet + 12 → u < quiet
  set_early quiet u rest set high = elim (Bool-cases (ltb u quiet)) [
    | inl before ↦ ltb→lt u quiet before
    | inr late ↦ let clear = rest u (ltb→le u quiet late) high in absurd (cc)
  ]

  on_round-IsRead :
      (fuel quiet t : ℕ) (r : Round)
      → IsClear cmos t
      → IsQuiet quiet
      → t ≤ quiet
      → quiet < t + suc fuel
      → ((u : ℕ) → u ≤ quiet → quiet < u + fuel → IsRead (read_loop cmos fuel u))
      → IsRound cmos t r
      → IsRead (on_round fuel r)
  unfolding on_round
  on_round-IsRead fuel quiet t _ clear rest low enough loop (whole u e) =
      subst (λ v. IsRead (some (at_moment cmos t, v))) (sym e) (moment t clear)
  on_round-IsRead fuel quiet t _ clear rest low enough loop (given_up u above below set) =
      let before = set_early quiet u rest set (omega arith) in
      loop (u + 1) (omega arith) (omega arith)

  read_loop-IsRead :
      (fuel quiet t : ℕ)
      → IsSteady cmos
      → IsQuiet quiet
      → t ≤ quiet
      → quiet < t + fuel
      → IsRead (read_loop cmos fuel t)
  read_loop-IsRead zero quiet t steady rest low enough = absurd (omega arith)
  read_loop-IsRead (suc fuel) quiet t steady rest low enough =
      elim (Bool-cases (uip (cmos t status_a))) [
        | inl set ↦ subst IsRead (sym (loop_set fuel t set)) (
            read_loop-IsRead fuel quiet (t + 1) steady rest
              (omega (arith, set_early quiet t rest set (omega arith))) (omega arith))
        | inr clear ↦ subst IsRead (sym (loop_clear fuel t clear)) (
            on_round-IsRead fuel quiet t _ clear rest low enough
              (λ u low2 enough2. read_loop-IsRead fuel quiet u steady rest low2 enough2)
              (read_fields-IsRound cmos t steady clear))
      ]

  unfoldable with_status : Option (Time × ℕ) → Option (Time × ℕ)
  with_status r = elim r [ none ↦ none | some p ↦ some (convert (cmos p.1 status_b) p.0, p.1 + 1) ]

  of_read :
      (r : Option (Time × ℕ))
      → IsRead r
      → (u : ℕ) × IsClear cmos u
        × (with_status r ≡ some (convert (cmos (u + 13) status_b) (at_moment cmos u), u + 14))
  unfolding with_status
  of_read _ (moment u clear) = (
    u,
    clear,
    ap (λ v. some (convert (cmos (u + 13) status_b) (at_moment cmos u), v)) (omega arith),
  )

  -- If the registers hold still between two reads of a clear flag, and no update is in progress
  -- during the reads of one round from some later read on, io_getdatetime returns, and its result
  -- is the conversion of what the registers held all at one moment.
  pub io_getdatetime-moment :
      (quiet t : ℕ)
      → IsSteady cmos
      → IsQuiet quiet
      → t ≤ quiet
      → (u : ℕ) × IsClear cmos u
        × (io_getdatetime cmos (quiet + 1 - t) t
            ≡ some (convert (cmos (u + 13) status_b) (at_moment cmos u), u + 14))
  unfolding io_getdatetime with_status
  io_getdatetime-moment quiet t steady rest low =
      of_read _ (read_loop-IsRead (quiet + 1 - t) quiet t steady rest low (omega arith))
