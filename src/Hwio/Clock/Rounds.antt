-- ===== src/Hwio/Clock/Rounds.antt =====
-- One round of reads of io_getdatetime in source/hwio.c: what it reads is the time of the moment at
-- which the round began, or it is given up.
use nano_s.Common.{
  ℕ, ◌+◌, ◌-◌, ◌≤◌, ◌<◌, ◌≡◌, inl, inr, refl, sym, ap, ◌∙◌, Bool, true, false, if◌then◌else◌, subst,
  Bool-cases, arith,
}
use nano_s.Fs.Types.{Time}
use nano_s.Hwio.Clock.{
  status_a, uip, Round, done, again, read_field, read_second, read_minute, read_hour, read_day,
  read_month, read_fields,
}

module _ (cmos : ℕ → ℕ → ℕ) where
  -- No update is in progress.
  abbrev pub IsClear : ℕ → Type 0
  IsClear t = uip (cmos t status_a) ≡ false

  -- The flag is set before an update and for longer than a few reads take, so registers that
  -- are read between two reads of a clear flag have not changed.
  abbrev pub IsSteady : Type 0
  IsSteady =
      (t : ℕ)
      → IsClear t
      → IsClear (t + 2)
      → (reg : ℕ) → (cmos (t + 1) reg ≡ cmos t reg) × (cmos (t + 2) reg ≡ cmos t reg)

  -- The fields of the time at one moment.
  unfoldable pub at_moment : ℕ → Time
  at_moment t = record {
    year = cmos t 0x09;
    month = cmos t 0x08;
    day = cmos t 0x07;
    hour = cmos t 0x04;
    minute = cmos t 0x02;
    second = cmos t 0x00;
  }

  -- A round that began with the status at `t` is given up at a set flag, or ends with the time of
  -- that moment.
  pub data IsRound (t : ℕ) : Round → Type 0 where
    whole : (u : ℕ) → u ≡ t + 13 → IsRound t (done (at_moment t) u)
    given_up :
        (u : ℕ) → t ≤ u → u ≤ t + 12 → uip (cmos u status_a) ≡ true → IsRound t (again (u + 1))

  -- Before the read `v`, the status was clear and the registers were still those of `t`.
  record Ready (t v : ℕ) : Type 0 where
    later : t < v
    clear : IsClear (v - 1)
    same : (reg : ℕ) → cmos (v - 1) reg ≡ cmos t reg

  if_set : (b : Bool) (x y : Round) → b ≡ true → (if b then x else y) ≡ x
  if_set b x y e = rw e refl

  if_clear : (b : Bool) (x y : Round) → b ≡ false → (if b then x else y) ≡ y
  if_clear b x y e = rw e refl

  Ready-next :
      (t v : ℕ)
      → IsSteady
      → Ready t v
      → IsClear (v + 1)
      → Ready t (v + 2) × ((reg : ℕ) → cmos v reg ≡ cmos t reg)
  Ready-next t v steady ready clear2 =
      let after : v - 1 + 2 ≡ v + 1 = omega (arith, ready.later) in
      let now : v - 1 + 1 ≡ v = omega (arith, ready.later) in
      let back : v + 1 ≡ v + 2 - 1 = omega arith in
      let kept = steady (v - 1) ready.clear (subst IsClear (sym after) clear2) in
      (
        record {
          later = omega (arith, ready.later);
          clear = subst IsClear back clear2;
          same = λ reg. ap (λ u. cmos u reg) (sym (after ∙ back)) ∙ (kept reg).1 ∙ ready.same reg;
        },
        λ reg. ap (λ u. cmos u reg) (sym now) ∙ (kept reg).0 ∙ ready.same reg,
      )

  field_step :
      (t v reg : ℕ) (rest : ℕ → ℕ → Round)
      → IsSteady
      → Ready t v
      → v + 1 ≤ t + 12
      → (Ready t (v + 2) → IsRound t (rest (cmos t reg) (v + 2)))
      → IsRound t (read_field cmos reg v rest)
  unfolding read_field
  field_step t v reg rest steady ready high next = elim (Bool-cases (uip (cmos (v + 1) status_a))) [
    | inl set ↦ subst (IsRound t) (sym (if_set _ (again (v + 2)) _ set)) (
        subst (λ u. IsRound t (again u)) (omega arith)
          (given_up (v + 1) (omega (arith, ready.later)) high set))
    | inr clear2 ↦
        let (ready2, same) = Ready-next t v steady ready clear2 in
        subst (IsRound t) (sym (if_clear _ (again (v + 2)) _ clear2))
          (subst (λ x. IsRound t (rest x (v + 2))) (sym (same reg)) (next ready2))
  ]

  pub read_fields-IsRound : (t : ℕ) → IsSteady → IsClear t → IsRound t (read_fields cmos (t + 1))
  unfolding read_fields read_month read_day read_hour read_minute read_second at_moment
  read_fields-IsRound t steady clear =
      let back : t ≡ t + 1 - 1 = omega arith in
      let ready : Ready t (t + 1) = record {
        later = omega arith;
        clear = subst IsClear back clear;
        same = λ reg. ap (λ u. cmos u reg) (sym back);
      } in
      field_step t (t + 1) 0x09 (read_month cmos) steady ready (omega arith) (λ r1.
        field_step t (t + 1 + 2) 0x08 (read_day cmos (cmos t 0x09)) steady r1 (omega arith) (λ r2.
          field_step t (t + 1 + 2 + 2) 0x07 (read_hour cmos (cmos t 0x09) (cmos t 0x08)) steady r2
            (omega arith)
            (λ r3.
              field_step t (t + 1 + 2 + 2 + 2) 0x04
                (read_minute cmos (cmos t 0x09) (cmos t 0x08) (cmos t 0x07)) steady r3 (omega arith)
                (λ r4.
                  field_step t (t + 1 + 2 + 2 + 2 + 2) 0x02
                    (read_second cmos (cmos t 0x09) (cmos t 0x08) (cmos t 0x07) (cmos t 0x04))
                    steady r4 (omega arith)
                    (λ r5.
                      field_step t (t + 1 + 2 + 2 + 2 + 2 + 2) 0x00
                        (λ second u.
                          done
                            (record {
                              year = cmos t 0x09;
                              month = cmos t 0x08;
                              day = cmos t 0x07;
                              hour = cmos t 0x04;
                              minute = cmos t 0x02;
                              second = second;
                            })
                            u)
                        steady r5 (omega arith)
                        (λ r6. whole (t + 1 + 2 + 2 + 2 + 2 + 2 + 2) (omega arith)))))))
