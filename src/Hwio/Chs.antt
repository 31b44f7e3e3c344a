-- ===== src/Hwio/Chs.antt =====
-- The address of a sector for the BIOS (lba_to_chs of source/hwio.c).
use nano_s.Common.{ℕ, ◌+◌, ◌-◌, ◌*◌, ◌/◌, ◌%◌, ◌≤◌, ◌<◌, ◌≡◌, ap, ◌∙◌, arith}
use native.Mathlib.Nat.{div-add-mod', mod-lt}

pub record Chs : Type 0 where
  pub cylinder : ℕ
  pub head : ℕ
  pub sector : ℕ

-- `spt` sectors on a track, and `nh` heads.
unfoldable pub lba_to_chs : (lba spt nh : ℕ) → Chs
lba_to_chs lba spt nh =
    let temp = lba / spt in
    record { sector = 1 + lba % spt; head = temp % nh; cylinder = temp / nh }

-- With at least one head and one sector on a track, the address is in their range, with sectors
-- from 1 on, and it is the address of the sector with this number.
pub lba_to_chs-number :
    (lba spt nh : ℕ)
    → 0 < spt
    → 0 < nh
    → let a = lba_to_chs lba spt nh in
      ((a.cylinder * nh + a.head) * spt + (a.sector - 1) ≡ lba)
      × (a.head < nh)
      × (1 ≤ a.sector)
      × (a.sector ≤ spt)
unfolding lba_to_chs
lba_to_chs-number lba spt nh hs hn = (
  ap (λ x. x * spt + (1 + lba % spt - 1)) (div-add-mod' (lba / spt) nh)
      ∙ ap (λ x. lba / spt * spt + x) (omega arith)
      ∙ div-add-mod' lba spt,
  mod-lt (lba / spt) hn,
  omega arith,
  omega (arith, mod-lt lba hs),
)
