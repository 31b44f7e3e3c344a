-- ===== src/Fs/Frame.antt =====
-- What the operations of source/fs.c leave alone.
pub mod ReadOnly
pub mod Disks
pub mod Files
use nano_s.Common.{ℕ, Bool, true, false, ◌≡◌, refl, ◌∙◌, leb, if◌then◌else◌, ◌==◌}
use nano_s.Fs.Types.{System, error_any, error_not_found}
use nano_s.Fs.Monad.{
  Res, ok, err, spin, M, pure, fail, stuck, and_then, get, ◌>>=◌, recode, recode_res,
}
use nano_s.Fs.Refs.{if_missing, if_missing_res}

-- The state after the run is the one before it, whether the run succeeds or not.
pub record ReadsOnly {A : Type 0} (m : M A) : Type 0 where
  pub kept : (s : System) → (m s).1 ≡ s

and_then-state :
    {A B : Type 0} (r : Res A × System) (k : A → M B)
    → ((a : A) → ReadsOnly (k a))
    → (and_then r k).1 ≡ r.1
and_then-state (ok a, s) k h = (h a).kept s
and_then-state (err code, s) k h = refl
and_then-state (spin, s) k h = refl

pub bind-ReadsOnly :
    {A B : Type 0} (m : M A) (k : A → M B)
    → ReadsOnly m
    → ((a : A) → ReadsOnly (k a))
    → ReadsOnly (m >>= k)
bind-ReadsOnly m k hm hk = record { kept = λ s. and_then-state (m s) k hk ∙ hm.kept s }

recode-state : {A : Type 0} (code : ℕ) (r : Res A × System) → (recode_res code r).1 ≡ r.1
recode-state code (ok a, s) = refl
recode-state code (err _, s) = refl
recode-state code (spin, s) = refl

pub recode-ReadsOnly : {A : Type 0} (code : ℕ) (m : M A) → ReadsOnly m → ReadsOnly (recode code m)
recode-ReadsOnly code m h = record { kept = λ s. recode-state code (m s) ∙ h.kept s }

pub if-ReadsOnly :
    {A : Type 0} (b : Bool) (m k : M A) → ReadsOnly m → ReadsOnly k → ReadsOnly (if b then m else k)
if-ReadsOnly true m k hm hk = hm
if-ReadsOnly false m k hm hk = hk

pub pure-ReadsOnly : {A : Type 0} (a : A) → ReadsOnly (pure a)
pure-ReadsOnly a = record { kept = λ s. refl }

pub fail-ReadsOnly : {A : Type 0} (code : ℕ) → ReadsOnly {A = A} (fail code)
fail-ReadsOnly code = record { kept = λ s. refl }

pub stuck-ReadsOnly : {A : Type 0} → ReadsOnly {A = A} stuck
stuck-ReadsOnly = record { kept = λ s. refl }

pub get-ReadsOnly : ReadsOnly get
get-ReadsOnly = record { kept = λ s. refl }

pub ruleset read_only = (
  bind-ReadsOnly, recode-ReadsOnly, if-ReadsOnly, pure-ReadsOnly, fail-ReadsOnly, stuck-ReadsOnly,
  get-ReadsOnly,
)
