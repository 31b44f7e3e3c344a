-- ===== src/Fs/Monad.antt =====
-- The effects of source/fs.c: reads and writes of the state, the early return of an error code, and
-- a loop that is still running when its fuel is used up.
use nano_s.Common.{ℕ, Option, none, some, if◌then◌else◌, leb}
use nano_s.Fs.Types.{System, error_any}

pub data Res (A : Type 0) : Type 0 where
  ok : A → Res A
  err : ℕ → Res A
  spin : Res A

-- The state after an error is the state at the point of the return: nothing is rolled back.
abbrev pub M : Type 0 → Type 0
M A = System → Res A × System

abbrev pub pure : {A : Type 0} → A → M A
pure a s = (ok a, s)

abbrev pub fail : {A : Type 0} → ℕ → M A
fail code s = (err code, s)

abbrev pub stuck : {A : Type 0} → M A
stuck s = (spin, s)

abbrev pub and_then : {A B : Type 0} → Res A × System → (A → M B) → Res B × System
and_then (ok a, s) k = k a s
and_then (err code, s) k = (err code, s)
and_then (spin, s) k = (spin, s)

infixl 5 ◌>>=◌ ◌>>◌
abbrev pub ◌>>=◌ : {A B : Type 0} → M A → (A → M B) → M B
◌>>=◌ m k s = and_then (m s) k

abbrev pub ◌>>◌ : {A B : Type 0} → M A → M B → M B
m >> k = m >>= λ _. k

-- A `uint` that the caller compares with ERROR_ANY.
abbrev pub index : ℕ → M ℕ
index n = if leb error_any n then fail n else pure n

abbrev pub get : M System
get s = (ok s, s)

abbrev pub settle_res : Res ℕ × System → Res ℕ × System
settle_res (ok a, s) = index a s
settle_res (err code, s) = index code s
settle_res (spin, s) = (spin, s)

-- The value that a function returns, read as its caller reads it.
abbrev pub settle : M ℕ → M ℕ
settle m s = settle_res (m s)

-- `if(result != NO_ERROR) return ERROR_IO;`
abbrev pub recode_res : {A : Type 0} → ℕ → Res A × System → Res A × System
recode_res code (ok a, s) = (ok a, s)
recode_res code (err _, s) = (err code, s)
recode_res code (spin, s) = (spin, s)

abbrev pub recode : {A : Type 0} → ℕ → M A → M A
recode code m s = recode_res code (m s)

-- A call of which the caller tests only whether it failed.
abbrev pub attempt_res : {A : Type 0} → Res A × System → Res (Option A) × System
attempt_res (ok a, s) = (ok (some a), s)
attempt_res (err code, s) = (ok none, s)
attempt_res (spin, s) = (spin, s)

abbrev pub attempt : {A : Type 0} → M A → M (Option A)
attempt m s = attempt_res (m s)
