-- ===== src/Prelude/Word.antt =====
-- Rust's checked arithmetic on `u64`.
use Prim.Native.Nat.{ℕ, ◌+◌, ◌-◌, ◌*◌, ◌^◌}
use mathlib.Core.Option.{Option, none, some}
use mastomini.Prelude.Tests.{ltb, leb, if◌then◌else◌}

abbrev pub u64_end : ℕ
u64_end = 2 ^ 64

abbrev pub u64_max : ℕ
u64_max = 2 ^ 64 - 1

abbrev pub checked : ℕ → Option ℕ
checked n = if ltb n u64_end then some n else none

abbrev pub checked_add : ℕ → ℕ → Option ℕ
checked_add a b = checked (a + b)

abbrev pub checked_mul : ℕ → ℕ → Option ℕ
checked_mul a b = checked (a * b)

abbrev pub saturating_add : ℕ → ℕ → ℕ
saturating_add a b = if leb u64_max (a + b) then u64_max else a + b

infixl 5 ◌>>=?◌
abbrev pub ◌>>=?◌ {ℓ} : {A B : Type ℓ} → Option A → (A → Option B) → Option B
none >>=? f = none
some a >>=? f = f a
