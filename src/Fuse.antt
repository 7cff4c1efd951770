-- ===== src/Fuse.antt =====
-- What the FUSE operations share (madbfs/src/operations.cpp): the path is made from the text, the tree is
-- asked, and an error becomes its negative number.
mod Tests
pub mod Stat
pub mod Calls
pub mod Again
pub mod Blocks
use adbfsm.Prelude.{
  ℕ, zero, suc, ◌+◌, ◌-◌, ◌%◌, ◌/◌, ◌^◌, ℤ, pos, negsuc, Option, none, some, ltb, ◌==◌,
  if◌then◌else◌,
}
use adbfsm.Split.{Text}
use adbfsm.FilePath.{FilePath, create}
use adbfsm.Cache.State.{Expect, ok, err}
use adbfsm.Tree.Data.{operation_not_supported}
use adbfsm.Tree.Exec.{Remote, Op, ◌>>=◌, pure, fail, attempt}

-- `-errint`
unfoldable pub fuse_err : ℕ → ℤ
fuse_err zero = pos 0
fuse_err (suc n) = negsuc n

-- `static_cast<i32>` of a `usize`.
unfoldable pub to_i32 : ℕ → ℤ
to_i32 n = let m = n % 2 ^ 32 in if ltb m (2 ^ 31) then pos m else negsuc (2 ^ 32 - 1 - m)

-- `mode | S_IFDIR`
unfoldable pub with_ifdir : ℕ → ℕ
with_ifdir mode = if mode / 2 ^ 14 % 2 == 1 then mode else mode + 2 ^ 14

-- `transform_error(fuse_err).error_or(0)`
unfoldable pub error_or_0 : {A : Type 0} → Expect A → ℤ
unfolding fuse_err
error_or_0 (ok a) = pos 0
error_or_0 (err e) = fuse_err e

unfoldable pub value_of : {A : Type 0} → Expect A → Option A
value_of (ok a) = some a
value_of (err e) = none

-- The number that a call returns for a count.
unfoldable pub count_or : (ℕ → ℤ) → Expect ℕ → ℤ
unfolding fuse_err
count_or cast (ok n) = cast n
count_or cast (err e) = fuse_err e

module _ {R : Remote} {A : Type 0} where
  -- `ok_or(path::create(path), operation_not_supported)` and what is done with the path.
  unfoldable pub on_path : Text → (FilePath → Op R A) → Op R A
  unfolding create
  on_path text f = elim (create text) [ none ↦ fail operation_not_supported | some p ↦ f p ]

  -- A call that returns only whether it failed.
  unfoldable pub returns : Op R A → Op R ℤ
  unfolding error_or_0
  returns m = attempt m >>= λ result. pure (error_or_0 result)

  -- A call that also hands out its value.
  unfoldable pub hands_out : Op R A → Op R (ℤ × Option A)
  unfolding error_or_0 value_of
  hands_out m = attempt m >>= λ result. pure (error_or_0 result, value_of result)
