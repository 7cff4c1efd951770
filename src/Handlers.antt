-- ===== src/Handlers.antt =====
-- The request handlers of the server (madbfs-server/src/server.cpp). The system calls are a parameter; a
-- handler leaves early with a status. The buffer that the handlers share is the one of the call.
pub mod Calls
mod Tests
pub mod Replies
pub mod Copies
use adbfsm.Prelude.{
  ℕ, ℤ, ◌%◌, ◌^◌, ◌==◌, Bool, true, false, ◌||◌, Option, none, some, List, [], ◌∷◌, if◌then◌else◌,
}
use adbfsm.Split.{Text}
use adbfsm.Rpc.Request.{Timespec}
use adbfsm.Rpc.Response.{Stat}

-- The system calls. `none` and `false` are a negative result, behind which `errno` is read. A call of
-- `readdir` returns the next name or the null pointer.
pub record System : Type 1 where
  pub State : Type 0
  pub errno : State → ℕ
  pub opendir : State → Text → Option ℕ × State
  pub readdir : State → ℕ → Option Text × State
  pub closedir : State → ℕ → Bool × State
  pub fstatat : State → ℕ → Text → Option Stat × State
  pub lstat : State → Text → Option Stat × State
  pub readlink : State → Text → ℕ → Option Text × State
  pub mknod : State → Text → ℕ → ℕ → Bool × State
  pub mkdir : State → Text → ℕ → Bool × State
  pub unlink : State → Text → Bool × State
  pub rmdir : State → Text → Bool × State
  pub renameat2 : State → Text → Text → ℕ → Bool × State
  pub truncate : State → Text → ℤ → Bool × State
  pub open_read : State → Text → Option ℕ × State
  pub open_write : State → Text → Option ℕ × State
  pub close : State → ℕ → Bool × State
  pub seek : State → ℕ → ℤ → Bool × State
  pub read : State → ℕ → ℕ → Option (List ℕ) × State
  pub write : State → ℕ → List ℕ → Option ℕ × State
  pub utimensat : State → Text → Timespec → Timespec → Bool × State

-- `rpc::Status`: the errors that the protocol has a code for.
unfoldable pub is_status : ℕ → Bool
is_status e =
    (e == 0)
    || (e == 2)
    || (e == 13)
    || (e == 17)
    || (e == 20)
    || (e == 21)
    || (e == 22)
    || (e == 39)

-- `EINVAL`
abbrev pub invalid_argument : ℕ
invalid_argument = 22

-- `status_from_errno`; a status has eight bits.
unfoldable pub status_from_errno : ℕ → ℕ
unfolding is_status
status_from_errno err = if is_status (err % 2 ^ 8) then err % 2 ^ 8 else invalid_argument

-- How a part of a handler ends. `unfinished` is a loop that has run out of fuel.
pub data Step (A : Type 0) : Type 0 where
  done : A → Step A
  failed : (status : ℕ) → Step A
  unfinished : Step A

-- A part of a handler, on the state of the system.
abbrev pub Run : Type 0 → Type 0 → Type 0
Run T A = T → Step A × T

module _ {T A B : Type 0} where
  abbrev pub then_run : Step A → T → (A → Run T B) → Step B × T
  then_run (done a) s k = k a s
  then_run (failed e) s k = (failed e, s)
  then_run unfinished s k = (unfinished, s)

  infixl 5 ◌>>=◌ ◌>>◌
  unfoldable pub ◌>>=◌ : Run T A → (A → Run T B) → Run T B
  ◌>>=◌ m k s = let (r, s') = m s in then_run r s' k

  unfoldable pub ◌>>◌ : Run T A → Run T B → Run T B
  m >> n = m >>= λ _. n

module _ {T A : Type 0} where
  unfoldable pub pure : A → Run T A
  pure a s = (done a, s)

  unfoldable pub run_out : Run T A
  run_out s = (unfinished, s)

  -- A call whose negative result is only looked at.
  unfoldable pub try : (T → A × T) → Run T A
  try f s = let (r, s') = f s in (done r, s')

  -- `DEFER`: the call at the end of the scope does not change what is returned.
  unfoldable pub deferred : (T → Bool × T) → Run T A → Run T A
  deferred f m s = let (r, s') = m s in let (closed, s'') = f s' in (r, s'')

module _ (S : System) {A : Type 0} where
  unfoldable pub fail_errno : Run S.State A
  unfolding status_from_errno
  fail_errno s = (failed (status_from_errno (S.errno s)), s)

  -- A call whose negative result ends the handler.
  unfoldable pub or_fail : Option A → Run S.State A
  or_fail (some a) = pure a
  or_fail none = fail_errno

  unfoldable pub call : (S.State → Option A × S.State) → Run S.State A
  call f s = let (r, s') = f s in or_fail r s'

abbrev pub some_if : Bool → Option (Unit {0})
some_if true = some tt
some_if false = none

module _ (S : System) where
  unfoldable pub check : (S.State → Bool × S.State) → Run S.State (Unit {0})
  check f s = let (r, s') = f s in or_fail S (some_if r) s'
