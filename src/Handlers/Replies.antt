-- ===== src/Handlers/Replies.antt =====
-- What a handler replies: a response of the procedure of its request, or an error that the protocol knows.
use adbfsm.Prelude.{
  ℕ, ℤ, zero, suc, ◌%◌, ◌^◌, ◌<◌, ◌≡◌, ◌≢◌, refl, Bool, true, false, Bool-cases, inl, inr, Option,
  none, some, List, [], ◌∷◌, ◌||◌, ◌+◌, text_eq, if◌then◌else◌, arith,
}
use mathlib.Core.Option.{some-ne-none}
use adbfsm.Split.{Text}
use adbfsm.FilePath.{dot, dot_dot}
use adbfsm.Rpc.Request.{Request, Timespec, proc}
use adbfsm.Rpc.Payload.{Procedure}
use adbfsm.Rpc.Response
use adbfsm.Rpc.Response.{Response}
use adbfsm.Handlers.{
  System, Step, done, failed, unfinished, Run, then_run, ◌>>=◌, ◌>>◌, pure, run_out, try, deferred,
  or_fail, call, check, some_if, is_status, status_from_errno, fail_errno,
}
use adbfsm.Handlers.Calls.{
  handle, listdir, stat, readlink, mknod, mkdir, unlink, rmdir, rename, truncate, read, write,
  utimens, copy_file_range, copy_loop, list_entries, entry_of, copy_size, path_max,
}

-- A status of an error.
abbrev pub IsError : ℕ → Type 0
IsError e = (is_status e ≡ true) × (e ≢ 0) × (e < 256)

status_from_errno-IsError : (e : ℕ) → e % 2 ^ 8 ≢ 0 → IsError (status_from_errno e)
unfolding status_from_errno is_status
status_from_errno-IsError e h = elim (Bool-cases (is_status (e % 2 ^ 8))) [
  | inl known ↦ rw known (known, h, omega arith)
  | inr unknown ↦ rw unknown (refl, (λ z. absurd (omega (arith, z))), omega arith)
]

abbrev pub Ends : {A T : Type 0} → (A → Type 0) → Step A × T → Type 0
Ends Q (done a, s) = Q a
Ends Q (failed e, s) = IsError e
Ends Q (unfinished, s) = Unit {0}

-- From every state a part of a handler fails with the status of an error, or its result satisfies `Q`.
pub record Yields {A T : Type 0} (Q : A → Type 0) (m : Run T A) : Type 0 where
  pub apply : (s : T) → Ends Q (m s)

abbrev Anything : {A : Type 0} → A → Type 0
Anything a = Unit {0}

-- A failed call of the system leaves an error in `errno`.
abbrev pub SetsErrno : {A T : Type 0} → (T → ℕ) → (T → Option A × T) → Type 0
SetsErrno {T = T} errno f = (s : T) → (f s).0 ≡ none → errno (f s).1 % 2 ^ 8 ≢ 0

abbrev pub TestSetsErrno : {T : Type 0} → (T → ℕ) → (T → Bool × T) → Type 0
TestSetsErrno {T = T} errno f = (s : T) → (f s).0 ≡ false → errno (f s).1 % 2 ^ 8 ≢ 0

module _ {A B T : Type 0} {Q : B → Type 0} where
  then-Ends :
      (r : Step A) (s : T) (k : A → Run T B)
      → Ends Anything (r, s)
      → ((a : A) → Yields Q (k a))
      → Ends Q (then_run r s k)
  then-Ends (done a) s k h rest = (rest a).apply s
  then-Ends (failed e) s k h rest = h
  then-Ends unfinished s k h rest = tt

  bind-Yields :
      {m : Run T A} {k : A → Run T B}
      → Yields Anything m
      → ((a : A) → Yields Q (k a))
      → Yields Q (m >>= k)
  unfolding ◌>>=◌
  bind-Yields {m = m} {k = k} h rest = record {
    apply = λ s. then-Ends (m s).0 (m s).1 k (h.apply s) rest;
  }

  next-Yields : {m : Run T A} {n : Run T B} → Yields Anything m → Yields Q n → Yields Q (m >> n)
  unfolding ◌>>◌
  next-Yields h k = bind-Yields h (λ a. k)

module _ {A T : Type 0} where
  pure-Yields : {P : A → Type 0} (a : A) → P a → Yields P (pure {T = T} a)
  unfolding pure
  pure-Yields a h = record { apply = λ s. h }

  try-Yields : (f : T → A × T) → Yields Anything (try f)
  unfolding try
  try-Yields f = record { apply = λ s. tt }

  if-Yields :
      {P : A → Type 0} (b : Bool) {m n : Run T A}
      → Yields P m
      → Yields P n
      → Yields P (if b then m else n)
  if-Yields true h k = h
  if-Yields false h k = k

  option-Yields :
      {B : Type 0} {P : A → Type 0} (o : Option B) {n : Run T A} {k : B → Run T A}
      → Yields P n
      → ((b : B) → Yields P (k b))
      → Yields P (elim o [ none ↦ n | some b ↦ k b ])
  option-Yields none h k = h
  option-Yields (some b) h k = k b

  list-Yields :
      {B : Type 0} {P : A → Type 0} (xs : List B) {n : Run T A} {k : B → List B → Run T A}
      → Yields P n
      → ((x : B) (xs : List B) → Yields P (k x xs))
      → Yields P (elim xs [ [] ↦ n | x ∷ rest ↦ k x rest ])
  list-Yields [] h k = h
  list-Yields (x ∷ xs) h k = k x xs

  with_state-Ends : (P : A → Type 0) (r : Step A) (s u : T) → Ends P (r, s) → Ends P (r, u)
  with_state-Ends P (done a) s u h = h
  with_state-Ends P (failed e) s u h = h
  with_state-Ends P unfinished s u h = h

  deferred-Yields :
      {P : A → Type 0} (f : T → Bool × T) {m : Run T A} → Yields P m → Yields P (deferred f m)
  unfolding deferred
  deferred-Yields {P = P} f {m = m} h = record {
    apply = λ s. with_state-Ends P (m s).0 (m s).1 (f (m s).1).1 (h.apply s);
  }

was_false : (b : Bool) → some_if b ≡ none → b ≡ false
was_false true e = absurd (some-ne-none _ e)
was_false false e = refl

module _ (S : System) where
  or_fail-Ends :
      {A : Type 0} (r : Option A) (s : S.State)
      → (r ≡ none → S.errno s % 2 ^ 8 ≢ 0)
      → Ends Anything (or_fail S r s)
  unfolding fail_errno or_fail pure
  or_fail-Ends (some a) s h = tt
  or_fail-Ends none s h = status_from_errno-IsError (S.errno s) (h refl)

  call-Yields :
      {A : Type 0} (f : S.State → Option A × S.State)
      → SetsErrno S.errno f
      → Yields Anything (call S f)
  unfolding call
  call-Yields f h = record { apply = λ s. or_fail-Ends (f s).0 (f s).1 (h s) }

  check-Yields :
      (f : S.State → Bool × S.State) → TestSetsErrno S.errno f → Yields Anything (check S f)
  unfolding check
  check-Yields f h = record {
    apply = λ s. or_fail-Ends (some_if (f s).0) (f s).1 (λ e. h s (was_false (f s).0 e));
  }

-- Every failed call leaves an error in `errno`.
pub record IsSystem (S : System) : Type 0 where
  pub opendir : (path : Text) → SetsErrno S.errno (λ s. S.opendir s path)
  pub lstat : (path : Text) → SetsErrno S.errno (λ s. S.lstat s path)
  pub readlink : (path : Text) (size : ℕ) → SetsErrno S.errno (λ s. S.readlink s path size)
  pub mknod : (path : Text) (mode dev : ℕ) → TestSetsErrno S.errno (λ s. S.mknod s path mode dev)
  pub mkdir : (path : Text) (mode : ℕ) → TestSetsErrno S.errno (λ s. S.mkdir s path mode)
  pub unlink : (path : Text) → TestSetsErrno S.errno (λ s. S.unlink s path)
  pub rmdir : (path : Text) → TestSetsErrno S.errno (λ s. S.rmdir s path)
  pub renameat2 :
      (from to : Text) (flags : ℕ) → TestSetsErrno S.errno (λ s. S.renameat2 s from to flags)
  pub truncate : (path : Text) (size : ℤ) → TestSetsErrno S.errno (λ s. S.truncate s path size)
  pub open_read : (path : Text) → SetsErrno S.errno (λ s. S.open_read s path)
  pub open_write : (path : Text) → SetsErrno S.errno (λ s. S.open_write s path)
  pub seek : (fd : ℕ) (offset : ℤ) → TestSetsErrno S.errno (λ s. S.seek s fd offset)
  pub read : (fd size : ℕ) → SetsErrno S.errno (λ s. S.read s fd size)
  pub write : (fd : ℕ) (bytes : List ℕ) → SetsErrno S.errno (λ s. S.write s fd bytes)
  pub utimensat :
      (path : Text) (atime mtime : Timespec)
      → TestSetsErrno S.errno (λ s. S.utimensat s path atime mtime)

-- What a handler of a request of the procedure `p` may reply.
abbrev pub Replies : {T : Type 0} → Procedure → Run T Response → Type 0
Replies p = Yields (λ v. Response.proc v ≡ p)

module _ (S : System) (honest : IsSystem S) where
  -- A call that tells only whether it was done, and its response.
  checked-Replies :
      (f : S.State → Bool × S.State) (v : Response)
      → TestSetsErrno S.errno f
      → Replies (Response.proc v) (check S f >> pure v)
  checked-Replies f v h = next-Yields (check-Yields S f h) (pure-Yields v refl)

  entry_of-Yields : (dir : ℕ) (name : Text) → Yields Anything (entry_of S dir name)
  unfolding entry_of
  entry_of-Yields dir name =
      if-Yields (text_eq name dot || text_eq name dot_dot) (pure-Yields _ tt) (
        bind-Yields (try-Yields _)
          (λ found. option-Yields found (pure-Yields _ tt) (λ st. pure-Yields _ tt)))

  list_entries-Yields : (fuel dir : ℕ) → Yields Anything (list_entries S fuel dir)
  unfolding list_entries
  list_entries-Yields zero dir = unfold run_out in record { apply = λ s. tt }
  list_entries-Yields (suc fuel) dir = bind-Yields (try-Yields _) (λ next.
      option-Yields next (pure-Yields _ tt) (λ name.
        bind-Yields (entry_of-Yields dir name)
          (λ found. bind-Yields (list_entries-Yields fuel dir) (λ rest. pure-Yields _ tt))))

  copy_loop-Yields :
      (fuel in_fd out_fd copied : ℕ) → Yields Anything (copy_loop S fuel in_fd out_fd copied)
  unfolding copy_loop
  copy_loop-Yields zero in_fd out_fd copied = unfold run_out in record { apply = λ s. tt }
  copy_loop-Yields (suc fuel) in_fd out_fd copied =
      bind-Yields (call-Yields S _ (honest.read in_fd copy_size)) (λ bytes.
        list-Yields bytes (pure-Yields _ tt) (λ b bs.
          bind-Yields (call-Yields S _ (honest.write out_fd (b ∷ bs)))
            (λ count. copy_loop-Yields fuel in_fd out_fd (copied + count))))

  copy_file_range-Replies :
      (fuel : ℕ) (from : Text) (from_offset : ℤ) (to : Text) (to_offset : ℤ) (size : ℕ)
      → Replies Procedure.copy_file_range
          (copy_file_range S fuel from from_offset to to_offset size)
  unfolding copy_file_range Response.proc
  copy_file_range-Replies fuel from from_offset to to_offset size =
      bind-Yields (call-Yields S _ (honest.open_read from)) λ in_fd. deferred-Yields _ (
        next-Yields (check-Yields S _ (honest.seek in_fd from_offset)) (
          bind-Yields (call-Yields S _ (honest.open_write to)) λ out_fd. deferred-Yields _ (
            bind-Yields (check-Yields S _ (honest.seek out_fd to_offset)) λ u.
              bind-Yields (copy_loop-Yields fuel in_fd out_fd 0) (λ copied. pure-Yields _ refl))))

  -- On a system whose failed calls leave an error in `errno`, a handler that ends has replied with a
  -- response of the procedure of its request, or with a status that the protocol knows and that is not the
  -- one of success: never with what `send_resp` refuses.
  pub handle-Replies : (fuel : ℕ) (r : Request) → Replies (proc r) (handle S fuel r)
  unfolding handle proc Response.proc listdir stat readlink mknod mkdir unlink rmdir rename truncate
      read write utimens
  handle-Replies fuel (Request.listdir path) =
      bind-Yields (call-Yields S _ (honest.opendir path)) (λ dir.
        deferred-Yields _
          (bind-Yields (list_entries-Yields fuel dir) (λ entries. pure-Yields _ refl)))
  handle-Replies fuel (Request.stat path) =
      bind-Yields (call-Yields S _ (honest.lstat path)) (λ found. pure-Yields _ refl)
  handle-Replies fuel (Request.readlink path) =
      bind-Yields (call-Yields S _ (honest.readlink path path_max)) (λ target. pure-Yields _ refl)
  handle-Replies fuel (Request.mknod path mode dev) =
      checked-Replies _ Response.mknod (honest.mknod path mode dev)
  handle-Replies fuel (Request.mkdir path mode) =
      checked-Replies _ Response.mkdir (honest.mkdir path mode)
  handle-Replies fuel (Request.unlink path) = checked-Replies _ Response.unlink (honest.unlink path)
  handle-Replies fuel (Request.rmdir path) = checked-Replies _ Response.rmdir (honest.rmdir path)
  handle-Replies fuel (Request.rename from to flags) =
      checked-Replies _ Response.rename (honest.renameat2 from to flags)
  handle-Replies fuel (Request.truncate path size) =
      checked-Replies _ Response.truncate (honest.truncate path size)
  handle-Replies fuel (Request.read path offset size) =
      bind-Yields (call-Yields S _ (honest.open_read path)) (λ fd. deferred-Yields _ (
        bind-Yields (check-Yields S _ (honest.seek fd offset))
          (λ u. bind-Yields (call-Yields S _ (honest.read fd size)) (λ bytes. pure-Yields _ refl))))
  handle-Replies fuel (Request.write path offset bytes) =
      bind-Yields (call-Yields S _ (honest.open_write path)) (λ fd. deferred-Yields _ (
        bind-Yields (check-Yields S _ (honest.seek fd offset)) (λ u.
          bind-Yields (call-Yields S _ (honest.write fd bytes)) (λ count. pure-Yields _ refl))))
  handle-Replies fuel (Request.utimens path atime mtime) =
      checked-Replies _ Response.utimens (honest.utimensat path atime mtime)
  handle-Replies fuel (Request.copy_file_range from from_offset to to_offset size) =
      copy_file_range-Replies fuel from from_offset to to_offset size
