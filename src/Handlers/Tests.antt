-- ===== src/Handlers/Tests.antt =====
-- The handlers on a concrete system.
use adbfsm.Prelude.{
  ℕ, ◌==◌, ◌≡◌, refl, ◌%◌, ◌^◌, ◌≢◌, true, false, none, some, [], ◌∷◌, if◌then◌else◌, pos, arith,
  length,
}
use adbfsm.Rpc.Request
use adbfsm.Rpc.Response
use adbfsm.Rpc.Response.{Stat}
use adbfsm.Rpc.Payload.{Procedure}
use adbfsm.Handlers.{
  System, done, failed, ◌>>=◌, ◌>>◌, pure, call, check, or_fail, fail_errno, deferred, try,
}
use adbfsm.Handlers.Calls.{handle, list_entries, entry_of}
use adbfsm.Handlers.Replies.{IsSystem, Replies, handle-Replies}
use adbfsm.Handlers.Copies.{whole_input}

abbrev a_stat : Stat
a_stat = record {
  size = pos 5;
  links = 1;
  mtime = record { tv_sec = pos 0; tv_nsec = pos 0 };
  atime = record { tv_sec = pos 0; tv_nsec = pos 0 };
  ctime = record { tv_sec = pos 0; tv_nsec = pos 0 };
  mode = 33188;
  uid = 0;
  gid = 0;
}

-- A system with one file of three bytes, that is read in one part, and one directory with two names. The
-- state counts the reads; no node can be made.
abbrev small : System
small = record {
  State = ℕ;
  errno = λ s. 30;
  opendir = λ s path. (some 1, s);
  readdir = λ s dir.
      if s == 0 then (some (b'.' ∷ []), 1) else if s == 1 then (some (b'x' ∷ []), 2) else (none, s);
  closedir = λ s dir. (true, s);
  fstatat = λ s dir name. (some a_stat, s);
  lstat = λ s path. (some a_stat, s);
  readlink = λ s path size. (none, s);
  mknod = λ s path mode dev. (false, s);
  mkdir = λ s path mode. (false, s);
  unlink = λ s path. (false, s);
  rmdir = λ s path. (false, s);
  renameat2 = λ s from to flags. (false, s);
  truncate = λ s path size. (false, s);
  open_read = λ s path. (some 3, s);
  open_write = λ s path. (some 4, s);
  close = λ s fd. (true, s);
  seek = λ s fd offset. (true, s);
  read = λ s fd size. if s == 0 then (some (7 ∷ 8 ∷ 9 ∷ []), 1) else (some [], s);
  write = λ s fd bytes. (some (length bytes), s);
  utimensat = λ s path atime mtime. (false, s);
}

known : (s : ℕ) → 30 % 2 ^ 8 ≢ 0
known s = λ e. absurd (omega (arith, e))

small-IsSystem : IsSystem small
small-IsSystem = record {
  opendir = λ path s h. known s;
  lstat = λ path s h. known s;
  readlink = λ path size s h. known s;
  mknod = λ path mode dev s h. known s;
  mkdir = λ path mode s h. known s;
  unlink = λ path s h. known s;
  rmdir = λ path s h. known s;
  renameat2 = λ from to flags s h. known s;
  truncate = λ path size s h. known s;
  open_read = λ path s h. known s;
  open_write = λ path s h. known s;
  seek = λ fd offset s h. known s;
  read = λ fd size s h. known s;
  write = λ fd bytes s h. known s;
  utimensat = λ path atime mtime s h. known s;
}

handle-Replies_example : Replies Procedure.mkdir (handle small 5 (Request.mkdir (b'/' ∷ []) 493))
unfolding Request.proc
handle-Replies_example = handle-Replies small small-IsSystem 5 (Request.mkdir (b'/' ∷ []) 493)

-- The error of a system that can only be read is no status of the protocol.
read_only : (handle small 5 (Request.mkdir (b'/' ∷ []) 493) 0).0 ≡ failed 22
unfolding handle ◌>>=◌ ◌>>◌ check or_fail fail_errno
read_only = refl

list_two :
    (handle small 5 (Request.listdir (b'/' ∷ [])) 0).0
    ≡ done (Response.listdir ((b'x' ∷ [], a_stat) ∷ []))
unfolding handle ◌>>=◌ call or_fail pure deferred list_entries entry_of try
list_two = refl

-- One byte is asked for, and three are copied.
whole_input_example :
    (handle small 2 (Request.copy_file_range (b'/' ∷ []) (pos 0) (b'/' ∷ b'x' ∷ []) (pos 0) 1) 0).0
    ≡ done (Response.copy_file_range 3)
whole_input_example =
    whole_input small 2 (b'/' ∷ []) (pos 0) (b'/' ∷ b'x' ∷ []) (pos 0) 1 3 4 0 0 0 0 0 1
      ((7 ∷ 8 ∷ 9 ∷ [], 3) ∷ []) refl refl refl refl (7, 8 ∷ 9 ∷ [], 1, 1, refl, refl, refl, refl)
      (omega arith)
