-- ===== src/Fuse/Calls.antt =====
-- The FUSE operations (madbfs/src/operations.cpp). Each returns the number that it gives to FUSE, and what
-- it writes into its arguments. `hops` and `depth` are fuel, for links and for the depth of a node.
use adbfsm.Prelude.{
  ℕ, ◌-◌, ℤ, pos, int_of, Option, none, some, List, length, drop, ltb, if◌then◌else◌,
}
use adbfsm.Split.{Text}
use adbfsm.FilePath.{FilePath, fullpath}
use adbfsm.Rpc.Request.{Timespec}
use adbfsm.Cache.State.{ok, err}
use adbfsm.Tree.Exec.{Remote, done, Op, ◌>>=◌, pure, fail, attempt}
use adbfsm.Tree.Node.{build_path}
use adbfsm.Tree.Files
use adbfsm.Fuse.{fuse_err, to_i32, with_ifdir, count_or, on_path, returns, hands_out}
use adbfsm.Fuse.Stat.{FileStat, file_stat}

-- `ENAMETOOLONG`
abbrev pub filename_too_long : ℕ
filename_too_long = 36

module _ {R : Remote} where
  unfoldable pub page_size : Op R ℕ
  page_size t = (done (t.cache.page_size), t)

  -- The target without its first slash, if it fits into the buffer with the zero behind it.
  unfoldable pub link_text : ℕ → FilePath → Op R Text
  unfolding fullpath
  link_text size target =
      if ltb (length (fullpath target) - 1) size
      then pure (drop 1 (fullpath target))
      else fail filename_too_long

module _ {R : Remote} (hops : ℕ) where
  unfoldable pub getattr : Text → Op R (ℤ × Option FileStat)
  unfolding on_path hands_out Files.getattr page_size file_stat
  getattr path =
      hands_out
        (on_path path (Files.getattr hops) >>= λ s. page_size >>= λ size. pure (file_stat size s))

  unfoldable pub readlink : ℕ → Text → ℕ → Op R (ℤ × Option Text)
  unfolding on_path hands_out Files.readlink build_path link_text
  readlink depth path size = hands_out (
      on_path path (Files.readlink hops) >>= λ node.
      build_path depth node >>= λ target. link_text size target)

  unfoldable pub mknod : Text → ℕ → ℕ → Op R ℤ
  unfolding on_path returns Files.mknod
  mknod path mode dev = returns (on_path path (λ p. Files.mknod hops p mode dev))

  unfoldable pub mkdir : Text → ℕ → Op R ℤ
  unfolding on_path returns Files.mkdir with_ifdir
  mkdir path mode = returns (on_path path (λ p. Files.mkdir hops p (with_ifdir mode)))

  unfoldable pub unlink : Text → Op R ℤ
  unfolding on_path returns Files.unlink
  unlink path = returns (on_path path (Files.unlink hops))

  unfoldable pub rmdir : Text → Op R ℤ
  unfolding on_path returns Files.rmdir
  rmdir path = returns (on_path path (Files.rmdir hops))

  unfoldable pub rename : Text → Text → ℕ → Op R ℤ
  unfolding on_path returns Files.rename
  rename from to flags = returns (on_path from (λ p. on_path to (λ q. Files.rename hops p q flags)))

  unfoldable pub truncate : Text → ℤ → Op R ℤ
  unfolding on_path returns Files.truncate
  truncate path size = returns (on_path path (λ p. Files.truncate hops p size))

  -- `fi->fh` is the descriptor.
  unfoldable pub open_file : Text → ℤ → Op R (ℤ × Option ℕ)
  unfolding on_path hands_out Files.open_file
  open_file path flags = hands_out (on_path path (λ p. Files.open_file hops p flags))

  -- The count, and the buffer as a `read` that is done leaves it.
  unfoldable pub read : Text → ℕ → List ℕ → ℤ → Op R (ℤ × Option (List ℕ))
  unfolding on_path Files.read to_i32 fuse_err
  read path fd out offset =
      attempt (on_path path (λ p. Files.read hops p fd out offset)) >>= λ result. elim result [
        | ok (n, out') ↦ pure (to_i32 n, some out')
        | err e ↦ pure (fuse_err e, none)
      ]

  unfoldable pub write : Text → ℕ → List ℕ → ℤ → Op R ℤ
  unfolding on_path Files.write count_or to_i32
  write path fd bytes offset =
      attempt (on_path path (λ p. Files.write hops p fd bytes offset)) >>= λ result.
      pure (count_or to_i32 result)

  unfoldable pub flush : Text → ℕ → Op R ℤ
  unfolding on_path returns Files.flush
  flush path fd = returns (on_path path (λ p. Files.flush hops p fd))

  unfoldable pub release : Text → ℕ → Op R ℤ
  unfolding on_path returns Files.release
  release path fd = returns (on_path path (λ p. Files.release hops p fd))

  -- The names that the filler gets.
  unfoldable pub readdir : Text → Op R (ℤ × Option (List Text))
  unfolding on_path hands_out Files.readdir
  readdir path = hands_out (on_path path (Files.readdir hops))

  unfoldable pub utimens : Text → Timespec → Timespec → Op R ℤ
  unfolding on_path returns Files.utimens
  utimens path atime mtime = returns (on_path path (λ p. Files.utimens hops p atime mtime))

  unfoldable pub copy_file_range : Text → ℕ → ℤ → Text → ℕ → ℤ → ℕ → Op R ℤ
  unfolding on_path Files.copy_file_range count_or int_of
  copy_file_range from from_fd from_offset to to_fd to_offset size =
      attempt (
        on_path from (λ p.
          on_path to
            (λ q. Files.copy_file_range hops p from_fd from_offset q to_fd to_offset size)))
      >>= λ result. pure (count_or int_of result)

module _ {R : Remote} where
  unfoldable pub access : Text → ℕ → Op R ℤ
  access path mask = pure (pos 0)
