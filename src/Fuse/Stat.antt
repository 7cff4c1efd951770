-- ===== src/Fuse/Stat.antt =====
-- The `struct stat` that `getattr` fills in (madbfs/src/operations.cpp).
use adbfsm.Prelude.{ℕ, suc, ◌+◌, ◌-◌, ◌%◌, ℤ, pos, negsuc, ltb, if◌then◌else◌}
use adbfsm.Rpc.Request.{Timespec}
use adbfsm.Tree.Data.{Stat}

pub record FileStat : Type 0 where
  pub ino : ℕ
  pub mode : ℕ
  pub nlink : ℕ
  pub uid : ℕ
  pub gid : ℕ
  pub size : ℤ
  pub blksize : ℕ
  pub blocks : ℤ
  pub atim : Timespec
  pub mtim : Timespec
  pub ctim : Timespec

-- `(size + 511) % 512`; the remainder has the sign of the sum.
unfoldable pub blocks_of : ℤ → ℤ
blocks_of (pos n) = pos ((n + 511) % 512)
blocks_of (negsuc n) =
    if ltb n 511
    then pos (511 - suc n)
    else (let rest = (suc n - 511) % 512 in if ltb 0 rest then negsuc (rest - 1) else pos 0)

unfoldable pub file_stat : ℕ → Stat → FileStat
unfolding blocks_of
file_stat page_size s = record {
  ino = s.id;
  mode = s.attributes.mode;
  nlink = s.attributes.links;
  uid = s.attributes.uid;
  gid = s.attributes.gid;
  size = s.attributes.size;
  blksize = page_size;
  blocks = blocks_of s.attributes.size;
  atim = s.attributes.atime;
  mtim = s.attributes.mtime;
  ctim = s.attributes.ctime;
}
