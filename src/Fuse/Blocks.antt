-- ===== src/Fuse/Blocks.antt =====
-- The number of blocks that `getattr` tells.
use adbfsm.Prelude.{ℕ, ◌+◌, ◌*◌, ◌%◌, ◌/◌, ◌≡◌, ap, pos, arith}
use adbfsm.Tree.Data.{Stat}
use adbfsm.Fuse.Stat.{file_stat, blocks_of}

-- A file that has one byte more than `k` blocks of 512 bytes, and so takes `k + 1` blocks, is told to have
-- none.
pub no_blocks :
    (page_size k : ℕ) (s : Stat)
    → s.attributes.size ≡ pos (512 * k + 1)
    → ((file_stat page_size s).blocks ≡ pos 0) × ((512 * k + 1 + 511) / 512 ≡ k + 1)
unfolding file_stat blocks_of
no_blocks page_size k s e =
    let none_left : (512 * k + 1 + 511) % 512 ≡ 0 = omega arith in
    (rw e (ap pos none_left), omega arith)
