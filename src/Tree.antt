-- ===== src/Tree.antt =====
-- The file tree of the client (madbfs/src/tree/node.cpp, madbfs/src/tree/file_tree.cpp and their headers in
-- madbfs/include/madbfs/tree). Operations run one after the other.
pub mod Data
pub mod Exec
pub mod Node
pub mod Calls
pub mod Paths
pub mod Files
pub mod Grows
pub mod Lookups
pub mod Build
pub mod Reach
pub mod Agree
pub mod Descriptors
mod Tests
pub mod Example
pub mod Times
pub mod Moves
pub mod Exchange
