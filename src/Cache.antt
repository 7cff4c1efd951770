-- ===== src/Cache.antt =====
-- The page cache (madbfs/src/data/cache.cpp, madbfs/include/madbfs/data/cache.hpp), as its operations
-- run one after the other: none starts while another waits for the device, so the queue of pages that
-- are on the way is empty, and `wait_all` runs the pages of a request in order.
mod Tests
pub mod Page
pub mod State
pub mod Spans
pub mod Access
pub mod Flush
pub mod Truncate
pub mod Evict
pub mod Sizes
pub mod Maps
pub mod Consistent
