-- ===== src/Buffer/Queue.antt =====
-- BufferQueue.cpp. Each function is what its C++ counterpart does while the locks that it takes are
-- held; `Current` and the entries of the two lists are never null between operations.
pub mod State
pub mod Pool
pub mod Lifecycle
pub mod Ops
pub mod Stream
pub mod Invariant
pub mod History
pub mod SoftFlush
pub mod Supply
pub mod Overtaking
pub mod Closing
