-- ===== src/Queue.antt =====
-- The queues of ihs/include: lock_queue.hpp, lq.hpp, q.hpp and kk.hpp, against one bounded queue.
pub mod Spec
pub mod Items
pub mod Modulo
pub mod Masked
pub mod Counter
pub mod Flagged
pub mod Cached
pub mod Counted
mod Tests
