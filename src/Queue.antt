-- ===== src/Queue.antt =====
-- The queues of src/concurrent: the single-producer single-consumer and the multi-producer ring of
-- lockfree_queue.h and lockfree_queue_impl.h.
pub mod Mpmc
pub mod Spsc
pub mod Stealing
