-- ===== src/Queue.antt =====
-- The queue of collection tasks: `CollectionTaskRepository` of db/repositories.py over the table
-- `collection_tasks` of db/models.py.
pub mod Types
pub mod Table
pub mod Enqueue
pub mod Lease
pub mod Samples
