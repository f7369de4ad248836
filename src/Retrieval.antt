-- ===== src/Retrieval.antt =====
-- modules/retrieval: the points of the vector store and who may find them.
pub mod Points
pub mod Filter
pub mod Access
pub mod Search
pub mod Reading
pub mod PinnedReads
pub mod Chunks
pub mod Backing
pub mod Hidden
pub mod Confined
pub mod Memory
pub mod Maintenance
