-- ===== src/Documents.antt =====
-- modules/documents: the folders of a workspace, its documents and who may read them.
pub mod State
pub mod Reading
pub mod Folders
pub mod Subtree
pub mod FolderRows
pub mod Forest
pub mod Tree
pub mod Moves
pub mod FolderRequests
pub mod Descent
pub mod Cascade
pub mod Uploads
pub mod Capacity
pub mod Projection
pub mod Lineage
pub mod Preference
pub mod Promotion
pub mod AclChange
pub mod FailClosed
pub mod Serving
pub mod Stale
pub mod Sweep
pub mod Deletion
