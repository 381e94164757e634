-- ===== src/Trace.antt =====
-- Track and trace, trackAndTrace/frontend/src.
pub mod TokenIdU64
pub mod Contract
pub mod Forms
pub mod CreatedItem
pub mod ChangeStatus
pub mod Explorer
