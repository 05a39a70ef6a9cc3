-- ===== src/Edits.antt =====
-- Edit requests: the operations (app/schemas/edit.py), the media rules that the API and the worker
-- share (app/services/media_rules.py) and the filters (app/worker/edit_ops).
pub mod Operation
pub mod Rules
pub mod Checking
pub mod Requests
pub mod Filters
pub mod Offers
pub mod AnyOrder
pub mod Chains
