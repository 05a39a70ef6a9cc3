-- ===== src/Api.antt =====
-- app/api: the routes on jobs, over the repository, the media rules and the storage.
pub mod Shown
mod Roots
pub mod Visible
pub mod EditRoute
pub mod EditOutcome
pub mod Requested
pub mod OfferedEdits
pub mod RetryRoute
pub mod RetryOutcome
pub mod TrashTrip
pub mod Cleanup
pub mod HlsRoute
pub mod HlsSafe
pub mod Cleaned
