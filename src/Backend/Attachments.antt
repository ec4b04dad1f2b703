-- ===== src/Backend/Attachments.antt =====
-- Attachments: what may be uploaded, how it is cut into chunks, where it is kept, and the routes.
pub mod Access
pub mod Chunks
pub mod Cleanup
pub mod Downloads
pub mod Finished
pub mod Policy
pub mod Routes
pub mod Store
pub mod Uploads
