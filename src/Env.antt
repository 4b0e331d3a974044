-- ===== src/Env.antt =====
-- The data of the runtime: core/env.h, core/io_uring.h, core/string.h.
mod Events
mod Requests
mod State
pub use Events.*
pub use Requests.*
pub use State.*
