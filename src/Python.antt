-- ===== src/Python.antt =====
-- What the program takes from Python itself: dynamic values, exceptions, and code that may raise.
mod Values
mod Raise
pub mod Results
pub mod Io
pub mod Paths
pub mod Disk
pub use Values.*
pub use Raise.*
