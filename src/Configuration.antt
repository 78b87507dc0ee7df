-- ===== src/Configuration.antt =====
-- internal/config: the configuration that the program starts with.
mod Settings
mod Validation
pub mod Usable
unfoldable pub use Settings.*
unfoldable pub use Validation.*
