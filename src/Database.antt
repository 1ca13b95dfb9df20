-- ===== src/Database.antt =====
-- The rows that the billing services read and write (database/models.py), the session's state,
-- and the session as a monad with exceptions (database/connection.py).
mod Enums
mod Rows
mod Store
mod Queries
mod Frame
pub use Enums.*
pub use Rows.*
unfoldable pub use Store.*
unfoldable pub use Queries.*
pub use Frame.*
