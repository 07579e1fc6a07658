-- ===== src/Rosbridge/Types.antt =====
-- rosbridge/types.go: the records and their zero values, passed on.
mod Messages
mod Zero
unfoldable pub use Messages.*
pub use Zero.*
