-- ===== src/Domain.antt =====
-- internal/domain: the constants, the data types, and route selection.
pub mod Constants
pub mod Types
pub mod Email
pub mod Hash
pub mod Route
