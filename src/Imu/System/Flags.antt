-- ===== src/Imu/System/Flags.antt =====
-- What holds of the flags of the core, and of where its threads stand, between any two steps.
mod Defs
mod Moves
mod Owner
pub use Defs.*
pub use Moves.*
pub use Owner.*
