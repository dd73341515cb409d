-- ===== src/Control/Keeping.antt =====
-- `Evolves` for the methods of the loop and for the requests: one module for each group of methods.
pub mod Moving
pub mod Entering
pub mod Stepping
pub mod Removing
pub mod Looking
pub mod Turning
pub mod Asking
pub mod Deciding
pub mod Carrying
pub mod Listing
pub mod Passing
