-- ===== src/Examples.antt =====
-- Concrete states on which the code runs, and the theorems at them.
pub mod Machine
pub mod Blocks
pub mod Calls
pub mod Pools
pub mod Rings
pub mod Tables
pub mod Copies
pub mod Sizes
pub mod Listing
pub mod Lister
pub mod Leaving
pub mod Moving
pub mod Printing
pub mod Losing
pub mod Serving
