-- ===== src/Tree.antt =====
-- The decision trees of utils/tree/tree.go.
pub mod Node
pub mod Walk
pub mod Shape
pub mod Expand
pub mod Search
pub mod Index
pub mod Under
pub mod RoundTrip
pub mod Inverse
pub mod Traverse
pub mod Sound
pub mod Validated
pub mod Maps
pub mod Replace
pub mod Latest
mod Downgrade
mod Tests
