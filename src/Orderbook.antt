-- ===== src/Orderbook.antt =====
-- One instrument's order book: include/Orderbook.h and src/Orderbook.cpp.
pub mod PriceLevels
pub mod Memory
pub mod Pool
pub mod Links
pub mod Book
pub mod Feed
pub mod Segments
pub mod Relinking
pub mod Queues
pub mod Linking
pub mod Unlinking
pub mod Reducing
pub mod Allocation
pub mod PoolInvariant
pub mod Access
pub mod Chains
pub mod Joins
pub mod Entries
pub mod Invariant
pub mod Removal
pub mod Reduction
pub mod Placement
pub mod Adding
pub mod Rejoining
pub mod Requeueing
pub mod Priority
pub mod Selecting
pub mod Refinement
pub mod Appending
pub mod Filling
pub mod Sweeping
pub mod Fronts
pub mod LevelFill
pub mod Counters
pub mod Emptied
pub mod Reaction
pub mod Trading
pub mod Application
pub mod Reading
