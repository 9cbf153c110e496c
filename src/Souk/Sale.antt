-- ===== src/Souk/Sale.antt =====
-- What the handlers of the marketplace promise together about a listing and its offers.
pub mod Single
pub mod Answered
pub mod Settled
pub mod History
pub mod Safety
pub mod Deals
pub mod Rows
pub mod Steps
pub mod Reachable
pub mod Race
pub mod Chains
pub mod Sound
mod Tests
