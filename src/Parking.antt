-- ===== src/Parking.antt =====
-- The parking domain, internal/domains/parking: parking lots and their lanes.
pub mod Lot
pub mod Lane
pub mod LotDao
pub mod LaneDao
pub mod LotRepo
pub mod LaneRepo
pub mod LaneService
pub mod LotService
mod Tests
mod LaneTests
