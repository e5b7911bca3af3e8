-- ===== src/Proto.antt =====
-- design_handoff_microtrace/mt-data.js: the simulated collector of the design prototype, which useMockData.ts was written
-- after. `Data` is the prototype, `Agree` and `Run` compare the two.
pub mod Data
pub mod Agree
pub mod Pass
pub mod Run
pub mod Page
pub mod Views
pub mod Matrix
pub mod Topology
pub mod Panels
pub mod Detail
pub mod Chart
mod Tests
mod PageTests
