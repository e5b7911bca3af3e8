-- ===== src/Mock.antt =====
-- frontend/src/hooks/useMockData.ts: the simulated collector. `Math.random` and `Date.now` answer from two streams;
-- each call takes the next place. `Service` and `Conn` are the two halves of a tick, `Tick` is the whole.
pub mod Chance
pub mod Service
pub mod Conn
pub mod Tick
pub mod Percentile
pub mod History
pub mod Timers
pub mod Stress
pub mod Events
pub mod Ends
mod Tests
