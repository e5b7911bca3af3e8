-- ===== src/Lib.antt =====
-- MicroTrace: what the dashboard, frontend/src, keeps of the collector's messages, and what its views, its charts and
-- the mouse make of it; the design prototype, design_handoff_microtrace, with its simulation; and what the collector,
-- collector, works out, stores and sends of its connections.
--
-- The parts and their files:
--   Types           frontend/src/types.ts, the messages and the data of the page
--   Format          frontend/src/utils/format.ts, latencies as text and as a status
--   Socket          frontend/src/hooks/useWebSocket.ts: `on_message` is `onmessage` (with `handle_stats`,
--                   `handle_history`, `handle_resource`, `handle_remove` for its branches); Socket/Trace and
--                   Socket/Series read the state off the messages received, Socket/Invariant bounds it, Socket/Connection is
--                   `connect` with its timers
--   Mock            frontend/src/hooks/useMockData.ts: `tick` is the whole tick, `tick_service` and `tick_conn`
--                   its halves
--   Proto           design_handoff_microtrace/mt-data.js, the simulation that useMockData.ts was written after:
--                   Proto/Data is the script (`proto_tick` is its `tick`), Proto/Agree, Proto/Pass and Proto/Run compare
--                   it with the hook for a history point, a connection and a whole run; Proto/Page is mt-app.jsx (`mount` is its
--                   effect, `loop` and `cleanup` its timer), Proto/Page/Mount, Proto/Page/Loop and Proto/Page/Tweaked follow it,
--                   Proto/Page/View is what it draws; Proto/Views and Proto/Matrix are mt-views.jsx, Proto/Topology
--                   is mt-topology.jsx, Proto/Panels and Proto/Detail are mt-panels.jsx, Proto/Chart is mt-chart.jsx
--   Chart           frontend/src/components/chartShared.ts: wheel, drag, `applyData`, the labels of the time
--                   axis; of frontend/src/components/LatencyChart.tsx and frontend/src/components/ResourceChart.tsx,
--                   Chart/Latency is `calcSpikeBands` and `toUPlotData`, Chart/Canvas the life of a chart (`rebuild`,
--                   the effects as `mount`, `render`, `on_resize`, the tooltip as `on_hover`), Chart/Options what differs between
--                   the two; Chart/PanZoom, Chart/Live and Chart/Renders are about ranges, updates and new props
--   ListView        frontend/src/components/ConnectionListView.tsx: filter, counts, sorting, rows
--   Metrics         frontend/src/components/GlobalMetrics.tsx and frontend/src/components/TopBar.tsx
--   Matrix          frontend/src/components/HeatmapMatrixView.tsx
--   Topo            frontend/src/components/TopoGraph.tsx with frontend/src/constants/topology.ts: the mouse and
--                   the places of services; Topo/View is what it draws
--   Flow            frontend/src/components/TopologyGraph.tsx, a graph that the page no longer uses: its nodes, edges
--                   and effects
--   App             frontend/src/App.tsx, the selection and what the panel gets
--   Detail          frontend/src/components/DetailPanel.tsx, the range buttons and their requests; Detail/View is
--                   what it draws
--   Log             frontend/src/components/SpikeLog.tsx with frontend/src/constants/causes.ts, the event log
--   Collector       Collector/Ring and Collector/Stats are collector/stats/stats.go: the ring buffer (`addRTT` is
--                   `add`), `percentiles`, `updateFlowMdev`, `updateStableP99`, `isSpike`; Collector/Store is the buffer
--                   of collector/store/store.go with `WriteConn` and `flush`, on the arrays of Collector/Rows (`Db`
--                   says which calls of the database succeed in a flush);
--                   Collector/Hub is collector/hub/hub.go: the channel (`enqueue`), the loop of `Run` (`receive` and
--                   `deliver`), `ServeWs` and `close`;
--                   Collector/Tracker is `handleEvent` over all connections and flows, `sweepExpired`, `detectCause` and the
--                   report that `publishSnapshots` makes of a connection;
--                   Collector/Feed is what `Processor` keeps and broadcasts (`touch` is `getOrCreateConn`, `steps` a run of `Run`),
--                   `serve` what a page gets from `ServeWs` when it connects; Collector/Feed/Page and
--                   Collector/Feed/History join it to the handler of useWebSocket.ts
--   Common          what these share: dictionaries, sorting, keys of connections, the arithmetic of `number`
--   Fixtures        messages on which the tests run
-- The hook fills the state (`Dashboard`); App selects from it and hands it to the views; the views call App's
-- setters (`Action`). Theorems about a view on live data start from the messages (`Frame`, newest first).
--
-- How the code is read:
--   * A number is an element of `Arith`, a parameter: a carrier with the operations that the code uses. Theorems
--     that need an order assume `IsOrdered` (no NaN, which JSON cannot carry), and where they need more they say so
--     (`HasSigns`, `IsScaled`, `IsRandom`, `IsIndexed`). Counts and lengths are natural numbers.
--   * An object used as a dictionary is an association list (`Dict`); `insert` keeps the place of a key that is
--     there. JavaScript puts keys that look like integers first: no key of a connection does, and no
--     service is taken to be named so.
--   * `Array.prototype.sort` is a stable insertion sort; `localeCompare` and the order of code units are parameters.
--   * `Date.now()` and `Math.random()` are readings that come with each message or tick. A state update runs once,
--     when the message is handled: the page does not use StrictMode's second run.
--   * uPlot is the parameter `Uplot` with the laws `IsUplot`, and `Engine` with `IsEngine` where plots are made and
--     when hooks run matters; `Math.sin`, `cos`, `sqrt` and `pi` are parameters.
--   * In Go `uint64` is a natural number with its wrap-around written out, an array is a function of the index or a
--     list, an index out of range is `none`; in the prototype a read of a missing service throws and is `none`.
--   * Requests to the history API are answered by an arbitrary function, in any order.
-- All functions are total: the loops of the code run over lists and are structural recursion, and no fuel is used.
--
-- Not modelled: markup, styles and clocks; ViewSwitcher.tsx, StatCard.tsx and SectionHeader.tsx, which only print;
-- of the collector the callbacks of its store, the resolver, gRPC and SQLite; the agents and the scripts.
-- Collector/Feed takes the figures of a report as a parameter, no message to be dropped, and none to wait where a page
-- connects (Collector/Hub has both); Collector/Tracker works the figures out and broadcasts nothing.
pub mod Common
pub mod Types
pub mod Format
pub mod Socket
pub mod Chart
pub mod ListView
pub mod Metrics
pub mod Matrix
pub mod App
pub mod Topo
pub mod Flow
pub mod Detail
pub mod Log
pub mod Proto
pub mod Mock
pub mod Collector
mod Fixtures
