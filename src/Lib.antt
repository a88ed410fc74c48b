-- ===== src/Lib.antt =====
-- sopdet collects an inventory of a host, delivers it to an ingest endpoint, and, as a device agent, runs
-- the PowerShell jobs that a Bifrost server hands out. This library models the parts of the Go program
-- that decide what is collected, sent, kept on the disk, run and reported.
--
-- Collection. A run plans its collectors (internal/collect/collect.go: Collect.Defs, with Collect.Laws) and builds a collection
-- with unique keys and fingerprints from the records of each (internal/schema: Schema.Types,
-- Schema.Fingerprint, Schema.Entity). Schema.Label and Schema.Keys are on the keys. The fingerprints of a
-- scan are its state, against which the next scan is a delta (internal/state/state.go: State.Delta and State.Storage;
-- State.Patch and State.Unchanged are on deltas). Config is internal/config/config.go. App.Scan is `Run` of
-- internal/app/run.go, which calls all of these and the delivery, with App.Budget for the budget of the payload and
-- App.Identity for the identity of the host; App.Largest and App.Trimmed are on the budget, App.Saved and App.Local on
-- what a scan does to the state. Parse and its modules are the parsers of internal/collect/assess_parse.go: Parse.Text
-- and Parse.Number what they share, Parse.Options configuration files, Parse.Jobs scheduled jobs and users,
-- Parse.Routes and Parse.Neighbors the tables of the network, Parse.Wifi wireless links, Parse.Tasks scheduled tasks,
-- accounts and restarts, Parse.System proxies and the rest, Parse.Versions dotted versions; Parse.Highest,
-- Parse.Placed and Parse.Carriage are on them. Parse.Software and Parse.Ports are internal/collect/linux.go.
--
-- Delivery. `Send` of internal/ingest/ingest.go splits an envelope into groups of entities (Ingest.Chunks), and
-- posts the request of each, or writes it into a spool directory that the next `Send` drains (Ingest.World,
-- Ingest.Send). Ingest.Partition is on the groups, Ingest.Post on one request, Ingest.Delivery and
-- Ingest.Lossless on what becomes of the requests, Ingest.Drained on the files of the spool, Ingest.Sent on the whole
-- of `Send`.
--
-- Progress. Progress is internal/progress/progress.go, and Ui.Server the page of internal/ui/server.go that shows the
-- events to viewers; Ui.Sublist and Ui.Replay are on what they see.
--
-- Agent (internal/agent). Agent.Key has the format of device keys (state.go), Agent.ServeConfig the layers of
-- the configuration (serveconfig.go), Agent.Identity.Defs how a start finds or enrolls its identity (state.go,
-- enroll.go, prepare.go), Agent.Runner.Stream the output of a job (the pumps of runner.go) and
-- Agent.Runner.Calls the order in which it is handed on, Agent.Client.Post,
-- Spool and Calls the device protocol (client.go), Agent.Loop.Defs the job from its claim to its report
-- (`Run` of runner.go, loop.go), Agent.Loop.Cancel the claim loop beside the
-- heartbeats and the shutdown, as steps in any order, with Agent.Loop.Race and Turn on the states they reach, and Agent.Hints the reconnects of the hint channel, with Agent.Socket its address (ws.go). Net holds the rule
-- on hosts that delivery and agent share. Agent.Identity.Laws and Restart are on the identity,
-- Agent.Runner.Account, Log and Numbering on the log of a job, Agent.Client.Retry, Durable, Report and Fence on
-- requests and on what becomes of logs and results, Agent.Loop.Laws and Silence on the report of a job.
--
-- Correspondence. A Go function is the function of the same name in snake_case; a method's receiver and what
-- it changes are a record that is passed on. A map is an association list with each key once
-- (Prelude.GoMap), and a `range` visits it in the order of the list, so that a theorem on every list holds
-- for every order. Go's int and durations are natural numbers where the code keeps them from being negative;
-- a limit that is not positive is 0, since the code treats all of those alike. The network is the list of the
-- replies to come, the clock that of its readings, and each operation of the disk may fail by a parameter.
-- The goroutines of a job's two pumps share locked state: a run is a list of reads and ticks in any order. A viewer's handler takes
-- events at any point of an emission.
-- The loops are structural recursion on the attempts, files, records, lines or events that are left, and the loop of
-- the budget on its own 40 rounds, so no bound or fuel is chosen. The parsers work on code points, so their texts are
-- valid UTF-8.
--
-- Parameters. encoding/json, SHA-256, gzip, net/url, uuid, the unicode tables, the operating system's processes
-- and the collectors of a platform. Waits are counted without their jitter, and a ResultPayload has no duration.
--
-- Not modelled: the other collectors of the platforms (internal/collect), the parsers that rest on regular expressions
-- alone, the HTTP side of ui, term, the commands under cmd, the drain of the spool by the heartbeats, and the
-- PowerShell collector. They are glue, output or calls of the system, or stand apart from the decisions above. A scan
-- reads the clock once for all collectors here.
--
-- Tests.Records, Tests.Delivery, Tests.Device, Tests.Jobs, Tests.Scans, Tests.Parsers,
-- Tests.Loops and Tests.Pages apply the theorems to concrete inputs.
pub mod Prelude
pub mod Schema
pub mod State
pub mod Config
pub mod Net
pub mod Ingest
pub mod Collect
pub mod Agent
pub mod App
pub mod Parse
pub mod Progress
pub mod Ui
pub mod Tests
