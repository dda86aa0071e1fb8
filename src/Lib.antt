-- ===== src/Lib.antt =====
-- MechMind: on-board diagnostics and their explanation.
--
-- The program reads a car's trouble codes over an ELM327 adapter. `pkg/obd` drives the adapter on a
-- serial line and decodes its answers; `cmd/bayui` and `cmd/obdctl` choose the adapter's port and
-- run scans through it, and `internal/diagnosis` draws findings from a scan. `cmd/bayui` is a local
-- server with one scan job at a time, which uploads the result to the API server (`internal/api`, over
-- `internal/store`); `internal/explain` makes of the findings a small packet and a narrative.
--
-- The parts and their files:
--   pkg/obd/codes.go      DecodeDTCs, DescribeCode and their helpers: Obd/Codes
--   pkg/obd/usb.go        extractVIN: Obd/Vin; the map of ReadDTCs: Obd/Dtcs; banners, protocols,
--                         waits and baud rates: Obd/Elm; the driver itself: Obd/Usb
--   pkg/obd/detect.go     the identity of USB ports and their labels, with the choice of a port by
--                         firstELMPath (cmd/bayui/server.go) and by main (cmd/obdctl/main.go): Obd/Detect
--   pkg/obd/types.go, pkg/obd/snapshot.go  the records of a scan: Obd/Types; the interface of
--                         adapters, Scan and linkConfidence: Obd/Scan
--   pkg/obd/pids.go       the decoders of live data: Obd/Pids; ReadLiveSnapshot: Obd/Usb/Live
--   pkg/obd/mock.go       the simulated adapter: Obd/Mock
--   internal/diagnosis/engine.go  Analyze: Diagnosis, its rules in Diagnosis/Rules and Diagnosis/Samples,
--                         the whole in Diagnosis/Analyze
--   internal/explain/packet.go, internal/explain/narrative.go  BuildPacket: Explain/Packet; the
--                         narrator and its cache: Explain/Narrator
--   cmd/bayui/server.go   the data: Bay; the operations on the job: Bay/Jobs; apiJSON and the calls of
--                         the API: Bay/Client; runScan: Bay/Run; the handlers: Bay/Handlers; how
--                         handlers and scans interleave: Bay/Machine
--   internal/store/store.go  settings, technicians and organizations: Store/Accounts, with
--                         registration in Store/Accounts/Register;
--                         the rows of scans and vehicles: Store/Tables; CreateScan: Store/Sessions/Make;
--                         the scans that are read: Store/Sessions/Read; ExplainCode and
--                         DTCCoOccurrence: Store/Knowledge, Store/Knowledge/Explain; the interface of
--                         the handlers, filled by the store: Store/Sessions/Serve
--   internal/api/server.go, internal/auth/auth.go  the handlers: Api/Accounts and Api/Scans; the
--                         routes with requireAuth and requireRole: Api/Routes; explainCode: Api/Explain
--   internal/store/enrichment.go  the queue of enrichment jobs: Enrichment; vehicles and recalls:
--                         Store/Recalls
--   internal/enrichment/worker.go  tick, Process and seedCatalog: Enrichment/Worker; vinDecode and
--                         recallsMMY: Enrichment/Decode, Enrichment/Decode/Work; EnqueueSeed and
--                         EnqueueVINDecode: Enrichment/Enqueue
--   internal/enrichment/nhtsa.go  the client of NHTSA's services: Enrichment/Nhtsa, Enrichment/Nhtsa/Methods
--   internal/config/config.go, internal/auth/auth.go, cmd/api/main.go  the settings: Start/Settings; the
--                         manager of tokens: Start/Auth; the start of the server: Start
--   internal/market/nigeria.go  the scope of the market: Enrichment/Market
--
-- Text is a list of bytes. Go's strings.ToUpper and its kin are modelled on ASCII letters and ASCII
-- space. A nil pointer, error or map is `none`, and an error is its text with what errors.Is finds
-- in its chain (Obd/Usb/Err).
--
-- The driver (Obd/Usb) is state passing: a method takes the fields of USBAdapter with a world and
-- returns its result with the new ones (Obd/Usb/State). What the driver calls outside the
-- repository, the serial library, the clock, os.Stat, the context and the progress callback, are
-- the fields of the record `Line` (Obd/Usb/Line), a parameter of every method. Of these calls one
-- law is asked: a sleep that is not cut short takes its time. A command's goroutine and its `select`
-- are one call of `session`, which says what the reads brought and which case was taken. Locks are
-- left out, since a driver is used by one goroutine at a time; so is the buffered reader, which is
-- never read. The wait for a port that comes back runs on 32 turns of fuel: each turn sleeps 100 ms
-- and the wait ends after 3 seconds. The %q of an error text is the parameter `quote`.
--
-- Scan (Obd/Scan) is written over a record of an adapter's operations, `Adapter`, which the USB driver
-- (Obd/Usb/Adapter) and the simulated adapter (Obd/Mock) fill. float64 is the parameter `Floats`
-- (Base/Float), of which the only law asked is that whole literals compare as their numbers. A map is
-- the list of its entries, and times and durations are left out.
--
-- In the engine fmt's %.df and Sscanf's %f are parameters too, a confidence is a natural number, as
-- it is in every rule, and the counts of SQL are natural numbers.
--
-- The local server (Bay) keeps the jobs made so far in a list, and a pointer to a job is a position in
-- it. A handler is a function of the world, which holds the server; the file of the token, JSON, HTTP
-- and the clock are the record `Host` (Bay/Client), of which is asked that what is put in the server
-- is there and that the token's file is not part of it. Bay/Machine cuts handlers and runScan at their
-- locks: its steps are the stretches under one lock, in any order. A run of runScan that panics ends the
-- program and has no world after it.
--
-- A statement of SQL (Store) is its effect on the rows, or the error that the parameter `Postgres` gives
-- for its number; the errors of unique keys are written out. Rows keep the order in which they were
-- made. A transaction that fails gives back the rows from before it. The JWT library, bcrypt and UUIDs
-- are parameters; a request to the API server comes with its time and its header. The handlers are written
-- over records of the queries that they use, which Store/Sessions/Serve and Store/Knowledge/Explain fill.
--
-- The rows of scans, vehicles, articles and recalls (Store/Tables) are kept apart from those of accounts,
-- with a count of statements of their own. A check or a reference that refuses a row is a failing
-- statement; primary and unique keys are written out. A join is the list of the pairs that it makes, ORDER
-- BY is a sort by insertion (Base/Sort), and LIMIT takes the first rows; rows of equal rank keep their
-- order, which PostgreSQL leaves open. JSON in columns, the clock, the time that TIMESTAMPTZ keeps of a
-- time, the collation and the form of a date are the record `Server`.
--
-- The queue of jobs is modelled the same way (Enrichment). The worker is written over a record of the work
-- of a job, `Work`, which Enrichment/Decode/Work fills; the network is the record `Network`
-- (Enrichment/Nhtsa), and the list of the market's models is a parameter. The years of the seed run on 15
-- turns of fuel, and 2010 to 2024 by steps of 2 takes eight.
--
-- The JWT library is the record `Jwt` (Start/Auth), of which is asked that a signed token is parsed with the
-- same secret until it expires, and not after.
--
-- Not modelled: the web page and the entry points but for the start of the API server; the printing of
-- answers as JSON, CORS and logging.

pub mod Base
pub mod Text
pub mod Obd
pub mod Diagnosis
pub mod Explain
pub mod Http
pub mod Bay
pub mod Store
pub mod Api
pub mod Enrichment
pub mod Start
mod Tests
