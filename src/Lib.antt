-- ===== src/Lib.antt =====
-- The locate service: which measurement servers are near a client, and which of them are alive.
--
-- Servers ("instances") keep a websocket open to the service, register over it and report their
-- health. The service keeps what it knows of them in a map and in Redis, adds what Prometheus says of
-- them, and answers a client's request with up to four near servers, whose URLs carry access tokens.
--
--   Api          api/v2/api.go: the messages that instances send (Scanner: scanner.go)
--   Float        float64 as a sign and a magnitude: the comparisons that the code makes
--   Host, Url    the package m-lab/go/host and net/url, as interfaces
--   Memorystore  memorystore/client.go: Put, Del and GetAll over an interface of Redis
--                (Writes: Put; Scan: GetAll)
--   Tracker      heartbeat/heartbeat.go: the map of instances. Signals: constructPrometheusMessage;
--                Metrics: updateMetrics; Invariant: the keys of the map; Origins, Steps: where its
--                registrations come from, in any sequence of operations; Refresh, Laws:
--                what the methods do to its entries; Stored, RoundTrip: the client of Memorystore as
--                the tracker's store; Replicas: two trackers over one database
--   Location     heartbeat/location.go: Valid (isValidInstance), Filter (filterSites), Sort
--                (sortSites), Rank (rank), Pick (pickTargets), Nearest (Nearest)
--   Limits       limits/cron.go: whether an agent is limited at a time (Config: config.go)
--   Connection   connection/connection.go: the websocket of an instance, with reconnection (Greeting,
--                Contents: single calls; Steps: any sequence of them)
--   Instance     cmd/heartbeat/main.go: the program that runs beside a server. Loading, Loaded:
--                registration/registration.go; Announce: one round of its loop; Starting: the whole
--                run; Service: the run together with the loop of the service's handler
--   Health       cmd/heartbeat/health: the checks that make up the score of an instance
--   Siteinfo     siteinfo/siteinfo.go: the registered machines, filtered (Selection: what is returned)
--   Clientgeo    clientgeo: where a client is (First: locator.go; Coordinates, Fallbacks: appengine.go;
--                Bounds: user.go; Maxmind: maxmind.go)
--   Static       static/countries.go and static/regions.go: the tables, entry by entry, in files of
--                about a hundred entries
--   Handler      handler: Signals (prometheus.go), Heartbeats (heartbeat.go), Urls and Requests
--                (handler.go; Requests.Options: what a request asks for), Platform (the other
--                handlers of handler.go), Monitoring (monitoring.go)
--   Client       api/locate/client.go: the client of the HTTP API (Relay: what it makes of the answers)
--   Prelude      names of the libraries, Go's maps as association lists, results, permutations
--   Tests        sample inputs, and the theorems at them
--
-- How they interact: Handler.Requests calls Limits, Location.Nearest and Handler.Urls, in the order of
-- the handler Nearest, and Client reads what it answers; Location reads the instances that Tracker
-- keeps; Handler.Heartbeats and Handler.Signals call Tracker's methods, which write to a StoreClient,
-- the interface that Tracker.Stored fills with the client of Memorystore. Instance calls Connection and
-- sends the messages that Handler.Heartbeats reads; Instance.Service puts the two together.
--
-- State and operations. A struct is a record, a method a function from the record to the record and
-- what it returns. The map of the tracker is touched under its lock, so a method is one step, and the
-- sequences of steps in Tracker.Steps are the interleavings of connections, handlers and imports. A
-- connection is a function of the list of events that it delivers. A function that can panic returns an
-- Option. Functions and types have the source's names in lower case with underscores; a function that a
-- Go function contains as a block is a helper next to it.
--
-- Taken from outside as arguments, with what is documented of them as hypotheses: the order in which
-- range walks a map (some permutation, or an order that visits the same keys), random numbers (indices
-- in range), sort.Slice (sorts where the order is a strict weak one), host.Parse, url.Parse, path,
-- strconv, the haversine distance, jwt signing, Redis, the package redigo and the network to it, the
-- Prometheus client, the cron expressions, cmp.Equal (what it reports as equal is equal), encoding/json
-- (what is marshalled is unmarshalled again), the Maxmind database and its archive, net.ParseIP.
--
-- Numbers. Times and durations are nanoseconds in ℕ, from Go's zero time. Counters and indices are
-- ℕ; none of them comes near a machine word. A float64 is only compared, never computed with.
--
-- Fuel. GetAll runs on fuel for the replies to SCAN, and a reply per page is enough, which its theorem
-- shows. All other loops are structural.
--
-- Not modelled: metrics other than the two gauges that the code counts with, logging, HTTP and
-- websocket transport, the encodings themselves (JSON and YAML), the wiring in locate.go, the signing
-- keys (secrets), the metadata of a GCP machine, the command monitoring-token, and the headers of a
-- response. In Handler.Requests the client locator is an argument.
pub mod Prelude
pub mod Float
pub mod Api
pub mod Host
pub mod Url
pub mod Memorystore
pub mod Tracker
pub mod Limits
pub mod Siteinfo
pub mod Health
pub mod Connection
pub mod Instance
pub mod Clientgeo
pub mod Static
pub mod Location
pub mod Handler
pub mod Client
pub mod Tests
