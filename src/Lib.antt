-- ===== src/Lib.antt =====
-- The collector of OneFS partitioned performance statistics, goppstats: its client of the
-- cluster's API, the results it reads, the back ends that write or expose them, the loops that drive
-- both, and the program's configuration, logging, reload and end.
--
-- The parts and their files:
--   - Prelude: lists, dictionaries, integers, results and texts that the parts share. A Go map is an
--     association list; the order of its entries stands for the order in which `range` visits it.
--   - Api (isilon_api.go): Api/Types has `DsInfoEntry`, `DsInfo` and `PPStatResult`; Api/Json the values that
--     JSON decoding gives. Api/Client has the client's state (`Cluster`) and the network it works on (`Net`);
--     Api/Client/Session is `initialize` and `Authenticate`, Api/Client/Get `newGetRequest` and `restGet`,
--     Api/Client/Queries `Connect`, `GetClusterConfig`, `GetDataSetInfo`, `GetExportPathByID` and
--     `GetPPStats`; Api/Client/Queries/Connected says what a connected client is, and
--     Api/Client/Cancelled what requests do once their context is cancelled.
--   - Backend (backend.go): the names of fields and workload types, Backend/Exports the map of NFS exports,
--     Backend/Fields `fieldsForPPStat`, Backend/Tags `tagsForPPStat`. The tags ask the cluster for the path
--     of an export through the interface `ExportApi`, which Api/Client/Queries fills.
--   - Prometheus (prometheus.go): the sink's state. Prometheus/Datasets is `makePromDataset`,
--     `makePromMetrics`, `CreateDataset`, `ClearDataset` and `UpdateDatasets`; Prometheus/Samples
--     `addSample` and `addMetricFamily`; Prometheus/SampleId `CreateSampleID`; Prometheus/Expire `Expire`;
--     Prometheus/Collect `Collect`; Prometheus/Write `WritePPStats`. The files below these prove what is
--     said of them. Prometheus/Spec is the sink without its representation: slots by number, samples by
--     metric name and sample id; Prometheus/Spec/Runs compares the two over any sequence of calls.
--     Prometheus/Scraped follows a result from its write to a scrape. Prometheus/Server is `auth`, the
--     routes, the home page, `Connect` and `Init`; Prometheus/Server/Discovery `startPromSdListener` and
--     `ServeHTTP`.
--   - Influx (influxdb.go, influxdbv2.go): Influx/V1 and Influx/V2 are `Init` and `WritePPStats` of the two
--     back ends, each with the points that it makes, over the client libraries, of which the first may
--     refuse a point; Influx/Agree compares them.
--   - Logging (logging.go): `ParseLevel` and the names of the levels; Logging/Setup is `setupLogging` and the
--     early logging.
--   - Config (config.go): the structures of the configuration file; Config/Read is `validateConfigVersion`,
--     `readConfig`, `mustReadConfig` and `secretFromEnv`, over TOML decoding and the environment.
--   - ConfigWatcher (config_watcher.go): the start of the watcher, the cases of its `select`, and the relation
--     `Step` of the goroutine alone, which takes any case that is ready: an event counts from when it is
--     taken. The events that wait are in Main/Reload.
--   - ExtNet (extnet.go): the choice of an address to listen on, over the interfaces of the host.
--   - Main (main.go, statssink.go): Main/Cluster is the client that `statsloop` makes of a configuration, and
--     Main/Loop its loop, over the interface `Collector` of what it calls of the client and of the back end.
--     Main/Writer (discard.go too) is `getDBWriter`, the discard back end and what precedes the loop;
--     Main/Prometheus fills `Collector` by the client and the Prometheus sink, which is scraped while the
--     loop reads and waits. Main/Backends puts the four back ends behind one interface, as `DBWriter` does,
--     and fills `Collector` by the client and any of them. Main/Statsloop is `statsloop` as a whole, from
--     the configuration of a cluster to the end of the loop. Main/Duration has the durations and the retry
--     times. Main/Run is `main`: its start, and the relation `Step` of its loop and of the world, in which
--     collectors end and signals come between any two steps of the loop: what follows a reload is a step
--     each for the look at the context, `readConfig`, `setupLogging` and the next run. Main/Reload is `main`,
--     the configuration watcher and the file as one system: the events that are still to be delivered, the
--     watch that is added again, and the reload channel that the watcher's timer fills and the loop empties.
--   - Examples: a small cluster, small networks, and the theorems at concrete inputs.
--
-- How code became definitions: a method takes the state that it changes and returns it with its
-- result; an error is a value of `Result`. Float64 is a parameter, as the program copies these
-- numbers and computes nothing with them. Times are in nanoseconds in the sink, the watcher and
-- the collection loop, and in seconds in the client. The network, the clock, the context, cookies
-- and JSON decoding are the functions of `Net`, and the client library's `NewConstMetric` is an
-- argument of `collect`; the sockets, the registry, the InfluxDB libraries and the opening of the log
-- file are arguments too. What is logged is left out.
--
-- Bounds: the retry loops run on the number of rounds left, which is the loop's own bound
-- (`maxRetries`), so no fuel is added. The reads of `statsloop` are tried without limit in the
-- program, so `read_stats` has fuel; as many rounds as there are failures and one more are enough. Its outer
-- loop has no end of its own: `collect_rounds` looks at any number of its rounds.
-- Main/Loop/Cancelled counts the rounds of both up to the end of a context.
-- `UpdateDatasets` visits the slots 1 to `MaxDsID`, which is 4. A duration is an integer of 64 bits, and
-- Main/Duration writes its wrap-around out; times themselves, the time limit of a session that the cluster
-- answers in seconds, and the counts of labels are not bounded.
--
-- Not modelled: the parsing of the arguments, the delivery of signals and the socket options, which
-- are system calls; and serving and shutting down the HTTP servers, which is the library's. A file that
-- changes between its first reading and the start of the watcher is not modelled: the system of
-- Main/Reload begins with the file as it was read. The mutex of the sink is not modelled either: each of its
-- operations is one step. The tests of the repository are left aside.
pub mod Prelude
pub mod Api
pub mod Backend
pub mod Prometheus
pub mod Config
pub mod ConfigWatcher
pub mod ExtNet
pub mod Influx
pub mod Logging
pub mod Main
mod Examples
