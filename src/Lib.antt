-- ===== src/Lib.antt =====
-- ubuntu-insights: models of the client and of the server, and what is proved of them.
--
-- The client collects a report on the machine (insights/internal/collector, with the system
-- information of insights/internal/collector/sysinfo), keeps it in a directory of its source
-- (insights/internal/report), and uploads it (insights/internal/uploader) as the user's consent
-- (insights/internal/consent) and the system-wide opt-out (insights/internal/systemconfig) allow.
-- Its commands (insights/cmd/insights/commands) and its Go interface (insights/api.go) put these
-- parts together. The web service (server/internal/webservice, with its handlers) stores what it
-- receives for the applications that its configuration allows (server/internal/common/config); the
-- ingest service (server/internal/ingest) runs a worker for each of these
-- (server/internal/ingest/workers), which validates the stored reports and uploads them to a
-- database (server/internal/ingest/processor, server/internal/ingest/database). Both sides write
-- files through common/fileutils.
--
-- The parts:
--   Base          the names of the libraries that the modules share; tests on numbers, lists, byte
--                 strings, tables (Base.Dict), int64 arithmetic (Base.Int), decimal numbers as
--                 strconv reads and fmt prints them (Base.Decimal)
--   System        Go's errors and results, the world that a process acts on, and the calls of
--                 package os on it (System.Files); rules for what an action keeps (System.Keeps),
--                 for one that never fails (System.Returns) and for case analysis on its steps
--                 (System.Steps)
--   FileUtils     common/fileutils/fileutils.go: AtomicWrite, AtomicWriteWithPerm; what the
--                 collectors use of it is in SysInfo.Text and SysInfo.Memory
--   Report        insights/internal/report/report.go
--   Env           what the client takes from encoding/json, the TOML package and the platform
--   SystemConfig  insights/internal/systemconfig/systemconfig.go
--   Consent       insights/internal/consent/consent.go
--   Uploader      insights/internal/uploader: upload.go, and uploader.go in Uploader.Retry
--   Collector     insights/internal/collector/collector.go
--   SysInfo       insights/internal/collector/sysinfo on Linux: SysInfo.Platform, SysInfo.Software
--                 and SysInfo.Collect for the packages of these names and of hardware, whose
--                 collectors are in SysInfo.Hardware, SysInfo.Devices and SysInfo.Memory
--   Client        Client.Api: insights/api.go; Client.CApi: insights/C/libinsights.go;
--                 Client.Commands: insights/cmd/insights/commands
--   Server        Server.Config: server/internal/common/config/config.go;
--                 Server.Handlers: server/internal/webservice/handlers, on Server.Path, which is
--                 path/filepath on the names of a URL; Server.Routes: their routes in
--                 server/internal/webservice/webservice.go; Server.Workers:
--                 server/internal/ingest/workers/workers.go; Server.Ingest and Server.WebService:
--                 server/internal/ingest/ingest.go and server/internal/webservice/webservice.go,
--                 on Server.Contexts; Server.Database:
--                 server/internal/ingest/database/database.go; Server.Migration:
--                 server/internal/ingest/migration/bootstrap.go; Server.Processor, Server.Sanitize and
--                 Server.Space: server/internal/ingest/processor/processor.go and
--                 server/internal/ingest/models/models.go
--   Tests         concrete runs, at which the theorems are applied
--
-- How code becomes definitions. A function that acts on the file system or the network is an
-- action (System.World.Io): it takes a world and gives a result and the world after it. A world
-- holds a tree of files, the rows that a database was given, and schedules: which system calls
-- fail (any of them may, whatever its arguments), what the server answers, and which random
-- numbers are drawn. A theorem that speaks of every world speaks of every such schedule. An error
-- is the list of the sentinels that errors.Is finds in it. A path is the list of its elements, the
-- last one first. An int64 is an integer with its wrap-around written out; lengths, counts and
-- periods, which the code does not let overflow, are natural numbers.
--
-- Loops are recursion on the list that they go through. The loop of BackoffUpload is given
-- maxAttempts + 1 rounds, which are enough when its uint32 does not wrap before (Uploader.Backoff);
-- with the greatest uint32 as maxAttempts the code may go on for ever, and the model returns an
-- error there. slices.SortStableFunc is an insertion sort, which agrees with it when the comparison
-- is an order, as it is for time stamps from 1970 on. The walk of getJSONFiles is given the length of the longest path of the tree as its
-- depth, and a directory that is entered makes a longer path of it; appWorker runs for ever, and
-- its model is any number of its rounds.
--
-- What runs concurrently is a relation between states, each of whose steps may come at any time
-- that its guard holds: the loop of the worker pool's Run with its debounce timer
-- (Server.Workers.Loop), the returns of that Run (Server.Workers.Returns), the goroutines of the
-- ingest service (Server.Ingest), and the two servers of the web service (Server.WebService). What
-- they wait for, such as an HTTP server or a configuration's watcher, is the environment, whose
-- steps may come at any time and bring any error.
--
-- The passage from golang-migrate to goose is an action on the state of a database, of which it is
-- assumed what PostgreSQL promises of transactions (Server.Migration.Laws). A call from C may
-- panic, which is a result of its own.
--
-- populateBlkInfo recurs on its own depth, which collectDisks sets to 10; populateCPUInfo and the loops
-- over the lines of a file recur on what they go through.
--
-- Not modelled: logs, metrics, modes of files and symbolic links; the concurrency of one Upload,
-- whose reports are handled one after another in an order that a schedule picks (each works on its
-- own files), and of UploadAll; sources whose name is more than one element of a path; locks,
-- which every operation of the server's configuration holds throughout; how os.CreateTemp tries
-- other names while one is taken. JSON, TOML, YAML, INI files, UTF-16 and UUIDs are parameters,
-- and so are D-Bus, the commands that the client runs, and PostgreSQL's connections; TOML has the
-- law that decoding gives back what was encoded. The failure rate of Process is compared in
-- integers, which agrees with the code's floating point for any number of files that a directory
-- holds. Letters change their case as in ASCII.
--
-- Other platforms' collectors, the screens, the C interface's log callbacks, the daemons, cobra's
-- and viper's set-up of the commands and the web service's middleware and timeouts are not
-- modelled: they are calls of other packages and of the platform.
pub mod Base
pub mod System
pub mod FileUtils
pub mod Report
pub mod Env
pub mod SystemConfig
pub mod Consent
pub mod Uploader
pub mod Client
pub mod Collector
pub mod SysInfo
pub mod Server
pub mod Tests
