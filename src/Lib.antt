-- ===== src/Lib.antt =====
-- blackgrid: the incident, notification, scheduling, address, account, status page and discovery logic of the
-- backend, and the guards of its routes.
--
-- The backend is a Go server for monitoring and IP address management. A scheduler reads the
-- monitors that are due and hands them to workers; a worker runs the check of a monitor, applies a
-- retry rule, writes the new status to the row of the monitor, publishes events, and calls the
-- incident hook when the status has changed. The hook opens and resolves incidents. Besides, the
-- IPAM services allocate addresses from a prefix, enumerate its hosts for discovery scans, and
-- report how much of it is in use; a discovery scan probes the hosts of a prefix and records what it
-- finds, which a user accepts as an address. The monitor handlers create, change, pause and test
-- monitors and take the heartbeats of push monitors, which go through the same incident hook. Status
-- pages show a chosen list of monitors to the public. The notification service sends what the incident
-- service asks for to each channel that is enabled. The auth service keeps users, sessions and API tokens,
-- which the middlewares of the HTTP interface ask for the user and the role of a request before its handler
-- runs.
--
--   Model.antt       rows and values: backend/internal/db/models.go, backend/internal/events/events.go
--   Incident.antt    backend/internal/service/incident.go, incident_hook.go and the queries of
--                    backend/internal/db/incidents.sql.go
--   Scheduler.antt   backend/internal/monitor/scheduler.go, runner.go and checker_push.go, and the
--                    queries of backend/internal/db/query.sql.go that they use; Scheduler/Jobs.antt has
--                    the loop and the workers, Drain.antt how they come to rest
--   Ipam.antt        backend/pkg/ipam/ipam.go, EnumerateIPv4Hosts and ValidatePrefixForScan of
--                    backend/internal/service/discovery.go, Utilization of
--                    backend/internal/service/prefix.go
--   Auth.antt        backend/internal/service/auth.go and the queries of backend/internal/db/auth.sql.go
--   Bus.antt         backend/internal/events/bus.go
--   Secrets.antt     MaskConfig of backend/internal/monitor/secrets.go and mergeConfig of
--                    backend/internal/api/handlers/monitor.go
--   Monitors.antt    backend/internal/api/handlers/monitor.go: Create.antt, Edit.antt and Push.antt have
--                    the handlers, Requests.antt sequences of them
--   StatusPages.antt backend/internal/service/status_page.go and backend/internal/db/status_pages.sql.go:
--                    Slug.antt, Pages.antt, Links.antt and Public.antt
--   Discovery.antt   the rest of backend/internal/service/discovery.go and the queries of
--                    backend/internal/db/discovery.sql.go: Probe.antt, Stale.antt, Scan.antt, Accept.antt,
--                    Schedule.antt, Address.antt and Ports.antt
--   Notifications.antt backend/internal/service/notification.go and
--                    backend/internal/db/notifications.sql.go: Mask.antt, Channels.antt, Payload.antt,
--                    Sending.antt and Delivery.antt
--   Api.antt         backend/internal/api/handlers/errors.go, auth_middleware.go and middleware.go, and
--                    the routes of backend/cmd/server/main.go: Errors.antt, Guards.antt and Routes.antt
--   Records.antt     backend/internal/service/prefix.go and ip_address.go and the queries of
--                    backend/internal/db/query.sql.go that they use
--   Prelude.antt     names of the libraries, lists, Boolean tests and arithmetic that the parts share
--
-- State is passed explicitly. `Store` of Incident/Store.antt is the tables of monitors and incidents,
-- the gauge of open incidents, and the events and notices sent; an operation returns its result and
-- the next store. Whether a query fails is an argument, a Boolean for each call of the database, and
-- a query that fails changes nothing. A Go pair of a value and an error is a `Result`. UUIDs and times
-- are natural numbers, and the time of a call is an argument. Incidents stand newest first, and the
-- database's choice of an id is the next number. `Backend` of Scheduler.antt adds the results of
-- checks, newest first. The result of a network checker is an argument of `execute_check`.
--
-- `AuthStore` of Auth.antt is the tables of users, sessions and tokens, with what was published and
-- handed to the audit log. bcrypt, SHA-256 and the functions on texts are the fields of the parameter
-- `Crypto`, random bytes are an argument, and deleting a user deletes its sessions and tokens, as the
-- foreign keys say. The columns that must be unique are checked by the inserts.
--
-- The loop and the workers of the scheduler are a step relation in Scheduler/Jobs.antt, whose steps
-- are the parts of the code between two points where another goroutine may run. A subscriber of the
-- event bus is the buffer of its channel; readers are not modelled, so a buffer only fills.
--
-- `Site` of Monitors.antt adds to `Backend` the audit log and the number of the next monitor; a handler
-- returns a reply and the next site. Reading a request, JSON, UUIDs and the hash of a token are the
-- fields of the parameter `Formats`, and JSON values of the parameter `Codec`; a random token and the
-- result of a test are arguments. `PageStore` of StatusPages.antt adds the tables of status pages to
-- `Backend`, with names and slugs as texts whose trimming and lower case are a parameter; an int32 order
-- is an integer that is taken modulo 2 ^ 32. `DiscoveryStore` of Discovery.antt is the tables of scans,
-- results and addresses; what the probe of an address finds, and the order in which the workers finish,
-- are arguments of a run.
--
-- `RecordStore` of Records.antt is the tables of prefixes and addresses with their unique columns and the
-- foreign key between them. `NotificationStore` of Notifications.antt is the tables of channels and deliveries, with what was
-- published. encoding/json, net/url and the functions on texts are the fields of the parameter `Library`; a
-- `Network` says what net/http and net/smtp answer to one channel. In Api/Routes.antt a route carries the
-- list of its middlewares, those of its groups first, which `serve` runs in order before the handler; the
-- choice of the route by echo's router and the answers of the rate limiters are arguments.
--
-- Addresses of net/netip are numbers below 2 ^ 32 or 2 ^ 128 with their family; parsing and printing
-- them, which the standard library does, is a parameter. The loops over the addresses of a prefix
-- run on fuel, a round for each address of the block and one more: an address leaves the block after
-- at most as many steps as the block has addresses. The error `out_of_fuel` is of the model only.
-- Go's int is a 64-bit pattern, with shifts and differences taken modulo 2 ^ 64.
--
-- Not modelled: SQL beyond the queries named above, the HTTP handlers other than those of monitors, the
-- deadline of a scan, sites, VLANs and devices, retention, metrics other than the gauge of
-- open incidents, network I/O, logging, and the frontend.
pub mod Prelude
pub mod Model
pub mod Ipam
pub mod Auth
pub mod Bus
pub mod Incident
pub mod Scheduler
pub mod Secrets
pub mod Monitors
pub mod StatusPages
pub mod Discovery
pub mod Records
pub mod Notifications
pub mod Api
