-- ===== src/Lib.antt =====
-- A verification library of xdev, a small platform that runs projects of apps on one host: the
-- tables that hold its state, the rules that name, order and route what is in them, and the
-- services that change them together with the file system, the container engine and Caddy.
--
-- Which file models which part:
--   Prelude             lists, strings, decimal numbers, paths and integers as Go has them
--   Naming              internal/naming/naming.go: Slugify and Unique
--   Store/Schema        the rows of internal/store/migrations/*.sql and the errors of the store
--   Store/Table         ORDER BY and UPDATE … WHERE on lists of rows
--   Store/Ranking       the check and the renumbering that SetProjectOrder and SetAppOrder share
--   Store/Projects, Store/Apps, Store/Domains, Store/Deployments, Store/Settings
--                       the files of internal/store of those names, one definition a method
--   Store/Endpoints     the webhook and the push token (internal/store/deployments.go)
--   Store/Steps         Deployment.Steps (internal/store/deployments.go)
--   Store/Routes        ProxyRoutes (internal/store/domains.go), UsedPorts (internal/store/apps.go)
--   Store/DeployKeys    internal/store/deploykeys.go
--   Store/Events        internal/store/events.go
--   Store/Metrics       internal/store/metrics.go, host_metrics.go and db_metrics.go
--   Store/Consistent    the constraints of the schema, and the writes as steps that keep them
--   Accounts            internal/store/users.go and internal/store/sessions.go
--   ProjectService      internal/projects/projects.go
--   Reconciler          internal/platform/reconcile.go, with Route of internal/proxy/proxy.go
--   Hosts               internal/domains/hosts.go
--   Release             internal/selfupdate/release.go
--   Jobs                internal/server/jobs.go
--   Engine              internal/runtime/selector.go
--   Reach               internal/apps/address.go
--   Auth                internal/auth/auth.go
--   GitSource           internal/gitsrc/gitsrc.go: repository references, build directories, git commands
--   Proxy               buildConfig and NewManager of internal/proxy/proxy.go
--   Install             internal/selfupdate/install.go
--   AppService/Hostnames, AppService/Ports
--                       the checks of names and ports in internal/apps/apps.go and compose.go
--   AppService/Edit     editServiceDomains and editHostApp of internal/apps/edit.go, with what they call in
--                       internal/apps/compose.go, apps.go and gitapp.go
--   AppService/Deploys  internal/apps/deploy.go, with startStatic and the first build of Create in
--                       internal/apps/apps.go
--
-- How they interact: ProjectService draws a slug from Naming and writes rows by Store/Projects. The
-- Reconciler reads Store/Routes and Store/Endpoints, hands the routes to Caddy, for which Proxy builds the
-- configuration, and the local
-- hostnames to Hosts. Jobs shows the steps that Store/Steps declares. Auth guards the handlers by
-- the sessions of Accounts. AppService draws free ports against the ports that Store/Apps has in use, and its
-- deploys write the rows of Store/Deployments: AppService/Deploys/Steps has a request, each stage of a
-- goroutine, a first build, a deletion and a start of xdev as steps that may follow one another in any order.
--
-- How the model stands for the code:
--   A table is the list of its rows in the order of insertion, with the counter of its
--   AUTOINCREMENT key. A statement is a function from the database to a result and the database
--   after it; a UNIQUE column or a foreign key that refuses a row gives `constraint` and no
--   change, ON DELETE CASCADE is written out, and a transaction that fails gives the
--   database from before it. Methods run one after another, as SQLite lets one writer in at a time.
--   Failures of the database file itself are not modelled.
--   A string is the list of its runes. `fold` is unicode.ToLower above ASCII, a parameter.
--   Ids, ports, limits and counters are natural numbers; positions, which go below zero, are
--   integers. `cpu_limit` is in thousandths. Times are seconds in the tables, and nanoseconds
--   where a session is compared with the clock.
--   bcrypt is a function that makes a hash of a password, and one that compares the two. The messages
--   and logs of deploys are byte strings.
--   How Caddy compares the hostname and the path of a request with those of a route is a parameter:
--   the lower case of a letter, and what it makes of a path before it compares. A first build may begin
--   for any app at any time; Deploy, which waits for a deploy and which only a test calls, is left out. A copy of a file onto itself empties it, as it does where the target is opened
--   with O_TRUNC. Git is what each of its commands answers; the environment of a run is left out.
--   What the file system, the container engine, the hosts file and Caddy answer in one call is a
--   parameter of the call, as is SQLite's CAST of a text to a number in `used_ports`.
--
-- Bounds: the loop of Unique has no bound in the code. Here it runs on fuel, and fuel above the
-- number of taken names is enough; Create gives it one more than the number of projects. Every other
-- loop is over a list.
--
-- Not modelled: the rest of the app service and the container runtime, the HTTP handlers, secrets, the
-- collection of metrics, host processes, templates, downloads and the web pages, which for the most part
-- run external commands or produce text. The audit log, the samples and the deploy keys are tables of
-- their own here: the log keeps the project of a row after that project is deleted, where the schema sets it
-- to NULL, and the samples of a deleted app stay, where the schema deletes them.
pub mod Prelude
pub mod Naming
pub mod Store
pub mod GitSource
pub mod Hosts
pub mod Install
pub mod Release
pub mod Jobs
pub mod Engine
pub mod Reach
pub mod Accounts
pub mod Auth
pub mod ProjectService
pub mod Reconciler
pub mod Proxy
pub mod AppService
