-- ===== src/Lib.antt =====
-- ct-cve, a service that collects advisories from feeds, receives inventories of installed
-- packages from CT Ops, matches them to the advisories and answers with findings. The theorems are
-- about the Go code of internal/vuln, internal/ctops, internal/store, internal/feed,
-- internal/config, internal/auth and internal/gui.
--
-- A snapshot of an inventory comes as a signed HTTP request. The request is verified (CtOps), the
-- snapshot is written to the database and its packages are matched to the advisories stored there
-- (Store), which rests on the comparison of package versions (Vuln). The advisories come from
-- feeds (Feed), which a cycle reads and writes to the tables (Service); the configuration (Config)
-- and the web pages (Gui, with the users of Auth) say which feeds are read.
--
-- - Base: natural numbers, int64 (`wrap64`), Go strings as lists of bytes with the functions of
--   strings and strconv, UTF-8 decoding, and orders by a signed result (Base/Order) with loops of
--   rounds (Base/Rounds). Base/Trim and Base/Cut have laws of strings, Base/Sort a stable sort,
--   and Base/Outcome results with a message.
-- - Vuln/Numeric, Debian, Natural, Rpm, Version: internal/vuln/version.go. Each loop takes as fuel
--   the lengths of its two texts (for RPM one more), as every round takes at least a byte off them
--   (for RPM, on ASCII text). `none` stands for a comparison that does not end.
-- - Vuln/Types, Vuln/Matcher: internal/vuln/types.go and matcher.go. The reasons are constructors
--   in place of texts.
-- - CtOps/Types, Snapshot: internal/ctops/types.go. CtOps/Time: instants in nanoseconds, with the
--   saturation of Time.Sub and the wrapping of a negation; `timestamptz` cuts an instant to
--   microseconds, as the driver does for the expiry of a nonce and of a session and for the clock
--   that it is compared with. The instants of the other columns are kept as they are given.
-- - CtOps/Nonces: the store in memory of internal/ctops/service_token.go, and RememberNonce of
--   internal/store/ctops.go. Both are instances of the interface `NonceStore`, which the
--   verification takes.
-- - CtOps/Auth: VerifyServiceRequest and SignServiceRequest of internal/ctops/service_token.go.
--   The hash, the MAC, the formats of time and upper case are the fields of `Library`; the clock
--   and the random nonce are fields of the options.
-- - CtOps/Delivery, CtOps/Handler: internal/ctops/handler.go, on the interface `Store`. The
--   batches take as fuel the number of the findings, as each takes at least one. JSON,
--   callbackURL, batchID and the HTTP client are fields of `Callback` and `Handler`, and the clock
--   is read once in a request.
-- - Store/Tables, Findings, Snapshots, Status: internal/store/ctops.go. A table is a list of rows,
--   a statement a function on it. A transaction of which a statement fails leaves the database as
--   it was.
-- - Store/Cves, Sources, Accounts, Migrations: internal/store/postgres.go, with the constraints
--   that the files of migrations put on the tables. An error that PostgreSQL has of its own is a
--   field of `Postgres`, for the tables of the feeds, the recording of a result and the reading of
--   the settings; the pages, the sessions and the migrations are modelled with a database that
--   answers. Store/Upsert has the laws of an INSERT with ON CONFLICT.
-- - Feed/Types, Clean, Records, Debian, Alpine, Ubuntu, RedHat: internal/feed/types.go and
--   distro.go. A document is decoded JSON, and a map the list of its entries; a score is the text
--   of its number. Feed/Kev: internal/feed/cisa.go. Feed/Nvd: internal/feed/nvd.go; the loop over
--   the pages takes fuel, and a total that is reported bounds how much it needs.
-- - Feed/Syncer: SyncOnce of internal/feed/syncer.go on the interface `FeedStore`, of which
--   Store/Sources has an instance. Service: buildSources and the source provider of
--   cmd/ct-cve/main.go, and the cycle over that instance.
-- - Config: internal/config/config.go. The environment is a function, an error its message, and
--   URLs, durations and JSON are read by the fields of `GoLibrary` and `ConnectionLibrary`.
-- - Auth: internal/auth/auth.go. Gui: internal/gui/handler.go, on the interface `GuiStore`, of
--   which Gui/Site has an instance over the tables. A response is the status, the headers Allow,
--   Location and Set-Cookie, and the data of the page.
--
-- TrimSpace, Fields, ToLower and EqualFold are modelled on ASCII text. Digits and letters above
-- Latin-1 are the parameter `Unicode`. Of findings, the parts that are copied only are left out.
--
-- Not modelled: the HTML templates, the ticker that starts the cycles, the start and the end of
-- the process, and the requests of the feeds as HTTP makes them. Locks and statements that run at
-- the same time are not modelled either: a run is a sequence of calls.
pub mod Base
pub mod Vuln
pub mod CtOps
pub mod Auth
pub mod Config
pub mod Store
pub mod Gui
pub mod Service
pub mod Feed
