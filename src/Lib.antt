-- ===== src/Lib.antt =====
-- The rules by which a Hola host decides: what apps may do to each other and to the host.
--
-- A host runs a server (packages/server) that installs apps as docker compose projects. Apps provide
-- and accept capability contracts (packages/shared/src/contracts.ts): a provider of `restore@1`, for
-- instance, delivers a held capture for an install. Each privilege has the operator's consent
-- recorded with the install.
--
-- Prelude: tests, lists, dictionaries in insertion order (a JavaScript object or a Map), texts, paths and
-- `Number(text)`, as far as the modules below share them.
--
-- JsonRecordStore (packages/server/src/services/core/json-record-store.ts): `read` and `write` of one
-- JSON file. The file system is the environment: each write has a `WriteResult` as an argument, so
-- that theorems range over writes that fail.
--
-- RestoreBroker (packages/server/src/services/core/restore-broker-state.ts): the queue of restore
-- requests, a function for each method of the store. A method's body is one locked section, and the
-- promise chain that serialises the sections is the order in which the functions are applied. The
-- clock is an argument of each section; a timestamp text is what `Date.parse` reads from it.
--
-- RestoreCalls (packages/server/src/services/core/deployment.ts): the provider's poll, claim and
-- complete, and the creation of a request by a deploy job. A handler has two sections, and `between`
-- stands for what others do to the store between them. RestoreCalls/Events has the runs of the
-- sections of all callers, in any order.
--
-- RestoreCandidates (packages/server/src/services/core/restore-candidates.ts and, for the listing's
-- route, server.ts): what an install may be restored from, the judgements of a choice, the lineages
-- and the default. Deployments, identity records and the provider's index are data, as in the source.
--
-- BackupBroker (packages/server/src/services/core/backup-broker-state.ts and deployment.ts): prepare,
-- finalize and expiry. What a hook does is an argument; BackupBroker/Steps has the runs in which
-- prepare jobs, finalize and expiry go on hook by hook beside one another, as the server awaits each
-- hook; an update of the record is one step. BackupBroker/Events has the coarser runs in which each
-- call and each round is one step. The apps do not change along a run.
--
-- Contracts, Coverage (packages/shared/src/contracts.ts): the contract table, refs, grant kinds and
-- consent; the verdicts on whether an app's databases are covered by backup and restore hooks.
--
-- Jobs (packages/server/src/services/core/jobs.ts): the dispatcher, with the locks of the deployments,
-- the queue and the slots. A job is active from its dispatch to the end of `runJob`; a section of
-- `runExclusive` is inside from the time when it holds its key. JobTable (the same file and
-- services/core/repositories.ts): the rows, cancellation, recovery at start, listings, and what
-- `runJob` writes.
--
-- DockerProxy (packages/server/src/lib/docker-proxy.ts): which requests of a log collector reach the
-- docker socket, and the redaction of the answers. A body is a value with JSON's shape; an event
-- stream is redacted event by event, and its framing is not modelled.
--
-- Auth (packages/server/src/middleware/auth.ts): credentials, required capabilities, and the
-- middleware. The URL parser and the authentication service are arguments.
--
-- OriginGuard (packages/server/src/middleware/origin-guard.ts): the middleware before authentication,
-- which looks at who began a request with the session cookie. `answer` stands for what the next
-- handler answers; the URL parser and the two case functions are arguments.
--
-- UpdateCheck (packages/server/src/services/core/update-check.ts): the newest published release and
-- the cached answer. What became of the request to GitHub is an argument; UpdateCheck/Fresh has the
-- runs in which callers overlap.
--
-- ComposeValidate (packages/shared/src/compose-validate.ts): the checks of an app's compose document,
-- as the list of their issues in the source's order. The document is the value that the YAML parser
-- gives, an argument, as are `toLowerCase` and the test by the expression for image references.
--
-- ResolvedGuard (packages/server/src/services/core/compose-resolved-guard.ts): the bind mounts of the
-- configuration that compose has resolved, an argument, and those that are refused before a start.
--
-- ParamValidate (packages/shared/src/param-validate.ts): the values of an app's parameters, the lint
-- of their specs, and the texts of generated secrets. Regular expressions, URLs, time zones and random
-- bytes are arguments; the numbers of a spec are integers.
--
-- Versions (packages/shared/src/index.ts): the comparison of versions, the newest version that a
-- channel offers, and the waypoints of an upgrade. Numbers are exact, where the source's are doubles.
--
-- EnvRows (packages/shared/src/index.ts): the secret values of environment rows, withheld from clients
-- and put back. ContractRoles (packages/server/src/services/core/contracts.ts): the roles a manifest
-- declares and the participants of each contract.
--
-- A loop over a list recurs on it. `tick_loop` has fuel, the length of the queue: a round takes one
-- entry out of it.
--
-- Not modelled: what drives docker, files, databases and other hosts, the web console, the command
-- line, and the generators of the documentation. Nor are, of the server's own rules, its routing, the
-- validation of drafts, its configuration and the lifecycle of a deployment: the modules above are the
-- rules on privileges, on the order of jobs and on the operator's data.
pub mod Prelude
pub mod JsonRecordStore
pub mod RestoreBroker
pub mod RestoreCalls
pub mod RestoreCandidates
pub mod BackupBroker
pub mod Contracts
pub mod Coverage
pub mod Jobs
pub mod JobTable
pub mod DockerProxy
pub mod Auth
pub mod OriginGuard
pub mod UpdateCheck
pub mod ComposeValidate
pub mod ResolvedGuard
pub mod ParamValidate
pub mod Versions
pub mod EnvRows
pub mod ContractRoles
pub mod Tests
