-- ===== src/Lib.antt =====
-- A verification library for anfra, the semantic layer's command line, server and engine (Go).
--
-- The program's parts and how they meet. A caller's input is decoded against the args that each
-- command declares as a Go struct (internal/command/args.go), and its exactly-one groups are checked
-- from the schema (shared/apikit/internal/decode/violations.go). An op is then invoked
-- (shared/apikit/invoke.go): the host's context is admitted (internal/command/admission.go), the
-- input decoded, and the handler run; a query (internal/command/query) reaches a data source either
-- as compiled SQL or, for an ungoverned caller alone, as written (internal/query/connect.go). Its
-- result comes through canal-query's client (internal/sidecar/canalquery/client.go), is bounded
-- (internal/query/query.go), and is answered as a page or as a stream of events
-- (internal/command/query/run.go). What fails is an error with a code of a catalog and the steps of
-- the work it stood in (shared/apperr, shared/appstep), which a server answers with the codes it
-- serves (shared/httpkit). The long-running parts are routines of a group (shared/routine). Around
-- these stand the server's limit on log reports (internal/appserve/log.go), the update check
-- (internal/update), the environment switches (internal/envflag), the organization picker
-- (internal/cliui/org_picker.go), the choice of files that a publish carries (shared/repoformat),
-- the logins stored on the machine (internal/cliauth), and the block of guidance in a repo's
-- AGENTS.md (internal/agents/agentsmd.go). A person types at the console (cmd/anfra/console.go,
-- cmd/anfra/console_session.go), which splits an entry into a command's args, and reads a result as
-- the pretty format draws it (internal/pretty/pretty.go).
--
-- Which file models which part:
--   Prelude: the names shared by the other modules, and Go's strings package where it is used.
--   Routine.Backoff: backoff.go, NewBackoff, checkBackoff, Next and Reset.
--   Routine.Group: routine.go, NewGroup, add, Start, Task and Stop, with Step for what can happen.
--   Routine.Options: options.go, the options and newOptions.
--   Routine.Runs: routine.go and report.go, run, call, every, loop and the counters.
--   Appstep: appstep.go, Define, NewStep, Logged, String, Describe and checkTemplate.
--   Apperr.Codes: apperr.go, the Define functions and the questions a code answers.
--   Apperr.Errors: error.go, from.go, context.go, response.go and encapsulation.go.
--   Httpkit: status.go, Served, StatusOf and Render.
--   Appserve.Limiter: log.go, allow, sweep, tell and flush; Limiter.Heap is its windows.
--   Update: update.go, the cache, Stale, Refresh, Check and Notice; Update.Progress the download's.
--   Envflag: envflag.go, Validate, On and OnOr.
--   Cliui.OrgPicker: org_picker.go, PickOrg and Update.
--   Query.Input: input.go, check, target, run and aql.
--   Query.Bounds: query.go, the limits, rowCap and stream; Query.Paging: run.go, execute, with
--     Query.Paging.Page its page and Query.Paging.Batches the batches that stream sends.
--   Canalquery: client.go, Stream, Execute and poolFor; Canalquery.Grammar is the grammar of an answer.
--   Cliauth: credential_store.go, refresh_recovery.go and validateTokenResponse; Cliauth.Manager:
--     oauth_manager.go, loadAccessToken, renewLogin and Logout, and how Login saves a login.
--   Agentsmd: agentsmd.go, currentBlock and withBlock; Agentsmd.Repo: CheckBlock and WriteBlock.
--   Console: console.go, splitArgs; Console.Flags: console_session.go, setFlags, withoutFlag and flag;
--     Console.Entries: dispatch, textArgs, ends, terminated and withFlags.
--   Pretty: pretty.go, the view and its cells; Pretty.View, Pretty.Listing and Pretty.Layout:
--     buildPrettyDoc, prettyFields, prettyValueOf, prettyListOf and cellOf; Pretty.Measured: the columns
--     of a line; Pretty.Labels: runLabelWidths; Pretty.Tables: columnWidths, fits, table and
--     numericColumns; Pretty.Grid: grid and rowBlocks; Pretty.Draw: doc and entries; Pretty.Csv:
--     joinedCell, csvField and firstLine, with the csv package's rules for a field.
--   Publish.Upload: publish.go, the uploader. Exports: exports.go, the files and links of exports.
--   Command.Args: args.go, parseArgs; Command.Groups: the groups of args.go and violations.go.
--   Command.Admission: admission.go, dataperm.go, connect.go, newQueryRun and invoke.
--   Repoformat: repoformat.go, Publishable and DataApp.
--
-- State and its operations. A struct is a record with the source's fields, a map an association
-- list, a channel or a context a Boolean for closed or ended, and a wait group the list of what it
-- waits for. An operation takes the state and returns it; a panic or an error is a value. A code is
-- its index in the catalog, and a limiter's window its index among all that were made, which keeps
-- two pointers to one window equal. Each write to the disk is given how it goes: done, failed, or
-- failed after it was written, and a process that is stopped leaves the disk as one of these does.
-- An answer of canal-query is its lines as they are read. The package variable encapsulationDisabled
-- is an argument. What the terminal is sent is lines of pieces, each a text and its style, so that a
-- line's columns are its pieces'; an index out of range in a table or a grid is none.
--
-- Bounds and fuel. Durations, times and counts are natural numbers. The shift of a backoff is
-- taken modulo 2 ^ 64 and read as signed, as an int64's is. A time difference that is negative in
-- Go is 0 here; it is compared with a positive bound alone, with the same outcome. humanBytes runs
-- on fuel of six rounds, which is enough for every int64. runLabelWidths runs on one round more
-- than there are entries, which is shown enough, and itoa on one more than the number. A width
-- that would be negative is 0, which pads and compares as it does. Every other loop is by
-- recursion on its data.
--
-- What is not modelled. A null element of a list in a result that is printed, on which the code
-- panics, a result's hints that are no list, on which it panics too, the times and the trees of files of a
-- view, whether the console takes a mode that it is switched to and what it says, a query's progress,
-- the other events of its stream, its warehouse id and bytes scanned, and its tracker, the browser's
-- part of a login, a CLAUDE.md that leads to an AGENTS.md not yet made, and white space beyond ASCII
-- in AGENTS.md. Reflection's answer about a struct, a named view's, the directive reader of
-- a query's limit, the commands' flags, a text's columns on a terminal, which texts ParseFloat
-- reads, the time zone database, semantic versions' order, random numbers, files, the network, the
-- sidecars and the host's data sources are arguments. Logging and tracing are left out, as are the
-- goroutines' own scheduling beyond the steps of a group, and the code of the sidecars. Of the package
-- that measures texts it is assumed that the columns of printable ASCII and of box drawing add, that a
-- space and a border's character take one, and that a text cut to a width is no wider.
pub mod Prelude
pub mod Routine
pub mod Appstep
pub mod Apperr
pub mod Httpkit
pub mod Appserve
pub mod Update
pub mod Envflag
pub mod Cliui
pub mod Query
pub mod Command
pub mod Repoformat
pub mod Canalquery
pub mod Cliauth
pub mod Agentsmd
pub mod Console
pub mod Pretty
pub mod Publish
pub mod Exports
