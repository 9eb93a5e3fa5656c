-- ===== src/Lib.antt =====
-- The core of the Go services of ProIdentity Mail, a self-hosted mail server: who may log in, how
-- long a session lasts, what an administrator may see and change, what a report on the
-- configuration says, and which backups stay.
--
-- The parts and their files:
-- - Text is `strings` of the standard library on texts as lists of bytes: the functions that the
--   program calls. Case folding and white space are those of ASCII text.
-- - Session.Penalty, Session.Limiter, Session.Interface: the penalty schedules, `LoginLimiter` and
--   `AnyLocked`, `FailAll`, `SuccessAll` of internal/session/manager.go. Session.Ledger is what a
--   limiter is to do: per key a count, the time of its first failure and a lock.
-- - Session.Keys, Session.Tables, Session.SqlLimiter, Session.AuthSpray: internal/session/sql_limiter.go,
--   the limiter that the services share, over explicit tables. Each statement of the database may
--   fail.
-- - Session.Manager: the `Manager` of internal/session/manager.go, from `Create` to
--   `InvalidateSubject`; Guards, Life, Invariant and Revoke are about it.
-- - Drift.Lines, Drift.Redact, Drift.Report: internal/configdrift/drift.go, from `lineDiff` over the
--   redaction to `Compare`.
-- - Admin.Access: the access checks of internal/admin/handlers.go, from `requireAdmin`, which asks the
--   session manager, to `requireUserWrite`. Admin.Names: its `normalize` functions and
--   `allowedCertificatePath`.
-- - Admin.Policy: the login policy for Dovecot of internal/admin/handlers.go, which asks and feeds a
--   limiter, and the limiter keys of both login paths.
-- - Admin.Models, Admin.Calls, Admin.Handlers: the endpoints of internal/admin/handlers.go that change
--   the directory, certificates, Cloudflare, the quarantine or the settings of the mail server, with
--   the records of internal/domain/models.go, up to the call of the store that each makes;
--   Tenancy, Mailboxes, Routing and Services hold the handlers, Endpoints gives each request to its
--   handler, Lists has what is read, Ensures and Permitted are about them.
-- - Admin.Rows, Admin.SqlStore: the directory part of internal/admin/sql_store.go, each method over
--   explicit tables; the database may refuse each statement. Admin.Service puts a handler, the store
--   and the audit together; Isolation, Owners, NewDomain, Effects and Takeover are about it.
-- - Backup.Prune: the retention of backups of internal/backup/prune.go; Kept and Removed are about it.
-- - Webmail.Sieve: the Sieve script of internal/webmail/sieve.go, up to `renderSieveFilters`, with the
--   folder names of internal/webmail/maildir.go that it asks for.
-- - Prelude holds what all share: tests on numbers, lists, and maps as association lists.
-- - Tests runs the model at concrete inputs.
--
-- How the code is modelled:
-- - A Go string is the list of its bytes; a Go map is an association list, in which a write replaces
--   the entry of its key, and a loop over a map takes it in the list's order.
-- - A time is a number of nanoseconds, 0 the zero time; a duration and an `int` are integers with no
--   bound, since no count or duration of the code comes near 2^63. A method reads the clock once.
-- - A mutex makes each method one step on the state. `Validate` lets go of it between its lookup and
--   its removal of an expired session; that gap is not modelled.
-- - `sort.Slice` is an insertion sort, what it is for at most twelve elements. Of a longer list of
--   backups it may put those of equal times in another order.
-- - The tables keep times exactly, where the timestamp columns of the program keep whole seconds, and
--   compare texts byte by byte, where its collation ignores case, but for Session.SqlLimiter.Columns,
--   which has the columns as parameters. `created_at` of a new row is the time of the call. The
--   `LIKE` for the service of an alert is equality: the names of the services have no wildcard and
--   no quote.
-- - A transaction is the stored tables and those that its statements have written; a commit stores
--   these, and the deferred rollback drops what was not committed.
-- - Hashes, random tokens, the file system, the store's answers, the functions of `net` and
--   `mail.ParseAddress` are parameters.
-- - A text in a Sieve script is valid UTF-8, so a rune loop that treats only ASCII runes apart is a
--   loop over bytes.
-- - A reply is its status; the texts of errors, the bodies of replies, and of an audit the number of
--   its target and its metadata are left out. The tables keep their rows newest first,
--   and leave out the times that the database sets and the numbers that a refused INSERT skips. What
--   the calls about certificates, settings, quarantine and Cloudflare answer is a parameter: they
--   change none of the directory's tables.
-- - Loops are structural recursion, so no function needs fuel.
--
-- Not modelled: HTTP routing and JSON, the text of SQL statements, embedded pages, mail transport,
-- archives and encryption, and WebAuthn, which are I/O or libraries. The
-- login and second-factor handlers, the quarantine, the maildir store and the Cloudflare plan have no
-- model here, nor have the calls of a method on a nil manager.
mod Prelude
pub mod Admin
pub mod Text
pub mod Session
mod Tests
pub mod Backup
pub mod Drift
pub mod Webmail
