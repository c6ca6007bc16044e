-- ===== src/Lib.antt =====
-- PaymentsHub takes payment orders over HTTP, groups them into daily runs, and pays them through a
-- bank's PIX interface or through CNAB 240 files. This library models its core.
--
-- Parts and files (paths from the root of the repository):
--
--   Payment (internal/domain/payment/payment.go), Payment/Lifecycle (status.go), Run
--   (internal/domain/run/run.go) and CnabFile (internal/domain/cnab/file.go) hold the records, the
--   statuses as data types, and the tables of legal transitions: `can_transition`, `transition` and
--   `apply_transition` are CanTransition, Transition and ApplyTransition. Payment/Histories,
--   Run/Lifecycle and CnabFile/Lifecycle look at whole series of transitions.
--
--   Payment/Rules, with Payment/Rules/Documents and Payment/Rules/Keys, is
--   internal/domain/payment/rules.go: ValidatePayment, ValidateBatch, ValidatePIXKey, the check
--   digits of CPF and CNPJ. unicode.IsDigit and strings.ToUpper are parameters. The regular
--   expressions are tests on the bytes. Totals are int64 and wrap around.
--
--   Cnab is internal/adapters/banks/itau/cnab: Cnab/Layout (layout.go), Cnab/Fields (fields.go),
--   Cnab/Encoder (encoder.go), Cnab/Decoder (decoder.go), Cnab/Occurrences (occurrences.go). A line
--   is a list of bytes; a text is a list of bytes that is decoded rune by rune where the source
--   does so (Base/Utf8). unicode.IsPrint is a parameter.
--
--   Store is internal/adapters/db/repositories with the tables of db/migrations. The world is a
--   record of lists of rows; a call of a repository (Store/Payments, Store/Runs, Store/Events,
--   Store/Idempotency) takes the world to an answer and the next world, which is there after an
--   error too. Each statement ends as the next entry of `faults` says: well, lost on the way there,
--   or done and its answer lost. A theorem for every world is therefore one for every pattern of
--   failures. Constraints of the tables (primary and unique keys, foreign keys, checks) are errors of
--   the statement. Store/Always, Store/Answers, Store/Success and Store/Evolve hold the rules by which a property
--   of a block of calls follows from those of its calls.
--
--   App/Receive is internal/app/receive_payment.go (Execute is `execute`), App/Runs is
--   internal/app/runs.go (`create_run`, `attach`, `detach`, `approve_run`, `hold_payment`,
--   `unhold_payment`, `cancel_payment`, `reject_payment`); they use the repositories as the source
--   does, one statement after another. App/Runs/Reschedule is ReschedulePayment of the same file,
--   whose statements are one transaction (Store/Transaction). The columns rescheduled_from and
--   rescheduled_reason are a table of their own, `postponements`; which texts the encoding of the
--   database admits, its time zone and the format of a date are a record, `Given`. Of the texts of
--   the other statements the encoding is not checked.
--
--   Queue/Submission is SubmitPixWorker of internal/adapters/queue/jobs.go and ReconcilePixWorker of
--   reconcile.go, Queue/Grouping is AutoGroupRunWorker of autorun.go. The gateway to the bank
--   (internal/app/ports/gateway.go) is a parameter, whose answer depends on the request and the time.
--
--   App/PreAnalysis is internal/app/preanalysis.go with the queries that it runs
--   (internal/adapters/db/dbgen); Queue/Prevalidation is PrevalidatePaymentWorker of jobs.go, which
--   calls it. The tables of limits, rules and blacklist are a record, `Rulebook`, that nothing changes.
--
--   Banks is internal/adapters/banks. Banks/Wire holds the state of a client (the token it keeps, its
--   breaker, the requests sent, the time) and what other packages do, `Outside`: the bank's answers,
--   JSON, URLs, the breaker, random numbers, a context that ends. Banks/Token and Banks/Core are
--   bankcore/token.go and bankcore/client.go, Banks/Itau is itau/rest/auth.go and client.go,
--   Banks/Itau/Gateway is itau/rest/pix.go. Banks/Pix holds the types of
--   internal/app/ports/gateway.go and formatValor; Banks/Bb, Bradesco, Btg, Caixa, Inter, Santander
--   and Sicoob are the rest.go of each bank. Banks/Registry and Banks/Validators are registry.go and
--   validators.go. Banks/Sim relates two clients whose tokens, times and numbers of requests agree, and
--   Banks/Itau/Equivalence runs the clients of Itaú and of bankcore on one `Script` of answers.
--   Times are nanoseconds here; the retry loop is a recursion on the attempts left.
--
--   Settings is the part of internal/adapters/http/handlers/settings.go on bank connections:
--   Settings/Connections has the table, its statements and the sealed fields, Settings/Handlers the
--   handlers. The cipher and the validators are a record, `Vault`. Statements fail as in Store.
--
--   Access is internal/adapters/http/middleware (auth.go, jwt.go, tenant.go) and dualAuth of
--   internal/adapters/http/router.go: a middleware takes the context of a request to the next one or
--   to a refusal. The hash, the store of keys and the verification of a JWT are a record, `Doors`.
--
-- Conventions: identifiers are numbers, 0 for uuid.Nil, and uuid.New gives out the next number; a
-- time is a number of seconds, but of nanoseconds in Banks; a date is that of its midnight, as the
-- API reads it, so that a DATE column keeps it; an int64 is an integer that every operation wraps
-- around; an error is the sentinel that errors.Is finds, without its text. The fuel of the decimal
-- notation is the number of digits that a number can have, so that it never runs out; every other
-- loop is a recursion on a list or, for retries, on the attempts left.
--
-- Not modelled: the other handlers (payments, runs, login, administration, branding, onboarding),
-- SFTP, the workers for CNAB files and webhooks, configuration, logging and metrics, the master data
-- and the concurrency of two requests: calls run one after another. The circuit
-- breaker, HTTP, JSON, TLS and the ciphers are other packages' and are parameters.
pub mod Base
pub mod Payment
pub mod Run
pub mod CnabFile
pub mod Cnab
pub mod Store
pub mod Access
pub mod App
pub mod Banks
pub mod Queue
pub mod Settings
