-- ===== src/Lib.antt =====
-- A model of the core of WebDB, a web console for read-only SQL: what text may run, how a result
-- is paged, and who may run how much at once. All paths are under apps/api/internal.
--
-- The parts, in the order in which a query meets them:
-- * SqlPolicy (sqlpolicy/): `Decide` of policy.go is `Policy.decide`. For MySQL it first runs the
--   lexer of ecm_lexer.go (`EcmLexer.scan`), then for both dialects the classifier of classifier.go
--   (`Classifier.classify`), whose parser and walk over the parsed statement are the parameter
--   `Classifier.Parser`. `MySQLLexerModeFromSession` of types.go is `SessionMode.mode_from_session`,
--   and `HasUnboundPlaceholder` of placeholder.go is `Placeholder.has_unbound_placeholder`. Text is
--   a list of bytes. `EcmLexer.Tokens` and `Placeholder.Dialects` describe the tokens of SQL
--   text apart from the code.
-- * QueryPlan (queryplan/): `VerifySortPlan` of plan.go is `Plan.verify_sort_plan`, over the metadata
--   of types.go and schema.go (`Types`) and the shape of shape.go (`Shape`).
--   `NewVerifiedNextPagePlan` of nextpage.go is `NextPage.new_verified_next_page_plan`.
-- * Pagination (pagination/): the registry of registry.go, with its configuration (`Config`), the
--   state it keeps and measures (`State`), its counters, entries and quotas (`Counters`, `Entries`,
--   `Quota`), and its methods (`Registry`). `Create`, `Claim`, `Revoke`, `CleanupExpired`, `Rotate`,
--   `Complete`, `Abort` and `Close` take the registry's lock for their whole body, so each is one function
--   from the registry to its answer and the registry after it; `Calls` runs any sequence of them.
-- * Execution (execution/): `Execute` of pipeline.go is `Query.execute`, over its phases in `Execute` and
--   `Query`; `ExecuteNextPage` is `NextPage.execute_next_page`. `verifySortPlan` and
--   `createContinuation`, with `NewSchemaSnapshot` and `ExtractLastValues`, are in `Sorting`, the
--   transactions and audits before the adapter in `Audit`, `recordPostExecution` and
--   `finalizePanic` in `Finish`, and the codes and their mappings in `Codes`. A call is a program over
--   its world (`World`): the result, the execution row, the registry, and a log of every call of the
--   stores, the credentials, the adapter and the alarm. What these answer is a function of the log,
--   and so may change with every call; other requests may call the registry in between (`others`).
--   `Books` reads from a log which row and audits are durable, by the rule of transactions, and
--   whether the handle was used as it must be. `Rules` has the proof rules for programs.
-- * Keyset (adapter/keyset.go): `Build.build_after` is `buildAfter`, with the arguments that `phNull` and
--   `phVal` append; `Rows` says what a condition means by the rules of SQL. `Order.order_by` is
--   `buildOrderByClause`.
-- * Http (executionhttp/): `Codes` has the public codes with `statusFor`, `mapExecutionCode` and
--   `mapExecutionResultError`, `Texts` the texts of the codes, and `Answer` what an error of the
--   pipeline is answered with (`writeError`).
-- * Admission (adapter/admission.go): `TryAcquire` and `Release`, and `System.after_calls` for any
--   sequence of them.
--
-- Conventions. Times, sizes and counts are natural numbers: a limit below 1 counts as unset, so the
-- sign plays no part, and sums of sizes stay under limits far below 2 ^ 63. The clock's reading, the
-- random handle and the digest function are arguments of the registry's methods. A handle that is
-- drawn is taken not to be in use where a theorem says so. Errors are the values of a data type, of
-- which the texts are left out.
--
-- Fuel: only `Quota.evict_loop` runs on fuel, one more round than there are entries, since each
-- round but the last deletes one. All other loops are recursion on the text or the list.
--
-- Not modelled: the walk over the third-party parser's syntax trees, the drivers and the connection
-- manager, the text of the keyset statement, requests and results over HTTP, the encryption of
-- credentials, the metadata store and the web front end. Of the pipeline: the propagation of a
-- panic, contexts with their timeouts, and a panic of `ExtractLastValues` on a row that is shorter
-- than the columns, which counts as its error here.
pub mod Prelude
pub mod SqlPolicy
pub mod QueryPlan
pub mod Pagination
pub mod Admission
pub mod Execution
pub mod Keyset
pub mod Http
