-- ===== src/Lib.antt =====
-- NexusPuppet is a console for Puppet: it classifies nodes by rules over their facts, merges the
-- classes of the matching groups into one ENC document for each node, previews changes, and reports
-- conditions, under an access policy whose roles may come from a directory. This library models the
-- decisions of that program, and the queue, files and sessions behind them, and proves them correct.
--
-- Parts, and the files that model them (paths from the repository's root):
-- - Value.antt: the JSON values of packages/contracts/src/enc.ts, and `Engine`, what the program
--   uses of its JavaScript engine. Value/Text.antt: the string methods.
-- - Materialization/Rules.antt: apps/api/src/materialization/pure/rule-evaluator.ts
--   (resolveFactPath, applyOperator, groupMatches, matchGroups, explainMatch).
-- - Materialization/Merge.antt: apps/api/src/materialization/pure/class-merger.ts (mergeGroups, with
--   its variables as the record `Merge` and each loop body as a function on it).
-- - Materialization/Classify.antt: the evaluation of one node in
--   apps/api/src/materialization/materializer.service.ts, which feeds the one into the other.
-- - Materialization/Queue.antt: the table of jobs, and materialization.service.ts, which fills it.
-- - Materialization/Drain.antt: materializer.service.ts up to one node, with what it needs of the files
--   as the record `EncFileWriter`; Materialization/Drain/Batch.antt: its chunks, batches and drain.
-- - Materialization/Renderer.antt: apps/api/src/materialization/pure/enc-yaml-renderer.ts.
-- - Materialization/Storage.antt: apps/api/src/materialization/posix-enc-storage.ts over the record
--   `FileSystem`; `posix_writer` is the `EncFileWriter` that the materializer is given.
-- - Materialization/Reconciler.antt: apps/api/src/materialization/reconciler.service.ts.
-- - Plan.antt: apps/api/src/classification/plan/apply-operation.ts with the requests of
--   packages/contracts/src/plan.ts.
-- - Notifications/Lifecycle.antt: apps/api/src/notifications/pure/condition-lifecycle.ts.
-- - Replication/Currency.antt: apps/api/src/classification/pure/compile-currency.ts.
-- - Replication/Receipts.antt: apps/api/src/replication/compile-receipts.service.ts.
-- - Replication/Ustar.antt: apps/api/src/replication/ustar.ts on lists of bytes; Replication/Tree.antt:
--   enc-replication.service.ts, over the same `FileSystem` as the storage.
-- - Auth/Tokens.antt: the refresh tokens of apps/api/src/auth/token.service.ts; `rotate` is its
--   reading half `check_presented` and its writing half `settle_rotation`, between which another
--   request may come.
-- - Auth/Lockout.antt: the sign-in of apps/api/src/auth/local-auth.provider.ts and its lock; the check of
--   a password against a hash is a parameter.
-- - Auth/Accounts.antt: the tables of apps/api/src/auth/users.service.ts and roles.service.ts. Its
--   children Users, Secrets and Roles are their operations, Requests the steps that these make.
-- - Auth/Outbox.antt: apps/api/src/auth/audit-delivery.outbox.ts.
-- - Auth/Policy.antt: apps/api/src/auth/rbac.policy.ts and the snapshot of role-registry.ts.
-- - Directory/Roles.antt, Directory/Filter.antt: role-mapping.ts and filter.ts of
--   apps/api/src/directory/ldap.
-- - Classification/Warnings.antt, Classification/Conflicts.antt: strategy-warnings.ts and
--   aggregate-conflicts.ts of apps/api/src/classification/pure.
-- - Inventory/Differing.antt, Inventory/Grouping.antt: diff-parameters.ts, in which `JSON.stringify`
--   of a scalar or a key is a parameter, and group-resources.ts of apps/api/src/inventory/pure.
-- - Logging/Throttle.antt: apps/api/src/common/log-throttle.ts.
-- - Support/Window.antt, Support/Cap.antt: `selectWindow` and `capOldestFirst` of
--   apps/api/src/support/pure/log-window.ts with `lineTimestamp` of
--   apps/api/src/logging/pure/log-record.ts; `JSON.parse` is a parameter.
-- - Web/Diff.antt, Web/Collapse.antt: apps/web/src/lib/diff-lines.ts.
-- Base.antt holds the shared lemmas, Samples.antt and Tests.antt concrete data and runs on it.
--
-- How the code is read:
-- - Numbers, regular expressions, lower-casing and collation are fields of `Engine`, a parameter:
--   they are the host's. Only the merge order assumes anything of it, that collation answers like a
--   total preorder.
-- - An object is an association list of its own properties in insertion order. What a plain object of
--   JavaScript inherits is not in it: mergeGroups is modelled for classes that have no inherited name,
--   such as `constructor`, and for parameters other than `__proto__`. A Map or a Set is a
--   list too; `Array.prototype.sort` is a stable insertion sort.
-- - A rank is a natural number, as the endpoints that write groups bound it; the negative ranks that
--   the preview of a plan lets through are not covered.
-- - Errors that are thrown are `none`. A Date is its milliseconds.
-- - Mutation of local variables is a fold over a record of them. `copy` of apply-operation.ts has no
--   counterpart, since values are not shared.
-- - A table of the database is the list of its rows, the earliest created first, and an upsert finds
--   the row of its key. What runs inside one transaction is one function on the tables, and a
--   transaction that throws leaves them as they were. Requests to users.service.ts and
--   roles.service.ts are one after the other, each a step.
-- - A buffer is the list of its bytes. The octal digits of a number are taken on fuel that is the
--   number itself, which has at most as many digits.
-- - The clock is an argument, read where the code reads it. The random tokens, families and UUIDs are
--   arguments too. An advisory lock and what others do meanwhile are fields of a `Round` of the drain.
-- - The file system, the YAML library and SHA-256 are parameters. The laws `IsPosix`, `IsErasing` and
--   `IsJoining` say what POSIX and node:path promise of the calls that are used. A write that throws
--   is `none` for the materializer and leaves its files as they were; Materialization/Storage/Atomic.antt
--   is about what is on the disk then.
-- - Every loop of the program is structural recursion here. `visited` of
--   Materialization/Drain/Walk.antt, which follows the cursors of a full reconcile on fuel, is a
--   reading of the loop that the queue makes of its chunks, and no function of the code.
--
-- Not modelled: timers, HTTP, TLS, LDAP and OIDC clients, the access tokens of jwt.ts, password
-- hashing (a parameter), the accounts that a directory provisions at a sign-in, log sinks, the React
-- console but for the line diff, the queries behind the lists of the console, and the zod schemas at
-- the boundary but for the two refinements of `createUserSchema`.
pub mod Base
pub mod Value
pub mod Materialization
pub mod Plan
pub mod Notifications
pub mod Replication
pub mod Inventory
pub mod Classification
pub mod Support
pub mod Logging
pub mod Auth
pub mod Directory
pub mod Web
pub mod Samples
pub mod Tests
