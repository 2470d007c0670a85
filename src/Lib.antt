-- ===== src/Lib.antt =====
-- The scripts of this repository that keep its task process: the backlog and its dependencies, the
-- rules on who may change which file, the routing of work to agents, and the checks on recorded
-- scenarios. All of them are JavaScript under scripts/.
--
-- Parts, and the files here that model them:
--   Prelude, Result, Js   shared: tests and lemmas on lists and texts, errors as values, the values
--                         of JSON and YAML documents, and `trim` and `length` of texts (Js/Trim).
--   Backlog/Cycle         `visit` of scripts/task/validate-work.mjs, the search for cycles of
--                         dependencies. Its sets and its list of cycles are a state that is passed on.
--   Tabletop/Sequence     `validateSequenceInvariants` of scripts/validate-tabletop-scenarios.mjs: its
--                         sets and maps are a trace; a step is split into what it is checked for
--                         (`check_message`) and what it adds to the trace (`record_message`).
--   Scope                 `isMainManagedPath` of scripts/task/lib.mjs; `allowedFor`, `matches` and
--                         `completionAllowed` of scripts/task/unified-lifecycle.mjs; `matchesAllowed` of
--                         scripts/task/work-pre-commit.mjs.
--   Routing               scripts/task/agent-routing.mjs: Contracts (`assertFixedOverrides`), Selection
--                         (`validateDevSelection`, `resolveFixedRoute`), Delegation
--                         (`validateDelegation`, `validateChildOutcome`), Config (`readProjectConfig`),
--                         Roles (`readCanonicalContracts`) with the expressions of Patterns.
--   Lifecycle             scripts/task/unified-lifecycle.mjs. For `scopeCheck`, Repository holds what it
--                         asks of git, Candidate the check. For `evidenceCommit`, Script is a
--                         program as a tree of requests with its runs, Steps the functions that it
--                         calls (Steps/Planning the planning gate, Steps/Validation the choice of the
--                         validator), Evidence the transaction; Freeze is `candidateCommit`. For
--                         `completionGate`, Snapshot saves files and brings them back, Completion
--                         has what precedes the merge, Completion/Gate the merge and its push.
--                         Sparse is `createSparseWorktree`, Composite `assertComposite` and `taskPr`,
--                         Sync is `syncMain`.
--   Work                  scripts/task/lib.mjs: Node has what it asks of the platform, and its calls of
--                         git, Texts the operations on texts, Documents the front matters, paths
--                         and identifiers, Digest `changedContentDigest`, Lock the lock
--                         that `acquireWorkRepoLock` makes, as steps of several processes.
--   PreCommit             scripts/task/work-pre-commit.mjs: Context has the sections that a context
--                         action may change, Decisions the rules on decisions, Hook the rest.
--   Check                 `checkTask` of scripts/task/check-task.mjs. Findings is code that collects
--                         errors and may throw; Contract, Changes and Safety are about safety
--                         contracts, Legacy about old evidence, Merges and Worktrees about git, Gates
--                         and Phases about the plans and reviews; Task composes them.
--   Registry              scripts/task/validate-work.mjs: Entries has its loops over epics and tasks,
--                         Decisions those over the wiki's pages and decisions.
--
-- How they interact: the scope rules say which files an evidence commit, a completion or a merge may
-- change, and `scopeCheck` applies them to the commits of main; a route starts from the developer
-- profile that a plan's front matter chooses, and `checkTask` holds the assigned developer to that
-- profile. The registry's check runs `checkTask` on each task and the search for cycles on their
-- dependencies. The commits of `evidenceCommit`, `candidateCommit` and `completionGate` pass through the
-- hook, to which they hand the rules of their action and the digest of what they validated.
--
-- Conventions: a document is a `Js.Value` and is read with `prop`; numbers in documents are
-- integers. What throws returns a `Result`, with the text of the message up to the first value
-- that it quotes; what collects errors returns a list of problems. An access to a property of
-- `null` or `undefined` gives `undefined`, and the names that every object inherits, such as
-- constructor, are taken for absent. A task whose id is not a text is reported, where the program
-- looks at the text that JavaScript makes of it. Commands of git, the YAML library, `Date.parse`,
-- JSON.parse, ajv and sha256 are parameters.
--
-- A transaction meets a world that answers each request as it likes, after all that happened before,
-- so that other processes may change files between any two requests.
--
-- Fuel: the cycle search takes two more rounds than there are tasks, since the tasks that are open
-- at once are distinct but for the last, and the first one may be missing in the backlog. Decimal
-- digits take one more round than the number. The rounds of pushes are counted down from two. All
-- else is by structural recursion.
--
-- Not modelled: `taskStart` and `postMerge` of unified-lifecycle.mjs, which fill in templates and
-- records for the parts above, the binding to the bootstrap manifest, the command lines, JSON Schema
-- validation, the launchers, viewers and linters, which call other programs or write pages, and the
-- Go, Rust and Python code.
pub mod PreCommit
pub mod Prelude
pub mod Js
pub mod Backlog
pub mod Tabletop
pub mod Result
pub mod Scope
pub mod Routing
pub mod Lifecycle
pub mod Work
pub mod Check
pub mod Registry
