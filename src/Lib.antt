-- ===== src/Lib.antt =====
-- Models of the NextExplorer server, a web file manager, and theorems about them.
--
-- The server answers requests on logical paths. A path is normalized and sorted into one of three
-- spaces, a volume, the caller's personal folder or a share (Paths); the access manager decides what
-- the caller may do with it, from the caller's account or guest session, the rules of the
-- administrator, the assigned volumes and the table of shares (Access); and the authorization service
-- turns its answer into a verdict on one action. What is deleted goes to a trash zone and what is
-- overwritten to a history of versions; both are bounded by policies that are pure functions of what
-- a zone holds (Trash, Versions). Office editors hold locks on the files that they edit, and accounts
-- are locked after failed sign-ins (Locks); a one-time code or a recovery code is asked for after the
-- password (SecondFactor). A selection that is downloaded file by file is a plan behind a token
-- (Downloads). Long operations outlive their requests, and what became of them waits for their owner
-- (Operations).
--
-- Files:
--   Prelude.antt, Prelude/            the helpers that the others share: tests, lists, association
--                                     lists, texts as lists of code points, a stable sort
--   Paths/Segments.antt               path.normalize and path.resolve of Node
--   Paths/Logical.antt                backend/src/utils/pathUtils.js: normalizeRelativePath,
--                                     assertOutsideZone, isTopLevelEntry, combineRelativePath,
--                                     parsePathSpace
--   Paths/Within.antt                 backend/src/utils/bytePath.js: isWithin, and the personal root
--                                     of pathUtils.js
--   Access/Rules.antt                 backend/src/utils/accessRules.js and the resolver of
--                                     backend/src/services/accessControlService.js
--   Access/Records.antt               what the access manager reads of sharesService.js and
--                                     userVolumesService.js
--   Access/Manager.antt, Sharing.antt backend/src/services/accessManager.js
--   Access/ShareStore.antt,           backend/src/services/sharesService.js: createShare, updateShare
--   Access/ShareUpdates.antt
--   Access/ShareTargets.antt          backend/src/services/sharesService.js:
--                                     getSharesForSourceTargets
--   Access/Authorization.antt         backend/src/services/authorizationService.js
--   Trash.antt, Trash/Zone.antt       backend/src/services/trash/policy.js
--   Versions.antt                     backend/src/services/versions/policy.js
--   Operations/Owners.antt, News.antt backend/src/services/operationTasks.js: owners, and the news
--                                     of operations that ended unwatched
--   Operations/Tasks.antt, Pump.antt, backend/src/services/operationTasks.js: tasks, the draining of
--   Handle.antt, Register.antt        their queues, their handles, and the register, whose step is
--                                     whatever may happen to it
--   Locks/Wopi.antt                   backend/src/services/wopiLockService.js
--   Locks/Lockout.antt                backend/src/services/users/lockout.js, and attemptLocalLogin of
--                                     backend/src/services/users/localAuth.js, cut at its wait for
--                                     bcrypt.compare
--   Downloads/Names.antt, Plans.antt  backend/src/services/downloadPlans.js
--   SecondFactor/Base32.antt          backend/src/utils/base32.js
--   SecondFactor/Totp.antt            backend/src/utils/totp.js: codeForStep, verifyTotp
--   SecondFactor/TwoFactor.antt       backend/src/services/users/twoFactor.js
-- The other files hold proofs, named for what they prove; the files named Examples hold tests and the
-- theorems applied at concrete inputs.
--
-- Conventions. A function keeps its name of the source in snake_case. Times are milliseconds and sizes
-- bytes, in the natural numbers; `Math.max(0, a - b)` is the subtraction that stops at 0. A value that
-- may be missing, or not finite, is an Option. A function that throws returns a Result. The clock and
-- the tables of the database are arguments. `localeCompare` is the record Collation, of which only
-- that it is a total preorder is used. Loops are structural; the inner loop of encodeBase32 runs
-- on its number of bits, which is enough, since each round takes five of them, and the digits of a
-- number on more rounds than it has (Downloads/Names.antt).
-- Asynchronous code is cut at its waits: what runs between two of them is one function, and the end of
-- a wait or a timer is an event, taken in any order. A wait for the database is none of these, since the
-- database is open and answers at once. createShare hashes a password before it reads or writes
-- anything; updateShare hashes one behind its reads, and is taken as one step all the same.
--
-- Not modelled: the frontend, the routes and middleware around the services, the file system and
-- symbolic links, the database, and the third-party programs and packages that the server calls.
pub mod Prelude
pub mod Paths
pub mod Access
pub mod SecondFactor
pub mod Downloads
pub mod Trash
pub mod Versions
pub mod Locks
pub mod Operations
