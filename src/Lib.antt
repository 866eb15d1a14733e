-- ===== src/Lib.antt =====
-- Verification of the upload service: the release, file, regulation, rule, configuration,
-- secret and access parts of apps/upload and libs/common.
--
-- The program. Projects have releases, releases have artifacts, and an artifact may have an
-- uploaded file, whose object lies in an object storage. A release is prepared as a draft, goes to
-- review, and is released when it complies with the regulations of its project and its
-- dependencies or its installation files are there. The services are NestJS classes over a
-- database (typeorm) and the storage (MinIO); they call each other directly, and some calls are
-- started and not awaited.
--
-- The model. A table is the list of its rows, and a service method is a function from the database
-- to the database, with its answer. The mapper is a record of operations that each function takes,
-- and theorems assume its documented behaviour (`Storage.Orm.IsSql`). The storage, the decoding of
-- tokens, the environment and the look-up of members are parameters as well. Awaited calls run in
-- the order of the source. Calls that are not awaited are values (`Job`), which `Releases.Jobs`
-- runs in any order, one at a time; `Releases.Refresh.Stale` and `Cron.Race` look at calls that
-- interleave between two awaits.
--
-- Files:
--   Prelude, Prelude/Tests, Prelude/Lists, Prelude/Tables, Prelude/Sets, Prelude/Sizes: shared names,
--     Boolean tests, list lemmas, JavaScript's Set.
--   Storage/: the tables and enums of libs/common/src/database/entities, the mapper's interface,
--     the storage, and a sample database.
--   Files, Files/Missing, Files/Uploaded: areFilesUploaded and syncAndCheckMissingFiles of
--     apps/upload/src/file-upload.service.ts.
--   Files/Sync, Files/Sync/Laws, Files/Sync/Batches: syncArtifactsStorageStatus and
--     maybeRestoreReleasedStatus of the same file.
--   Files/Update, Files/Pending, Pending/Pages, Pending/Laws: updateUploadFile, removeFile,
--     deleteItemRow, the notifications of the storage and syncUploadedFiles of the same file.
--   Regulations, Regulations/Laws: apps/upload/src/regulation-status.service.ts.
--   Releases: reading a release, updateLatestForProject, updateTotalSize and
--     getLatestAndUpcomingReleases of apps/upload/src/releases.service.ts; Releases/Latest about
--     the latest pointer, Releases/Upcoming about the event.
--   Releases/Refresh: refreshReleaseState of that file. Refresh/Compliance is about its loop over
--     the regulations, Refresh/Table about the table that it leaves, Refresh/Gate and Refresh/Progress
--     about when it releases, Refresh/Stale about a refresh between whose steps the project is archived.
--   Releases/Set, Set/Call, Set/Laws, Set/Saved, Set/Status: setRelease, with the validation of its dependencies and the
--     link of the default rule.
--   Releases/Order, Order/Laws, Order/Members, Order/Place, Order/Agreement:
--     libs/common/src/database/subscribers/release.subscriber.ts.
--   Releases/Jobs, Releases/Jobs/Invariant: the calls that are not awaited.
--   Releases/Report: getDeploymentReport of that file. Report/Known is about the devices of its map,
--     Report/Counts and Report/Parts about its numbers.
--   Releases/Project, Releases/Project/Laws: archiveProjectReleases and restoreProjectReleases.
--   Permissions, Permissions/Roles, Permissions/Laws: libs/common/src/permissions.
--   Access, Access/Laws: libs/common/src/utils/project-access/project-access.guard.ts.
--   Cron, Cron/Laws, Cron/Race, Cron/Release: libs/common/src/safe-cron/safe-cron.service.ts.
--   Vault, Vault/Text, Vault/Laws: libs/common/src/vault/vault.service.ts.
--   Config/: apps/upload/src/config/config.service.ts, the configurations of devices. Config/Json,
--     Config/Yaml and Config/Paths are the values and the paths into them, Config/Rows and
--     Config/Store the tables and the state of the service, Config/Version computeNextSemVer,
--     Config/Secrets the sensitive values of a group, Config/Groups the editing of groups,
--     Config/Revisions the life of a revision, Config/Maps populateDraftFromConfigMaps,
--     Config/Provision provisioning and refreshConfigProjectRevision, Config/Associations the
--     associations of maps, their lists and the cascades, Config/Assembly the configuration that a
--     device gets, Config/Life any sequence of these operations.
--   Rules/: libs/common/src/rules and apps/upload/src/policy.service.ts. Rules/Text, Condition, Context,
--     Spread and Evaluation are rule-evaluation.service.ts, with Evaluation/Reference a direct reading
--     of a rule over lists; Rules/Fields is rule-validation.service.ts with syncDeviceFields, and
--     Fields/Set the set that its table stands for; Rules/Store, Query, Links and Service are
--     rule.service.ts; Rules/Policies the policies, Policies/Push and Bulk about those of many releases,
--     Policies/Users about those that a user is listed.
--   The files named Tests run the theorems on small examples.
--
-- Bounds. Loops over rows are recursion on the list. The loops with fuel are that over batches
-- of ten in `Files.Sync.sync_batches`, whose fuel is the number of artifacts, of which each
-- round takes at least one (`Files.Sync.Batches`), and in `Files.Pending` that over pages, whose
-- fuel is the number of uploads and one, as each full page moves ten on (`Files.Pending.Pages`),
-- and that over the batches of a page, whose fuel is the length of the page. Numbers of the
-- program that are counts, ids, sizes and times are natural numbers. A method of the
-- configurations is a function of the tables that may end in an exception; what it wrote before
-- stays.
--
-- Not modelled: logging, messages beyond the fact that they are sent, the retry and failure of
-- single database calls, and the clients of Keycloak, Kafka and mail. Deleting and importing a
-- release and replacing that of a published configuration depend on what the mapper loads for a
-- partial select and on cascades of the database, and the enforcement of a regulation on
-- JavaScript's conversions of numbers and on a parser of JUnit files. The older path of uploads
-- (upload.service.ts) is left out. The engine that evaluates a rule is a parameter, and so are
-- the answers of other services and the percentage of a deployment report. The members that
-- JavaScript gives to every text, array and object are not keys of a configuration or of the
-- context of a rule, and the order of its keys is that in which they were added.
pub mod Prelude
pub mod Storage
pub mod Files
pub mod Regulations
pub mod Releases
pub mod Rules
pub mod Permissions
pub mod Cron
pub mod Access
pub mod Config
pub mod Vault
