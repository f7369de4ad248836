-- ===== src/Lib.antt =====
-- The ragz backend: sign-in sessions, authorization, folders and documents, their retrieval, the
-- transactional outbox, quotas and the guards in front of them, as functions on explicit tables.
--
-- The program. A request comes in through a route; core/client_ip.py finds the address that it is
-- limited by and core/ratelimit.py counts it. modules/auth signs users in, rotates their refresh
-- tokens and changes their passwords. modules/tenancy turns an access token into the context of the
-- request and decides what the context may do. modules/quotas refuses a request whose tokens are
-- spent. modules/documents keeps the folders of a workspace, its documents with their versions and
-- access lists, and tells the vector store what it may serve; modules/retrieval is all that talks to
-- that store, and searches it under one filter. Work that outlives a request is published to the
-- outbox, from which worker/outbox.py sends it to the broker. modules/audit keeps the trail of what
-- was done. All paths are below backend/src/ragz.
--
-- Which file models which part:
--   Prelude                the tables as lists of rows, and the results of a handler
--                          (Prelude/Outcome: core/errors.py)
--   Core/Redis             the Redis commands in use, as an interface with its laws,
--                          and a server in memory that has them
--   Core/RateLimit         core/ratelimit.py; Core/RateWindow is about its windows
--   Core/Idempotency       core/idempotency.py; Core/Replay is about replayed deliveries
--   Core/ClientIp          core/client_ip.py; Core/Forwarded is about forged headers
--   Auth/State             modules/auth/models.py and modules/audit
--   Auth/Refresh           modules/auth/service.py: login, _issue_pair, rotate_refresh, logout,
--                          _revoke_all_refresh_tokens, revoke_session, revoke_other_sessions
--   Auth/Passwords         the same file: request_password_reset, reset_password, change_password
--   Auth/Accounts          the same file: the first superadmin, invitations, user administration;
--                          Auth/Oidc: login_oidc
--   Auth/Sessions          the same file: resolve_session_family, list_sessions; Auth/SessionList is
--                          about them
--   Auth/ApiKeys           modules/auth/api_keys_service.py; Auth/KeyLifetime is about it
--   Auth/AccountRows, Superadmin, Admission, Invitations
--                          what the operations on accounts guarantee
--   Auth/Rotation, RotationChain, Credentials, TokenChanges, Requests, Logout
--                          what these operations guarantee, alone and in sequences
--   Audit                  modules/audit/service.py: list_audit_events, and the export of
--                          api/routes/admin_audit.py; Audit/Order, Cursors, Export are about them
--   Tenancy/State          modules/tenancy/models.py and the context of modules/tenancy/context.py
--   Tenancy/Permissions    modules/tenancy/permissions.py
--   Tenancy/Context        modules/tenancy/context.py: build_context_for_user,
--                          build_verified_principal_context, get_tenant_context, require_role,
--                          require_action; Tenancy/Access and Tenancy/Tokens are about them
--   Tenancy/Members        modules/tenancy/service.py: workspaces and members; Tenancy/MemberRows and
--                          Tenancy/Owners are about them
--   Tenancy/Groups         the same file: groups; Tenancy/GroupIsolation and Tenancy/GroupAccess are
--                          about them
--   Tenancy/Roles          the same file: role templates; Tenancy/Versions is about their history
--   Outbox                 modules/outbox and worker/outbox.py; its children are about the delay, the
--                          sweep, its progress and the retention
--   Quotas/Period          modules/quotas/service.py: period_bounds
--   Quotas/Usage           the same file: the ledger, the status, the check and the allocations;
--                          Quotas/Check, Allocation and Mirror are about them
--   Documents/State        modules/documents/models.py, and the jobs of
--                          modules/tenancy/reembed_models.py that an upload waits for
--   Documents/Folders      modules/documents/folders.py: create_folder, ensure_path,
--                          get_folder_checked, rename_or_move_folder; Documents/Subtree: the walk
--                          down, count_subtree and delete_folder
--   Documents/FolderRows, Forest, Tree, Moves, FolderRequests
--                          the tree that the operations on folders keep; Documents/Descent and
--                          Documents/Cascade are about the walk down and the deletion
--   Documents/Reading      modules/documents/service.py: user_can_access_document,
--                          get_document_checked, has_indexed_documents, unprojected_document_ids
--   Documents/Uploads      the same file: create_from_upload, set_pinned, move_document;
--                          Documents/Capacity is about the caps
--   Documents/Projection   the same file: set_document_acl and project_document_security on one
--                          document, step by step; Documents/Serving is about their interleavings
--   Documents/AclChange    the same two as calls on the tables, and the sweep of
--                          modules/documents/ingest.py; Documents/FailClosed is about a failure,
--                          and Documents/Stale and Documents/Sweep about the sweep
--   Documents/Lineage      the same file: promote_lineage, set_approved; Documents/Preference and
--                          Documents/Promotion are about them
--   Documents/Deletion     the deletion of a document: the route of api/routes/documents.py and
--                          run_delete of modules/documents/ingest.py
--   Retrieval/Points       the calls of Qdrant in use, as an interface with its laws;
--                          Retrieval/Memory is a store in memory that has them
--   Retrieval/Filter       modules/retrieval/service.py: _tenant_filter, _ctx_acl and the calls that
--                          maintain points; Retrieval/Access and Retrieval/Maintenance are about them
--   Retrieval/Reading      the same file: list_document_chunks; Retrieval/PinnedReads is about it
--   Retrieval/Search       the same file: retrieve, _dedupe_hq, _chunk_from_point; Retrieval/Chunks,
--                          Retrieval/Backing, Confined and Hidden are about them
--   Tests                  runs on concrete tables
--
-- How state is modelled. A session of the database is a record of tables, and an operation takes the
-- tables and returns its result beside the tables that it leaves committed; what is rolled back on
-- an error is not there. A unique index or a primary key that an operation relies on is either a
-- test in the operation, which gives the conflict that the API reports, or a hypothesis on the
-- tables (IsKeyed, HashIsKey). Ids, hashes, emails and tokens are only compared, so they are numbers;
-- what a call draws at random (Fresh) is an argument, as is the time, in seconds. Sums of tokens do
-- not overflow in Python, so they are natural numbers without a bound. A loop runs over a list, so it
-- needs no fuel; the two walks in the tree of folders have the code's own bound of 1000 rounds
-- (_MAX_TREE_DEPTH), and what they do when it is reached is theirs too. The export of the audit trail
-- loops until no page is left; its rounds are counted, and a theorem gives the number that is enough.
-- Calls that run side by side are steps of a sequence (Documents/Projection); elsewhere a call runs by
-- itself.
--
-- Parameters. The Redis server, the password hash and the token hash, Python's ipaddress, the formats
-- of times and ids in cursors, the broker, the rows that another dispatcher has locked, and the texts
-- of errors are arguments. So are the
-- vector store with its search, the embedded query, the reranker, the scores with their order, whether
-- the store answers a sweep, the order of rows by their last update, and which folders the database
-- takes with one that is deleted (the theorems say which: those that its foreign key leads to).
--
-- Not modelled: the signature of access tokens and the key that makes it; mail, whose failure is
-- caught and changes no state; log lines; the columns target_type, reason_code and request_id of an
-- audit row, and the profile of an organisation; the cache of usage sums in Redis; the web routes,
-- save those that are named above. Of documents: the object storage and its keys, time stamps,
-- parsers and enrichment, the stages of the ingest, fields of metadata, and the branch of ensure_path
-- for another writer at the same time. Of retrieval: the embedders, the usage rows of a search, the
-- limits of the prefetches, which bound what the store fuses, attachments to chats and the reading of
-- cited chunks. Chat, models, bots, evaluations and secrets.
pub mod Prelude
pub mod Core
pub mod Auth
pub mod Audit
pub mod Tenancy
pub mod Outbox
pub mod Documents
pub mod Retrieval
pub mod Quotas
pub mod Tests
