-- ===== src/Lib.antt =====
-- HustlyTasker's backend: the tenant boundary, the task workflow, the invitations and the
-- security tokens of a multi-tenant task manager.
--
-- The program. A Profile is a tenant: users belong to it by a ProfileMembership (Owner, Admin
-- or Member). Its Workspaces each cover one month; a Member reaches a Workspace by a
-- WorkspaceMember row (Admin, Member, the Editor of the code, or Viewer). Tasks live in a
-- Workspace, form a hierarchy by their parent, and go from PENDING over ASSIGNED, WORKING and
-- REVIEW to COMPLETED by assignments, deliverables and reviews; the people of a Task discuss it
-- in comments. Managers invite people by email into a Profile; an invitation is issued,
-- delivered, resent, revoked, and answered with a single-use token. Security tokens of an
-- account reset its password or verify its email. Every mutation of a tenant first takes the
-- locks of the tenant boundary, then asks for a capability, then writes its rows and an audit
-- row, and may emit notifications from that audit row, all in one transaction.
--
-- The state is one value, `Db` (Store/Database), with a list of rows for each model:
-- backend/apps/{accounts,workspace,tasks,reviews,notifications,audit}/models.py give the
-- columns (Store/Rows) and the choices (Store/Choices). A service is a function of its
-- arguments and the `Db` into `Result`: `ok` with the value and the new `Db`, or `err` with the
-- exception. An `err` carries no `Db`, since `transaction.atomic` rolls back. A service that
-- raises after its transaction has committed, as one that records an expiry does, is `ok` with
-- an `Outcome`: it either returned a value or raised an exception, and carries the `Db` in both
-- cases.
--
-- Files and code:
--
-- Prelude: tests and equality, tables with their queries and writes, the result type,
-- `str.strip`.
-- Access: backend/apps/workspace/access.py. Contexts and their revalidation, resolution, the
-- capabilities, the roster of members.
-- Workspace: backend/apps/workspace/services.py, with `clean` and `save` of the models. Scope
-- is `lock_workspace_mutation_context`, Profiles and Lifecycle and Members are the services,
-- Audit their audit rows.
-- Tasks: backend/apps/tasks/services.py and `Task.clean` of backend/apps/tasks/models.py. Clean
-- is the validation of the hierarchy, Planning `create_task` and `update_task`, Assigning
-- `assign_task` and `start_task`, Delivering `submit_deliverable`, Deciding the reviews,
-- Visible the reads of tasks/access.py, Discussing backend/apps/tasks/comment_services.py.
-- Notify: backend/apps/notifications/services.py, access.py and content.py. Reading is
-- `mark_notification_read`.
-- Accounts: backend/apps/accounts/models.py, identity.py, security_services.py and
-- email_delivery.py. Records and Saving are the token and its validation, Issuing and
-- Requesting the requests, Confirming `confirm_password_reset` and
-- `confirm_email_verification`, Delivery what happens after the email.
-- Invitations: backend/apps/workspace/invitation_services.py, invitation_delivery.py,
-- invitation_identity.py and the invitation models of models.py. Records is the rows, Managers
-- the authority to invite, Issuing and Managing the calls of a manager, Tokens and Answering
-- those of the invited, Delivery what happens after the email.
-- Examples: a small database and calls on it.
--
-- Names are those of the code, without a leading underscore. A call that the code makes through
-- an ORM query is a function over the table with the conditions of its `filter`; `.first()` is
-- the row with the least primary key, which is how Django orders an unordered queryset for
-- `first`; a foreign key that the query follows is a condition `exists` over the other table.
--
-- Parameters. `FieldRules` stands for Django's `clean_fields`, which validates each column
-- against its declaration; the other parts of `full_clean`, `clean` and the constraints, are
-- written out. `request.new_id` gives the ids that `uuid.uuid4` draws, and inserting a row
-- whose id is taken fails; `request.now` is `timezone.now()`. `request.before` is the database
-- as the reads before the first lock saw it, and nothing relates it to the locked one.
-- `Platform` stands for what Python and Django compute: `casefold`, the SHA-256 digest, the
-- `iexact` test, the hashing and the validation of passwords, and whether mail can be sent; the
-- raw token, the salt and the outcome of sending an email are arguments. A `Ref` is an id from
-- a request, a UUID or a value that is none.
--
-- Loops. The walk up of `Task.clean` recurs on the number of edges that the depth cap still
-- allows; one step more is an error in the code as well. The walk down recurs on its rounds,
-- four as in the code. Delivery recurs on the list of recipients, the revocation of stale seats
-- on the list of the seats; `order_by("id")` is a sort by insertion. A history of comments, of
-- invitations or of account calls is the run of a list of calls, in any order and with any
-- requests.
--
-- Choices of the model. A role, status or priority is a value of its data type, so the checks
-- that a string is one of `Role.values` have no counterpart. A `datetime` is an instant with
-- two flags, whether it is aware and whether it can be moved to UTC. The mark `_verification`
-- of a context is a flag. Row locks have no counterpart of their own: a service runs on the
-- locked database. The columns `created_at` and `updated_at` are kept where a service reads
-- them; so the time that a save of a Profile or a Task writes to `updated_at` has no
-- counterpart, and what is said of their columns leaves it out. A transaction reads the clock
-- once. The request of an email and the record of its outcome are two calls, so that others may
-- run between them. A check constraint stands where `full_clean` is called, and not at a save
-- of an invitation or a token that names its `update_fields`. The advisory lock on the email
-- address of a recipient has no counterpart, as a row lock has none.
--
-- Not modelled: the annotation of a comment with its author's membership, AI runs, clients and
-- finance, serializers, views, permissions, throttles, URLs, the admin site, settings and
-- migrations, the frontend, the scripts and the agent skills.
pub mod Prelude
pub mod Store
pub mod Access
pub mod Workspace
pub mod Notify
pub mod Tasks
pub mod Accounts
pub mod Invitations
pub mod Examples
