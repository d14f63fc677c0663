-- ===== src/Lib.antt =====
-- DevNepal: the services of apps/projects, apps/administration, apps/contributions,
-- apps/notifications, apps/moderation and apps/recognition, and what they stand on.
--
-- DevNepal is a Django site on which ministries and members publish projects for contribution. This
-- library models the service layer, where the rules of the site are: each service authorises its
-- actor, checks the state of the rows, writes rows, records an audit event and schedules
-- notifications.
--
-- Files, with the code that they model:
--   Prelude, Prelude/*       tests into Bool, lists, texts as lists of character codes
--   Accounts                 apps/accounts/services.py (mfa_verified, require_privileged_mfa),
--                            apps/ministries/services.py (is_publisher_active)
--   Projects/Enums, Data     apps/projects/enums.py and apps/projects/models.py
--   Projects/Monad           the store of a call, its errors and its audit trail
--                            (apps/audit/services.py record_audit, apps/taxonomy/fields.py)
--   Projects/Access          apps/projects/services.py _is_super_admin, _require_super_admin,
--                            _require_publisher, _require_owner_or_super_admin
--   Projects/Lifecycle       the transition tables, snapshot_project, create_version, _review_row,
--                            _perform_transition, and the notifications that they schedule
--   Projects/Review          submit_for_review, assign_reviewer, request_changes,
--                            reject_submission, resubmit, approve, revoke_approval
--   Projects/Readiness       parse_github_repo_slug, check_publish_readiness,
--                            _publisher_publish_readiness
--   Projects/Publication     publish, publish_by_publisher, publish_due_scheduled, _publish_system
--   Projects/Closure         pause, resume, the completion summary, complete, cancel, archive,
--                            restore, reopen
--   Projects/Personal        the community terms, open_personal_listing,
--                            unpublish_personal_listing
--   Projects/Edit            apply_edit, and what follows for personal listings (Edit/Stranding)
--   Projects/Applications    apply_to_project, _validated_screening_answers, decide_application,
--                            provide_info, withdraw_application, can_view_timeline (the
--                            answers in Applications/Screening, what is sent in
--                            Applications/Notifications); their
--                            histories and diagram in Applications/History
--   Projects/Command         the calls as one type, the diagram of statuses that they refine
--                            (Command/Refinement), and histories of calls (Command/Numbering)
--   Projects/*/Laws          the theorems on each part (Applications/Submission too)
--   Projects/Sample, */Tests concrete rows, and the theorems at them
--   Service                  what a call outside apps/projects is, and its audit events
--   Administration/Access    apps/administration/services.py _require_super_admin, _require_reason
--   Administration/Flags     request_feature_flag_change, approve_feature_flag_change,
--                            set_feature_flag, _record_change, _apply_change
--   Administration/Grants    propose_super_admin_grant, confirm_super_admin_grant,
--                            revoke_super_admin, _end_sessions
--   Contributions/Data       apps/contributions/models.py, enums.py, and the checks that its
--                            services share
--   Contributions/Verification  apps/contributions/services.py verify, revoke,
--                            record_evidence_scan_result
--   Contributions/Submission submit_evidence, can_submit_evidence, validate_evidence_file
--   Contributions/Candidates record_candidate_from_github, _resolve_github_member
--   Contributions/Holds      place_on_hold, release_hold, respond_to_hold
--   Contributions/*          what the guards let through (Guards), the effect of each call on the
--                            row (Steps), calls and statuses (History), and theorems
--   Notifications/Data       apps/notifications/enums.py and models.py, preferences_for, safe_subject
--   Notifications/Feed       apps/notifications/services.py notify, mark_read, unread_count,
--                            update_email_preferences
--   Notifications/Delivery   send_pending_notifications, _deliver, record_delivery_failure
--   Notifications/*          theorems: two dispatches (Drain), attempts over histories (Attempts,
--                            Emails, Budget), repeated events (Dedup)
--   Moderation/Data          apps/moderation/enums.py and models.py, the audit of the services
--   Moderation/Enforcement   apps/moderation/services.py _enforcement_provenance, _enforce_action,
--                            _restore_enforcement, _restore_target_state; apps/blogs/services.py
--                            MODERATION_TRANSITIONS, _transition_moderation
--   Moderation/Cases         file_report, assign_case, record_decision,
--                            enable_security_containment
--   Moderation/Hearings      appeal, resolve_appeal
--   Moderation/*             what enforcement and restoration do to the target (Guards,
--                            Restoration), the diagram of cases (History, Steps), histories (Laws),
--                            decisions and appeals in a row (Resolution, Appeals)
--   Recognition/Data         apps/recognition/enums.py and models.py, the audit of the services
--   Recognition/Snapshots    apps/recognition/services.py _recognition_snapshot, and its comparison
--   Recognition/Changes      _apply_correction_state, _reverse_score, _restore_correction_state
--   Recognition/Corrections  apply_correction, _validate_correction_input
--   Recognition/Hearings     appeal_correction, resolve_correction_appeal
--   Recognition/Badges       _award_badge, award_badge, _revoke_badge, revoke_badge
--   Recognition/Scoring      evaluate_accepted_contribution, reverse_accepted_contribution
--   Recognition/Recomputation  recompute_scores
--   Recognition/*            what a change of scores leaves (Agreement), restoration from a snapshot
--                            (Lookups, Restoration), calls that take effect (Calls), theorems on
--                            corrections (Laws), on scores (Rescored, Capping, Limits) and on
--                            awards (Counting, Awards, Uniqueness)
--
-- Correspondence. A service is a function `Action`: it takes what it reads from outside (`Env`) and
-- the rows of one project (`Store`), and returns a value or an error together with the rows after it.
-- Rows that were written before an error stay written, unless the code is in `transaction.atomic`.
-- An actor is `None` or a saved account. The object that a service is handed is its row: no other
-- request has written the row since it was read. One call runs at one instant. Histories are lists,
-- the newest first. The version that another row names is named by its number, which is unique in a
-- project. Columns that normalise their text are stored normalised. A notification that fails is
-- logged and changes nothing else, so scheduling is an entry in `outbox`. A snapshot keeps the
-- values of columns, as they are stored, and not their JSON. An edit does not change the slug.
--
-- An application is a row that its services take and return, with its timeline. Whether
-- apps/analytics records the event of a submission is an argument of it.
--
-- In apps/administration and apps/contributions a call is a function on the rows of one flag, of the
-- role, or of one contribution record (`Service`); a call inside `transaction.atomic` that raises
-- leaves the rows as they were before the transaction. The rows of a flag and of a record are locked
-- or read once, so a call is one step. A change of a flag is named by its version, and the sessions
-- that end are those of UserSession and of the session store.
--
-- In apps/notifications the rows of one recipient, in the order of their keys, are a mailbox, and the
-- table is the list of mailboxes in the order of the recipients: the groups of the dispatch. A loop
-- that saves each row by itself is a map over the rows. Email and feed rows are one type, and the
-- class of the error of an email is the answer of `send_mail` to the rows that it covers. The column
-- of deduplication keys is 120 characters wide; the keys of the callers are shorter, and the model has
-- no limit.
--
-- In apps/moderation a desk is one case with the columns of its report, and the row that the report is
-- about, with the column that moderation writes. Reports are about the models that ReportForm offers;
-- a row of another model has nothing to write. The
-- texts of forms are parsed: an action or an outcome is one of its list, a reason may be none of it.
-- The provenance of an enforcement, which is JSON, has the three forms that the code writes.
--
-- In apps/recognition a ledger is the table of contributions, each with its record of
-- apps/contributions and its score, and the table of awards, both in the order of their keys; a docket
-- is a ledger with one correction. A correction of holds calls the functions of Contributions/Holds.
-- A loop that writes each row by itself is a map over the rows. Times of a snapshot, which the code
-- formats and parses, are times, and the kind of a correction with its corrected score is one column.
-- The scheme of an evaluation is what it reads: the setting, the active policy, whose rules are valid,
-- the badges, and the keys that the database gives to new rows.
--
-- Parameters (`Env`): the clock, two settings, Unicode normalisation, `urlparse`, and the
-- case-insensitive comparison of the database; for contributions also whether the calls into
-- apps/recognition, apps/analytics and the file storage return, for submissions the configured limit,
-- Django's `get_valid_filename` and the suffix of a path in lower case, and for notifications the mail
-- server and the translation of messages. No theorem assumes anything of them.
--
-- Loops. Every loop of the code is over rows or list entries, and is structural recursion; there is
-- no fuel.
--
-- Not modelled: views, forms, templates, migrations and settings (glue); HTTP clients; in
-- apps/administration the creation of a flag; in apps/moderation the exports, the summary for the
-- public and the figures of community health; in apps/recognition the activation of policies, the
-- editing of badges, the leaderboard and the summary of anomalies; apps/blogs but for the moderation
-- of posts, and the other applications, which come next; interleavings of two requests in the middle
-- of a call.
mod Prelude
pub mod Accounts
pub mod Projects
mod Service
pub mod Administration
pub mod Contributions
pub mod Notifications
pub mod Moderation
pub mod Recognition
