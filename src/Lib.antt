-- ===== src/Lib.antt =====
-- MailGate, a quarantine between a mailbox and the agents that read it: a worker fetches messages
-- over IMAP, parses and assesses them, and stores every one of them in quarantine; the owner
-- approves or rejects them on web pages; and a read-only API shows the approved ones to holders of a
-- token.
--
-- Models.antt models app/gateway/models.py: a row is a record, a table the list of its rows and the
-- database a record of tables; a key is a number, a time a number of seconds. Every operation that
-- changes the database takes it and returns it.
--
-- Mail.antt and its children model app/gateway/mail.py: Mail/Sanitise (`_safe_header`,
-- `_visible_controls`, `_html_to_text`), Mail/Links (`_normalise_url` and the loop over the matches),
-- Mail/Injection (the patterns), Mail/Claims (`parse_authentication_results`), Mail/Parse
-- (`parse_message`) and Mail/Policy (`classify`, `assess`). The record `Libraries` holds what the email
-- package, html.parser, urllib, hashlib and the codecs do.
--
-- Dns.antt and Dkim.antt model app/gateway/authentication.py. The DKIM library is a tree of questions
-- to its callback (`Verifier`), so that it may ask for any name, any number of times.
--
-- Ingestion.antt, Ingestion/Store and Ingestion/Sync model app/gateway/ingestion.py. A session with the
-- server is a record of replies, and what other processes do to the database before each transaction
-- is a function of the record `World`. The column widths that PostgreSQL enforces stand in
-- `message_fits`.
--
-- Api.antt and Api/Authorize model app/gateway/api.py, app/gateway/api_auth.py and the view and the
-- function of app/gateway/migrations/0004_api_boundary_and_mailbox_version.py.
--
-- Owner.antt and its children model the pages of app/gateway/views.py that change the database, with
-- app/gateway/forms.py, app/gateway/providers.py, app/gateway/validators.py, and the trigger of
-- app/gateway/migrations/0005_provider_presets_and_authentication_schema.py, which numbers the
-- configurations of a mailbox.
--
-- Migration.antt models the rest of that migration, the conversion of the stored authentication results,
-- and Worker.antt the loop of worker/mailgate_worker/__main__.py, which calls the synchronisation of
-- Ingestion/Sync; a step of the loop, a signal and a transaction of another process are its events.
--
-- Crypto.antt models app/gateway/crypto.py, and Crypto/Rotation the commands
-- app/gateway/management/commands/rotate_mailbox_credentials.py and verify_mailbox_credentials.py; Json.antt
-- holds the values of json.loads. Lifecycle.antt models app/gateway/lifecycle.py, and Resolver.antt
-- worker/mailgate_dkim_resolver/__main__.py.
--
-- Backup.antt models scripts/backup_archive.py, Backup/Payload what scripts/backup.py and
-- scripts/restore.py put before the dump and take off it, and Backup/Scripts their two runs. A file is
-- the list of its bytes, and what Docker, pg_dump and pg_restore return is given. Backup/Metadata says of which metadata json,
-- which sorts the keys that it writes, gives back the same ordered fields.
--
-- Secrets.antt and its children model the scripts that rotate secrets: Secrets/Writing and Secrets/Lock
-- scripts/rotation_common.py, Secrets/Document and Secrets/Keyring scripts/rotate_credential_keyring.py,
-- and Secrets/Postgres scripts/rotate_postgres_admin_password.py. A path of the secret directory is an
-- `Entry`; whether a call of the operating system fails, and what a command of Docker does to the
-- database, are arguments, so that a run may stop at every call.
--
-- Regex.antt is the part of Python's re that the patterns need: it lists the ends of all matches, the
-- preferred one first. Common.antt passes on shared names; its children hold the tests on numbers,
-- lists, texts and results. Samples.antt is data for the Tests modules.
--
-- Text and bytes are lists of numbers. Loops are structural recursion but for four: the matcher's
-- star, which has the length of the rest as its fuel since a round that consumes nothing is dropped;
-- the decimal digits of n, with n + 1 rounds; the deletion in batches, with a round for each row
-- and one more, which is shown to be enough;
-- and the chunks of a backup, with a round more than there are bytes, which is shown to be enough too.
--
-- Not modelled: sockets and TLS, the templates, sessions and logins of Django, the pages that
-- only read, the self-test, the owner export, the settings
-- helpers and the middleware of app/mailgate, and the other operator scripts under scripts/.
pub mod Common
pub mod Regex
pub mod Models
pub mod Json
pub mod Crypto
pub mod Secrets
pub mod Worker
pub mod Migration
pub mod Lifecycle
pub mod Owner
pub mod Backup
pub mod Resolver
pub mod Samples
pub mod Dns
pub mod Dkim
pub mod Mail
pub mod Ingestion
pub mod Api
