-- ===== src/Daemon.antt =====
-- packages/daemon: the journal of mutations that makes retried requests safe.
pub mod CommandJournal
