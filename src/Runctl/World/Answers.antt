-- ===== src/Runctl/World/Answers.antt =====
-- What callers of internal/runctl are told in a reachable controller: SnapshotOf's answers.
