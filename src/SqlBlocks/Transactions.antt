-- ===== src/SqlBlocks/Transactions.antt =====
-- tools/repo_builder/sql_blocks.py: Transactions / XID / multixact.
use postgres_dbre.Prelude.{[], ◌∷◌}
use postgres_dbre.Text.{Text, codes}
use postgres_dbre.Render.{lines}

unfoldable pub database_transaction_age : Text
database_transaction_age = lines (
    codes "-- Transaction ID (XID) age per database, measured against datfrozenxid."
    ∷ codes "-- autovacuum_freeze_max_age (default 200,000,000) is the point at which"
    ∷ codes "-- autovacuum is forced to run in every table regardless of cost limits;"
    ∷ codes "-- autovacuum_vacuum_freeze_min_age / vacuum_failsafe_age (default"
    ∷ codes "-- 1,600,000,000) is the emergency threshold before wraparound-protection"
    ∷ codes "-- kicks in and PostgreSQL refuses new writes to protect data integrity."
    ∷ codes "SELECT"
    ∷ codes "    datname,"
    ∷ codes "    age(datfrozenxid)                                           AS xid_age,"
    ∷ codes "    datfrozenxid,"
    ∷ codes "    round("
    ∷ codes "        100.0 * age(datfrozenxid) /"
    ∷ codes
        "        (SELECT setting::numeric FROM pg_settings WHERE name = 'autovacuum_freeze_max_age'),"
    ∷ codes "        2"
    ∷ codes
        "    )                                                            AS pct_of_freeze_max_age,"
    ∷ codes
        "    2147483647 - age(datfrozenxid)                                AS xids_remaining_to_wraparound"
    ∷ codes "FROM pg_database"
    ∷ codes "WHERE datallowconn"
    ∷ codes "ORDER BY xid_age DESC;"
    ∷ [])

unfoldable pub table_transaction_age_top_n : Text
table_transaction_age_top_n = lines (
    codes "-- Per-table XID age ranked descending, restricted to ordinary tables and"
    ∷ codes "-- materialized views (relkind 'r'/'m'/'t' -- includes TOAST tables, which"
    ∷ codes "-- can independently accumulate age and are frequently overlooked)."
    ∷ codes "\\set top_n 25"
    ∷ codes "SELECT"
    ∷ codes "    n.nspname                                                   AS schema_name,"
    ∷ codes "    c.relname                                                   AS relation_name,"
    ∷ codes "    c.relkind,"
    ∷ codes "    age(c.relfrozenxid)                                         AS xid_age,"
    ∷ codes "    c.relfrozenxid,"
    ∷ codes "    pg_size_pretty(pg_total_relation_size(c.oid))                AS total_size"
    ∷ codes "FROM pg_class c"
    ∷ codes "JOIN pg_namespace n ON n.oid = c.relnamespace"
    ∷ codes "WHERE c.relkind IN ('r', 'm', 't')"
    ∷ codes "  AND n.nspname NOT IN ('pg_catalog', 'information_schema')"
    ∷ codes "ORDER BY xid_age DESC"
    ∷ codes "LIMIT :top_n;"
    ∷ [])

unfoldable pub multixact_age_top_n : Text
multixact_age_top_n = lines (
    codes "-- Per-table multixact ID age (relminmxid), which tracks a separate"
    ∷ codes "-- wraparound horizon from relfrozenxid. Row-level locking (SELECT ... FOR"
    ∷ codes "-- UPDATE/SHARE, foreign key checks) generates multixacts, so tables with"
    ∷ codes "-- heavy row locking (order books, balances, ledgers) can accumulate"
    ∷ codes "-- multixact age even when regular XID age looks healthy."
    ∷ codes "\\set top_n 25"
    ∷ codes "SELECT"
    ∷ codes "    n.nspname                                                   AS schema_name,"
    ∷ codes "    c.relname                                                   AS relation_name,"
    ∷ codes "    mxid_age(c.relminmxid)                                      AS multixact_age,"
    ∷ codes "    c.relminmxid,"
    ∷ codes "    round("
    ∷ codes "        100.0 * mxid_age(c.relminmxid) /"
    ∷ codes
        "        (SELECT setting::numeric FROM pg_settings WHERE name = 'autovacuum_multixact_freeze_max_age'),"
    ∷ codes "        2"
    ∷ codes
        "    )                                                            AS pct_of_multixact_freeze_max_age"
    ∷ codes "FROM pg_class c"
    ∷ codes "JOIN pg_namespace n ON n.oid = c.relnamespace"
    ∷ codes "WHERE c.relkind IN ('r', 'm', 't')"
    ∷ codes "  AND n.nspname NOT IN ('pg_catalog', 'information_schema')"
    ∷ codes "ORDER BY multixact_age DESC"
    ∷ codes "LIMIT :top_n;"
    ∷ [])

unfoldable pub prepared_transactions : Text
prepared_transactions = lines (
    codes "-- Outstanding two-phase-commit (PREPARE TRANSACTION) entries. These hold"
    ∷ codes "-- locks and prevent vacuum from advancing past their snapshot until they"
    ∷ codes "-- are COMMIT PREPARED / ROLLBACK PREPARED. Aurora PostgreSQL supports"
    ∷ codes "-- two-phase commit, but very few application frameworks intentionally use"
    ∷ codes "-- it -- an unexpected non-empty result here is almost always a bug in a"
    ∷ codes "-- distributed-transaction coordinator (e.g. XA-style ORM configuration)"
    ∷ codes "-- rather than expected behavior."
    ∷ codes "SELECT"
    ∷ codes "    gid,"
    ∷ codes "    prepared,"
    ∷ codes "    owner,"
    ∷ codes "    database,"
    ∷ codes "    now() - prepared                                            AS prepared_age"
    ∷ codes "FROM pg_prepared_xacts"
    ∷ codes "ORDER BY prepared ASC;"
    ∷ [])

unfoldable pub autovacuum_workers_active : Text
autovacuum_workers_active = lines (
    codes "-- Autovacuum (and manual VACUUM/ANALYZE) workers currently running, and"
    ∷ codes "-- what phase they are in via pg_stat_progress_vacuum. On PG17 the dead"
    ∷ codes "-- tuple counters are reported in bytes (max_dead_tuple_bytes /"
    ∷ codes "-- dead_tuple_bytes), not tuple counts, reflecting the new TID-store based"
    ∷ codes "-- vacuum implementation."
    ∷ codes "SELECT"
    ∷ codes "    a.pid,"
    ∷ codes "    a.datname,"
    ∷ codes "    n.nspname                                                    AS schema_name,"
    ∷ codes "    c.relname                                                    AS relation_name,"
    ∷ codes "    v.phase,"
    ∷ codes "    v.heap_blks_total,"
    ∷ codes "    v.heap_blks_scanned,"
    ∷ codes
        "    round(100.0 * v.heap_blks_scanned / NULLIF(v.heap_blks_total, 0), 2) AS pct_heap_scanned,"
    ∷ codes "    v.indexes_total,"
    ∷ codes "    v.indexes_processed,"
    ∷ codes
        "    pg_size_pretty(v.dead_tuple_bytes)                            AS dead_tuple_data_collected,"
    ∷ codes
        "    pg_size_pretty(v.max_dead_tuple_bytes)                        AS dead_tuple_data_limit,"
    ∷ codes "    now() - a.xact_start                                          AS running_for"
    ∷ codes "FROM pg_stat_progress_vacuum v"
    ∷ codes "JOIN pg_stat_activity a ON a.pid = v.pid"
    ∷ codes "LEFT JOIN pg_class c ON c.oid = v.relid"
    ∷ codes "LEFT JOIN pg_namespace n ON n.oid = c.relnamespace"
    ∷ codes "ORDER BY running_for DESC;"
    ∷ [])

unfoldable pub replication_slots_status : Text
replication_slots_status = lines (
    codes "-- Physical and logical replication slots, and whether they are actively"
    ∷ codes "-- consumed. An inactive slot with a growing (restart_lsn falling behind"
    ∷ codes "-- current WAL) footprint will hold WAL on disk indefinitely and, on Aurora,"
    ∷ codes "-- can contribute to storage growth and volume I/O -- this is one of the"
    ∷ codes "-- most common causes of unexplained storage growth on Aurora clusters that"
    ∷ codes "-- use logical replication or CDC (e.g. Debezium, DMS)."
    ∷ codes "--"
    ∷ codes "-- IMPORTANT (verified against Aurora PostgreSQL 17.7): pg_current_wal_lsn()"
    ∷ codes "-- is not available on Aurora -- detect Aurora first via a safe,"
    ∷ codes "-- catalog/GUC-only check (never a call to an Aurora-only function itself,"
    ∷ codes "-- so this never fails on non-Aurora PostgreSQL either) and never send a"
    ∷ codes "-- statement referencing pg_current_wal_lsn() on the Aurora execution path."
    ∷ codes "-- wal_status alone (already reported either way) is enough to flag a slot"
    ∷ codes "-- that has fallen dangerously behind ('lost'/'extended'); use CloudWatch or"
    ∷ codes "-- aurora_replica_status() for byte-level WAL retention on Aurora."
    ∷ codes "SELECT ("
    ∷ codes "    current_setting('aurora_version', true) IS NOT NULL"
    ∷ codes "    OR current_setting('rds.extensions', true) IS NOT NULL"
    ∷ codes "    OR EXISTS (SELECT 1 FROM pg_proc WHERE proname = 'aurora_version')"
    ∷ codes ")                                                                AS is_aurora"
    ∷ codes "\\gset"
    ∷ []
    ∷ codes "\\if :is_aurora"
    ∷ codes "SELECT"
    ∷ codes "    slot_name,"
    ∷ codes "    slot_type,"
    ∷ codes "    plugin,"
    ∷ codes "    database,"
    ∷ codes "    active,"
    ∷ codes "    active_pid,"
    ∷ codes "    wal_status,"
    ∷ codes "    restart_lsn,"
    ∷ codes "    confirmed_flush_lsn,"
    ∷ codes
        "    NULL::numeric                                                 AS retained_wal_bytes"
    ∷ codes "FROM pg_replication_slots"
    ∷ codes "ORDER BY slot_name;"
    ∷ codes "\\else"
    ∷ codes "SELECT"
    ∷ codes "    slot_name,"
    ∷ codes "    slot_type,"
    ∷ codes "    plugin,"
    ∷ codes "    database,"
    ∷ codes "    active,"
    ∷ codes "    active_pid,"
    ∷ codes "    wal_status,"
    ∷ codes "    restart_lsn,"
    ∷ codes "    confirmed_flush_lsn,"
    ∷ codes
        "    pg_wal_lsn_diff(pg_current_wal_lsn(), restart_lsn)            AS retained_wal_bytes"
    ∷ codes "FROM pg_replication_slots"
    ∷ codes "ORDER BY retained_wal_bytes DESC NULLS LAST;"
    ∷ codes "\\endif"
    ∷ [])
