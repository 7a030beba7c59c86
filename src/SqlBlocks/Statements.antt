-- ===== src/SqlBlocks/Statements.antt =====
-- tools/repo_builder/sql_blocks.py: pg_stat_statements.
use postgres_dbre.Prelude.{[], ◌∷◌}
use postgres_dbre.Text.{Text, codes}
use postgres_dbre.Render.{lines}

unfoldable pub pgss_top_by_total_time : Text
pgss_top_by_total_time = lines (
    codes "-- Top statements by total execution time -- the single best \"where is the"
    ∷ codes "-- database spending its time\" view. Requires the pg_stat_statements"
    ∷ codes "-- extension to be created in the current database and"
    ∷ codes "-- shared_preload_libraries to include pg_stat_statements at the cluster"
    ∷ codes "-- level (an Aurora/RDS parameter-group change requiring a reboot to apply)."
    ∷ codes "\\set top_n 20"
    ∷ codes "SELECT"
    ∷ codes "    userid::regrole                                             AS run_as_role,"
    ∷ codes "    queryid,"
    ∷ codes "    calls,"
    ∷ codes
        "    round(total_exec_time::numeric, 2)                            AS total_exec_time_ms,"
    ∷ codes
        "    round(mean_exec_time::numeric, 2)                             AS mean_exec_time_ms,"
    ∷ codes "    rows,"
    ∷ codes
        "    round(100.0 * shared_blks_hit / NULLIF(shared_blks_hit + shared_blks_read, 0), 2) AS cache_hit_pct,"
    ∷ codes "    temp_blks_written,"
    ∷ codes "    left(query, 200)                                              AS query_snippet"
    ∷ codes "FROM pg_stat_statements"
    ∷ codes "WHERE dbid = (SELECT oid FROM pg_database WHERE datname = current_database())"
    ∷ codes "ORDER BY total_exec_time DESC"
    ∷ codes "LIMIT :top_n;"
    ∷ [])

unfoldable pub pgss_top_by_mean_time : Text
pgss_top_by_mean_time = lines (
    codes "-- Top statements by mean execution time, restricted to statements called at"
    ∷ codes "-- least :min_calls times so a single slow one-off migration query does not"
    ∷ codes "-- crowd out genuinely slow, frequently-run application queries."
    ∷ codes "\\set top_n 20"
    ∷ codes "\\set min_calls 20"
    ∷ codes "SELECT"
    ∷ codes "    queryid,"
    ∷ codes "    calls,"
    ∷ codes
        "    round(mean_exec_time::numeric, 2)                             AS mean_exec_time_ms,"
    ∷ codes
        "    round(stddev_exec_time::numeric, 2)                           AS stddev_exec_time_ms,"
    ∷ codes "    round(max_exec_time::numeric, 2)                              AS max_exec_time_ms,"
    ∷ codes "    rows,"
    ∷ codes "    left(query, 200)                                              AS query_snippet"
    ∷ codes "FROM pg_stat_statements"
    ∷ codes "WHERE dbid = (SELECT oid FROM pg_database WHERE datname = current_database())"
    ∷ codes "  AND calls >= :min_calls"
    ∷ codes "ORDER BY mean_exec_time DESC"
    ∷ codes "LIMIT :top_n;"
    ∷ [])

unfoldable pub pgss_top_by_calls : Text
pgss_top_by_calls = lines (
    codes "-- Top statements by call frequency. Extremely high-frequency, low-latency"
    ∷ codes "-- statements are exactly what you expect for an OLTP/order-book workload;"
    ∷ codes "-- the interesting signal is a sudden large increase in calls for a given"
    ∷ codes "-- queryid between two snapshots (application retry storm, N+1 query"
    ∷ codes "-- pattern, or a newly deployed hot loop), so save this output and diff it"
    ∷ codes "-- across incidents."
    ∷ codes "\\set top_n 20"
    ∷ codes "SELECT"
    ∷ codes "    queryid,"
    ∷ codes "    calls,"
    ∷ codes
        "    round(total_exec_time::numeric, 2)                            AS total_exec_time_ms,"
    ∷ codes
        "    round(mean_exec_time::numeric, 4)                             AS mean_exec_time_ms,"
    ∷ codes "    rows,"
    ∷ codes "    left(query, 200)                                              AS query_snippet"
    ∷ codes "FROM pg_stat_statements"
    ∷ codes "WHERE dbid = (SELECT oid FROM pg_database WHERE datname = current_database())"
    ∷ codes "ORDER BY calls DESC"
    ∷ codes "LIMIT :top_n;"
    ∷ [])

unfoldable pub pgss_temp_and_io_heavy : Text
pgss_temp_and_io_heavy = lines (
    codes "-- Statements generating the most temp file I/O and shared buffer reads --"
    ∷ codes "-- a direct indicator of work_mem being too small for a sort/hash/group-by,"
    ∷ codes "-- or of a query reading far more data (a poor index choice, a missing"
    ∷ codes "-- predicate) than a well-planned query should need."
    ∷ codes "--"
    ∷ codes "-- IMPORTANT (verified against Aurora PostgreSQL 17.7): pg_stat_statements"
    ∷ codes "-- 1.11, bundled with PostgreSQL/Aurora PostgreSQL 17, split the older"
    ∷ codes "-- generic blk_read_time/blk_write_time columns into separate"
    ∷ codes "-- shared/local/temp variants -- shared_blk_read_time, shared_blk_write_time,"
    ∷ codes "-- local_blk_read_time, local_blk_write_time, temp_blk_read_time,"
    ∷ codes "-- temp_blk_write_time. The bare blk_read_time/blk_write_time column names"
    ∷ codes "-- no longer exist at all on 17, so referencing them raises \"column does"
    ∷ codes "-- not exist\" rather than returning zero. This script reads"
    ∷ codes "-- shared_blk_read_time (the direct 1.11 successor covering ordinary shared"
    ∷ codes "-- buffer reads, which is what this script is measuring) instead."
    ∷ codes "\\set top_n 20"
    ∷ codes "SELECT"
    ∷ codes "    queryid,"
    ∷ codes "    calls,"
    ∷ codes "    temp_blks_written,"
    ∷ codes "    temp_blks_read,"
    ∷ codes "    shared_blks_read,"
    ∷ codes
        "    round(shared_blk_read_time::numeric, 2)                       AS shared_blk_read_time_ms,"
    ∷ codes
        "    round(mean_exec_time::numeric, 2)                             AS mean_exec_time_ms,"
    ∷ codes "    left(query, 200)                                              AS query_snippet"
    ∷ codes "FROM pg_stat_statements"
    ∷ codes "WHERE dbid = (SELECT oid FROM pg_database WHERE datname = current_database())"
    ∷ codes "  AND (temp_blks_written > 0 OR temp_blks_read > 0)"
    ∷ codes "ORDER BY temp_blks_written DESC"
    ∷ codes "LIMIT :top_n;"
    ∷ [])

unfoldable pub pgss_wal_heavy : Text
pgss_wal_heavy = lines (
    codes "-- Statements generating the most WAL, ranked by total WAL bytes. High"
    ∷ codes "-- WAL-generating statements are the primary driver of replica lag (Aurora"
    ∷ codes "-- readers must apply the same redo the writer generates) and of storage"
    ∷ codes "-- growth; this is the first place to look when replication lag or storage"
    ∷ codes "-- growth correlates with a specific workload rather than overall volume."
    ∷ codes "--"
    ∷ codes "-- CAVEAT (observed on Aurora PostgreSQL 17.7): pg_stat_statements'"
    ∷ codes "-- wal_records/wal_fpi/wal_bytes columns have been observed reporting 0 for"
    ∷ codes "-- some write-heavy INSERT/UPDATE statements, even though those statements"
    ∷ codes "-- are demonstrably generating WAL (visible via pg_stat_wal / rising storage"
    ∷ codes "-- growth). Treat a 0 here as \"not observed via this instrumentation path"
    ∷ codes "-- for this statement on this engine version\" -- NOT as proof the statement"
    ∷ codes "-- generates no WAL. Corroborate with storage-and-capacity/wal-generation"
    ∷ codes "-- (cluster-wide pg_stat_wal totals) before concluding a specific statement"
    ∷ codes "-- is WAL-cheap."
    ∷ codes "\\set top_n 20"
    ∷ codes "SELECT"
    ∷ codes "    queryid,"
    ∷ codes "    calls,"
    ∷ codes "    wal_records,"
    ∷ codes "    wal_fpi,"
    ∷ codes "    pg_size_pretty(wal_bytes)                                     AS total_wal,"
    ∷ codes
        "    pg_size_pretty((wal_bytes / NULLIF(calls, 0))::bigint)         AS avg_wal_per_call,"
    ∷ codes "    CASE WHEN wal_bytes = 0"
    ∷ codes
        "         THEN 'zero reported -- not observed/unavailable on this engine version, not proof of no WAL (see script header)'"
    ∷ codes "         ELSE NULL"
    ∷ codes
        "    END                                                            AS wal_reporting_caveat,"
    ∷ codes "    left(query, 200)                                              AS query_snippet"
    ∷ codes "FROM pg_stat_statements"
    ∷ codes "WHERE dbid = (SELECT oid FROM pg_database WHERE datname = current_database())"
    ∷ codes "ORDER BY wal_bytes DESC"
    ∷ codes "LIMIT :top_n;"
    ∷ [])
