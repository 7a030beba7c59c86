-- ===== src/SqlBlocks/Storage.antt =====
-- tools/repo_builder/sql_blocks.py: Sizing / storage / WAL / checkpoints.
use postgres_dbre.Prelude.{[], ◌∷◌}
use postgres_dbre.Text.{Text, codes}
use postgres_dbre.Render.{lines}

unfoldable pub database_sizes : Text
database_sizes = lines (
    codes "-- Size of every database in the cluster. On Aurora, this reflects logical"
    ∷ codes "-- object size as PostgreSQL reports it; actual billed storage is tracked"
    ∷ codes "-- separately by the Aurora storage layer (see AWS Console/CloudWatch"
    ∷ codes "-- VolumeBytesUsed, not a SQL-visible value) because Aurora storage grows in"
    ∷ codes "-- 10GiB increments and is shared/compressed across the cluster's"
    ∷ codes "-- replicas."
    ∷ codes "SELECT"
    ∷ codes "    datname,"
    ∷ codes "    pg_size_pretty(pg_database_size(datname))                     AS database_size,"
    ∷ codes
        "    pg_database_size(datname)                                     AS database_size_bytes"
    ∷ codes "FROM pg_database"
    ∷ codes "WHERE datallowconn"
    ∷ codes "ORDER BY pg_database_size(datname) DESC;"
    ∷ [])

unfoldable pub largest_tables : Text
largest_tables = lines (
    codes "-- Largest tables in the current database by total size (heap + indexes +"
    ∷ codes "-- TOAST), which is what actually matters for storage capacity planning and"
    ∷ codes "-- I/O footprint."
    ∷ codes "\\set top_n 30"
    ∷ codes "SELECT"
    ∷ codes "    n.nspname                                                   AS schema_name,"
    ∷ codes "    c.relname                                                   AS table_name,"
    ∷ codes "    pg_size_pretty(pg_relation_size(c.oid))                       AS heap_size,"
    ∷ codes "    pg_size_pretty(pg_indexes_size(c.oid))                        AS index_size,"
    ∷ codes "    pg_size_pretty(pg_total_relation_size(c.oid))                 AS total_size,"
    ∷ codes
        "    c.reltuples::bigint                                          AS estimated_row_count"
    ∷ codes "FROM pg_class c"
    ∷ codes "JOIN pg_namespace n ON n.oid = c.relnamespace"
    ∷ codes "WHERE c.relkind IN ('r', 'p')"
    ∷ codes "  AND n.nspname NOT IN ('pg_catalog', 'information_schema')"
    ∷ codes "ORDER BY pg_total_relation_size(c.oid) DESC"
    ∷ codes "LIMIT :top_n;"
    ∷ [])

unfoldable pub largest_indexes : Text
largest_indexes = lines (
    codes "\\set top_n 30"
    ∷ codes "SELECT"
    ∷ codes "    n.nspname                                                   AS schema_name,"
    ∷ codes "    t.relname                                                    AS table_name,"
    ∷ codes "    i.relname                                                    AS index_name,"
    ∷ codes "    pg_size_pretty(pg_relation_size(i.oid))                       AS index_size"
    ∷ codes "FROM pg_index ix"
    ∷ codes "JOIN pg_class t ON t.oid = ix.indrelid"
    ∷ codes "JOIN pg_class i ON i.oid = ix.indexrelid"
    ∷ codes "JOIN pg_namespace n ON n.oid = t.relnamespace"
    ∷ codes "WHERE n.nspname NOT IN ('pg_catalog', 'information_schema')"
    ∷ codes "ORDER BY pg_relation_size(i.oid) DESC"
    ∷ codes "LIMIT :top_n;"
    ∷ [])

unfoldable pub table_growth_rate_from_snapshot : Text
table_growth_rate_from_snapshot = lines (
    codes "-- Table size growth over time requires two or more point-in-time samples."
    ∷ codes "-- This query assumes you are periodically appending"
    ∷ codes "-- (now(), schemaname, relname, pg_total_relation_size(relid)) rows into a"
    ∷ codes "-- tracking table (see automation/growth-monitoring/ for a ready-to-schedule"
    ∷ codes "-- collector that creates and populates it) and computes growth between the"
    ∷ codes "-- earliest and latest sample in the retention window."
    ∷ codes "--"
    ∷ codes "-- This tracking table is optional infrastructure, not a built-in catalog --"
    ∷ codes "-- on a database where the collector has never been deployed, the table"
    ∷ codes "-- will not exist yet. to_regclass() is used (rather than a bare"
    ∷ codes "-- `FROM dba_toolkit.table_size_history`, or a `::regclass` cast, both of"
    ∷ codes "-- which fail at parse/analysis time with \"relation does not exist\" the"
    ∷ codes "-- moment the statement is sent) so this script can detect that case and"
    ∷ codes "-- print an instructional notice instead of hard-failing."
    ∷ codes "\\set tracking_table 'dba_toolkit.table_size_history'"
    ∷ codes "\\set lookback_days 30"
    ∷ codes
        "SELECT to_regclass(:'tracking_table') IS NOT NULL                AS tracking_table_exists"
    ∷ codes "\\gset"
    ∷ []
    ∷ codes "\\if :tracking_table_exists"
    ∷ codes "SELECT"
    ∷ codes "    schema_name,"
    ∷ codes "    table_name,"
    ∷ codes "    min(size_bytes)  FILTER (WHERE captured_at = first_capture) AS start_size_bytes,"
    ∷ codes "    max(size_bytes)  FILTER (WHERE captured_at = last_capture)  AS end_size_bytes,"
    ∷ codes "    pg_size_pretty("
    ∷ codes "        (max(size_bytes) FILTER (WHERE captured_at = last_capture) -"
    ∷ codes "         min(size_bytes) FILTER (WHERE captured_at = first_capture))::bigint"
    ∷ codes "    )                                                            AS growth_over_window"
    ∷ codes "FROM ("
    ∷ codes "    SELECT"
    ∷ codes "        schema_name,"
    ∷ codes "        table_name,"
    ∷ codes "        captured_at,"
    ∷ codes "        size_bytes,"
    ∷ codes "        min(captured_at) OVER (PARTITION BY schema_name, table_name) AS first_capture,"
    ∷ codes "        max(captured_at) OVER (PARTITION BY schema_name, table_name) AS last_capture"
    ∷ codes "    FROM dba_toolkit.table_size_history"
    ∷ codes "    WHERE captured_at > now() - make_interval(days => :lookback_days)"
    ∷ codes ") sized"
    ∷ codes "GROUP BY schema_name, table_name"
    ∷ codes "ORDER BY (max(size_bytes) - min(size_bytes)) DESC;"
    ∷ codes "\\else"
    ∷ codes "SELECT"
    ∷ codes "    :'tracking_table' || ' does not exist in this database, so no growth-'"
    ∷ codes "    'over-time history is available yet. Deploy the collector in '"
    ∷ codes "    'automation/growth-monitoring/ (it creates this table and schedules a '"
    ∷ codes "    'periodic INSERT of current relation sizes) and re-run this script '"
    ∷ codes "    'after at least two collection intervals have elapsed. In the '"
    ∷ codes "    'meantime, use storage-and-capacity/table-growth for a single-point-in-'"
    ∷ codes "    'time size snapshot.'                                        AS notice;"
    ∷ codes "\\endif"
    ∷ [])

unfoldable pub wal_activity : Text
wal_activity = lines (
    codes "-- Cluster-wide WAL generation statistics since the last stats reset"
    ∷ codes "-- (pg_stat_wal, added in PostgreSQL 14 and unchanged in structure in 17)."
    ∷ codes "-- Sustained high wal_bytes correlates directly with Aurora storage I/O and"
    ∷ codes "-- with replica apply lag; compare two snapshots over a known time window to"
    ∷ codes "-- get a WAL bytes/sec rate."
    ∷ codes "--"
    ∷ codes "-- IMPORTANT (verified against Aurora PostgreSQL 17.7): pg_stat_wal is"
    ∷ codes "-- present in the catalog on Aurora, but SELECTing it invokes the"
    ∷ codes "-- underlying pg_stat_get_wal() function, which Aurora PostgreSQL does not"
    ∷ codes "-- implement -- it raises \"function pg_stat_get_wal() does not exist\" even"
    ∷ codes "-- though standard community PostgreSQL 17 supports it. Aurora does not"
    ∷ codes "-- expose engine-internal WAL generation counters through this view at all"
    ∷ codes "-- (WAL/redo generation happens against Aurora's distributed storage layer,"
    ∷ codes "-- not local disk, so the community WAL-writer statistics this view"
    ∷ codes "-- describes do not map onto Aurora's architecture). Detect Aurora *before*"
    ∷ codes "-- ever sending a statement that references pg_stat_wal, so the"
    ∷ codes "-- unsupported view/function is never parsed/resolved on the Aurora"
    ∷ codes "-- execution path at all."
    ∷ codes "--"
    ∷ codes "-- The detection below is a plain data-level check, never a call to an"
    ∷ codes "-- Aurora-only function itself (so nothing here can fail on non-Aurora"
    ∷ codes "-- PostgreSQL either): current_setting(name, missing_ok) is a stable core"
    ∷ codes "-- PostgreSQL function that returns NULL instead of raising when the named"
    ∷ codes "-- GUC does not exist, so it is safe to probe Aurora-only parameters with"
    ∷ codes "-- it on any engine. Three independent Aurora signals are OR'd together so"
    ∷ codes "-- a single naming/version quirk in one signal cannot cause a false"
    ∷ codes "-- negative that would fall through to the unsupported pg_stat_wal branch:"
    ∷ codes "--   1. the `aurora_version` GUC, which only exists on Aurora PostgreSQL"
    ∷ codes "--      (visible via `SHOW aurora_version;` on a real Aurora instance);"
    ∷ codes "--   2. the `rds.extensions` GUC, present on every RDS/Aurora PostgreSQL"
    ∷ codes "--      instance (never on self-managed/community PostgreSQL);"
    ∷ codes "--   3. the presence of the Aurora-specific aurora_version() SQL function"
    ∷ codes "--      in pg_proc (checked by name only -- a catalog lookup, not a call)."
    ∷ codes "SELECT ("
    ∷ codes "    current_setting('aurora_version', true) IS NOT NULL"
    ∷ codes "    OR current_setting('rds.extensions', true) IS NOT NULL"
    ∷ codes "    OR EXISTS (SELECT 1 FROM pg_proc WHERE proname = 'aurora_version')"
    ∷ codes ")                                                                AS is_aurora"
    ∷ codes "\\gset"
    ∷ []
    ∷ codes "\\if :is_aurora"
    ∷ codes "SELECT"
    ∷ codes "    'NOT AVAILABLE on Aurora PostgreSQL'::text                    AS status,"
    ∷ codes "    'pg_stat_wal reports community PostgreSQL WAL-writer statistics that '"
    ∷ codes "    'rely on pg_stat_get_wal(), which Aurora PostgreSQL (verified through '"
    ∷ codes "    '17.7) does not implement -- querying pg_stat_wal here raises '"
    ∷ codes "    '\"function pg_stat_get_wal() does not exist\". Aurora''s WAL/redo '"
    ∷ codes "    'generation is written directly to the distributed storage layer, not '"
    ∷ codes "    'local disk, so use the CloudWatch VolumeWriteIOPs / '"
    ∷ codes "    'VolumeBytesUsed / WriteThroughput metrics, or the Performance '"
    ∷ codes "    'Insights wait-event breakdown (wal_write / wal_sync / Log wait '"
    ∷ codes "    'events), as the Aurora-native source for write/WAL volume instead.'"
    ∷ codes "                                                                   AS guidance;"
    ∷ codes "\\else"
    ∷ codes "SELECT"
    ∷ codes "    wal_records,"
    ∷ codes "    wal_fpi,"
    ∷ codes "    pg_size_pretty(wal_bytes)                                    AS total_wal_bytes,"
    ∷ codes "    wal_buffers_full,"
    ∷ codes "    wal_write,"
    ∷ codes "    wal_sync,"
    ∷ codes
        "    round(wal_write_time::numeric, 2)                             AS wal_write_time_ms,"
    ∷ codes "    round(wal_sync_time::numeric, 2)                              AS wal_sync_time_ms,"
    ∷ codes "    stats_reset"
    ∷ codes "FROM pg_stat_wal;"
    ∷ codes "\\endif"
    ∷ [])
