-- ===== src/SqlBlocks/Vacuum.antt =====
-- tools/repo_builder/sql_blocks.py: Vacuum / bloat / statistics.
use postgres_dbre.Prelude.{[], ◌∷◌}
use postgres_dbre.Text.{Text, codes}
use postgres_dbre.Render.{lines}

unfoldable pub dead_tuples_ranked : Text
dead_tuples_ranked = lines (
    codes "-- Tables ranked by dead tuple ratio and absolute dead tuple count. High"
    ∷ codes "-- dead-tuple ratios combined with a stale last_autovacuum timestamp are the"
    ∷ codes "-- clearest sign that autovacuum is not keeping up with a table's write rate."
    ∷ codes "\\set top_n 30"
    ∷ codes "SELECT"
    ∷ codes "    schemaname                                                  AS schema_name,"
    ∷ codes "    relname                                                     AS table_name,"
    ∷ codes "    n_live_tup,"
    ∷ codes "    n_dead_tup,"
    ∷ codes
        "    round(100.0 * n_dead_tup / NULLIF(n_live_tup + n_dead_tup, 0), 2) AS dead_tuple_pct,"
    ∷ codes "    last_vacuum,"
    ∷ codes "    last_autovacuum,"
    ∷ codes "    last_analyze,"
    ∷ codes "    last_autoanalyze,"
    ∷ codes "    autovacuum_count,"
    ∷ codes "    vacuum_count"
    ∷ codes "FROM pg_stat_all_tables"
    ∷ codes "WHERE schemaname NOT IN ('pg_catalog', 'information_schema')"
    ∷ codes "ORDER BY n_dead_tup DESC"
    ∷ codes "LIMIT :top_n;"
    ∷ [])

unfoldable pub table_bloat_estimate : Text
table_bloat_estimate = lines (
    codes "-- Lightweight, catalog-only bloat proxy: live/dead tuple ratio plus actual"
    ∷ codes "-- on-disk size vs. a rough expectation from reltuples. This is NOT as"
    ∷ codes "-- accurate as the pgstattuple extension's exact physical scan, but it"
    ∷ codes "-- requires no extension and no table lock, so it is safe to run against any"
    ∷ codes "-- table at any time -- use it for triage, and use pgstattuple (see"
    ∷ codes "-- 05_pgstattuple_exact_bloat.sql in this same directory, if present) for"
    ∷ codes "-- confirmation before scheduling a maintenance window."
    ∷ codes "SELECT"
    ∷ codes "    n.nspname                                                   AS schema_name,"
    ∷ codes "    c.relname                                                   AS table_name,"
    ∷ codes "    pg_size_pretty(pg_relation_size(c.oid))                      AS heap_size,"
    ∷ codes "    pg_size_pretty(pg_total_relation_size(c.oid))                 AS total_size,"
    ∷ codes "    s.n_live_tup,"
    ∷ codes "    s.n_dead_tup,"
    ∷ codes
        "    round(100.0 * s.n_dead_tup / NULLIF(s.n_live_tup + s.n_dead_tup, 0), 2) AS dead_tuple_pct,"
    ∷ codes
        "    c.reltuples::bigint                                          AS planner_row_estimate,"
    ∷ codes "    c.relpages                                                   AS heap_pages"
    ∷ codes "FROM pg_class c"
    ∷ codes "JOIN pg_namespace n ON n.oid = c.relnamespace"
    ∷ codes "JOIN pg_stat_all_tables s ON s.relid = c.oid"
    ∷ codes "WHERE c.relkind = 'r'"
    ∷ codes "  AND n.nspname NOT IN ('pg_catalog', 'information_schema')"
    ∷ codes "ORDER BY pg_total_relation_size(c.oid) DESC"
    ∷ codes "LIMIT 30;"
    ∷ [])

unfoldable pub pgstattuple_exact_bloat : Text
pgstattuple_exact_bloat = lines (
    codes "-- Exact physical bloat via the pgstattuple extension, for the single"
    ∷ codes "-- largest ordinary user table in the current database (a bounded,"
    ∷ codes "-- automatic candidate -- edit the candidate_relation query below to target"
    ∷ codes "-- a specific table instead). Performs a full scan of that table (a light"
    ∷ codes "-- read lock, not a blocking lock) -- do not run this against your largest"
    ∷ codes "-- hot tables during peak trading hours without testing impact first;"
    ∷ codes "-- prefer pgstattuple_approx() for very large tables."
    ∷ codes "--"
    ∷ codes "-- IMPORTANT: this script deliberately does NOT run `CREATE EXTENSION"
    ∷ codes "-- pgstattuple` -- that is a DDL/catalog-write operation that cannot execute"
    ∷ codes "-- under `default_transaction_read_only = on` (the recommended posture for"
    ∷ codes "-- an investigation script, and the default on an Aurora reader), and"
    ∷ codes "-- installing extensions is a change-managed decision, not something an"
    ∷ codes "-- ad hoc investigation script should do silently. If the extension is not"
    ∷ codes "-- installed, this prints an instructional notice instead of failing, and"
    ∷ codes "-- never references the pgstattuple() function by name unless the"
    ∷ codes "-- extension is confirmed present -- referencing a function that does not"
    ∷ codes "-- exist yet would otherwise fail at parse/analysis time even inside a"
    ∷ codes "-- branch that \"looks\" conditional."
    ∷ codes "SELECT EXISTS ("
    ∷ codes "    SELECT 1 FROM pg_extension WHERE extname = 'pgstattuple'"
    ∷ codes
        ")                                                                AS pgstattuple_available"
    ∷ codes "\\gset"
    ∷ []
    ∷ codes "\\if :pgstattuple_available"
    ∷ codes "SELECT c.oid::regclass::text AS candidate_relation"
    ∷ codes "FROM pg_class c"
    ∷ codes "JOIN pg_namespace n ON n.oid = c.relnamespace"
    ∷ codes "WHERE c.relkind = 'r'"
    ∷ codes "  AND n.nspname NOT IN ('pg_catalog', 'information_schema', 'pg_toast')"
    ∷ codes "ORDER BY pg_total_relation_size(c.oid) DESC"
    ∷ codes "LIMIT 1"
    ∷ codes "\\gset"
    ∷ []
    ∷ codes "SELECT"
    ∷ codes "    :'candidate_relation'                                       AS table_analyzed,"
    ∷ codes "    table_len,"
    ∷ codes "    tuple_count,"
    ∷ codes "    tuple_len,"
    ∷ codes "    round(100.0 * tuple_len / NULLIF(table_len, 0), 2)            AS tuple_pct,"
    ∷ codes "    dead_tuple_count,"
    ∷ codes "    dead_tuple_len,"
    ∷ codes "    round(100.0 * dead_tuple_len / NULLIF(table_len, 0), 2)       AS dead_tuple_pct,"
    ∷ codes "    free_space,"
    ∷ codes "    round(100.0 * free_space / NULLIF(table_len, 0), 2)           AS free_pct"
    ∷ codes "FROM pgstattuple(:'candidate_relation'::regclass);"
    ∷ codes "\\else"
    ∷ codes "SELECT"
    ∷ codes "    'pgstattuple extension is not installed in this database. This script '"
    ∷ codes "    'never runs CREATE EXTENSION automatically (DDL is out of scope for a '"
    ∷ codes "    'read-only investigation script). Ask an administrator to run '"
    ∷ codes "    'CREATE EXTENSION pgstattuple; in a change-managed session if exact '"
    ∷ codes "    'physical bloat is required, or use 01_table_bloat_estimate.sql in this '"
    ∷ codes "    'same directory for a no-extension catalog-only proxy.'               AS notice;"
    ∷ codes "\\endif"
    ∷ [])

unfoldable pub index_bloat_and_usage : Text
index_bloat_and_usage = lines (
    codes "-- Index size, scan counts, and a simple size-per-row proxy for bloat."
    ∷ codes "-- PostgreSQL 16+ also reports last_idx_scan/last_idx_tup_fetch/"
    ∷ codes "-- last_idx_tup_read (timestamps) on pg_stat_all_indexes, which are included"
    ∷ codes "-- here to show *when* an index was last actually useful, not just whether"
    ∷ codes "-- idx_scan is currently zero since the last stats reset."
    ∷ codes "\\set top_n 40"
    ∷ codes "SELECT"
    ∷ codes "    n.nspname                                                   AS schema_name,"
    ∷ codes "    c.relname                                                   AS table_name,"
    ∷ codes "    i.relname                                                   AS index_name,"
    ∷ codes "    pg_size_pretty(pg_relation_size(i.oid))                      AS index_size,"
    ∷ codes "    s.idx_scan,"
    ∷ codes "    s.idx_tup_read,"
    ∷ codes "    s.idx_tup_fetch,"
    ∷ codes "    s.last_idx_scan,"
    ∷ codes "    ix.indisunique,"
    ∷ codes "    ix.indisprimary,"
    ∷ codes "    ix.indisvalid"
    ∷ codes "FROM pg_index ix"
    ∷ codes "JOIN pg_class c ON c.oid = ix.indrelid"
    ∷ codes "JOIN pg_class i ON i.oid = ix.indexrelid"
    ∷ codes "JOIN pg_namespace n ON n.oid = c.relnamespace"
    ∷ codes "JOIN pg_stat_all_indexes s ON s.indexrelid = ix.indexrelid"
    ∷ codes "WHERE n.nspname NOT IN ('pg_catalog', 'information_schema')"
    ∷ codes "ORDER BY pg_relation_size(i.oid) DESC"
    ∷ codes "LIMIT :top_n;"
    ∷ [])

unfoldable pub unused_indexes : Text
unused_indexes = lines (
    codes "-- Candidate unused indexes: idx_scan = 0 (or very low relative to table"
    ∷ codes "-- write volume) since the last stats reset, excluding indexes that back a"
    ∷ codes "-- primary key, unique, exclusion, or foreign-key-supporting constraint,"
    ∷ codes "-- since those often exist for correctness/latching reasons rather than"
    ∷ codes "-- query performance and must not be dropped purely on scan-count evidence."
    ∷ codes "--"
    ∷ codes "-- IMPORTANT: idx_scan resets to zero on instance restart/failover and after"
    ∷ codes "-- pg_stat_reset(). Cross-check stats_reset on pg_stat_database and confirm"
    ∷ codes "-- the index has genuinely been unused across at least one full business"
    ∷ codes "-- cycle (including month-end/quarter-end batch jobs and reporting queries)"
    ∷ codes "-- before considering removal. Never drop an index based on this report"
    ∷ codes "-- alone."
    ∷ codes "SELECT"
    ∷ codes "    n.nspname                                                   AS schema_name,"
    ∷ codes "    c.relname                                                   AS table_name,"
    ∷ codes "    i.relname                                                   AS index_name,"
    ∷ codes "    pg_size_pretty(pg_relation_size(i.oid))                      AS index_size,"
    ∷ codes "    s.idx_scan,"
    ∷ codes "    ix.indisunique,"
    ∷ codes "    ix.indisprimary,"
    ∷ codes "    EXISTS ("
    ∷ codes "        SELECT 1 FROM pg_constraint con"
    ∷ codes "        WHERE con.conindid = ix.indexrelid"
    ∷ codes "    )                                                            AS backs_constraint"
    ∷ codes "FROM pg_index ix"
    ∷ codes "JOIN pg_class c ON c.oid = ix.indrelid"
    ∷ codes "JOIN pg_class i ON i.oid = ix.indexrelid"
    ∷ codes "JOIN pg_namespace n ON n.oid = c.relnamespace"
    ∷ codes "JOIN pg_stat_all_indexes s ON s.indexrelid = ix.indexrelid"
    ∷ codes "WHERE n.nspname NOT IN ('pg_catalog', 'information_schema')"
    ∷ codes "  AND s.idx_scan = 0"
    ∷ codes "  AND NOT ix.indisprimary"
    ∷ codes "  AND NOT EXISTS (SELECT 1 FROM pg_constraint con WHERE con.conindid = ix.indexrelid)"
    ∷ codes "ORDER BY pg_relation_size(i.oid) DESC;"
    ∷ [])
