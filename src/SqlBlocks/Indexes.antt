-- ===== src/SqlBlocks/Indexes.antt =====
-- tools/repo_builder/sql_blocks.py: Vacuum / bloat / statistics.
use postgres_dbre.Prelude.{[], ◌∷◌}
use postgres_dbre.Text.{Text, codes}
use postgres_dbre.Render.{lines}

unfoldable pub duplicate_indexes : Text
duplicate_indexes = lines (
    codes "-- Indexes on the same table with identical column lists (indkey), access"
    ∷ codes "-- method, and expression/predicate signature -- true structural duplicates"
    ∷ codes "-- that waste storage and add write overhead without any query benefit."
    ∷ codes "-- Compares the human-readable index definition rather than raw indkey"
    ∷ codes "-- arrays so expression indexes and partial indexes are also caught"
    ∷ codes "-- correctly."
    ∷ codes "SELECT"
    ∷ codes "    n.nspname                                                    AS schema_name,"
    ∷ codes "    c.relname                                                    AS table_name,"
    ∷ codes
        "    array_agg(i.relname ORDER BY i.relname)                       AS duplicate_index_names,"
    ∷ codes
        "    min(regexp_replace(pg_get_indexdef(ix.indexrelid), 'INDEX [^ ]+ ', 'INDEX ', 1, 1)) AS normalized_definition,"
    ∷ codes "    count(*)                                                     AS duplicate_count,"
    ∷ codes "    pg_size_pretty(sum(pg_relation_size(i.oid)))                  AS combined_size"
    ∷ codes "FROM pg_index ix"
    ∷ codes "JOIN pg_class c ON c.oid = ix.indrelid"
    ∷ codes "JOIN pg_class i ON i.oid = ix.indexrelid"
    ∷ codes "JOIN pg_namespace n ON n.oid = c.relnamespace"
    ∷ codes "WHERE n.nspname NOT IN ('pg_catalog', 'information_schema')"
    ∷ codes "GROUP BY n.nspname, c.relname, ix.indrelid,"
    ∷ codes
        "         regexp_replace(pg_get_indexdef(ix.indexrelid), 'INDEX [^ ]+ ', 'INDEX ', 1, 1)"
    ∷ codes "HAVING count(*) > 1"
    ∷ codes "ORDER BY combined_size DESC;"
    ∷ [])

unfoldable pub invalid_indexes : Text
invalid_indexes = lines (
    codes "-- Indexes left in an INVALID state, almost always because a previous"
    ∷ codes "-- CREATE INDEX CONCURRENTLY or REINDEX CONCURRENTLY failed partway through"
    ∷ codes "-- (a killed session, statement_timeout, or deadlock). Invalid indexes are"
    ∷ codes "-- not used by the planner but still consume storage and slow down writes,"
    ∷ codes "-- so they should be dropped and, if needed, recreated concurrently."
    ∷ codes "SELECT"
    ∷ codes "    n.nspname                                                   AS schema_name,"
    ∷ codes "    c.relname                                                   AS table_name,"
    ∷ codes "    i.relname                                                   AS index_name,"
    ∷ codes "    pg_size_pretty(pg_relation_size(i.oid))                      AS wasted_size,"
    ∷ codes "    pg_get_indexdef(ix.indexrelid)                               AS index_definition"
    ∷ codes "FROM pg_index ix"
    ∷ codes "JOIN pg_class c ON c.oid = ix.indrelid"
    ∷ codes "JOIN pg_class i ON i.oid = ix.indexrelid"
    ∷ codes "JOIN pg_namespace n ON n.oid = c.relnamespace"
    ∷ codes "WHERE NOT ix.indisvalid"
    ∷ codes "ORDER BY pg_relation_size(i.oid) DESC;"
    ∷ [])

unfoldable pub sequential_scan_heavy_tables : Text
sequential_scan_heavy_tables = lines (
    codes "-- Tables where sequential scans dominate over index scans, weighted by"
    ∷ codes "-- table size, to prioritize the biggest opportunity first. A high seq_scan"
    ∷ codes "-- count alone is not necessarily bad (small lookup tables are often scanned"
    ∷ codes "-- sequentially by design and that is faster than an index scan) -- the"
    ∷ codes "-- seq_tup_read/seq_scan ratio and table size are what indicate a genuinely"
    ∷ codes "-- expensive full-table scan pattern."
    ∷ codes "\\set top_n 30"
    ∷ codes "SELECT"
    ∷ codes "    schemaname                                                  AS schema_name,"
    ∷ codes "    relname                                                     AS table_name,"
    ∷ codes "    seq_scan,"
    ∷ codes "    seq_tup_read,"
    ∷ codes
        "    round(seq_tup_read::numeric / NULLIF(seq_scan, 0), 0)         AS avg_rows_per_seq_scan,"
    ∷ codes "    idx_scan,"
    ∷ codes "    pg_size_pretty(pg_relation_size(relid))                       AS table_size,"
    ∷ codes "    n_live_tup"
    ∷ codes "FROM pg_stat_all_tables"
    ∷ codes "WHERE schemaname NOT IN ('pg_catalog', 'information_schema')"
    ∷ codes "  AND seq_scan > 0"
    ∷ codes "ORDER BY seq_tup_read DESC"
    ∷ codes "LIMIT :top_n;"
    ∷ [])

unfoldable pub foreign_keys_missing_index : Text
foreign_keys_missing_index = lines (
    codes "-- Foreign key constraints whose referencing columns have no supporting"
    ∷ codes "-- index on the child table. Unindexed FKs commonly cause full-table"
    ∷ codes "-- sequential scans on the child table whenever the parent row is updated or"
    ∷ codes "-- deleted (to check for dependents) and are one of the most common"
    ∷ codes "-- \"missing index candidate\" findings in ledger/order/account schemas with"
    ∷ codes "-- deep FK graphs."
    ∷ codes "SELECT"
    ∷ codes "    con.conname                                                 AS constraint_name,"
    ∷ codes "    tn.nspname                                                  AS child_schema,"
    ∷ codes "    tc.relname                                                  AS child_table,"
    ∷ codes
        "    pg_get_constraintdef(con.oid)                                AS constraint_definition"
    ∷ codes "FROM pg_constraint con"
    ∷ codes "JOIN pg_class tc ON tc.oid = con.conrelid"
    ∷ codes "JOIN pg_namespace tn ON tn.oid = tc.relnamespace"
    ∷ codes "WHERE con.contype = 'f'"
    ∷ codes "  AND NOT EXISTS ("
    ∷ codes "      SELECT 1"
    ∷ codes "      FROM pg_index ix"
    ∷ codes "      WHERE ix.indrelid = con.conrelid"
    ∷ codes "        -- Leftmost-prefix match: the index's first N columns (N = number of"
    ∷ codes "        -- FK columns) must exactly equal the FK's referencing columns, in"
    ∷ codes "        -- the same order, for the index to actually support the FK's"
    ∷ codes "        -- lookup/cascade pattern."
    ∷ codes "        AND (ix.indkey::int2[])[0:array_length(con.conkey, 1) - 1] = con.conkey"
    ∷ codes "  )"
    ∷ codes "ORDER BY child_schema, child_table;"
    ∷ [])

unfoldable pub statistics_freshness : Text
statistics_freshness = lines (
    codes "-- Tables whose planner statistics may be stale relative to how much the"
    ∷ codes "-- table has changed since the last ANALYZE. n_mod_since_analyze counts"
    ∷ codes "-- inserts+updates+deletes since the last analyze; a large value relative to"
    ∷ codes "-- table size means the planner's row estimates (and therefore its join"
    ∷ codes "-- order / index choice) can be significantly wrong."
    ∷ codes "\\set top_n 30"
    ∷ codes "SELECT"
    ∷ codes "    schemaname                                                  AS schema_name,"
    ∷ codes "    relname                                                     AS table_name,"
    ∷ codes "    n_live_tup,"
    ∷ codes "    n_mod_since_analyze,"
    ∷ codes
        "    round(100.0 * n_mod_since_analyze / NULLIF(n_live_tup, 0), 2) AS pct_modified_since_analyze,"
    ∷ codes "    last_analyze,"
    ∷ codes "    last_autoanalyze"
    ∷ codes "FROM pg_stat_all_tables"
    ∷ codes "WHERE schemaname NOT IN ('pg_catalog', 'information_schema')"
    ∷ codes "ORDER BY pct_modified_since_analyze DESC NULLS LAST"
    ∷ codes "LIMIT :top_n;"
    ∷ [])
