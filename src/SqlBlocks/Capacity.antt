-- ===== src/SqlBlocks/Capacity.antt =====
-- tools/repo_builder/sql_blocks.py: Storage breakdown / capacity planning (appended for storage-and-capacity).
use postgres_dbre.Prelude.{[], ◌∷◌}
use postgres_dbre.Text.{Text, codes}
use postgres_dbre.Render.{lines}

unfoldable pub schema_sizes : Text
schema_sizes = lines (
    codes "-- On-disk footprint of every user schema in the current database (heap +"
    ∷ codes "-- indexes + TOAST for every relation the schema owns). On a crypto-exchange"
    ∷ codes "-- schema layout this is the fastest way to attribute growth to a business"
    ∷ codes "-- domain: the trading path (orders, trades, order_book_snapshots), the"
    ∷ codes "-- money path (wallets, ledger_entries, deposits, withdrawals), or an"
    ∷ codes "-- audit/compliance schema nobody has ever pruned."
    ∷ codes "--"
    ∷ codes "-- Partitioned parents (relkind 'p') have no storage of their own; their"
    ∷ codes "-- partitions are separate 'r' relations and are counted individually, so"
    ∷ codes "-- there is no double counting here."
    ∷ codes "SELECT"
    ∷ codes "    n.nspname                                                    AS schema_name,"
    ∷ codes "    count(*)                                                     AS relation_count,"
    ∷ codes "    pg_size_pretty(sum(pg_total_relation_size(c.oid)))            AS total_size,"
    ∷ codes "    sum(pg_total_relation_size(c.oid))                            AS total_size_bytes,"
    ∷ codes "    round("
    ∷ codes "        100.0 * sum(pg_total_relation_size(c.oid)) / NULLIF(("
    ∷ codes "            SELECT sum(pg_total_relation_size(c2.oid))"
    ∷ codes "            FROM pg_class c2"
    ∷ codes "            JOIN pg_namespace n2 ON n2.oid = c2.relnamespace"
    ∷ codes "            WHERE c2.relkind IN ('r', 'p', 'm')"
    ∷ codes "              AND n2.nspname NOT IN ('pg_catalog', 'information_schema')"
    ∷ codes "        ), 0), 2"
    ∷ codes "    )                                                            AS pct_of_user_data"
    ∷ codes "FROM pg_class c"
    ∷ codes "JOIN pg_namespace n ON n.oid = c.relnamespace"
    ∷ codes "WHERE c.relkind IN ('r', 'p', 'm')"
    ∷ codes "  AND n.nspname NOT IN ('pg_catalog', 'information_schema')"
    ∷ codes "GROUP BY n.nspname"
    ∷ codes "ORDER BY sum(pg_total_relation_size(c.oid)) DESC;"
    ∷ [])

unfoldable pub object_counts_by_schema : Text
object_counts_by_schema = lines (
    codes "-- Object counts per user schema, broken down by relation kind. Storage"
    ∷ codes "-- growth is not always about row volume: a partitioned ledger table whose"
    ∷ codes "-- maintenance job creates daily partitions but never detaches old ones"
    ∷ codes "-- accumulates thousands of child relations and index entries, which inflates"
    ∷ codes "-- the system catalogs themselves, slows planning, and increases the"
    ∷ codes "-- per-relation lock footprint of every DDL statement touching the parent."
    ∷ codes "SELECT"
    ∷ codes "    n.nspname                                                    AS schema_name,"
    ∷ codes "    count(*) FILTER (WHERE c.relkind = 'r')                       AS ordinary_tables,"
    ∷ codes
        "    count(*) FILTER (WHERE c.relkind = 'p')                       AS partitioned_parents,"
    ∷ codes "    count(*) FILTER (WHERE c.relkind = 'i')                       AS indexes,"
    ∷ codes
        "    count(*) FILTER (WHERE c.relkind = 'I')                       AS partitioned_indexes,"
    ∷ codes
        "    count(*) FILTER (WHERE c.relkind = 'm')                       AS materialized_views,"
    ∷ codes "    count(*) FILTER (WHERE c.relkind = 'v')                       AS views,"
    ∷ codes "    count(*) FILTER (WHERE c.relkind = 'S')                       AS sequences,"
    ∷ codes "    count(*)                                                     AS total_objects"
    ∷ codes "FROM pg_class c"
    ∷ codes "JOIN pg_namespace n ON n.oid = c.relnamespace"
    ∷ codes "WHERE n.nspname NOT IN ('pg_catalog', 'information_schema', 'pg_toast')"
    ∷ codes "GROUP BY n.nspname"
    ∷ codes "ORDER BY count(*) DESC;"
    ∷ [])

unfoldable pub table_size_components : Text
table_size_components = lines (
    codes "-- Splits each large relation's footprint into its three physical"
    ∷ codes "-- components -- main heap fork, TOAST (out-of-line storage for wide values"
    ∷ codes "-- such as JSON order payloads, raw blockchain transaction bodies, or"
    ∷ codes "-- serialized order-book snapshots), and indexes -- so growth can be"
    ∷ codes "-- attributed to the right cause before any remediation is chosen."
    ∷ codes "--"
    ∷ codes "-- pg_relation_size(oid) returns the main fork only; pg_indexes_size(oid)"
    ∷ codes "-- sums every index on the relation; the TOAST branch is guarded with a"
    ∷ codes "-- reltoastrelid <> 0 test because relations with no varlena columns have"
    ∷ codes "-- no TOAST relation at all."
    ∷ codes "\\set top_n 30"
    ∷ codes "SELECT"
    ∷ codes "    n.nspname                                                    AS schema_name,"
    ∷ codes "    c.relname                                                    AS table_name,"
    ∷ codes "    pg_size_pretty(pg_relation_size(c.oid))                       AS heap_main_fork,"
    ∷ codes "    pg_size_pretty("
    ∷ codes "        CASE WHEN c.reltoastrelid <> 0"
    ∷ codes "             THEN pg_total_relation_size(c.reltoastrelid)"
    ∷ codes "             ELSE 0 END"
    ∷ codes "    )                                                            AS toast_total,"
    ∷ codes "    pg_size_pretty(pg_indexes_size(c.oid))                        AS index_total,"
    ∷ codes "    pg_size_pretty(pg_total_relation_size(c.oid))                 AS grand_total,"
    ∷ codes "    round("
    ∷ codes "        100.0 * pg_indexes_size(c.oid)"
    ∷ codes "        / NULLIF(pg_total_relation_size(c.oid), 0), 1"
    ∷ codes "    )                                                            AS pct_indexes,"
    ∷ codes "    round("
    ∷ codes "        100.0 * (CASE WHEN c.reltoastrelid <> 0"
    ∷ codes "                      THEN pg_total_relation_size(c.reltoastrelid)"
    ∷ codes "                      ELSE 0 END)"
    ∷ codes "        / NULLIF(pg_total_relation_size(c.oid), 0), 1"
    ∷ codes "    )                                                            AS pct_toast,"
    ∷ codes
        "    c.reltuples::bigint                                          AS estimated_row_count"
    ∷ codes "FROM pg_class c"
    ∷ codes "JOIN pg_namespace n ON n.oid = c.relnamespace"
    ∷ codes "WHERE c.relkind IN ('r', 'p', 'm')"
    ∷ codes "  AND n.nspname NOT IN ('pg_catalog', 'information_schema')"
    ∷ codes "ORDER BY pg_total_relation_size(c.oid) DESC"
    ∷ codes "LIMIT :top_n;"
    ∷ [])

unfoldable pub write_volume_by_table : Text
write_volume_by_table = lines (
    codes "-- Row-level write volume per table since the last statistics reset. This is"
    ∷ codes "-- the single best in-database proxy for \"which tables are actually driving"
    ∷ codes "-- storage and WAL growth\", because every insert, every non-HOT update"
    ∷ codes "-- (which writes a whole new row version plus every index entry), and every"
    ∷ codes "-- delete (which leaves a dead tuple until vacuum reclaims it) contributes"
    ∷ codes "-- directly to both."
    ∷ codes "--"
    ∷ codes "-- Counters are cumulative since the last reset; pg_stat_all_tables has no"
    ∷ codes "-- stats_reset column of its own, so read stats_reset from pg_stat_database"
    ∷ codes "-- for the current database to know what window these numbers cover."
    ∷ codes "\\set top_n 30"
    ∷ codes "SELECT"
    ∷ codes "    schemaname                                                  AS schema_name,"
    ∷ codes "    relname                                                     AS table_name,"
    ∷ codes "    n_tup_ins,"
    ∷ codes "    n_tup_upd,"
    ∷ codes "    n_tup_del,"
    ∷ codes "    n_tup_hot_upd,"
    ∷ codes "    n_tup_ins + n_tup_upd + n_tup_del                            AS total_row_writes,"
    ∷ codes "    round(100.0 * n_tup_hot_upd / NULLIF(n_tup_upd, 0), 1)        AS pct_hot_updates,"
    ∷ codes "    n_live_tup,"
    ∷ codes "    n_dead_tup,"
    ∷ codes "    pg_size_pretty(pg_total_relation_size(relid))                 AS total_size,"
    ∷ codes "    (SELECT stats_reset FROM pg_stat_database"
    ∷ codes "      WHERE datname = current_database())                        AS stats_reset"
    ∷ codes "FROM pg_stat_all_tables"
    ∷ codes "WHERE schemaname NOT IN ('pg_catalog', 'information_schema')"
    ∷ codes "ORDER BY (n_tup_ins + n_tup_upd + n_tup_del) DESC"
    ∷ codes "LIMIT :top_n;"
    ∷ [])

unfoldable pub index_to_table_size_ratio : Text
index_to_table_size_ratio = lines (
    codes "-- Tables whose index footprint is large relative to their heap. A ratio"
    ∷ codes "-- above roughly 1.0 (more bytes in indexes than in the table itself) is"
    ∷ codes "-- normal for a narrow, heavily queried lookup table but is a strong"
    ∷ codes "-- over-indexing signal on a wide, write-heavy table such as an order or"
    ∷ codes "-- ledger table -- every extra index multiplies write amplification, WAL"
    ∷ codes "-- volume, and vacuum cost, not just stored bytes."
    ∷ codes "\\set top_n 30"
    ∷ codes "\\set min_total_bytes 104857600"
    ∷ codes "SELECT"
    ∷ codes "    n.nspname                                                    AS schema_name,"
    ∷ codes "    c.relname                                                    AS table_name,"
    ∷ codes "    count(ix.indexrelid)                                         AS index_count,"
    ∷ codes "    pg_size_pretty(pg_relation_size(c.oid))                       AS heap_size,"
    ∷ codes "    pg_size_pretty(pg_indexes_size(c.oid))                        AS index_size,"
    ∷ codes "    round("
    ∷ codes "        pg_indexes_size(c.oid)::numeric"
    ∷ codes "        / NULLIF(pg_relation_size(c.oid), 0), 2"
    ∷ codes
        "    )                                                            AS index_to_heap_ratio,"
    ∷ codes "    pg_size_pretty(pg_total_relation_size(c.oid))                 AS total_size"
    ∷ codes "FROM pg_class c"
    ∷ codes "JOIN pg_namespace n ON n.oid = c.relnamespace"
    ∷ codes "LEFT JOIN pg_index ix ON ix.indrelid = c.oid"
    ∷ codes "WHERE c.relkind IN ('r', 'p')"
    ∷ codes "  AND n.nspname NOT IN ('pg_catalog', 'information_schema')"
    ∷ codes "  AND pg_total_relation_size(c.oid) >= :min_total_bytes"
    ∷ codes "GROUP BY n.nspname, c.relname, c.oid"
    ∷ codes "ORDER BY (pg_indexes_size(c.oid)::numeric / NULLIF(pg_relation_size(c.oid), 0))"
    ∷ codes "         DESC NULLS LAST"
    ∷ codes "LIMIT :top_n;"
    ∷ [])
