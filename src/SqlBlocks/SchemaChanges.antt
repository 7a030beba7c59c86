-- ===== src/SqlBlocks/SchemaChanges.antt =====
-- tools/repo_builder/sql_blocks.py: Schema-change / DDL pre-flight and progress (appended for schema-changes).
use postgres_dbre.Prelude.{[], ◌∷◌}
use postgres_dbre.Text.{Text, codes}
use postgres_dbre.Render.{lines}

unfoldable pub create_index_progress : Text
create_index_progress = lines (
    codes "-- Live progress of any index build currently running on this instance,"
    ∷ codes "-- read from pg_stat_progress_create_index. This covers both the blocking"
    ∷ codes "-- and the non-blocking build forms as well as reindex operations; the"
    ∷ codes "-- `command` column tells you which one is running."
    ∷ codes "--"
    ∷ codes "-- The `phase` column is the key field: a build that is parked in"
    ∷ codes "-- \"waiting for writers before validation\" or \"waiting for readers before"
    ∷ codes "-- marking dead\" is not slow because of I/O -- it is waiting for older"
    ∷ codes "-- transactions to finish, and no amount of waiting will help until those"
    ∷ codes "-- transactions commit or are ended. `current_locker_pid` names the exact"
    ∷ codes "-- backend being waited on."
    ∷ codes "SELECT"
    ∷ codes "    p.pid,"
    ∷ codes "    p.datname,"
    ∷ codes "    n.nspname                                                    AS schema_name,"
    ∷ codes "    c.relname                                                    AS table_name,"
    ∷ codes "    i.relname                                                    AS index_name,"
    ∷ codes "    p.command,"
    ∷ codes "    p.phase,"
    ∷ codes "    p.lockers_total,"
    ∷ codes "    p.lockers_done,"
    ∷ codes "    p.current_locker_pid,"
    ∷ codes "    p.blocks_done,"
    ∷ codes "    p.blocks_total,"
    ∷ codes "    round(100.0 * p.blocks_done / NULLIF(p.blocks_total, 0), 1)   AS pct_blocks_done,"
    ∷ codes "    p.tuples_done,"
    ∷ codes "    p.tuples_total,"
    ∷ codes "    round(100.0 * p.tuples_done / NULLIF(p.tuples_total, 0), 1)   AS pct_tuples_done,"
    ∷ codes "    p.partitions_done,"
    ∷ codes "    p.partitions_total,"
    ∷ codes "    now() - a.query_start                                        AS elapsed,"
    ∷ codes "    left(a.query, 200)                                           AS statement"
    ∷ codes "FROM pg_stat_progress_create_index p"
    ∷ codes "LEFT JOIN pg_class c ON c.oid = p.relid"
    ∷ codes "LEFT JOIN pg_namespace n ON n.oid = c.relnamespace"
    ∷ codes "LEFT JOIN pg_class i ON i.oid = p.index_relid"
    ∷ codes "LEFT JOIN pg_stat_activity a ON a.pid = p.pid"
    ∷ codes "ORDER BY elapsed DESC NULLS LAST;"
    ∷ [])

unfoldable pub ddl_safety_settings : Text
ddl_safety_settings = lines (
    codes "-- The settings that determine how a DDL statement behaves when it cannot"
    ∷ codes "-- get its lock immediately, and how much memory/parallelism an index build"
    ∷ codes "-- gets. Always confirm these BEFORE issuing DDL against a busy production"
    ∷ codes "-- table: a DDL statement with no lock_timeout that queues behind a"
    ∷ codes "-- long-running transaction will itself block every subsequent query on the"
    ∷ codes "-- table, converting a single slow statement into a full application outage."
    ∷ codes "--"
    ∷ codes "-- On Aurora these are set through the DB cluster/instance parameter group,"
    ∷ codes "-- not postgresql.conf; `source` tells you whether the current value came"
    ∷ codes "-- from the parameter group (configuration file), a session-level SET, or"
    ∷ codes "-- the built-in default."
    ∷ codes "SELECT"
    ∷ codes "    name,"
    ∷ codes "    setting,"
    ∷ codes "    unit,"
    ∷ codes "    context,"
    ∷ codes "    source,"
    ∷ codes "    short_desc"
    ∷ codes "FROM pg_settings"
    ∷ codes "WHERE name IN ("
    ∷ codes "    'lock_timeout', 'statement_timeout', 'transaction_timeout',"
    ∷ codes "    'idle_in_transaction_session_timeout', 'deadlock_timeout',"
    ∷ codes "    'log_lock_waits', 'maintenance_work_mem',"
    ∷ codes "    'max_parallel_maintenance_workers', 'max_locks_per_transaction',"
    ∷ codes "    'default_transaction_read_only', 'default_statistics_target'"
    ∷ codes ")"
    ∷ codes "ORDER BY name;"
    ∷ [])

unfoldable pub index_and_constraint_inventory_for_table : Text
index_and_constraint_inventory_for_table = lines (
    codes "-- Complete index and constraint inventory for one target table, which is"
    ∷ codes "-- the mandatory pre-flight read before any schema change: it tells you what"
    ∷ codes "-- already exists (so you do not build a redundant index), which indexes back"
    ∷ codes "-- constraints (so you do not attempt to drop one directly), and whether any"
    ∷ codes "-- index is currently INVALID or NOT READY from an earlier failed build."
    ∷ codes "--"
    ∷ codes "-- Ships with an illustrative default (public.trades) -- edit the \\set lines"
    ∷ codes "-- below for your real target. Both branches compare the name only inside a"
    ∷ codes "-- catalog WHERE clause and never cast it to regclass, so this script is"
    ∷ codes "-- safe to run unmodified even when that table does not exist here: it simply"
    ∷ codes "-- returns zero rows."
    ∷ codes "\\set schema_name 'public'"
    ∷ codes "\\set table_name 'trades'"
    ∷ codes "SELECT"
    ∷ codes "    'index'                                                     AS object_type,"
    ∷ codes "    i.relname                                                    AS object_name,"
    ∷ codes "    pg_size_pretty(pg_relation_size(i.oid))                       AS object_size,"
    ∷ codes "    ix.indisvalid                                                AS is_valid,"
    ∷ codes "    ix.indisready                                                AS is_ready,"
    ∷ codes "    ix.indisprimary                                              AS is_primary,"
    ∷ codes "    ix.indisunique                                               AS is_unique,"
    ∷ codes "    pg_get_indexdef(ix.indexrelid)                               AS definition"
    ∷ codes "FROM pg_index ix"
    ∷ codes "JOIN pg_class c ON c.oid = ix.indrelid"
    ∷ codes "JOIN pg_class i ON i.oid = ix.indexrelid"
    ∷ codes "JOIN pg_namespace n ON n.oid = c.relnamespace"
    ∷ codes "WHERE n.nspname = :'schema_name'"
    ∷ codes "  AND c.relname = :'table_name'"
    ∷ codes "UNION ALL"
    ∷ codes "SELECT"
    ∷ codes "    'constraint',"
    ∷ codes "    con.conname,"
    ∷ codes "    NULL,"
    ∷ codes "    con.convalidated,"
    ∷ codes "    NULL,"
    ∷ codes "    con.contype = 'p',"
    ∷ codes "    con.contype IN ('u', 'p'),"
    ∷ codes "    pg_get_constraintdef(con.oid)"
    ∷ codes "FROM pg_constraint con"
    ∷ codes "JOIN pg_class c ON c.oid = con.conrelid"
    ∷ codes "JOIN pg_namespace n ON n.oid = c.relnamespace"
    ∷ codes "WHERE n.nspname = :'schema_name'"
    ∷ codes "  AND c.relname = :'table_name'"
    ∷ codes "ORDER BY object_type, object_name;"
    ∷ [])

unfoldable pub target_table_size_detail : Text
target_table_size_detail = lines (
    codes "-- Size, row estimate, and maintenance state for a single target table --"
    ∷ codes "-- the numbers that determine how long a rewriting DDL statement will hold"
    ∷ codes "-- its lock, and therefore whether the operation can be done directly or"
    ∷ codes "-- needs the online (build-alongside-and-swap) pattern instead."
    ∷ codes "--"
    ∷ codes "-- Ships with an illustrative default (public.trades); edit the \\set lines"
    ∷ codes "-- below for your real target. to_regclass() is used throughout rather than"
    ∷ codes "-- a ::regclass cast, because a cast raises \"relation does not exist\" and"
    ∷ codes "-- aborts the statement outright when the name is absent, whereas"
    ∷ codes "-- to_regclass() simply returns NULL and lets the guard print guidance."
    ∷ codes "\\set schema_name 'public'"
    ∷ codes "\\set table_name 'trades'"
    ∷ codes "SELECT to_regclass(:'schema_name' || '.' || :'table_name') IS NOT NULL"
    ∷ codes "                                                             AS target_table_exists"
    ∷ codes "\\gset"
    ∷ []
    ∷ codes "\\if :target_table_exists"
    ∷ codes "SELECT"
    ∷ codes "    :'schema_name' || '.' || :'table_name'                        AS target_table,"
    ∷ codes "    pg_size_pretty(pg_relation_size("
    ∷ codes "        to_regclass(:'schema_name' || '.' || :'table_name')))     AS heap_size,"
    ∷ codes "    pg_size_pretty(pg_indexes_size("
    ∷ codes "        to_regclass(:'schema_name' || '.' || :'table_name')))     AS index_size,"
    ∷ codes "    pg_size_pretty(pg_total_relation_size("
    ∷ codes "        to_regclass(:'schema_name' || '.' || :'table_name')))     AS total_size,"
    ∷ codes "    pg_total_relation_size("
    ∷ codes "        to_regclass(:'schema_name' || '.' || :'table_name'))      AS total_size_bytes,"
    ∷ codes "    s.n_live_tup,"
    ∷ codes "    s.n_dead_tup,"
    ∷ codes "    s.n_mod_since_analyze,"
    ∷ codes "    s.last_vacuum,"
    ∷ codes "    s.last_autovacuum,"
    ∷ codes "    s.last_analyze,"
    ∷ codes "    s.last_autoanalyze,"
    ∷ codes "    (SELECT count(*) FROM pg_index ix"
    ∷ codes "      WHERE ix.indrelid = to_regclass(:'schema_name' || '.' || :'table_name'))"
    ∷ codes "                                                                 AS index_count"
    ∷ codes "FROM pg_stat_all_tables s"
    ∷ codes "WHERE s.relid = to_regclass(:'schema_name' || '.' || :'table_name');"
    ∷ codes "\\else"
    ∷ codes "SELECT"
    ∷ codes "    'Table ' || :'schema_name' || '.' || :'table_name' || ' does not exist '"
    ∷ codes "    'in this database. Edit the schema_name/table_name \\set lines at the top '"
    ∷ codes "    'of this script to point at the real table you intend to change, then '"
    ∷ codes "    're-run. Realistic targets on an exchange platform include public.orders, '"
    ∷ codes "    'public.trades, public.ledger_entries, public.wallets, public.deposits '"
    ∷ codes "    'and public.withdrawals.'                                     AS notice;"
    ∷ codes "\\endif"
    ∷ [])
