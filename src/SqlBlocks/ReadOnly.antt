-- ===== src/SqlBlocks/ReadOnly.antt =====
-- Every shared SQL body passes the destructive-statement check of a read-only script.
use postgres_dbre.Prelude.{◌≡◌, refl, false, List, [], ◌∷◌, All, nat_eq, list_eq}
use postgres_dbre.Text.{Text, after_prefix, is_space, to_lower, join}
use postgres_dbre.Os.{FilePath}
use postgres_dbre.Regex.{search_in}
use postgres_dbre.Header.Strip.{
  sub, strip_sql_comments, strip_sql_comments_and_literals, block_comment, line_comment,
  line_length, dollar_quoted, single_quoted, end_of, tag_of, quote_end,
}
use postgres_dbre.Checks.Sql.{forbidden_issues, read_only_forbidden_patterns, create_extension_re}
use postgres_dbre.SqlBlocks.Sessions.{
  activity_overview, active_long_running_queries, idle_in_transaction_sessions, wait_events_summary,
  connections_by_state, connections_by_application_and_user, max_connections_headroom,
}
use postgres_dbre.SqlBlocks.Locks.{
  blocked_sessions, blocking_sessions_detail, lock_detail_by_mode, ddl_lock_waits,
  long_running_transactions, deadlock_counters_by_database, connection_contention_by_wait_event,
}
use postgres_dbre.SqlBlocks.Transactions.{
  database_transaction_age, table_transaction_age_top_n, multixact_age_top_n, prepared_transactions,
  autovacuum_workers_active, replication_slots_status,
}
use postgres_dbre.SqlBlocks.Vacuum.{
  dead_tuples_ranked, table_bloat_estimate, pgstattuple_exact_bloat, index_bloat_and_usage,
  unused_indexes,
}
use postgres_dbre.SqlBlocks.Indexes.{
  duplicate_indexes, invalid_indexes, sequential_scan_heavy_tables, foreign_keys_missing_index,
  statistics_freshness,
}
use postgres_dbre.SqlBlocks.Statements.{
  pgss_top_by_total_time, pgss_top_by_mean_time, pgss_top_by_calls, pgss_temp_and_io_heavy,
  pgss_wal_heavy,
}
use postgres_dbre.SqlBlocks.Storage.{
  database_sizes, largest_tables, largest_indexes, table_growth_rate_from_snapshot, wal_activity,
}
use postgres_dbre.SqlBlocks.Wal.{
  checkpoint_activity, bgwriter_activity, pg_stat_io_summary, temp_file_usage_by_database,
}
use postgres_dbre.SqlBlocks.Replication.{
  cluster_recovery_role, standard_streaming_replication_status, aurora_replica_status,
  replication_slots_and_wal_retention,
}
use postgres_dbre.SqlBlocks.Settings.{
  key_settings_snapshot, extension_inventory, available_extensions_check, current_role_privileges,
}
use postgres_dbre.SqlBlocks.Capacity.{
  schema_sizes, object_counts_by_schema, table_size_components, write_volume_by_table,
  index_to_table_size_ratio,
}
use postgres_dbre.SqlBlocks.SchemaChanges.{
  create_index_progress, ddl_safety_settings, index_and_constraint_inventory_for_table,
  target_table_size_detail,
}

-- Without comments and literals, the body has no `CREATE EXTENSION` and matches no pattern that is
-- forbidden to a read-only script.
abbrev pub IsReadOnly : FilePath → Text → Type 0
IsReadOnly p body =
    (search_in create_extension_re (strip_sql_comments_and_literals body) ≡ false)
    × (forbidden_issues p (strip_sql_comments_and_literals body) read_only_forbidden_patterns ≡ [])

-- Everything that the check runs.
scan : Text → Text
unfolding strip_sql_comments_and_literals strip_sql_comments sub block_comment line_comment
    line_length dollar_quoted single_quoted end_of tag_of quote_end after_prefix join search_in
    is_space to_lower read_only_forbidden_patterns create_extension_re forbidden_issues
scan body = strip_sql_comments_and_literals body

abbrev sessions_bodies : List Text
sessions_bodies =
    activity_overview ∷ active_long_running_queries ∷ idle_in_transaction_sessions
    ∷ wait_events_summary ∷ connections_by_state ∷ connections_by_application_and_user
    ∷ max_connections_headroom ∷ []

sessions-IsReadOnly : (p : FilePath) → All (IsReadOnly p) sessions_bodies
unfolding scan activity_overview active_long_running_queries idle_in_transaction_sessions
    wait_events_summary connections_by_state connections_by_application_and_user
    max_connections_headroom
sessions-IsReadOnly p = (
  (refl, refl),
  (
    (refl, refl),
    ((refl, refl), ((refl, refl), ((refl, refl), ((refl, refl), ((refl, refl), tt))))),
  ),
)

abbrev locks_bodies : List Text
locks_bodies =
    blocked_sessions ∷ blocking_sessions_detail ∷ lock_detail_by_mode ∷ ddl_lock_waits
    ∷ long_running_transactions ∷ deadlock_counters_by_database
    ∷ connection_contention_by_wait_event ∷ []

locks-IsReadOnly : (p : FilePath) → All (IsReadOnly p) locks_bodies
unfolding scan blocked_sessions blocking_sessions_detail lock_detail_by_mode ddl_lock_waits
    long_running_transactions deadlock_counters_by_database connection_contention_by_wait_event
locks-IsReadOnly p = (
  (refl, refl),
  (
    (refl, refl),
    ((refl, refl), ((refl, refl), ((refl, refl), ((refl, refl), ((refl, refl), tt))))),
  ),
)

abbrev transactions_bodies : List Text
transactions_bodies =
    database_transaction_age ∷ table_transaction_age_top_n ∷ multixact_age_top_n
    ∷ prepared_transactions ∷ autovacuum_workers_active ∷ replication_slots_status ∷ []

transactions-IsReadOnly : (p : FilePath) → All (IsReadOnly p) transactions_bodies
unfolding scan database_transaction_age table_transaction_age_top_n multixact_age_top_n
    prepared_transactions autovacuum_workers_active replication_slots_status
transactions-IsReadOnly p = (
  (refl, refl),
  ((refl, refl), ((refl, refl), ((refl, refl), ((refl, refl), ((refl, refl), tt))))),
)

abbrev vacuum_bodies : List Text
vacuum_bodies =
    dead_tuples_ranked ∷ table_bloat_estimate ∷ pgstattuple_exact_bloat ∷ index_bloat_and_usage
    ∷ unused_indexes ∷ []

vacuum-IsReadOnly : (p : FilePath) → All (IsReadOnly p) vacuum_bodies
unfolding scan dead_tuples_ranked table_bloat_estimate pgstattuple_exact_bloat index_bloat_and_usage
    unused_indexes
vacuum-IsReadOnly p =
    ((refl, refl), ((refl, refl), ((refl, refl), ((refl, refl), ((refl, refl), tt)))))

abbrev indexes_bodies : List Text
indexes_bodies =
    duplicate_indexes ∷ invalid_indexes ∷ sequential_scan_heavy_tables ∷ foreign_keys_missing_index
    ∷ statistics_freshness ∷ []

indexes-IsReadOnly : (p : FilePath) → All (IsReadOnly p) indexes_bodies
unfolding scan duplicate_indexes invalid_indexes sequential_scan_heavy_tables
    foreign_keys_missing_index statistics_freshness
indexes-IsReadOnly p =
    ((refl, refl), ((refl, refl), ((refl, refl), ((refl, refl), ((refl, refl), tt)))))

abbrev statements_bodies : List Text
statements_bodies =
    pgss_top_by_total_time ∷ pgss_top_by_mean_time ∷ pgss_top_by_calls ∷ pgss_temp_and_io_heavy
    ∷ pgss_wal_heavy ∷ []

statements-IsReadOnly : (p : FilePath) → All (IsReadOnly p) statements_bodies
unfolding scan pgss_top_by_total_time pgss_top_by_mean_time pgss_top_by_calls pgss_temp_and_io_heavy
    pgss_wal_heavy
statements-IsReadOnly p =
    ((refl, refl), ((refl, refl), ((refl, refl), ((refl, refl), ((refl, refl), tt)))))

abbrev storage_bodies : List Text
storage_bodies =
    database_sizes ∷ largest_tables ∷ largest_indexes ∷ table_growth_rate_from_snapshot
    ∷ wal_activity ∷ []

storage-IsReadOnly : (p : FilePath) → All (IsReadOnly p) storage_bodies
unfolding scan database_sizes largest_tables largest_indexes table_growth_rate_from_snapshot
    wal_activity
storage-IsReadOnly p =
    ((refl, refl), ((refl, refl), ((refl, refl), ((refl, refl), ((refl, refl), tt)))))

abbrev wal_bodies : List Text
wal_bodies =
    checkpoint_activity ∷ bgwriter_activity ∷ pg_stat_io_summary ∷ temp_file_usage_by_database ∷ []

wal-IsReadOnly : (p : FilePath) → All (IsReadOnly p) wal_bodies
unfolding scan checkpoint_activity bgwriter_activity pg_stat_io_summary temp_file_usage_by_database
wal-IsReadOnly p = ((refl, refl), ((refl, refl), ((refl, refl), ((refl, refl), tt))))

abbrev replication_bodies : List Text
replication_bodies =
    cluster_recovery_role ∷ standard_streaming_replication_status ∷ aurora_replica_status
    ∷ replication_slots_and_wal_retention ∷ []

replication-IsReadOnly : (p : FilePath) → All (IsReadOnly p) replication_bodies
unfolding scan cluster_recovery_role standard_streaming_replication_status aurora_replica_status
    replication_slots_and_wal_retention
replication-IsReadOnly p = ((refl, refl), ((refl, refl), ((refl, refl), ((refl, refl), tt))))

abbrev settings_bodies : List Text
settings_bodies =
    key_settings_snapshot ∷ extension_inventory ∷ available_extensions_check
    ∷ current_role_privileges ∷ []

settings-IsReadOnly : (p : FilePath) → All (IsReadOnly p) settings_bodies
unfolding scan key_settings_snapshot extension_inventory available_extensions_check
    current_role_privileges
settings-IsReadOnly p = ((refl, refl), ((refl, refl), ((refl, refl), ((refl, refl), tt))))

abbrev capacity_bodies : List Text
capacity_bodies =
    schema_sizes ∷ object_counts_by_schema ∷ table_size_components ∷ write_volume_by_table
    ∷ index_to_table_size_ratio ∷ []

capacity-IsReadOnly : (p : FilePath) → All (IsReadOnly p) capacity_bodies
unfolding scan schema_sizes object_counts_by_schema table_size_components write_volume_by_table
    index_to_table_size_ratio
capacity-IsReadOnly p =
    ((refl, refl), ((refl, refl), ((refl, refl), ((refl, refl), ((refl, refl), tt)))))

abbrev schema_changes_bodies : List Text
schema_changes_bodies =
    create_index_progress ∷ ddl_safety_settings ∷ index_and_constraint_inventory_for_table
    ∷ target_table_size_detail ∷ []

schema_changes-IsReadOnly : (p : FilePath) → All (IsReadOnly p) schema_changes_bodies
unfolding scan create_index_progress ddl_safety_settings index_and_constraint_inventory_for_table
    target_table_size_detail
schema_changes-IsReadOnly p = ((refl, refl), ((refl, refl), ((refl, refl), ((refl, refl), tt))))

abbrev pub sql_bodies : List (List Text)
sql_bodies =
    sessions_bodies ∷ locks_bodies ∷ transactions_bodies ∷ vacuum_bodies ∷ indexes_bodies
    ∷ statements_bodies ∷ storage_bodies ∷ wal_bodies ∷ replication_bodies ∷ settings_bodies
    ∷ capacity_bodies ∷ schema_changes_bodies ∷ []

-- Whatever the script's path: every SQL body of the shared library, section by section, has no
-- `CREATE EXTENSION` and matches no pattern that is forbidden to a script with the safety label
-- READ ONLY, once its comments and literals are removed.
pub sql_bodies-IsReadOnly : (p : FilePath) → All (All (IsReadOnly p)) sql_bodies
sql_bodies-IsReadOnly p = (
  sessions-IsReadOnly p,
  (
    locks-IsReadOnly p,
    (
      transactions-IsReadOnly p,
      (
        vacuum-IsReadOnly p,
        (
          indexes-IsReadOnly p,
          (
            statements-IsReadOnly p,
            (
              storage-IsReadOnly p,
              (
                wal-IsReadOnly p,
                (
                  replication-IsReadOnly p,
                  (
                    settings-IsReadOnly p,
                    (capacity-IsReadOnly p, (schema_changes-IsReadOnly p, tt)),
                  ),
                ),
              ),
            ),
          ),
        ),
      ),
    ),
  ),
)
