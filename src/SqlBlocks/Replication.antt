-- ===== src/SqlBlocks/Replication.antt =====
-- tools/repo_builder/sql_blocks.py: Replication / HA / Aurora.
use postgres_dbre.Prelude.{[], ◌∷◌}
use postgres_dbre.Text.{Text, codes}
use postgres_dbre.Render.{lines}

unfoldable pub cluster_recovery_role : Text
cluster_recovery_role = lines (
    codes "-- Is this instance currently a writer or a reader? On Aurora, every reader"
    ∷ codes "-- instance is always in continuous recovery mode (pg_is_in_recovery() ="
    ∷ codes "-- true), even though it is not a traditional PostgreSQL physical standby --"
    ∷ codes "-- it is replaying redo log records shipped from the shared Aurora storage"
    ∷ codes "-- layer, not a WAL stream from the writer. Always confirm this before"
    ∷ codes "-- interpreting any other replication-related query on this connection."
    ∷ codes "SELECT"
    ∷ codes
        "    pg_is_in_recovery()                                          AS is_reader_instance,"
    ∷ codes "    CASE WHEN pg_is_in_recovery()"
    ∷ codes
        "         THEN 'This connection is to an Aurora reader instance (or a standard PostgreSQL physical replica).'"
    ∷ codes
        "         ELSE 'This connection is to the Aurora writer instance (or a standalone/primary PostgreSQL server).'"
    ∷ codes "    END                                                           AS role_description;"
    ∷ [])

unfoldable pub standard_streaming_replication_status : Text
standard_streaming_replication_status = lines (
    codes "-- Standard PostgreSQL streaming replication status, as seen from the writer."
    ∷ codes "-- IMPORTANT (Aurora-specific): this view only shows genuine WAL-streaming"
    ∷ codes "-- consumers -- e.g. a logical replication subscriber, an external physical"
    ∷ codes "-- replica, or AWS DMS -- connected to this instance. It does NOT show"
    ∷ codes "-- Aurora's own reader instances, because Aurora readers do not attach as"
    ∷ codes "-- standard streaming replicas; they read redo records from the shared"
    ∷ codes "-- Aurora storage volume through an internal mechanism that is invisible to"
    ∷ codes "-- pg_stat_replication. Use aurora_replica_status() (writer or reader) or"
    ∷ codes "-- the AWS Console/CloudWatch AuroraReplicaLag metric to observe Aurora"
    ∷ codes "-- reader lag; never assume an empty pg_stat_replication result means \"no"
    ∷ codes "-- replicas\" on Aurora."
    ∷ codes "SELECT"
    ∷ codes "    pid,"
    ∷ codes "    usename,"
    ∷ codes "    application_name,"
    ∷ codes "    client_addr,"
    ∷ codes "    state,"
    ∷ codes "    sync_state,"
    ∷ codes "    write_lag,"
    ∷ codes "    flush_lag,"
    ∷ codes "    replay_lag"
    ∷ codes "FROM pg_stat_replication"
    ∷ codes "ORDER BY replay_lag DESC NULLS LAST;"
    ∷ [])

unfoldable pub aurora_replica_status : Text
aurora_replica_status = lines (
    codes "-- Aurora-specific cluster-wide replica status and lag, callable from any"
    ∷ codes "-- instance in the cluster (writer or reader). This is the correct,"
    ∷ codes "-- Aurora-native way to check reader lag -- it reflects the actual Aurora"
    ∷ codes "-- storage-layer replication mechanism, not standard PostgreSQL streaming"
    ∷ codes "-- replication. The exact column set has evolved across Aurora PostgreSQL"
    ∷ codes "-- engine releases, so this script selects all columns explicitly via"
    ∷ codes "-- information_schema-free SELECT * (a documented, deliberate exception to"
    ∷ codes "-- the \"no bare SELECT *\" rule, since the function's return type is"
    ∷ codes "-- engine-version-defined rather than a fixed catalog): confirm the columns"
    ∷ codes "-- returned in your environment with \\x and adjust downstream automation"
    ∷ codes "-- accordingly."
    ∷ codes "SELECT *"
    ∷ codes "FROM aurora_replica_status()"
    ∷ codes "ORDER BY 1;"
    ∷ [])

unfoldable pub replication_slots_and_wal_retention : Text
replication_slots_and_wal_retention = lines (
    codes "-- Combines replication slot lag with current WAL position to flag slots"
    ∷ codes "-- that are retaining an unusually large amount of WAL. On Aurora, WAL"
    ∷ codes "-- retained by an inactive or lagging logical replication slot still"
    ∷ codes "-- consumes storage on the cluster volume and can eventually force"
    ∷ codes "-- corrective action (dropping the slot) if the consumer cannot be"
    ∷ codes "-- recovered."
    ∷ codes "--"
    ∷ codes "-- IMPORTANT (verified against Aurora PostgreSQL 17.7): pg_current_wal_lsn()"
    ∷ codes "-- is not available on Aurora -- detect Aurora first via a safe,"
    ∷ codes "-- catalog/GUC-only check (never a call to an Aurora-only function itself,"
    ∷ codes "-- so this never fails on non-Aurora PostgreSQL either) and never send a"
    ∷ codes "-- statement referencing pg_current_wal_lsn() on the Aurora execution path"
    ∷ codes "-- at all. On Aurora, per-slot retained WAL still cannot be sized from"
    ∷ codes "-- SQL; report retention via wal_status instead (a slot already reports"
    ∷ codes "-- 'lost'/'extended'/'unreserved' there) and point at CloudWatch/"
    ∷ codes "-- aurora_replica_status() for volume-level WAL retention pressure."
    ∷ codes "\\set retained_wal_warning_gb 50"
    ∷ codes "SELECT ("
    ∷ codes "    current_setting('aurora_version', true) IS NOT NULL"
    ∷ codes "    OR current_setting('rds.extensions', true) IS NOT NULL"
    ∷ codes "    OR EXISTS (SELECT 1 FROM pg_proc WHERE proname = 'aurora_version')"
    ∷ codes ")                                                                AS is_aurora"
    ∷ codes "\\gset"
    ∷ []
    ∷ codes "\\if :is_aurora"
    ∷ codes "SELECT"
    ∷ codes "    slot_name,"
    ∷ codes "    slot_type,"
    ∷ codes "    active,"
    ∷ codes "    wal_status,"
    ∷ codes "    'NOT AVAILABLE on Aurora (see wal_status and the guidance column)'::text"
    ∷ codes "                                                                  AS retained_wal,"
    ∷ codes
        "    NULL::boolean                                                AS exceeds_warning_threshold,"
    ∷ codes "    'pg_current_wal_lsn() is not available on Aurora PostgreSQL, so retained '"
    ∷ codes "    'WAL cannot be sized in bytes from SQL here. A wal_status of ''lost'' or '"
    ∷ codes "    '''extended'' already signals a slot that has fallen dangerously behind; '"
    ∷ codes "    'use CloudWatch (VolumeBytesUsed trend, ReplicaLag) or '"
    ∷ codes "    'aurora_replica_status() for cluster-wide storage-layer WAL retention '"
    ∷ codes "    'pressure instead.'                                          AS guidance"
    ∷ codes "FROM pg_replication_slots"
    ∷ codes "ORDER BY slot_name;"
    ∷ codes "\\else"
    ∷ codes "-- NOTE: the threshold is cast to numeric BEFORE multiplying by 1024^3."
    ∷ codes "-- pg_wal_lsn_diff() returns numeric, but the psql-substituted literal"
    ∷ codes "-- \":retained_wal_warning_gb\" is a bare integer constant; PostgreSQL infers"
    ∷ codes "-- an int4 literal type for \"50 * 1024 * 1024 * 1024\" left-to-right before"
    ∷ codes "-- ever comparing it against the numeric LSN diff, and that intermediate"
    ∷ codes "-- product (~53.7 billion) overflows int4 (max ~2.1 billion), raising"
    ∷ codes "-- \"integer out of range\" -- casting the threshold to numeric first forces"
    ∷ codes "-- numeric arithmetic throughout and avoids the overflow entirely."
    ∷ codes "SELECT"
    ∷ codes "    slot_name,"
    ∷ codes "    slot_type,"
    ∷ codes "    active,"
    ∷ codes "    wal_status,"
    ∷ codes
        "    pg_size_pretty(pg_wal_lsn_diff(pg_current_wal_lsn(), restart_lsn)) AS retained_wal,"
    ∷ codes "    pg_wal_lsn_diff(pg_current_wal_lsn(), restart_lsn) >"
    ∷ codes
        "        (:retained_wal_warning_gb::numeric * 1024 * 1024 * 1024)    AS exceeds_warning_threshold,"
    ∷ codes "    NULL::text                                                      AS guidance"
    ∷ codes "FROM pg_replication_slots"
    ∷ codes "ORDER BY pg_wal_lsn_diff(pg_current_wal_lsn(), restart_lsn) DESC;"
    ∷ codes "\\endif"
    ∷ [])
