-- ===== src/SqlBlocks/Settings.antt =====
-- tools/repo_builder/sql_blocks.py: Settings / environment / prerequisites.
use postgres_dbre.Prelude.{[], ◌∷◌}
use postgres_dbre.Text.{Text, codes}
use postgres_dbre.Render.{lines}

unfoldable pub key_settings_snapshot : Text
key_settings_snapshot = lines (
    codes "-- Snapshot of the settings that most commonly explain performance and"
    ∷ codes "-- concurrency behavior differences between environments. On Aurora, most of"
    ∷ codes "-- these are controlled by the DB cluster parameter group (values shared by"
    ∷ codes "-- all instances) or the DB instance parameter group (writer/reader-specific"
    ∷ codes "-- overrides), not postgresql.conf -- use the AWS Console/CLI"
    ∷ codes "-- (describe-db-cluster-parameters / describe-db-parameters) to change them,"
    ∷ codes "-- not ALTER SYSTEM, which Aurora does not support for most parameters."
    ∷ codes "SELECT"
    ∷ codes "    name,"
    ∷ codes "    setting,"
    ∷ codes "    unit,"
    ∷ codes "    category,"
    ∷ codes "    short_desc,"
    ∷ codes "    context"
    ∷ codes "FROM pg_settings"
    ∷ codes "WHERE name IN ("
    ∷ codes "    'max_connections', 'shared_buffers', 'work_mem', 'maintenance_work_mem',"
    ∷ codes "    'effective_cache_size', 'autovacuum', 'autovacuum_max_workers',"
    ∷ codes "    'autovacuum_naptime', 'autovacuum_vacuum_cost_limit',"
    ∷ codes "    'autovacuum_freeze_max_age', 'autovacuum_multixact_freeze_max_age',"
    ∷ codes "    'checkpoint_timeout', 'max_wal_size', 'statement_timeout',"
    ∷ codes "    'idle_in_transaction_session_timeout', 'lock_timeout',"
    ∷ codes "    'log_lock_waits', 'deadlock_timeout', 'track_io_timing',"
    ∷ codes "    'shared_preload_libraries', 'random_page_cost', 'effective_io_concurrency'"
    ∷ codes ")"
    ∷ codes "ORDER BY name;"
    ∷ [])

unfoldable pub extension_inventory : Text
extension_inventory = lines (
    codes "-- Extensions currently installed in this database vs. what Aurora"
    ∷ codes "-- PostgreSQL makes available. Many investigation scripts in this toolkit"
    ∷ codes "-- depend on pg_stat_statements (query stats) and/or pgstattuple (exact"
    ∷ codes "-- bloat); confirm both are available/installed before relying on those"
    ∷ codes "-- scripts."
    ∷ codes "SELECT"
    ∷ codes "    e.extname,"
    ∷ codes "    e.extversion,"
    ∷ codes "    n.nspname                                                   AS installed_schema"
    ∷ codes "FROM pg_extension e"
    ∷ codes "JOIN pg_namespace n ON n.oid = e.extnamespace"
    ∷ codes "ORDER BY e.extname;"
    ∷ [])

unfoldable pub available_extensions_check : Text
available_extensions_check = lines (
    codes "-- Confirms whether a specific extension is available to install on this"
    ∷ codes "-- Aurora PostgreSQL instance (it may be available but not yet CREATE"
    ∷ codes "-- EXTENSION'd). Aurora PostgreSQL supports a curated allowlist of"
    ∷ codes "-- extensions per engine version; if an extension you need is missing from"
    ∷ codes "-- pg_available_extensions entirely (not just pg_extension), it is not"
    ∷ codes "-- supported on this Aurora engine version and must be requested via AWS"
    ∷ codes "-- support or worked around at the application layer."
    ∷ codes "\\set extension_name 'pg_stat_statements'"
    ∷ codes "SELECT"
    ∷ codes "    name,"
    ∷ codes "    default_version,"
    ∷ codes "    installed_version,"
    ∷ codes "    comment"
    ∷ codes "FROM pg_available_extensions"
    ∷ codes "WHERE name = :'extension_name';"
    ∷ [])

unfoldable pub current_role_privileges : Text
current_role_privileges = lines (
    codes "-- What the currently connected role can actually do: superuser-equivalent"
    ∷ codes "-- Aurora role membership, and the built-in monitoring roles that grant"
    ∷ codes "-- read access to statistics views without needing broader privileges. On"
    ∷ codes "-- Aurora/RDS, the true \"superuser\" is reserved for AWS-managed processes;"
    ∷ codes "-- the bootstrap application user is typically only a member of"
    ∷ codes "-- rds_superuser, which is intentionally weaker (no filesystem/OS access)."
    ∷ codes "SELECT"
    ∷ codes "    r.rolname,"
    ∷ codes "    r.rolsuper,"
    ∷ codes "    r.rolcreaterole,"
    ∷ codes "    r.rolcreatedb,"
    ∷ codes "    r.rolreplication,"
    ∷ codes "    r.rolbypassrls,"
    ∷ codes "    ARRAY("
    ∷ codes "        SELECT b.rolname"
    ∷ codes "        FROM pg_auth_members m"
    ∷ codes "        JOIN pg_roles b ON b.oid = m.roleid"
    ∷ codes "        WHERE m.member = r.oid"
    ∷ codes "    )                                                            AS member_of_roles"
    ∷ codes "FROM pg_roles r"
    ∷ codes "WHERE r.rolname = current_user;"
    ∷ [])
