-- ===== src/SqlBlocks/Sessions.antt =====
-- tools/repo_builder/sql_blocks.py: Sessions / activity.
use postgres_dbre.Prelude.{[], ◌∷◌}
use postgres_dbre.Text.{Text, codes}
use postgres_dbre.Render.{lines}

unfoldable pub activity_overview : Text
activity_overview = lines (
    codes "-- Snapshot of every backend known to this instance right now, grouped by"
    ∷ codes "-- high-level state. Run this first on any performance or availability"
    ∷ codes "-- investigation to understand overall load before drilling into detail."
    ∷ codes "SELECT"
    ∷ codes "    datname,"
    ∷ codes "    state,"
    ∷ codes "    wait_event_type,"
    ∷ codes "    count(*)                                                   AS session_count,"
    ∷ codes "    count(*) FILTER (WHERE state = 'active')                   AS active_count,"
    ∷ codes
        "    max(now() - query_start)                                   AS longest_query_runtime,"
    ∷ codes "    max(now() - xact_start)                                    AS longest_txn_runtime"
    ∷ codes "FROM pg_stat_activity"
    ∷ codes "WHERE pid <> pg_backend_pid()"
    ∷ codes "GROUP BY datname, state, wait_event_type"
    ∷ codes "ORDER BY session_count DESC, longest_query_runtime DESC NULLS LAST;"
    ∷ [])

unfoldable pub active_long_running_queries : Text
active_long_running_queries = lines (
    codes "-- Active queries currently running longer than :min_seconds seconds."
    ∷ codes "-- Adjust :min_seconds for your workload's normal latency profile; a"
    ∷ codes "-- crypto-exchange OLTP path is typically sub-100ms, so even a handful of"
    ∷ codes "-- seconds may already indicate a problem."
    ∷ codes "\\set min_seconds 5"
    ∷ codes "SELECT"
    ∷ codes "    pid,"
    ∷ codes "    datname,"
    ∷ codes "    usename,"
    ∷ codes "    application_name,"
    ∷ codes "    client_addr,"
    ∷ codes "    state,"
    ∷ codes "    wait_event_type,"
    ∷ codes "    wait_event,"
    ∷ codes "    backend_xid,"
    ∷ codes "    backend_xmin,"
    ∷ codes "    now() - query_start                                        AS query_runtime,"
    ∷ codes "    now() - xact_start                                          AS txn_runtime,"
    ∷ codes "    left(query, 200)                                            AS query_snippet"
    ∷ codes "FROM pg_stat_activity"
    ∷ codes "WHERE state = 'active'"
    ∷ codes "  AND pid <> pg_backend_pid()"
    ∷ codes "  AND now() - query_start > make_interval(secs => :min_seconds)"
    ∷ codes "ORDER BY query_runtime DESC;"
    ∷ [])

unfoldable pub idle_in_transaction_sessions : Text
idle_in_transaction_sessions = lines (
    codes "-- Sessions sitting idle inside an open transaction for longer than"
    ∷ codes "-- :min_minutes minutes. These hold open snapshots/locks and are a very"
    ∷ codes "-- common cause of autovacuum being unable to clean up dead tuples, and of"
    ∷ codes "-- unexpected lock waits on otherwise unrelated statements."
    ∷ codes "\\set min_minutes 5"
    ∷ codes "SELECT"
    ∷ codes "    pid,"
    ∷ codes "    datname,"
    ∷ codes "    usename,"
    ∷ codes "    application_name,"
    ∷ codes "    client_addr,"
    ∷ codes "    state,"
    ∷ codes "    backend_xid,"
    ∷ codes "    backend_xmin,"
    ∷ codes "    now() - xact_start                                          AS idle_txn_duration,"
    ∷ codes
        "    now() - state_change                                        AS time_in_current_state,"
    ∷ codes "    left(query, 200)                                             AS last_statement"
    ∷ codes "FROM pg_stat_activity"
    ∷ codes "WHERE state = 'idle in transaction'"
    ∷ codes "  AND pid <> pg_backend_pid()"
    ∷ codes "  AND now() - state_change > make_interval(mins => :min_minutes)"
    ∷ codes "ORDER BY idle_txn_duration DESC;"
    ∷ [])

unfoldable pub wait_events_summary : Text
wait_events_summary = lines (
    codes "-- Aggregated wait events across all current backends. PostgreSQL 17 exposes"
    ∷ codes "-- a canonical description of every wait event in pg_wait_events -- join to"
    ∷ codes "-- it so unfamiliar wait_event values are self-explanatory without needing"
    ∷ codes "-- the manual open."
    ∷ codes "SELECT"
    ∷ codes "    a.wait_event_type,"
    ∷ codes "    a.wait_event,"
    ∷ codes "    we.description,"
    ∷ codes "    count(*)                                                    AS backend_count"
    ∷ codes "FROM pg_stat_activity a"
    ∷ codes "LEFT JOIN pg_wait_events we"
    ∷ codes "       ON we.type = a.wait_event_type"
    ∷ codes "      AND we.name = a.wait_event"
    ∷ codes "WHERE a.pid <> pg_backend_pid()"
    ∷ codes "  AND a.wait_event IS NOT NULL"
    ∷ codes "GROUP BY a.wait_event_type, a.wait_event, we.description"
    ∷ codes "ORDER BY backend_count DESC;"
    ∷ [])

unfoldable pub connections_by_state : Text
connections_by_state = lines (
    codes "-- Connection counts by database and state, compared against max_connections"
    ∷ codes "-- so the operator can see headroom immediately."
    ∷ codes "SELECT"
    ∷ codes "    coalesce(datname, '(no database / background worker)')     AS datname,"
    ∷ codes "    state,"
    ∷ codes "    count(*)                                                    AS session_count,"
    ∷ codes "    round("
    ∷ codes
        "        100.0 * count(*) / NULLIF((SELECT setting::numeric FROM pg_settings WHERE name = 'max_connections'), 0),"
    ∷ codes "        2"
    ∷ codes
        "    )                                                            AS pct_of_max_connections"
    ∷ codes "FROM pg_stat_activity"
    ∷ codes "GROUP BY datname, state"
    ∷ codes "ORDER BY session_count DESC;"
    ∷ [])

unfoldable pub connections_by_application_and_user : Text
connections_by_application_and_user = lines (
    codes "-- Connection counts broken down by application_name and usename. Useful to"
    ∷ codes "-- identify which service, connection pool, or batch job is responsible for"
    ∷ codes "-- a spike or leak in connection count."
    ∷ codes "SELECT"
    ∷ codes "    coalesce(NULLIF(application_name, ''), '(unset)')           AS application_name,"
    ∷ codes "    usename,"
    ∷ codes "    datname,"
    ∷ codes "    count(*)                                                    AS session_count,"
    ∷ codes "    count(*) FILTER (WHERE state = 'active')                    AS active_count,"
    ∷ codes "    count(*) FILTER (WHERE state = 'idle')                      AS idle_count,"
    ∷ codes "    count(*) FILTER (WHERE state = 'idle in transaction')       AS idle_in_txn_count"
    ∷ codes "FROM pg_stat_activity"
    ∷ codes "WHERE pid <> pg_backend_pid()"
    ∷ codes "GROUP BY application_name, usename, datname"
    ∷ codes "ORDER BY session_count DESC;"
    ∷ [])

unfoldable pub max_connections_headroom : Text
max_connections_headroom = lines (
    codes "-- Current connection utilization vs. the effective connection ceiling."
    ∷ codes "-- On Aurora, max_connections is derived from the instance class's memory"
    ∷ codes "-- (via the parameter group formula) rather than freely set, so headroom"
    ∷ codes "-- must be planned around instance class, not just the GUC value alone."
    ∷ codes "SELECT"
    ∷ codes
        "    (SELECT setting::int FROM pg_settings WHERE name = 'max_connections')      AS max_connections,"
    ∷ codes
        "    (SELECT setting::int FROM pg_settings WHERE name = 'superuser_reserved_connections') AS superuser_reserved,"
    ∷ codes
        "    (SELECT count(*) FROM pg_stat_activity)                                    AS current_total_connections,"
    ∷ codes
        "    (SELECT count(*) FROM pg_stat_activity WHERE state = 'active')             AS current_active_connections,"
    ∷ codes "    round("
    ∷ codes "        100.0 * (SELECT count(*) FROM pg_stat_activity) /"
    ∷ codes
        "        NULLIF((SELECT setting::numeric FROM pg_settings WHERE name = 'max_connections'), 0),"
    ∷ codes "        2"
    ∷ codes
        "    )                                                                          AS pct_utilized;"
    ∷ [])
