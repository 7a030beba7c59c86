-- ===== src/SqlBlocks/Locks.antt =====
-- tools/repo_builder/sql_blocks.py: Locks / blocking / concurrency.
use postgres_dbre.Prelude.{[], ◌∷◌}
use postgres_dbre.Text.{Text, codes}
use postgres_dbre.Render.{lines}

unfoldable pub blocked_sessions : Text
blocked_sessions = lines (
    codes "-- Every session currently blocked waiting on at least one lock, and the"
    ∷ codes "-- pid(s) directly blocking it via the built-in pg_blocking_pids() helper"
    ∷ codes "-- (this correctly follows lock-wait-queue order, unlike a naive self-join"
    ∷ codes "-- on pg_locks)."
    ∷ codes "SELECT"
    ∷ codes "    blocked.pid                                                 AS blocked_pid,"
    ∷ codes "    blocked.usename                                              AS blocked_user,"
    ∷ codes "    blocked.datname                                              AS blocked_database,"
    ∷ codes "    blocked.state                                                AS blocked_state,"
    ∷ codes "    now() - blocked.query_start                                  AS blocked_duration,"
    ∷ codes "    pg_blocking_pids(blocked.pid)                                AS blocking_pids,"
    ∷ codes "    left(blocked.query, 200)                                     AS blocked_query"
    ∷ codes "FROM pg_stat_activity blocked"
    ∷ codes "WHERE cardinality(pg_blocking_pids(blocked.pid)) > 0"
    ∷ codes "ORDER BY blocked_duration DESC;"
    ∷ [])

unfoldable pub blocking_sessions_detail : Text
blocking_sessions_detail = lines (
    codes "-- For every blocked session, expand pg_blocking_pids() into one row per"
    ∷ codes "-- blocker and show what the blocker itself is doing, so the operator can"
    ∷ codes "-- decide whether to wait, escalate, or (rarely, and only if authorized)"
    ∷ codes "-- terminate the blocking backend."
    ∷ codes "SELECT"
    ∷ codes "    blocked.pid                                                 AS blocked_pid,"
    ∷ codes "    blocked.usename                                              AS blocked_user,"
    ∷ codes "    left(blocked.query, 120)                                     AS blocked_query,"
    ∷ codes "    blocker.pid                                                  AS blocking_pid,"
    ∷ codes "    blocker.usename                                              AS blocking_user,"
    ∷ codes "    blocker.state                                                AS blocking_state,"
    ∷ codes "    now() - blocker.xact_start                                   AS blocking_txn_age,"
    ∷ codes
        "    left(blocker.query, 120)                                     AS blocking_last_query"
    ∷ codes "FROM pg_stat_activity blocked"
    ∷ codes "CROSS JOIN LATERAL unnest(pg_blocking_pids(blocked.pid)) AS bp(blocking_pid)"
    ∷ codes "JOIN pg_stat_activity blocker ON blocker.pid = bp.blocking_pid"
    ∷ codes "ORDER BY blocking_txn_age DESC;"
    ∷ [])

unfoldable pub lock_detail_by_mode : Text
lock_detail_by_mode = lines (
    codes "-- Raw pg_locks detail joined to pg_stat_activity, restricted to relation and"
    ∷ codes "-- transactionid locks that are either not yet granted or held by a session"
    ∷ codes "-- that is also blocking someone else. This is the ground truth for \"who"
    ∷ codes "-- holds what lock, in what mode, on what object\"."
    ∷ codes "SELECT"
    ∷ codes "    l.pid,"
    ∷ codes "    a.usename,"
    ∷ codes "    l.locktype,"
    ∷ codes "    n.nspname                                                   AS schema_name,"
    ∷ codes "    c.relname                                                    AS relation_name,"
    ∷ codes "    l.mode,"
    ∷ codes "    l.granted,"
    ∷ codes "    a.state,"
    ∷ codes
        "    now() - a.query_start                                        AS held_or_waiting_duration,"
    ∷ codes "    left(a.query, 160)                                           AS query_snippet"
    ∷ codes "FROM pg_locks l"
    ∷ codes "LEFT JOIN pg_class c ON c.oid = l.relation"
    ∷ codes "LEFT JOIN pg_namespace n ON n.oid = c.relnamespace"
    ∷ codes "JOIN pg_stat_activity a ON a.pid = l.pid"
    ∷ codes "WHERE l.pid <> pg_backend_pid()"
    ∷ codes "  AND l.locktype IN ('relation', 'tuple', 'transactionid')"
    ∷ codes "ORDER BY l.granted ASC, held_or_waiting_duration DESC NULLS LAST;"
    ∷ [])

unfoldable pub ddl_lock_waits : Text
ddl_lock_waits = lines (
    codes "-- Sessions waiting specifically on AccessExclusiveLock / ShareUpdateExclusiveLock"
    ∷ codes "-- style locks typically taken by DDL (CREATE INDEX, ALTER TABLE, VACUUM,"
    ∷ codes "-- TRUNCATE). A queue of these is the classic \"DDL blocking the whole app\""
    ∷ codes "-- incident: the DDL itself is waiting on a long-running transaction while"
    ∷ codes "-- every subsequent query queues up behind the DDL's own lock request."
    ∷ codes "SELECT"
    ∷ codes "    l.pid,"
    ∷ codes "    a.usename,"
    ∷ codes "    a.datname,"
    ∷ codes "    n.nspname                                                   AS schema_name,"
    ∷ codes "    c.relname                                                    AS relation_name,"
    ∷ codes "    l.mode,"
    ∷ codes "    l.granted,"
    ∷ codes "    now() - a.query_start                                        AS wait_duration,"
    ∷ codes "    left(a.query, 200)                                            AS statement"
    ∷ codes "FROM pg_locks l"
    ∷ codes "JOIN pg_stat_activity a ON a.pid = l.pid"
    ∷ codes "LEFT JOIN pg_class c ON c.oid = l.relation"
    ∷ codes "LEFT JOIN pg_namespace n ON n.oid = c.relnamespace"
    ∷ codes
        "WHERE l.mode IN ('AccessExclusiveLock', 'ShareUpdateExclusiveLock', 'ShareRowExclusiveLock')"
    ∷ codes "ORDER BY l.granted ASC, wait_duration DESC NULLS LAST;"
    ∷ [])

unfoldable pub long_running_transactions : Text
long_running_transactions = lines (
    codes "-- Transactions (not just active queries) open longer than :min_minutes"
    ∷ codes "-- minutes, ordered by age. A transaction can be \"idle in transaction\" or"
    ∷ codes "-- actively running a query and still be the oldest open transaction on the"
    ∷ codes "-- instance -- which is what actually matters for vacuum horizon and lock"
    ∷ codes "-- retention, not just the current query's runtime."
    ∷ codes "\\set min_minutes 5"
    ∷ codes "SELECT"
    ∷ codes "    pid,"
    ∷ codes "    datname,"
    ∷ codes "    usename,"
    ∷ codes "    state,"
    ∷ codes "    backend_xid,"
    ∷ codes "    backend_xmin,"
    ∷ codes "    now() - xact_start                                          AS txn_age,"
    ∷ codes
        "    left(query, 160)                                             AS current_or_last_query"
    ∷ codes "FROM pg_stat_activity"
    ∷ codes "WHERE xact_start IS NOT NULL"
    ∷ codes "  AND now() - xact_start > make_interval(mins => :min_minutes)"
    ∷ codes "ORDER BY txn_age DESC;"
    ∷ [])

unfoldable pub deadlock_counters_by_database : Text
deadlock_counters_by_database = lines (
    codes "-- Cumulative deadlock counters per database since the last stats reset."
    ∷ codes "-- This does not show individual deadlock events (those are only visible in"
    ∷ codes "-- the PostgreSQL log with log_lock_waits / deadlock_timeout logging, which"
    ∷ codes "-- on Aurora is surfaced through CloudWatch Logs for the instance), but a"
    ∷ codes "-- rising counter confirms deadlocks are actually occurring and lets you"
    ∷ codes "-- correlate the timing with an incident window."
    ∷ codes "SELECT"
    ∷ codes "    datname,"
    ∷ codes "    deadlocks,"
    ∷ codes "    xact_commit,"
    ∷ codes "    xact_rollback,"
    ∷ codes
        "    round(100.0 * deadlocks / NULLIF(xact_commit + xact_rollback, 0), 4) AS deadlocks_per_100_txn,"
    ∷ codes "    stats_reset"
    ∷ codes "FROM pg_stat_database"
    ∷ codes "WHERE datname IS NOT NULL"
    ∷ codes "ORDER BY deadlocks DESC;"
    ∷ [])

unfoldable pub connection_contention_by_wait_event : Text
connection_contention_by_wait_event = lines (
    codes "-- Backends waiting specifically on Lock/IPC/Client wait event types,"
    ∷ codes "-- summarized to distinguish \"too many app connections queuing for locks\""
    ∷ codes "-- from \"connections idle waiting on client round trips\" (often a pooler or"
    ∷ codes "-- application-side issue rather than a database issue)."
    ∷ codes "SELECT"
    ∷ codes "    wait_event_type,"
    ∷ codes "    wait_event,"
    ∷ codes "    state,"
    ∷ codes "    count(*)                                                    AS backend_count,"
    ∷ codes
        "    max(now() - state_change)                                   AS longest_time_in_state"
    ∷ codes "FROM pg_stat_activity"
    ∷ codes "WHERE pid <> pg_backend_pid()"
    ∷ codes "GROUP BY wait_event_type, wait_event, state"
    ∷ codes "ORDER BY backend_count DESC;"
    ∷ [])
