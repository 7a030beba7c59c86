-- ===== src/SqlBlocks/Wal.antt =====
-- tools/repo_builder/sql_blocks.py: Sizing / storage / WAL / checkpoints.
use postgres_dbre.Prelude.{[], ◌∷◌}
use postgres_dbre.Text.{Text, codes}
use postgres_dbre.Render.{lines}

unfoldable pub checkpoint_activity : Text
checkpoint_activity = lines (
    codes "-- Checkpointer statistics. PostgreSQL 17 moved these counters out of"
    ∷ codes "-- pg_stat_bgwriter into their own pg_stat_checkpointer view -- do not query"
    ∷ codes "-- pg_stat_bgwriter for checkpoint counters on 17, they no longer exist"
    ∷ codes "-- there. Frequent num_requested (forced) checkpoints relative to num_timed"
    ∷ codes "-- (scheduled) checkpoints indicates checkpoint_timeout/max_wal_size are too"
    ∷ codes "-- small for the current write rate."
    ∷ codes "SELECT"
    ∷ codes "    num_timed,"
    ∷ codes "    num_requested,"
    ∷ codes "    round("
    ∷ codes "        100.0 * num_requested / NULLIF(num_timed + num_requested, 0), 2"
    ∷ codes
        "    )                                                            AS pct_forced_checkpoints,"
    ∷ codes "    buffers_written,"
    ∷ codes "    round(write_time::numeric, 2)                                 AS write_time_ms,"
    ∷ codes "    round(sync_time::numeric, 2)                                  AS sync_time_ms,"
    ∷ codes "    stats_reset"
    ∷ codes "FROM pg_stat_checkpointer;"
    ∷ [])

unfoldable pub bgwriter_activity : Text
bgwriter_activity = lines (
    codes "-- Background writer activity (PG17 pg_stat_bgwriter is now limited to"
    ∷ codes "-- non-checkpoint buffer writes: buffers_clean/maxwritten_clean/"
    ∷ codes "-- buffers_alloc). Per-backend-type I/O detail, including buffers written"
    ∷ codes "-- directly by backends under memory pressure, moved to pg_stat_io in"
    ∷ codes "-- PostgreSQL 16+; query that view for the fuller I/O breakdown."
    ∷ codes "SELECT"
    ∷ codes "    buffers_clean,"
    ∷ codes "    maxwritten_clean,"
    ∷ codes "    buffers_alloc,"
    ∷ codes "    stats_reset"
    ∷ codes "FROM pg_stat_bgwriter;"
    ∷ [])

unfoldable pub pg_stat_io_summary : Text
pg_stat_io_summary = lines (
    codes "-- Per-backend-type I/O statistics (added PostgreSQL 16, still current in"
    ∷ codes "-- 17). Useful to see whether I/O pressure is coming from regular client"
    ∷ codes "-- backends, autovacuum workers, or background writer/checkpointer activity."
    ∷ codes "--"
    ∷ codes "-- IMPORTANT (verified against Aurora PostgreSQL 17.7): pg_stat_io on"
    ∷ codes "-- PostgreSQL 17 does NOT have read_bytes/write_bytes/extend_bytes columns"
    ∷ codes "-- -- those were only added in PostgreSQL 18. On 17, every I/O operation is"
    ∷ codes "-- the same fixed size, reported separately as `op_bytes` (typically 8192,"
    ∷ codes "-- one buffer page), so the actual byte volume must be derived numerically"
    ∷ codes "-- as reads * op_bytes / writes * op_bytes rather than read directly."
    ∷ codes "-- Referencing read_bytes/write_bytes directly on 17 raises"
    ∷ codes "-- \"column does not exist\"."
    ∷ codes "SELECT"
    ∷ codes "    backend_type,"
    ∷ codes "    object,"
    ∷ codes "    context,"
    ∷ codes "    reads,"
    ∷ codes "    op_bytes,"
    ∷ codes
        "    pg_size_pretty((reads * op_bytes)::numeric)                   AS read_bytes_derived,"
    ∷ codes "    writes,"
    ∷ codes
        "    pg_size_pretty((writes * op_bytes)::numeric)                  AS write_bytes_derived,"
    ∷ codes "    extends,"
    ∷ codes "    hits,"
    ∷ codes "    round(read_time::numeric, 2)                                  AS read_time_ms,"
    ∷ codes "    round(write_time::numeric, 2)                                 AS write_time_ms"
    ∷ codes "FROM pg_stat_io"
    ∷ codes "WHERE reads > 0 OR writes > 0 OR hits > 0"
    ∷ codes "ORDER BY (reads * op_bytes) DESC NULLS LAST;"
    ∷ [])

unfoldable pub temp_file_usage_by_database : Text
temp_file_usage_by_database = lines (
    codes "-- Cumulative temp file counters per database. A rising temp_bytes rate"
    ∷ codes "-- indicates queries are spilling sorts/hashes/materializations to disk,"
    ∷ codes "-- most often because work_mem is undersized for the actual query shapes"
    ∷ codes "-- running in production, or because statistics are stale and the planner"
    ∷ codes "-- underestimates row counts."
    ∷ codes "SELECT"
    ∷ codes "    datname,"
    ∷ codes "    temp_files,"
    ∷ codes "    pg_size_pretty(temp_bytes)                                    AS temp_bytes_total,"
    ∷ codes "    stats_reset"
    ∷ codes "FROM pg_stat_database"
    ∷ codes "WHERE datname IS NOT NULL"
    ∷ codes "ORDER BY temp_bytes DESC;"
    ∷ [])
