-- ===== src/Catalog.antt =====
-- tools/validation/catalog.py: the expected categories with their workflows.
use postgres_dbre.Prelude.{List, [], ◌∷◌, ◌++◌, nat_eq, list_eq, sorted, to_set}
use postgres_dbre.Prelude.Dict.{Dict, keys}
use postgres_dbre.Text.{Text, codes, text_le}

unfoldable pub explicit_catalog : Dict Text (List Text)
explicit_catalog =
    (
      codes "performance",
      codes "high-cpu"
          ∷ codes "high-database-load"
          ∷ codes "slow-queries"
          ∷ codes "query-regression"
          ∷ codes "high-iops"
          ∷ codes "high-latency"
          ∷ codes "throughput-degradation"
          ∷ codes "sudden-performance-degradation"
          ∷ codes "performance-after-deployment"
          ∷ codes "performance-after-failover"
          ∷ [],
    )
    ∷ (
      codes "concurrency-and-locking",
      codes "blocked-queries"
          ∷ codes "lock-contention"
          ∷ codes "deadlocks"
          ∷ codes "long-running-transactions"
          ∷ codes "idle-in-transaction"
          ∷ codes "transaction-contention"
          ∷ codes "ddl-blocking"
          ∷ codes "connection-contention"
          ∷ [],
    )
    ∷ (
      codes "transactions-and-xid",
      codes "xid-wraparound-risk"
          ∷ codes "transaction-age"
          ∷ codes "oldest-transactions"
          ∷ codes "prepared-transactions"
          ∷ codes "multixact-risk"
          ∷ [],
    )
    ∷ (
      codes "vacuum-and-autovacuum",
      codes "autovacuum-not-keeping-up"
          ∷ codes "vacuum-progress"
          ∷ codes "dead-tuples"
          ∷ codes "table-bloat"
          ∷ codes "index-bloat"
          ∷ codes "vacuum-blocked"
          ∷ codes "emergency-autovacuum"
          ∷ codes "analyze-statistics"
          ∷ [],
    )
    ∷ (
      codes "partitioning",
      codes "investigate-partitioning-candidate"
          ∷ codes "partition-existing-large-table"
          ∷ codes "partition-maintenance"
          ∷ codes "partition-pruning"
          ∷ codes "missing-partitions"
          ∷ codes "partition-skew"
          ∷ codes "partition-performance"
          ∷ [],
    )
    ∷ (
      codes "archival-and-data-lifecycle",
      codes "investigate-archiving-candidate"
          ∷ codes "archive-large-table"
          ∷ codes "archive-partition"
          ∷ codes "purge-old-data"
          ∷ codes "retention-policy"
          ∷ codes "archive-validation"
          ∷ [],
    )
    ∷ (
      codes "tables-and-indexes",
      codes "unused-indexes"
          ∷ codes "duplicate-indexes"
          ∷ codes "missing-index-candidates"
          ∷ codes "sequential-scan-investigation"
          ∷ codes "index-bloat"
          ∷ codes "table-bloat"
          ∷ codes "invalid-indexes"
          ∷ codes "large-tables"
          ∷ codes "rapidly-growing-tables"
          ∷ codes "table-access-patterns"
          ∷ [],
    )
    ∷ (
      codes "connections",
      codes "connection-exhaustion"
          ∷ codes "connection-spikes"
          ∷ codes "idle-connections"
          ∷ codes "idle-in-transaction"
          ∷ codes "connection-pooling"
          ∷ codes "max-connections-planning"
          ∷ codes "application-connection-analysis"
          ∷ [],
    )
    ∷ (
      codes "replication-and-ha",
      codes "replication-lag"
          ∷ codes "reader-performance"
          ∷ codes "reader-lag-investigation"
          ∷ codes "failover-investigation"
          ∷ codes "failover-readiness"
          ∷ codes "writer-reader-imbalance"
          ∷ codes "replication-health"
          ∷ [],
    )
    ∷ (
      codes "database-health",
      codes "comprehensive-health-check"
          ∷ codes "daily-health-check"
          ∷ codes "pre-deployment-check"
          ∷ codes "post-deployment-check"
          ∷ codes "pre-maintenance-check"
          ∷ codes "post-maintenance-check"
          ∷ codes "capacity-health-check"
          ∷ [],
    )
    ∷ (
      codes "query-optimization",
      codes "analyze-query-plan"
          ∷ codes "nested-loop-problems"
          ∷ codes "hash-join-analysis"
          ∷ codes "merge-join-analysis"
          ∷ codes "cardinality-estimation"
          ∷ codes "stale-statistics"
          ∷ codes "sort-spills"
          ∷ codes "temp-file-investigation"
          ∷ codes "inefficient-index-usage"
          ∷ codes "query-plan-regression"
          ∷ [],
    )
    ∷ (
      codes "storage-and-capacity",
      codes "database-growth"
          ∷ codes "table-growth"
          ∷ codes "index-growth"
          ∷ codes "wal-generation"
          ∷ codes "temp-file-growth"
          ∷ codes "capacity-forecasting"
          ∷ codes "unexpected-storage-growth"
          ∷ [],
    )
    ∷ (
      codes "schema-changes",
      codes "safe-index-creation"
          ∷ codes "concurrent-index-build"
          ∷ codes "failed-index-build"
          ∷ codes "large-table-ddl"
          ∷ codes "column-type-change"
          ∷ codes "add-column-large-table"
          ∷ codes "add-index-large-table"
          ∷ codes "drop-index-safely"
          ∷ codes "ddl-lock-investigation"
          ∷ [],
    )
    ∷ (
      codes "incident-response",
      codes "database-unavailable"
          ∷ codes "sudden-latency-spike"
          ∷ codes "high-cpu"
          ∷ codes "connection-exhaustion"
          ∷ codes "lock-storm"
          ∷ codes "runaway-query"
          ∷ codes "application-timeouts"
          ∷ codes "post-deployment-incident"
          ∷ codes "production-triage"
          ∷ [],
    )
    ∷ (
      codes "observability",
      codes "postgres-metrics"
          ∷ codes "performance-insights"
          ∷ codes "cloudwatch"
          ∷ codes "slow-query-observability"
          ∷ codes "wait-event-analysis"
          ∷ codes "dashboard-recommendations"
          ∷ codes "comprehensive-html-report"
          ∷ [],
    )
    ∷ (
      codes "automation",
      codes "health-checks"
          ∷ codes "growth-monitoring"
          ∷ codes "xid-monitoring"
          ∷ codes "index-monitoring"
          ∷ codes "capacity-monitoring"
          ∷ [],
    )
    ∷ (
      codes "security-and-access",
      codes "role-and-privilege-audit"
          ∷ codes "unused-and-orphaned-roles"
          ∷ codes "public-schema-exposure"
          ∷ codes "ssl-and-connection-security"
          ∷ codes "audit-logging-and-iam-auth"
          ∷ codes "row-level-security-review"
          ∷ codes "credential-and-authentication-hygiene"
          ∷ codes "access-anomaly-investigation"
          ∷ [],
    )
    ∷ (
      codes "maintenance",
      codes "routine-maintenance-checklist"
          ∷ codes "reindex-strategy"
          ∷ codes "extension-upgrade-planning"
          ∷ codes "parameter-group-change-management"
          ∷ codes "minor-version-upgrade-readiness"
          ∷ codes "statistics-maintenance"
          ∷ codes "planned-maintenance-window-checklist"
          ∷ [],
    )
    ∷ (
      codes "disaster-recovery",
      codes "cluster-failover-drill"
          ∷ codes "backup-and-restore-validation"
          ∷ codes "point-in-time-recovery-drill"
          ∷ codes "cross-region-and-full-cluster-loss"
          ∷ codes "rto-rpo-validation"
          ∷ codes "snapshot-restore-testing"
          ∷ [],
    )
    ∷ []

abbrev pub open_catalog : List Text
open_catalog = []

unfoldable pub non_category_root_dirs : List Text
non_category_root_dirs =
    codes "docs" ∷ codes "common" ∷ codes "tools" ∷ codes ".github" ∷ codes ".git" ∷ []

-- `sorted(set(EXPLICIT_CATALOG) | set(OPEN_CATALOG))`
unfoldable pub all_expected_categories : List Text
unfolding explicit_catalog keys to_set sorted text_le list_eq nat_eq
all_expected_categories = sorted text_le (to_set (keys explicit_catalog ++ open_catalog))
