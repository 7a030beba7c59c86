-- ===== src/Registry/Replication/WriterReaderImbalance.antt =====
-- tools/repo_builder/wf_replication.py: the workflow `writer-reader-imbalance`.
use postgres_dbre.Prelude.{[], ◌∷◌}
use postgres_dbre.Text.{codes}
use postgres_dbre.Model.{Workflow}
use postgres_dbre.Helpers.{sql_script, sql_script_defaults, writer_only}
use postgres_dbre.SqlBlocks.Sessions.{connections_by_application_and_user}
use postgres_dbre.Registry.Replication.Category.{category_slug, category_title}

unfoldable pub writer_reader_imbalance_workflow : Workflow
writer_reader_imbalance_workflow = record {
  category_slug = category_slug;
  category_title = category_title;
  slug = codes "writer-reader-imbalance";
  title = codes "Writer/Reader Load Imbalance";
  summary =
      codes
        "Investigates whether read traffic is effectively distributed across the reader fleet, or whether load is concentrated on the writer (under-utilizing readers) or unevenly distributed across readers.";
  symptoms =
      codes "Writer CPU/load elevated while readers show low utilization."
      ∷ codes
          "One reader shows much higher load than its siblings despite similar instance classes."
      ∷ [];
  business_impact =
      codes
        "Failing to offload eligible read traffic to readers wastes provisioned reader capacity while unnecessarily loading the writer, which also serves all write traffic and cannot be scaled out horizontally the way readers can."
      ∷ [];
  root_causes =
      codes
        "Application not using the reader endpoint for read-only queries at all (all traffic hardcoded to the writer/cluster endpoint)."
      ∷ codes "A custom query router unevenly distributing traffic across readers."
      ∷ codes
          "A specific read-heavy feature routed to the writer for read-after-write consistency reasons, which is legitimate but should be a deliberate, documented choice, not a default."
      ∷ [];
  investigation_strategy =
      codes "Compare session/query load on the writer vs. each reader."
      ∷ codes "Confirm application read/write query routing configuration."
      ∷ codes
          "For any read traffic deliberately routed to the writer, confirm the reasoning (consistency requirement) is documented."
      ∷ [];
  prerequisites = codes "Direct connection access to writer and each reader for comparison." ∷ [];
  interpretation_guide =
      codes
        "Some read traffic legitimately belongs on the writer (strict read-after-write requirements); the goal is intentional, documented routing, not zero writer reads."
      ∷ [];
  remediation_immediate = codes "N/A." ∷ [];
  remediation_short_term =
      codes
        "Update application data-access layer to route eligible read-only queries to the reader endpoint."
      ∷ [];
  remediation_long_term =
      codes
        "Establish a documented read/write routing policy per feature, balancing consistency requirements against writer load reduction."
      ∷ [];
  production_safety = codes "Read-only investigation." ∷ [];
  escalation_criteria =
      codes
        "A large fraction of read-eligible traffic is found on the writer with no consistency justification -- escalate to the owning application team for a routing fix."
      ∷ [];
  related_issues =
      codes "../reader-performance/README.md"
      ∷ codes "../../performance/high-database-load/README.md"
      ∷ [];
  scripts =
      sql_script (codes "01") (codes "01_writer_query_type_breakdown")
        (codes
          "Breaks down query activity on the writer by application to identify read-heavy traffic that could potentially be offloaded to readers.")
        connections_by_application_and_user
        (codes
          "Run this on the writer specifically; applications showing high active_count here that are known to be read-only candidates are your offloading opportunities -- confirm with the owning team whether their consistency requirements actually need the writer.")
        (record sql_script_defaults {
          execution_location = writer_only;
          related_scripts = codes "../reader-performance/README.md";
        })
      ∷ [];
  aurora_notes = [];
  execution_guidance = codes "";
  expected_output_guidance = codes "";
  severe_incident_guidance = codes "";
}
