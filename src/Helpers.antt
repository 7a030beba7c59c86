-- ===== src/Helpers.antt =====
-- tools/repo_builder/helpers.py: the shared header texts, and the constructors `sql_script` and
-- `md_script` with their default arguments.
use postgres_dbre.Prelude.{Bool, true, Option, none}
use postgres_dbre.Text.{Text, codes}
use postgres_dbre.Model.{Script}

abbrev pub read_only : Text
read_only = codes "READ ONLY"

abbrev pub read_only_heavy : Text
read_only_heavy =
    codes "READ ONLY (may be resource intensive on very large tables -- see EXPECTED IMPACT)"

abbrev pub guarded_ddl : Text
guarded_ddl =
    codes
      "GUARDED -- MANUAL EXECUTION ONLY (see safety warnings in this file before running any statement)"

abbrev pub guarded_dml : Text
guarded_dml =
    codes "GUARDED -- MANUAL EXECUTION ONLY, WRITE OPERATION (see safety warnings before running)"

abbrev pub pg_monitor : Text
pg_monitor =
    codes
      "Role membership in `pg_monitor` (or `pg_read_all_stats`) is sufficient. No superuser required."

abbrev pub pg_monitor_plus_pgss : Text
pg_monitor_plus_pgss =
    codes
      "Role membership in `pg_monitor`, plus SELECT on `pg_stat_statements` (granted automatically to `pg_read_all_stats` once the extension is created; otherwise `GRANT SELECT ON pg_stat_statements TO <role>;`)."

abbrev pub connect_only : Text
connect_only = codes "CONNECT on the target database. No elevated privileges required."

abbrev pub table_owner_or_ddl : Text
table_owner_or_ddl =
    codes
      "Table owner, or a role granted the `MAINTAIN` privilege on the table (PostgreSQL 16+), or a role with `pg_maintain` membership. DDL variants additionally require the privileges needed for the specific DDL statement (e.g. ownership to ALTER TABLE)."

abbrev pub aurora_17 : Text
aurora_17 =
    codes
      "Aurora PostgreSQL 17+ (compatible with community PostgreSQL 17+ unless a note says otherwise)"

abbrev pub any_instance : Text
any_instance = codes "Any instance (writer or reader)"

abbrev pub writer_only : Text
writer_only =
    codes
      "Writer instance only (the query reads/writes state that only exists or is meaningful on the writer)"

abbrev pub writer_preferred : Text
writer_preferred =
    codes
      "Writer instance preferred; safe to run on a reader but results reflect only that reader's local activity"

-- The arguments of `sql_script` that have defaults.
pub record SqlOptions : Type 0 where
  pub safety : Text
  pub expected_impact : Text
  pub required_privileges : Text
  pub prerequisites : Text
  pub related_scripts : Text
  pub execution_location : Text
  pub expected_runtime : Text
  pub table_purpose : Option Text
  pub generator_managed : Bool

abbrev pub sql_script_defaults : SqlOptions
sql_script_defaults = record {
  safety = read_only;
  expected_impact =
      codes
        "Minimal -- reads system catalogs/statistics views only, no table locks beyond a brief catalog lookup.";
  required_privileges = pg_monitor;
  prerequisites = codes "None beyond CONNECT on the target database.";
  related_scripts = codes "";
  execution_location = any_instance;
  expected_runtime = codes "Low (sub-second to a few seconds)";
  table_purpose = none;
  generator_managed = true;
}

unfoldable pub sql_script : Text → Text → Text → Text → Text → SqlOptions → Script
sql_script order name purpose body interpretation options = record {
  order = order;
  name = name;
  purpose = purpose;
  safety = options.safety;
  expected_impact = options.expected_impact;
  required_privileges = options.required_privileges;
  prerequisites = options.prerequisites;
  related_scripts = options.related_scripts;
  interpretation = interpretation;
  body = body;
  kind = codes "sql";
  execution_location = options.execution_location;
  aurora_version = aurora_17;
  expected_runtime = options.expected_runtime;
  table_purpose = options.table_purpose;
  generator_managed = options.generator_managed;
}

-- The arguments of `md_script` that have defaults.
pub record MdOptions : Type 0 where
  pub safety : Text
  pub expected_impact : Text
  pub required_privileges : Text
  pub prerequisites : Text
  pub related_scripts : Text
  pub execution_location : Text
  pub expected_runtime : Text
  pub table_purpose : Option Text

abbrev pub md_script_defaults : MdOptions
md_script_defaults = record {
  safety = guarded_ddl;
  expected_impact = codes "Varies by step -- read each step's own warning before executing it.";
  required_privileges = table_owner_or_ddl;
  prerequisites =
      codes
        "Full read-only investigation for this workflow completed; maintenance window and second engineer approval obtained.";
  related_scripts = codes "";
  execution_location = writer_only;
  expected_runtime = codes "Variable -- depends on table size and chosen batch size; see runbook.";
  table_purpose = none;
}

unfoldable pub md_script : Text → Text → Text → Text → Text → MdOptions → Script
md_script order name purpose body interpretation options = record {
  order = order;
  name = name;
  purpose = purpose;
  safety = options.safety;
  expected_impact = options.expected_impact;
  required_privileges = options.required_privileges;
  prerequisites = options.prerequisites;
  related_scripts = options.related_scripts;
  interpretation = interpretation;
  body = body;
  kind = codes "md";
  execution_location = options.execution_location;
  aurora_version = aurora_17;
  expected_runtime = options.expected_runtime;
  table_purpose = options.table_purpose;
  generator_managed = true;
}
