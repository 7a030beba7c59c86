-- ===== src/Registry/TablesIndexes/Category.antt =====
-- tools/repo_builder/wf_tables_indexes.py: the category of the workflows.
use postgres_dbre.Text.{Text, codes}

abbrev pub category_slug : Text
category_slug = codes "tables-and-indexes"

abbrev pub category_title : Text
category_title = codes "Table and Index Health"
