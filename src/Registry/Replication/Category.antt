-- ===== src/Registry/Replication/Category.antt =====
-- tools/repo_builder/wf_replication.py: the category of the workflows.
use postgres_dbre.Text.{Text, codes}

abbrev pub category_slug : Text
category_slug = codes "replication-and-ha"

abbrev pub category_title : Text
category_title = codes "Replication and High Availability"
