-- ===== src/Registry/Connections/Category.antt =====
-- tools/repo_builder/wf_connections.py: the category of the workflows.
use postgres_dbre.Text.{Text, codes}

abbrev pub category_slug : Text
category_slug = codes "connections"

abbrev pub category_title : Text
category_title = codes "Connection Management"
