-- ===== src/Lib.antt =====
-- The tools of the repository: the generator of workflow directories and the validator.
--
-- `tools/build_repository.py` renders a registry of workflows (`tools/repo_builder/wf_*.py`, over
-- the SQL bodies of `sql_blocks.py`) to READMEs, SQL files and runbooks, writes them below the
-- repository's root, and keeps a manifest of the files that it owns, by which it removes those
-- that it generates no more. `tools/validation/validate_repo.py` reads the tree again and reports
-- what breaks the repository's rules.
--
-- Which file is about which code (a file's children hold its proofs or its parts):
--   Prelude            shared notation, lists, dicts and sorting (Basics, Equality, Dict, Sorting)
--   Text               the methods of `str` that the tools call, over code points
--   Os                 the file tree, and actions that read and change it and may raise; Steps and
--                      Runs are the machine whose runs such actions are, Returns is about
--                      writing where nothing is in the way
--   Model              tools/repo_builder/model.py: `Script`, `Workflow`
--   Helpers            tools/repo_builder/helpers.py: header texts, `sql_script`, `md_script`
--   SqlBlocks          tools/repo_builder/sql_blocks.py, a child for each section; ReadOnly is the
--                      theorem about them
--   Render             tools/repo_builder/render.py: Readme, Category and Scripts are the READMEs
--   Registry           tools/repo_builder/wf_connections.py, wf_replication.py and
--                      wf_tables_indexes.py, a child for each and in it one for each workflow;
--                      Accepted, Checked and Built are about what the checks say of them
--   Writer             tools/repo_builder/writer.py: Json and Manifest are `_load_manifest`,
--                      Workflows is `write_workflows`, Sync is `sync_managed_artifacts`
--   Build              tools/build_repository.py: `main`
--   Header             tools/validation/sql_header.py: `parse_sql_header`; Strip is the removal of
--                      comments and literals
--   Regex              the patterns of tools/validation/checks.py, and a matcher for them; Matching
--                      and Found relate it to what a pattern stands for
--   Catalog            tools/validation/catalog.py
--   Checks             tools/validation/checks.py: Workflows is `check_workflow_readmes`, Sql is
--                      `check_sql_headers`, `check_no_placeholders` and
--                      `check_no_destructive_statements`, Filenames is
--                      `check_sequential_filenames`, Completeness is
--                      `check_catalog_completeness`, Links is `check_markdown_links`,
--                      RepositoryMap is `check_repository_map`
--   Validate           tools/validation/validate_repo.py: `main`; Root is `find_repo_root`,
--                      AllChecks the list of checks (of checks.py); the other children are about
--                      exit codes and what a passed run shows
--   Tests              the theorems at concrete inputs
--
-- State and operations. A text is a list of code points. A path is the list of its names below
-- the repository's root, the last name first. The tree is an association list from paths to files,
-- files that are no UTF-8, directories and symbolic links. A link leads to a place outside the tree
-- where nothing exists; it records whether a file can be made there, or opening it for writing raises. An
-- action takes a tree and gives a result or an exception with the tree that is left; what was done
-- before an exception stays done, as in the code. The writer's functions are such actions, composed
-- as the code composes them; the checks read a tree. `hashlib.sha256`, `json.loads` and `json.dumps`
-- are the record `Host`, an argument of the writer; nothing is assumed of them. The modules of the
-- registry are an argument of `Build.main`, the parsed command line and the list of checks are ones
-- of `Validate.main`, and the absolute path of the root is one of the checks that look at its parts.
-- `outside` answers whether an entry of the repository map that leads out of the tree exists.
--
-- Bounds and fuel. `str_of n` has `suc n` rounds for the digits of `n`, of which each divides by 10.
-- `many r` of Regex has as many rounds as the rest of the text has characters: a round of the
-- patterns used takes at least one. `find_links_from` has as many rounds as the text has characters,
-- and each takes at least one. Every other loop is structural: over a list, over the names of a path
-- from a directory up to the root, or over the characters of a text.
--
-- Simplified: upper and lower case and the word characters and digits of patterns are the ASCII
-- ones. Slugs and file names are relative and have no `..`. Sets are iterated in sorted order.
-- A link that leads through a symbolic link leaves the tree, and links to what exists are left out. A write that fails half way, other
-- processes and permissions are left out. A floating-point number of the manifest is given by its
-- comparison with natural numbers.
--
-- Not modelled: the other `wf_*.py`, which are data of the same form; `argparse`; the tests; the
-- generated SQL and Markdown files.
pub mod Prelude
pub mod Text
pub mod Os
pub mod Model
pub mod Helpers
pub mod Render
pub mod Writer
pub mod Build
pub mod Header
pub mod Regex
pub mod Catalog
pub mod Checks
pub mod Validate
pub mod SqlBlocks
pub mod Registry
pub mod Tests
