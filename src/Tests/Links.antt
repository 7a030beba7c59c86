-- ===== src/Tests/Links.antt =====
-- The theorems about links, the repository map and the root at small inputs.
use postgres_dbre.Prelude.{
  ◌≡◌, ◌↔◌, ◌⊎◌, refl, inr, ◌||◌, Bool, false, [], ◌∷◌, ◌++◌, All, ◌==◌, nat_eq, list_eq,
}
use postgres_dbre.Text.{Text, codes, is_space}
use postgres_dbre.Os.{FilePath, Fs, file, ok, err, index_error}
use postgres_dbre.Render.{related_link}
use postgres_dbre.Checks.Links.{find_links, markdown_files, check_markdown_links}
use postgres_dbre.Checks.Links.Rendered.{find_links-related_link}
use postgres_dbre.Checks.Links.Silent.{IsLinked, check_markdown_links_none_iff}
use postgres_dbre.Checks.RepositoryMap.{map_lines, check_repository_map}
use postgres_dbre.Checks.RepositoryMap.Accurate.{IsMapped, check_repository_map_none_iff}
use postgres_dbre.Checks.RepositoryMap.Blank.{blank_branch_raises}
use postgres_dbre.Validate.Root.{IsNearest, IsUnmarked, find_repo_root, find_repo_root-IsNearest}

find_links-related_link_example :
    find_links (related_link (codes "../idle-connections/README.md") ++ codes " and [x](y.md)")
    ≡ codes "../idle-connections/README.md" ∷ find_links (codes " and [x](y.md)")
unfolding is_space
find_links-related_link_example =
    find_links-related_link b'.' (codes "./idle-connections/README.md") (codes " and [x](y.md)")
      refl refl

abbrev pages : Fs
pages =
    (codes "a.md" ∷ [], file (codes "[b](b.md#top) [c](c.md)"))
    ∷ (codes "b.md" ∷ [], file (codes "[out](../../elsewhere.md)"))
    ∷ []

check_markdown_links_none_iff_example :
    (check_markdown_links (codes "repo" ∷ []) pages ≡ ok [])
    ↔ All (IsLinked (codes "repo" ∷ []) pages) (markdown_files (codes "repo" ∷ []) pages)
check_markdown_links_none_iff_example = check_markdown_links_none_iff (codes "repo" ∷ []) pages

abbrev nothing_outside : Text → Bool
nothing_outside path = false

check_repository_map_none_iff_example :
    (check_repository_map nothing_outside pages ≡ ok []) ↔ IsMapped nothing_outside pages
check_repository_map_none_iff_example = check_repository_map_none_iff nothing_outside pages

blank_branch_raises_example :
    map_lines nothing_outside pages
      (codes "|" ∷ (0x2514 ∷ 0x2500 ∷ 0x2500 ∷ b' ' ∷ codes "  ") ∷ codes "docs/" ∷ [])
    ≡ err index_error
unfolding is_space
blank_branch_raises_example =
    blank_branch_raises nothing_outside pages (codes "|" ∷ []) 0x2514 (codes "  ")
      (codes "docs/" ∷ []) (inr refl) refl

-- `.git` stands in `/r` and in `/`.
abbrev has_git : FilePath → Bool
has_git dir = dir == codes "r" ∷ [] || dir == []

find_repo_root-IsNearest_example :
    IsNearest has_git
      (codes "tools" ∷ codes "r" ∷ [])
      (find_repo_root has_git (codes "tools" ∷ codes "r" ∷ []))
    ⊎ (IsUnmarked has_git (codes "tools" ∷ codes "r" ∷ [])
        × (find_repo_root has_git (codes "tools" ∷ codes "r" ∷ [])
            ≡ codes "tools" ∷ codes "r" ∷ []))
find_repo_root-IsNearest_example = find_repo_root-IsNearest has_git (codes "tools" ∷ codes "r" ∷ [])
