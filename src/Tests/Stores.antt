-- ===== src/Tests/Stores.antt =====
-- Reads, settling and patches on one store.
use mcp_memory_rs.Common.{◌≡◌, refl, none, some, [], ◌∷◌, nat_eq, if◌then◌else◌}
use mcp_memory_rs.Common.Text.{strip_prefix}
use mcp_memory_rs.Error.{ok}
use mcp_memory_rs.Common.Map.{find, keys}
use mcp_memory_rs.World.{
  fails, access, access_with, query, files_with_prefix, read_found, read_to_string,
}
use mcp_memory_rs.World.Ends.{Ends}
use mcp_memory_rs.AtomicJson.{
  staged_files, deleted_files, match_read, first_matching, committed_content,
}
use mcp_memory_rs.AtomicJson.Reading.{Unread}
use mcp_memory_rs.AtomicJson.Searching.{Searched, Ends-search}
use mcp_memory_rs.AtomicJson.Settling.{Settling}
use mcp_memory_rs.Store.Read.{
  Others, get_meta, serve, read_round, read_rounds, read_consistent_among,
}
use mcp_memory_rs.Store.Readers
use mcp_memory_rs.Store.Readers.{Ends-read_consistent_among}
use mcp_memory_rs.Tests.Fixtures.{codec, base_row, one_row, disk, world}

-- Between the row and the files of the first round, another process replaces the content; between the
-- rounds, it replaces the row.
abbrev replaced : Others
replaced n =
    if nat_eq n 39
    then (
      λ d. record d { files = ("base.json", "B") ∷ [] },
      λ d. record d { db = one_row; saved = one_row; files = ("base.json", "A") ∷ [] },
    )
    else (λ d. d, λ d. d)

Ends-read_consistent_among_example :
    Ends
      (Readers.Served codec "base" replaced 40 disk)
      (Readers.Unserved codec "base" replaced 40 disk)
      (read_consistent_among codec replaced "base" (world []))
Ends-read_consistent_among_example = Ends-read_consistent_among codec "base" replaced (world [])

-- The first round finds no bytes of the row, the second one does.
second_round : (read_consistent_among codec replaced "base" (world [])).0 ≡ ok ("A", some base_row)
unfolding read_consistent_among read_rounds read_round get_meta query access access_with
    committed_content staged_files deleted_files files_with_prefix first_matching match_read
    read_to_string read_found serve find keys strip_prefix
second_round = refl

Ends-search_example :
    Ends
      (λ r x. (x ≡ disk) × Searched codec.hash "base" "A" disk r)
      (Unread disk)
      (committed_content codec.hash "base" "A" (world (fails none ∷ [])))
Ends-search_example = Ends-search codec.hash "base" "A" disk (world (fails none ∷ [])) refl
