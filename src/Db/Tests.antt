-- ===== src/Db/Tests.antt =====
-- Tests of src/db.rs on a database that is the list of its rows.
use reorg_playground.Prelude.{
  ℕ, ◌≡◌, ◌≤◌, ◌⊎◌, ◌↔◌, refl, List, [], ◌∷◌, some, ok, arith, IsSortedBy, All, Any, count, Bool,
}
use reorg_playground.External.Bitcoin.{Header}
use reorg_playground.External.ListGraph.{ListGraph, list_graph}
use reorg_playground.External.SampleHashes.{sample_hashes}
use reorg_playground.External.RowList.{row_list, unary_encoding}
use reorg_playground.External.Sqlite.{Row}
use reorg_playground.Types.{HeaderInfo, TreeInfo}
use reorg_playground.HeaderTree.{insert_headers}
use reorg_playground.HeaderTree.Insert.{IsWellFormed}
use reorg_playground.HeaderTree.Samples.{b100, b101, fork101}
use reorg_playground.Db.{row_of, write_to_db, insert_infos, load_header_infos, build_tree}
use reorg_playground.Db.Stored.{IsRowOf}
use reorg_playground.Db.Loaded.{IsStored, write_to_db-load_header_infos}
use reorg_playground.Db.Tree.{empty_info, build_tree-insert_headers}

abbrev blocks : List HeaderInfo
blocks = b101 ∷ b100 ∷ []

abbrev held : List Row
held = row_of 3 b101 ∷ row_of 3 b100 ∷ []

wrote : write_to_db blocks [] 3 ≡ (ok tt, held)
unfolding write_to_db insert_infos
wrote = refl

write_to_db-load_header_infos_example :
    (loaded : List HeaderInfo) × (load_header_infos held 3 101 ≡ ok loaded)
    × IsSortedBy (λ h. h.height) loaded
    × All (λ h. h.height ≡ h.header.time) loaded
    × ((header : Header)
        → Any (λ h. h.header ≡ header) loaded ↔ (
            (101 ≤ header.time)
            × (Any (λ info. info.header ≡ header) blocks ⊎ Any (IsRowOf 3 header) [])))
    × All (IsStored 3 blocks []) loaded
write_to_db-load_header_infos_example =
    write_to_db-load_header_infos 3 101 (λ header. header.time) blocks [] held (row_of 3 b101 ∷ [])
      (refl, (refl, tt)) tt wrote refl

abbrev chain : List HeaderInfo
chain = b101 ∷ b100 ∷ fork101 ∷ []

abbrev no_tree : TreeInfo (ListGraph HeaderInfo)
no_tree = empty_info (ListGraph HeaderInfo)

build_tree-insert_headers_example :
    (t t' : TreeInfo (ListGraph HeaderInfo)) × (changed : Bool) × (build_tree chain ≡ some t)
    × (insert_headers no_tree chain ≡ some (t', changed))
    × IsWellFormed t
    × (list_graph.raw_nodes t.graph ≡ chain)
    × (list_graph.raw_nodes t'.graph ≡ chain)
    × (t.index ≡ t'.index)
    × ((p c : ℕ)
        → count p (list_graph.incoming t.graph c) ≡ count p (list_graph.incoming t'.graph c))
build_tree-insert_headers_example = build_tree-insert_headers (ListGraph HeaderInfo) chain (
  (λ e. absurd (omega arith), (λ e. absurd (omega arith), tt)),
  ((λ e. absurd (omega arith), tt), (tt, tt)),
)
