-- ===== src/Db/Loaded.antt =====
-- `load_header_infos` reads what `write_to_db` has written (src/db.rs).
use reorg_playground.Prelude.{
  ℕ, ◌≤◌, ◌≡◌, ◌↔◌, ◌⊎◌, refl, sym, ap, ◌∙◌, inl, inr, List, All, Any, Any-same, All-map, All-elems,
  Any-get_elem?, Any-imp, IsSortedBy, ok, ok_eq, subst,
}
use reorg_playground.External.Bitcoin.{Header, Bitcoin}
use reorg_playground.External.Sqlite.{Row, Sqlite, Encoding}
use reorg_playground.Types.{HeaderInfo}
use reorg_playground.Db.Stored.{IsRowOf, HoldsHeaders, write_to_db_lem}
use reorg_playground.Db.Reading.{All-same, filtered_lem, filtered_Any, held_lem, read_rows_lem}
use reorg_playground.Db.Rows.{Reads, write_to_db-All, load_header_infos-All}
use reorg_playground.Db.{DbError, row_of, write_to_db, load_header_infos}

module _ ⦃bitcoin : Bitcoin⦄ ⦃encoding : Encoding DbError⦄ (network : ℕ) (infos : List HeaderInfo)
    (before : List Row) where
  -- A row of the database after the headers are written
  abbrev IsFrom : Row → Type 0
  IsFrom row = Any (λ r. r ≡ row) before ⊎ Any (λ info. row_of network info ≡ row) infos

  -- A header that was written, or that a row from before holds, with its height and miner
  abbrev pub IsStored : HeaderInfo → Type 0
  IsStored h =
      Any (λ info. info ≡ h) infos
      ⊎ Any
          (λ row. IsRowOf network h.header row × ((row.height ≡ h.height) × (row.miner ≡ h.miner)))
          before

  written-IsFrom : All (λ info. IsFrom (row_of network info)) infos
  written-IsFrom = All-elems _ infos (λ i info at.
      inr (Any-get_elem? (λ x. row_of network x ≡ row_of network info) infos i info at refl))

  before-IsFrom : (rows : List Row) → rows ≡ before → All IsFrom rows
  before-IsFrom rows same =
      All-elems IsFrom rows
        (λ i row at. inl (Any-get_elem? (λ r. r ≡ row) before i row (rw same at at) refl))

  read-IsStored : (first : ℕ) → Reads IsFrom network first IsStored
  read-IsStored first row header (inl old) net low text =
      inr (Any-imp _ _ before (λ r same. rw same ((net, text), (refl, refl))) old)
  read-IsStored first row header (inr new) net low text = inl (
      Any-imp _ _ infos
        (λ info same.
          let written : encoding.decode row.header ≡ ok info.header =
            rw (← same) (encoding.decode-serialize_hex info.header) in
          let header_eq : info.header ≡ header = ok_eq (sym written ∙ text) in
          let h_eq : info.height ≡ row.height = ap (λ r. r.height) same in
          let m_eq : info.miner ≡ row.miner = ap (λ r. r.miner) same in
          rw (← header_eq, ← h_eq, ← m_eq) refl)
        new)

module _ {D : Type 0} ⦃bitcoin : Bitcoin⦄ ⦃encoding : Encoding DbError⦄
    ⦃sqlite : Sqlite DbError D⦄ where
  open sqlite use {rows, select_headers}

  -- Where each header has one height, the rows of the network in the database hold headers at their heights,
  -- `write_to_db` succeeds and the database answers the query, `load_header_infos` succeeds and gives the headers
  -- in the order of their heights, each at its height: exactly those at the first tracked height or above that
  -- were written or were in the database before. Each header that is loaded is one of those that were written, with
  -- its height and miner, or has the height and the miner of a row that holds it and was in the database before.
  pub write_to_db-load_header_infos :
      (network first : ℕ) (height_of : Header → ℕ) (infos : List HeaderInfo) (db db' : D)
      (selected : List Row)
      → All (λ info. info.height ≡ height_of info.header) infos
      → HoldsHeaders network height_of (rows db)
      → write_to_db infos db network ≡ (ok tt, db')
      → select_headers network first db' ≡ ok selected
      → (loaded : List HeaderInfo) × (load_header_infos db' network first ≡ ok loaded)
        × IsSortedBy (λ h. h.height) loaded
        × All (λ h. h.height ≡ height_of h.header) loaded
        × ((header : Header)
            → Any (λ h. h.header ≡ header) loaded ↔ (
                (first ≤ height_of header)
                × (Any (λ info. info.header ≡ header) infos
                    ⊎ Any (IsRowOf network header) (rows db))))
        × All (IsStored network infos (rows db)) loaded
  unfolding load_header_infos
  write_to_db-load_header_infos network first height_of infos db db' selected at holds wrote
        answered =
      let (holds', iff) = write_to_db_lem network height_of infos db db' at holds wrote in
      let same = sqlite.select_headers-rows network first db' selected answered in
      let sorted = sqlite.select_headers-sorted network first db' selected answered in
      let all = filtered_lem network first _ (rows db') holds' in
      let kept = All-same network _ selected _ (λ row. (same row).0) all in
      let (loaded, done, (heights, _, in_order, read)) =
        read_rows_lem network height_of selected (All-map _ _ selected (λ row k. k.0) kept)
          (All-map _ _ selected (λ row k. k.1.0) kept) in
      let kept_from =
        subst (λ d. All (IsFrom network infos (rows db)) (rows d)) (ap (λ x. x.1) wrote)
          (write_to_db-All (IsFrom network infos (rows db)) infos db network
            (written-IsFrom network infos (rows db))
            (before-IsFrom network infos (rows db) (rows db) refl)) in
      (
        loaded,
        rw (answered, load_header_infos) done,
        in_order sorted,
        heights,
        λ header.
            let P : Row → Type 0 = λ row. encoding.decode row.header ≡ ok header in
            let (from_read, to_read) = read header in
            let (from_filter, to_filter) = filtered_Any network first P (rows db') in
            let (from_held, to_held) = held_lem network first height_of header (rows db') holds' in
            let (from_rows, to_rows) = iff header in
            (
              λ a.
                  let (low, held) =
                    from_held
                      (from_filter (Any-same P selected _ (λ row. (same row).0) (from_read a))) in
                  (low, from_rows held),
              λ (low, stored). to_read (
                  Any-same P _ selected (λ row. (same row).1)
                    (to_filter (to_held (low, to_rows stored)))),
            ),
        load_header_infos-All (IsFrom network infos (rows db)) db' network first
            (IsStored network infos (rows db)) loaded (read-IsStored network infos (rows db) first)
            kept_from (rw (answered, load_header_infos) done),
      )
