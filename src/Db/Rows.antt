-- ===== src/Db/Rows.antt =====
-- What holds of each row of the database, whether a transaction of src/db.rs succeeds or fails.
use Prim.Native.String.{String}
use text.Mathlib.Text.{◌==◌ as str_eq}
use reorg_playground.Prelude.{
  ℕ, ◌≤◌, ◌≡◌, refl, inl, inr, Bool-cases, List, [], ◌∷◌, All, All-concat, any_by, Result, ok, err,
  ok_eq, bind-ok, ◌>>=◌, subst,
}
use reorg_playground.External.Bitcoin.{Header, BlockHash, Bitcoin}
use reorg_playground.External.Sqlite.{Row, Sqlite, Encoding, same_key, insert_row, set_miner}
use reorg_playground.Types.{HeaderInfo}
use reorg_playground.Db.{
  DbError, row_of, insert_infos, finish_transaction, write_to_db, update_miner, read_rows,
  load_header_infos,
}
use reorg_playground.Db.Reading.{All-same, filtered_lem}

module _ (P : Row → Type 0) where
  insert_row-All : (row : Row) (rows : List Row) → P row → All P rows → All P (insert_row row rows)
  insert_row-All row rows h all = elim (Bool-cases (any_by (same_key row) rows)) [
    | inl known ↦ rw known all
    | inr fresh ↦ rw fresh (All-concat P rows row all h)
  ]

  set_miner-All :
      (miner hash : String) (rows : List Row)
      → ((row : Row) → P row → P (record row { miner = miner }))
      → All P rows
      → All P (set_miner miner hash rows)
  set_miner-All miner hash [] keeps all = tt
  set_miner-All miner hash (row ∷ rows) keeps (h, all) = elim (Bool-cases (str_eq row.hash hash)) [
    | inl same ↦ rw same (keeps row h, set_miner-All miner hash rows keeps all)
    | inr other ↦ rw other (h, set_miner-All miner hash rows keeps all)
  ]

  module _ ⦃encoding : Encoding DbError⦄ where
    -- A header that is read stands in a row of the network at its height.
    abbrev pub Reads : ℕ → ℕ → (HeaderInfo → Type 0) → Type 0
    Reads network first Q =
        (row : Row) (header : Header)
        → P row
        → row.network ≡ network
        → first ≤ row.height
        → encoding.decode row.header ≡ ok header
        → Q (record { height = row.height; header = header; miner = row.miner })

    read_rows-All :
        (network first : ℕ) (Q : HeaderInfo → Type 0) (selected : List Row)
        (loaded : List HeaderInfo)
        → Reads network first Q
        → All (λ row. P row × ((row.network ≡ network) × (first ≤ row.height))) selected
        → read_rows selected ≡ ok loaded
        → All Q loaded
    unfolding read_rows
    read_rows-All network first Q [] loaded reads all e = subst (All Q) (ok_eq e) tt
    read_rows-All network first Q (row ∷ selected) loaded reads ((h, (here, high)), all) e =
        let (header, decoded, rest) = bind-ok (encoding.decode row.header) _ loaded e in
        let (others, read, done) = bind-ok (read_rows selected) _ loaded rest in
        subst (All Q) (ok_eq done) (
          reads row header h here high decoded,
          read_rows-All network first Q selected others reads all read,
        )

  module _ {D : Type 0} ⦃bitcoin : Bitcoin⦄ ⦃encoding : Encoding DbError⦄
      ⦃sqlite : Sqlite DbError D⦄ where
    open sqlite use {rows, transaction, insert_or_ignore, update_headers, commit, select_headers}

    finish_transaction-All :
        (db : D) (r : Result DbError D)
        → All P (rows db)
        → ((db' : D) → r ≡ ok db' → All P (rows db'))
        → All P (rows (finish_transaction db r).1)
    finish_transaction-All db (ok db') before after = after db' refl
    finish_transaction-All db (err e) before after = before

    insert_infos-All :
        (network : ℕ) (infos : List HeaderInfo) (tx tx' : D)
        → All (λ info. P (row_of network info)) infos
        → All P (rows tx)
        → insert_infos network infos tx ≡ ok tx'
        → All P (rows tx')
    unfolding insert_infos
    insert_infos-All network [] tx tx' at all e = subst (λ d. All P (rows d)) (ok_eq e) all
    insert_infos-All network (info ∷ infos) tx tx' (h, at) all e =
        let (next, inserted, later) =
          bind-ok (insert_or_ignore (row_of network info) tx) (insert_infos network infos) tx' e in
        let grown = sqlite.rows-insert_or_ignore (row_of network info) tx next inserted in
        insert_infos-All network infos next tx' at
          (rw grown (insert_row-All (row_of network info) (rows tx) h all)) later

    pub write_to_db-All :
        (infos : List HeaderInfo) (db : D) (network : ℕ)
        → All (λ info. P (row_of network info)) infos
        → All P (rows db)
        → All P (rows (write_to_db infos db network).1)
    unfolding write_to_db
    write_to_db-All infos db network at all =
        let write : D → Result DbError D = λ tx. insert_infos network infos tx >>= commit in
        finish_transaction-All db (transaction db >>= write) all λ db' e.
          let (tx, began, rest) = bind-ok (transaction db) write db' e in
          let (tx', inserted, committed) =
            bind-ok (insert_infos network infos tx) commit db' rest in
          rw (sqlite.rows-commit tx' db' committed) (
            insert_infos-All network infos tx tx' at (rw (sqlite.rows-transaction db tx began) all)
              inserted)

    pub update_miner-All :
        (db : D) (hash : BlockHash) (miner : String)
        → ((row : Row) → P row → P (record row { miner = miner }))
        → All P (rows db)
        → All P (rows (update_miner db hash miner).1)
    unfolding update_miner
    update_miner-All db hash miner keeps all =
        let text = bitcoin.to_string hash in
        let write : D → Result DbError D = λ tx. update_headers miner text tx >>= commit in
        finish_transaction-All db (transaction db >>= write) all λ db' e.
          let (tx, began, rest) = bind-ok (transaction db) write db' e in
          let (tx', updated, committed) = bind-ok (update_headers miner text tx) commit db' rest in
          rw
            (
              sqlite.rows-commit tx' db' committed,
              sqlite.rows-update_headers miner text tx tx' updated,
            )
            (set_miner-All miner text (rows tx) keeps
              (rw (sqlite.rows-transaction db tx began) all))

    pub load_header_infos-All :
        (db : D) (network first : ℕ) (Q : HeaderInfo → Type 0) (loaded : List HeaderInfo)
        → Reads network first Q
        → All P (rows db)
        → load_header_infos db network first ≡ ok loaded
        → All Q loaded
    unfolding load_header_infos
    load_header_infos-All db network first Q loaded reads all e =
        let (selected, answered, read) =
          bind-ok (select_headers network first db) read_rows loaded e in
        let same = sqlite.select_headers-rows network first db selected answered in
        read_rows-All network first Q selected loaded reads
          (All-same network _ selected _ (λ row. (same row).0)
            (filtered_lem network first P (rows db) all))
          read
