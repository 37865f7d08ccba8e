-- ===== src/Db/Stored.antt =====
-- What the database holds after `write_to_db` (src/db.rs).
use text.Mathlib.TextEquality.{eq_iff}
use reorg_playground.Prelude.{
  ℕ, ◌≡◌, ◌↔◌, ◌⊎◌, refl, sym, ap, ◌∙◌, inl, inr, true, List, [], ◌∷◌, arith, All, Any, any_by-Any,
  Any-imp, Any-append, All-concat, any_by, Bool-cases, Result, ok, ok_eq, bind-ok, Result-cases,
}
use reorg_playground.External.Bitcoin.{Header, Bitcoin}
use reorg_playground.External.Sqlite.{Row, Sqlite, Encoding, same_key, insert_row}
use reorg_playground.Types.{HeaderInfo}
use reorg_playground.Db.{DbError, row_of, insert_infos, write_to_db}

module _ ⦃encoding : Encoding DbError⦄ (network : ℕ) where
  -- A row of the network with this header
  abbrev pub IsRowOf : Header → Row → Type 0
  IsRowOf header row = (row.network ≡ network) × (encoding.decode row.header ≡ ok header)

  -- The rows of the network hold headers, at their heights.
  abbrev pub HoldsHeaders : (Header → ℕ) → List Row → Type 0
  HoldsHeaders height_of = All (λ row.
      row.network ≡ network
      → (header : Header) × (encoding.decode row.header ≡ ok header)
        × (row.height ≡ height_of header))

module _ ⦃bitcoin : Bitcoin⦄ ⦃encoding : Encoding DbError⦄ (network : ℕ) where
  same_key-IsRowOf :
      (info : HeaderInfo) (row : Row)
      → same_key (row_of network info) row ≡ true
      → IsRowOf network info.header row
  same_key-IsRowOf info row e =
      let texts = eq_iff (encoding.serialize_hex info.header) row.header in
      let net : network ≡ row.network = ground arith in
      let same : encoding.serialize_hex info.header ≡ row.header = texts.0 (ground arith) in
      (sym net, rw (← same) (encoding.decode-serialize_hex info.header))

  insert_row-IsRowOf :
      (info : HeaderInfo) (header : Header) (rows : List Row)
      → Any (IsRowOf network header) (insert_row (row_of network info) rows)
        ↔ ((info.header ≡ header) ⊎ Any (IsRowOf network header) rows)
  insert_row-IsRowOf info header rows =
      elim (Bool-cases (any_by (same_key (row_of network info)) rows)) [
        | inl known ↦ rw known (
          λ old. inr old,
          λ a. elim a [
            | inr old ↦ old
            | inl same ↦
                Any-imp _ _ rows
                  (λ row key.
                    let (net, text) = same_key-IsRowOf info row key in (net, rw same at text))
                  (any_by-Any _ rows known)
          ],
        )
        | inr fresh ↦
            let (from, to) = Any-append (IsRowOf network header) rows (row_of network info) in
            rw fresh (
              λ a. elim (from a) [
                | inl (_, text) ↦
                    inl (ok_eq (sym (encoding.decode-serialize_hex info.header) ∙ text))
                | inr old ↦ inr old
              ],
              λ a. elim a [
                | inl same ↦ to (inl (refl, encoding.decode-serialize_hex info.header ∙ ap ok same))
                | inr old ↦ to (inr old)
              ],
            )
      ]

  insert_row-HoldsHeaders :
      (height_of : Header → ℕ) (info : HeaderInfo) (rows : List Row)
      → info.height ≡ height_of info.header
      → HoldsHeaders network height_of rows
      → HoldsHeaders network height_of (insert_row (row_of network info) rows)
  insert_row-HoldsHeaders height_of info rows at holds =
      elim (Bool-cases (any_by (same_key (row_of network info)) rows)) [
        | inl known ↦ rw known holds
        | inr fresh ↦ rw fresh (
            All-concat _ rows (row_of network info) holds
              (λ _. (info.header, encoding.decode-serialize_hex info.header, at)))
      ]

  -- The rows after a transaction that inserts the headers
  abbrev pub Inserted : (Header → ℕ) → List HeaderInfo → List Row → List Row → Type 0
  Inserted height_of infos before after =
      HoldsHeaders network height_of after
      × ((header : Header)
          → Any (IsRowOf network header) after
            ↔ (Any (λ info. info.header ≡ header) infos ⊎ Any (IsRowOf network header) before))

  module _ {D : Type 0} ⦃sqlite : Sqlite DbError D⦄ (height_of : Header → ℕ) where
    open sqlite use {rows, transaction, commit, insert_or_ignore, select_headers}

    insert_infos_lem :
        (infos : List HeaderInfo) (tx tx' : D)
        → All (λ info. info.height ≡ height_of info.header) infos
        → HoldsHeaders network height_of (rows tx)
        → insert_infos network infos tx ≡ ok tx'
        → Inserted height_of infos (rows tx) (rows tx')
    unfolding insert_infos
    insert_infos_lem [] tx tx' at holds e =
        let same : rows tx' ≡ rows tx = ap rows (ok_eq (sym e)) in
        rw same (
          holds,
          λ header. (λ old. inr old, λ a. elim a [ inl none ↦ absurd none | inr old ↦ old ]),
        )
    insert_infos_lem (info ∷ infos) tx tx' (at, rest) holds e =
        let (next, inserted, later) =
          bind-ok (insert_or_ignore (row_of network info) tx) (insert_infos network infos) tx' e in
        let grown = sqlite.rows-insert_or_ignore (row_of network info) tx next inserted in
        let (holds', iff) =
          insert_infos_lem infos next tx' rest
            (rw grown (insert_row-HoldsHeaders height_of info (rows tx) at holds)) later in
        (
          holds',
          λ header.
              let (from, to) = iff header in
              let (from_row, to_row) = insert_row-IsRowOf info header (rows tx) in
              (
                λ a. elim (from a) [
                  | inl new ↦ inl (inr new)
                  | inr held ↦ elim (from_row (rw grown at held)) [
                    | inl here ↦ inl (inl here)
                    | inr old ↦ inr old
                  ]
                ],
                λ a. elim a [
                  | inl new ↦ elim new [
                    | inl here ↦ to (inr (rw grown (to_row (inl here))))
                    | inr more ↦ to (inl more)
                  ]
                  | inr old ↦ to (inr (rw grown (to_row (inr old))))
                ],
              ),
        )

    pub write_to_db_lem :
        (infos : List HeaderInfo) (db db' : D)
        → All (λ info. info.height ≡ height_of info.header) infos
        → HoldsHeaders network height_of (rows db)
        → write_to_db infos db network ≡ (ok tt, db')
        → Inserted height_of infos (rows db) (rows db')
    unfolding write_to_db
    write_to_db_lem infos db db' at holds e = elim (Result-cases (transaction db)) [
      | inl (x, failed) ↦ absurd (cc (rw (failed, write_to_db) at e))
      | inr (tx, began) ↦ elim (Result-cases (insert_infos network infos tx)) [
        | inl (x, failed) ↦ absurd (cc (rw (began, failed, write_to_db) at e))
        | inr (tx', inserted) ↦ elim (Result-cases (commit tx')) [
          | inl (x, failed) ↦ absurd (cc (rw (began, inserted, failed, write_to_db) at e))
          | inr (done, committed) ↦
              let same : done ≡ db' =
                ap (λ (r : Result DbError Unit × D). r.1)
                  (rw (began, inserted, committed, write_to_db) at e) in
              let start = sqlite.rows-transaction db tx began in
              let end = sqlite.rows-commit tx' done committed in
              rw (← same, end, ← start) (insert_infos_lem infos tx tx' at (rw start holds) inserted)
        ]
      ]
    ]
