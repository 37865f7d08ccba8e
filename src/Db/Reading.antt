-- ===== src/Db/Reading.antt =====
-- What `load_header_infos` of src/db.rs reads from the rows that the database selects.
use reorg_playground.Prelude.{
  ℕ, ◌≤◌, ◌≡◌, ◌↔◌, refl, sym, ap, ◌∙◌, inl, inr, true, List, [], ◌∷◌, arith, All, Any, filter_by,
  IsSortedBy, Bool-cases, not_both, ok, ok_eq,
}
use reorg_playground.External.Bitcoin.{Header, Bitcoin}
use reorg_playground.External.Sqlite.{Row, Encoding, is_selected}
use reorg_playground.Types.{HeaderInfo}
use reorg_playground.Db.Stored.{IsRowOf, HoldsHeaders}
use reorg_playground.Db.{DbError, read_rows}

module _ ⦃bitcoin : Bitcoin⦄ ⦃encoding : Encoding DbError⦄ (network : ℕ) where
  -- What was read from rows
  abbrev AreRead : (Header → ℕ) → List Row → List HeaderInfo → Type 0
  AreRead height_of rows loaded =
      All (λ h. h.height ≡ height_of h.header) loaded
      × ((k : ℕ) → All (λ row. k ≤ row.height) rows → All (λ h. k ≤ h.height) loaded)
      × (IsSortedBy (λ row. row.height) rows → IsSortedBy (λ h. h.height) loaded)
      × ((header : Header)
          → Any (λ h. h.header ≡ header) loaded
            ↔ Any (λ row. encoding.decode row.header ≡ ok header) rows)

  pub read_rows_lem :
      (height_of : Header → ℕ) (rows : List Row)
      → HoldsHeaders network height_of rows
      → All (λ row. row.network ≡ network) rows
      → (loaded : List HeaderInfo) × (read_rows rows ≡ ok loaded) × AreRead height_of rows loaded
  unfolding read_rows
  read_rows_lem height_of [] holds nets =
      ([], refl, (tt, λ k a. tt, λ s. tt, λ header. (λ none. none, λ none. none)))
  read_rows_lem height_of (row ∷ rows) (holds, all) (net, nets) =
      let (header, decoded, at) = holds net in
      let (loaded, done, (heights, above, sorted, iff)) = read_rows_lem height_of rows all nets in
      let info : HeaderInfo = record { height = row.height; header = header; miner = row.miner } in
      (
        info ∷ loaded,
        rw (decoded, done, read_rows) refl,
        (
          (at, heights),
          λ k (low, rest). (low, above k rest),
          λ (first, rest). (above row.height first, sorted rest),
          λ h.
              let (from, to) = iff h in
              (
                λ a. elim a [
                  | inl same ↦ inl (decoded ∙ ap ok same)
                  | inr later ↦ inr (from later)
                ],
                λ a. elim a [
                  | inl text ↦ inl (ok_eq (sym decoded ∙ text))
                  | inr later ↦ inr (to later)
                ],
              ),
        ),
      )

  pub All-same :
      (P : Row → Type 0) (xs ys : List Row)
      → ((x : Row) → Any (λ y. y ≡ x) xs → Any (λ y. y ≡ x) ys)
      → All P ys
      → All P xs
  All-same P [] ys into all = tt
  All-same P (x ∷ xs) ys into all =
      (at_same P x ys (into x (inl refl)) all, All-same P xs ys (λ y m. into y (inr m)) all)
    where
      at_same : (P : Row → Type 0) (x : Row) (ys : List Row) → Any (λ y. y ≡ x) ys → All P ys → P x
      at_same P x [] none all = absurd none
      at_same P x (y ∷ ys) (inl same) all = rw (← same) all.0
      at_same P x (y ∷ ys) (inr later) all = at_same P x ys later all.1

  selected_parts :
      (first : ℕ) (row : Row)
      → is_selected network first row ≡ true
      → (row.network ≡ network) × (first ≤ row.height)
  selected_parts first row e = (ground arith, ground arith)

  selected_of :
      (first : ℕ) (row : Row)
      → row.network ≡ network
      → first ≤ row.height
      → is_selected network first row ≡ true
  selected_of first row net low = ground arith

  pub filtered_lem :
      (first : ℕ) (P : Row → Type 0) (rows : List Row)
      → All P rows
      → All
          (λ row. P row × ((row.network ≡ network) × (first ≤ row.height)))
          (filter_by (is_selected network first) rows)
  filtered_lem first P [] all = tt
  filtered_lem first P (row ∷ rows) (here, rest) =
      let others = filtered_lem first P rows rest in
      elim (Bool-cases (is_selected network first row)) [
        | inl selected ↦ rw selected ((here, selected_parts first row selected), others)
        | inr left_out ↦ rw left_out others
      ]

  pub filtered_Any :
      (first : ℕ) (P : Row → Type 0) (rows : List Row)
      → Any P (filter_by (is_selected network first) rows)
        ↔ Any (λ row. P row × ((row.network ≡ network) × (first ≤ row.height))) rows
  filtered_Any first P [] = (λ none. none, λ none. none)
  filtered_Any first P (row ∷ rows) =
      let (from, to) = filtered_Any first P rows in
      elim (Bool-cases (is_selected network first row)) [
        | inl selected ↦ rw selected (
          λ a. elim a [
            | inl here ↦ inl (here, selected_parts first row selected)
            | inr later ↦ inr (from later)
          ],
          λ a. elim a [ inl (here, _) ↦ inl here | inr later ↦ inr (to later) ],
        )
        | inr left_out ↦ rw left_out (
          λ a. inr (from a),
          λ a. elim a [
            | inl (here, (net, low)) ↦ absurd (not_both (selected_of first row net low) left_out)
            | inr later ↦ to later
          ],
        )
      ]

  -- Of the rows that hold headers, those of a header are selected exactly if its height is.
  at_height :
      (height_of : Header → ℕ) (header : Header) (row : Row)
      → (row.network ≡ network
          → (h : Header) × (encoding.decode row.header ≡ ok h) × (row.height ≡ height_of h))
      → IsRowOf network header row
      → row.height ≡ height_of header
  at_height height_of header row holds (net, text) =
      let (h, decoded, at) = holds net in at ∙ ap height_of (ok_eq (sym decoded ∙ text))

  pub held_lem :
      (first : ℕ) (height_of : Header → ℕ) (header : Header) (rows : List Row)
      → HoldsHeaders network height_of rows
      → Any
          (λ row.
            (encoding.decode row.header ≡ ok header)
            × ((row.network ≡ network) × (first ≤ row.height)))
          rows
        ↔ ((first ≤ height_of header) × Any (IsRowOf network header) rows)
  held_lem first height_of header [] holds = (λ none. absurd none, λ (_, none). none)
  held_lem first height_of header (row ∷ rows) (holds, all) =
      let (from, to) = held_lem first height_of header rows all in
      (
        λ a. elim a [
          | inl (text, (net, low)) ↦
              let at = at_height height_of header row holds (net, text) in
              (omega arith, inl (net, text))
          | inr later ↦ let (low, held) = from later in (low, inr held)
        ],
        λ (low, held). elim held [
          | inl (net, text) ↦
              let at = at_height height_of header row holds (net, text) in
              inl (text, (net, omega arith))
          | inr later ↦ inr (to (low, later))
        ],
      )
