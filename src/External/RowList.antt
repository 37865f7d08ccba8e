-- ===== src/External/RowList.antt =====
-- A database that is the list of its rows, and an encoding of headers as six numbers in unary. They show that the
-- laws of `External.Sqlite` can hold, and the tests run on them.
use Prim.Native.Char.{code}
use Prim.Native.String.{String}
use reorg_playground.Prelude.{
  ℕ, zero, suc, ◌≡◌, refl, ap, ◌==◌, ◌↔◌, Result, ok, List, Any, sort_by_key, Any-sort_by_key,
  sort_by_key-IsSortedBy, IsSortedBy, filter_by, ok_eq, subst, sym, if◌then◌else◌,
}
use reorg_playground.External.Bitcoin.{Header}
use reorg_playground.External.Sqlite.{Row, Sqlite, Encoding, insert_row, set_miner, is_selected}

module _ {E : Type 0} where
  abbrev select : ℕ → ℕ → List Row → Result E (List Row)
  select network first rows =
      ok (sort_by_key (λ (row : Row). row.height) (filter_by (is_selected network first) rows))

  pub same_rows : (d d' : List Row) → ◌≡◌ {A = Result E (List Row)} (ok d) (ok d') → d' ≡ d
  same_rows d d' e = sym (ok_eq e)

  pub select-sorted :
      (network first : ℕ) (d selected : List Row)
      → select network first d ≡ ok selected
      → IsSortedBy (λ row. row.height) selected
  select-sorted network first d selected e =
      subst (IsSortedBy (λ (row : Row). row.height)) (ok_eq e) (
        sort_by_key-IsSortedBy (λ (row : Row). row.height)
          (filter_by (is_selected network first) d))

  pub select-rows :
      (network first : ℕ) (d selected : List Row)
      → select network first d ≡ ok selected
      → (row : Row)
      → Any (λ r. r ≡ row) selected ↔ Any (λ r. r ≡ row) (filter_by (is_selected network first) d)
  select-rows network first d selected e row =
      subst
        (λ l.
          Any (λ (r : Row). r ≡ row) l
          ↔ Any (λ (r : Row). r ≡ row) (filter_by (is_selected network first) d))
        (ok_eq e)
        (Any-sort_by_key (λ (row : Row). row.height) (λ r. r ≡ row)
          (filter_by (is_selected network first) d))

  instance abbrev pub row_list : Sqlite E (List Row)
  row_list = record {
    rows = λ d. d;
    create_headers = ok;
    transaction = ok;
    insert_or_ignore = λ row d. ok (insert_row row d);
    update_headers = λ miner hash d. ok (set_miner miner hash d);
    commit = ok;
    select_headers = select;
    rows-create_headers = same_rows;
    rows-transaction = same_rows;
    rows-insert_or_ignore = λ row d d' e. sym (ok_eq e);
    rows-update_headers = λ miner hash d d' e. sym (ok_eq e);
    rows-commit = same_rows;
    select_headers-sorted = select-sorted;
    select_headers-rows = select-rows;
  }

abbrev mark : ℕ → String → String
mark zero rest = String.◌∷◌ "," rest
mark (suc n) rest = String.◌∷◌ "x" (mark n rest)

abbrev read : String → ℕ × String
read String.[] = (0, "")
read (String.◌∷◌ c s) = let (n, rest) = read s in if code c == 44 then (0, s) else (suc n, rest)

read-mark : (n : ℕ) (rest : String) → read (mark n rest) ≡ (n, rest)
read-mark zero rest = refl
read-mark (suc n) rest = ap (λ (p : ℕ × String). (suc p.0, p.1)) (read-mark n rest)

abbrev serialize : Header → String
serialize h =
    mark h.version
      (mark h.prev_blockhash (mark h.merkle_root (mark h.time (mark h.bits (mark h.nonce "")))))

abbrev read_header : String → Header
read_header s =
    let (version, s1) = read s in
    let (prev_blockhash, s2) = read s1 in
    let (merkle_root, s3) = read s2 in
    let (time, s4) = read s3 in
    let (bits, s5) = read s4 in
    let (nonce, _) = read s5 in
    record {
      version = version;
      prev_blockhash = prev_blockhash;
      merkle_root = merkle_root;
      time = time;
      bits = bits;
      nonce = nonce;
    }

read_header-serialize : (h : Header) → read_header (serialize h) ≡ h
read_header-serialize h =
    let a =
      read-mark h.version (
        mark h.prev_blockhash (mark h.merkle_root (mark h.time (mark h.bits (mark h.nonce ""))))) in
    let b =
      read-mark h.prev_blockhash
        (mark h.merkle_root (mark h.time (mark h.bits (mark h.nonce "")))) in
    let c = read-mark h.merkle_root (mark h.time (mark h.bits (mark h.nonce ""))) in
    let d = read-mark h.time (mark h.bits (mark h.nonce "")) in
    let e = read-mark h.bits (mark h.nonce "") in
    let f = read-mark h.nonce "" in rw (a, b, c, d, e, f) refl

module _ {E : Type 0} where
  pub decode-serialize :
      (h : Header) → ◌≡◌ {A = Result E Header} (ok (read_header (serialize h))) (ok h)
  decode-serialize h = ap ok (read_header-serialize h)

  instance abbrev pub unary_encoding : Encoding E
  unary_encoding = record {
    serialize_hex = serialize;
    decode = λ s. ok (read_header s);
    decode-serialize_hex = decode-serialize;
  }
