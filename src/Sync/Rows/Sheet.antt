-- ===== src/Sync/Rows/Sheet.antt =====
-- `parse_sheet_rows` of src/pipeline/sync.rs as a whole, and its duplicate key error.
use lark_utils_exp.Prelude.{
  ℕ, suc, ◌+◌, ◌<◌, List, [], ◌∷◌, Bool, true, false, some, ok, err, >>=-eq-ok, cons-eq-err,
  map_err-eq-ok, Result, any, get_elem?, Bool-cases, Option-cases, inl, inr, ◌⊎◌, ◌≡◌, ◌↔◌, refl,
  ap, sym, ◌∙◌, arith, if◌then◌else◌,
}
use lark_utils_exp.Text.{Text, text_eq}
use lark_utils_exp.Text.Order.{text_eq_iff}
use lark_utils_exp.Json.{Value}
use lark_utils_exp.Host.{Host}
use lark_utils_exp.Error.{Error, duplicate_row}
use lark_utils_exp.Sync.Rules.{FieldValueRules}
use lark_utils_exp.Sync.Rows.{
  SourceRow, lookup, is_empty_row, sheet_rows_from, parse_headers, same_field, parse_sheet_rows,
}
use lark_utils_exp.Sync.Rows.Keys.{row_key, row_map, SheetRows, Distinct, keys, sheet_rows_from_iff}

-- What a parsed sheet consists of: valid headers with the unique key among them, and source rows
-- for the rows that are not blank, their keys distinct.
pub record IsSheet (h : Host) (rules : FieldValueRules) (key_field : Text)
    (rows : List (List Value)) (out : List SourceRow) : Type 0 where
  pub header_row : List Value
  pub body : List (List Value)
  pub headers : List Text
  pub split : rows ≡ header_row ∷ body
  pub parsed : parse_headers header_row ≡ ok headers
  pub keyed : any (λ header. same_field h header key_field) headers ≡ true
  pub sheet : SheetRows h rules key_field headers body out
  pub distinct : Distinct (keys out)

if-eq-ok :
    {A : Type 0} (b : Bool) (m : Result Error A) (e : Error) {a : A}
    → (if b then m else err e) ≡ ok a
    → (b ≡ true) × (m ≡ ok a)
if-eq-ok true m e h = (refl, h)
if-eq-ok false m e h = cc

module _ (h : Host) (rules : FieldValueRules) (key_field : Text) where
  parse_sheet_rows_sound :
      (rows : List (List Value)) (out : List SourceRow)
      → parse_sheet_rows h rules key_field rows ≡ ok out
      → IsSheet h rules key_field rows out
  unfolding parse_sheet_rows
  parse_sheet_rows_sound [] out e = absurd (cc)
  parse_sheet_rows_sound (header_row ∷ body) out e =
      let (headers, read, e') = >>=-eq-ok _ _ e in
      let (found, e'') = if-eq-ok _ _ _ e' in
      let (sheet, distinct) = (sheet_rows_from_iff h rules key_field headers 2 body out).0 e'' in
      record {
        header_row = header_row;
        body = body;
        headers = headers;
        split = refl;
        parsed = map_err-eq-ok _ (parse_headers header_row) read;
        keyed = found;
        sheet = sheet;
        distinct = distinct;
      }

  parse_sheet_rows_complete :
      (rows : List (List Value)) (out : List SourceRow)
      → IsSheet h rules key_field rows out
      → parse_sheet_rows h rules key_field rows ≡ ok out
  unfolding parse_sheet_rows
  parse_sheet_rows_complete rows out s =
      rw (s.split, parse_sheet_rows)
        (rw s.parsed (
          rw s.keyed (
            (sheet_rows_from_iff h rules key_field s.headers 2 s.body out).1
              (s.sheet, s.distinct))))

-- A sheet is accepted exactly when its first row holds valid headers, the unique key among them,
-- and each row below that is not blank has a unique key that no other row has; the result is
-- those rows, in order.
pub parse_sheet_rows_iff :
    (h : Host) (rules : FieldValueRules) (key_field : Text) (rows : List (List Value))
    (out : List SourceRow)
    → (parse_sheet_rows h rules key_field rows ≡ ok out) ↔ IsSheet h rules key_field rows out
parse_sheet_rows_iff h rules key_field rows out = (
  parse_sheet_rows_sound h rules key_field rows out,
  parse_sheet_rows_complete h rules key_field rows out,
)

duplicate_row-injective :
    {A : Type 0} (field j k : Text) (a b c d : ℕ)
    → ◌≡◌ {A = Result Error A} (err (duplicate_row field j a b)) (err (duplicate_row field k c d))
    → (j ≡ k) × (a ≡ c) × (b ≡ d)
duplicate_row-injective field j k a b c d e = (cc, cc, cc)

module _ (h : Host) (field_rules : FieldValueRules) (key_field : Text) (headers : List Text) where
  -- Row `number` of the sheet, where the first of `rows` has the number `n`, has the key.
  abbrev pub HasKeyAt : ℕ → List (List Value) → Text → ℕ → Type 0
  HasKeyAt n rows key number =
      (i : ℕ) × (number ≡ n + i)
      × ((row : List Value) × (get_elem? rows i ≡ some row)
          × (row_key h field_rules key_field headers row ≡ some key))

  HasKeyAt-cons :
      (n : ℕ) (row : List Value) (rows : List (List Value)) (key : Text) (number : ℕ)
      → HasKeyAt (suc n) rows key number
      → HasKeyAt n (row ∷ rows) key number
  HasKeyAt-cons n row rows key number (i, e, found) = (suc i, omega arith, found)

  -- The first row that a key was seen at: before the loop, or in it.
  abbrev SeenAt : ℕ → List (Text × ℕ) → List (List Value) → Text → ℕ → Type 0
  SeenAt n seen rows key first = (lookup key seen ≡ some first) ⊎ HasKeyAt n rows key first

  SeenAt-cons :
      (n : ℕ) (seen : List (Text × ℕ)) (row : List Value) (rows : List (List Value)) (key : Text)
      (first : ℕ)
      → SeenAt (suc n) seen rows key first
      → SeenAt n seen (row ∷ rows) key first
  SeenAt-cons n seen row rows key first (inl l) = inl l
  SeenAt-cons n seen row rows key first (inr at) = inr (HasKeyAt-cons n row rows key first at)

  -- A key that the loop has just put into the map was seen at this row.
  SeenAt-keep :
      (n : ℕ) (seen : List (Text × ℕ)) (row : List Value) (rows : List (List Value)) (j key : Text)
      (first : ℕ)
      → row_key h field_rules key_field headers row ≡ some j
      → SeenAt (suc n) ((j, n) ∷ seen) rows key first
      → SeenAt n seen (row ∷ rows) key first
  unfolding lookup
  SeenAt-keep n seen row rows j key first k (inr at) = inr (HasKeyAt-cons n row rows key first at)
  SeenAt-keep n seen row rows j key first k (inl l) = elim (Bool-cases (text_eq j key)) [
    | inr ne ↦ inl (rw (ne, lookup) at l)
    | inl eq ↦ inr (0, ground (arith), (row, refl, k ∙ ap some ((text_eq_iff j key).0 eq)))
  ]

  abbrev IsBefore : ℕ → List (Text × ℕ) → Text → Type 0
  IsBefore n seen key = (first : ℕ) → lookup key seen ≡ some first → first < n

  IsBefore-cons :
      (n : ℕ) (seen : List (Text × ℕ)) (j key : Text)
      → IsBefore n seen key
      → IsBefore (suc n) ((j, n) ∷ seen) key
  unfolding lookup
  IsBefore-cons n seen j key before first l = ground (arith, before first)

  abbrev Duplicated : ℕ → List (Text × ℕ) → List (List Value) → Text → ℕ → ℕ → Type 0
  Duplicated n seen rows key first second =
      SeenAt n seen rows key first × HasKeyAt n rows key second × (first < second)

  duplicate_row_found :
      (n : ℕ) (seen : List (Text × ℕ)) (rows : List (List Value)) (key : Text) (first second : ℕ)
      → IsBefore n seen key
      → sheet_rows_from h field_rules key_field headers n seen rows
        ≡ err (duplicate_row key_field key first second)
      → Duplicated n seen rows key first second
  unfolding sheet_rows_from
  duplicate_row_found n seen [] key first second before e = absurd (cc)
  duplicate_row_found n seen (row ∷ rows) key first second before e =
      elim (Bool-cases (is_empty_row row)) [
        | inl b ↦
            let (s, at, less) =
              duplicate_row_found (suc n) seen rows key first second
                (λ f l. omega (arith, before f l)) (rw (b, sheet_rows_from) at e) in
            (SeenAt-cons n seen row rows key first s, HasKeyAt-cons n row rows key second at, less)
        | inr b ↦ elim (Option-cases (row_key h field_rules key_field headers row)) [
          | inl k ↦ absurd (let q = rw (b, k, sheet_rows_from) at e in cc)
          | inr (j, k) ↦ elim (Option-cases (lookup j seen)) [
            | inr (f, l) ↦
                let (p, q, r) =
                  duplicate_row-injective _ _ _ _ _ _ _ (rw (b, k, l, sheet_rows_from) at e) in
                let seen_first = ap (λ x. lookup x seen) (sym p) ∙ l ∙ ap some q in
                (
                  inl seen_first,
                  (0, omega arith, (row, refl, k ∙ ap some p)),
                  omega (arith, before first seen_first),
                )
            | inl l ↦
                let (s, at, less) =
                  duplicate_row_found (suc n) ((j, n) ∷ seen) rows key first second
                    (IsBefore-cons n seen j key before)
                    (cons-eq-err
                      (record {
                        unique_key = j;
                        fields = row_map h field_rules key_field headers row;
                      })
                      (sheet_rows_from h field_rules key_field headers (suc n) ((j, n) ∷ seen) rows)
                      (rw (b, k, l, sheet_rows_from) at e)) in
                (
                  SeenAt-keep n seen row rows j key first k s,
                  HasKeyAt-cons n row rows key second at,
                  less,
                )
          ]
        ]
      ]

-- Where `parse_sheet_rows` reports the rows `first` and `second` for a duplicate key, both are rows
-- of the sheet with that key, and `first` stands above `second`. `n` is the number of the first
-- row below the headers.
pub duplicate_row_is_real :
    (h : Host) (rules : FieldValueRules) (key_field : Text) (headers : List Text) (n : ℕ)
    (rows : List (List Value)) (key : Text) (first second : ℕ)
    → sheet_rows_from h rules key_field headers n [] rows
      ≡ err (duplicate_row key_field key first second)
    → HasKeyAt h rules key_field headers n rows key first
      × HasKeyAt h rules key_field headers n rows key second
      × (first < second)
unfolding lookup
duplicate_row_is_real h rules key_field headers n rows key first second e =
    let (s, at, less) =
      duplicate_row_found h rules key_field headers n [] rows key first second
        (λ f l. absurd (cc l)) e in
    elim s [ inl l ↦ absurd (cc l) | inr first_at ↦ (first_at, at, less) ]
