-- ===== src/Sheets/Link.antt =====
-- src/lark/sheets/url.rs: the tokens in the links of spreadsheets and tables.
use lark_utils_exp.Prelude.{
  List, [], ◌∷◌, Bool, true, ◌||◌, not, ◌≡◌, ◌≢◌, ◌↔◌, refl, arith, unfinished, Option-cases,
  Bool-cases, inl, inr, Option, none, some, ok, err, panic, ok_or, ◌>>=◌, ◌>>◌, if◌then◌else◌,
  is_nil,
}
use lark_utils_exp.Text.{Text, text, text_eq}
use lark_utils_exp.Host.{Host, Url}
use lark_utils_exp.Error.{message, Fallible}

abbrev is_http : Text → Bool
is_http scheme = text_eq scheme (text "https") || text_eq scheme (text "http")

-- `Url::parse(input)?` and `path_segments()`; the display of the parser's error is not modelled.
abbrev parsed : Host → Text → Fallible Url
parsed h input = ok_or (h.parse_url input) (message (text "url"))

abbrev segments_of : Url → Fallible (List Text)
segments_of url = ok_or url.path_segments (message (text "URL 路径不合法"))

abbrev check_scheme : Url → Fallible (Unit {0})
check_scheme url =
    if is_http url.scheme then ok tt else err (message (text "URL 协议必须是 http 或 https"))

-- the first value under the key `sheet`
unfoldable pub sheet_param : List (Text × Text) → Option Text
sheet_param [] = none
sheet_param ((k, v) ∷ pairs) = if text_eq k (text "sheet") then some v else sheet_param pairs

-- the token of `/sheets/{token}`
unfoldable pub sheet_token : List Text → Fallible Text
sheet_token (kind ∷ (token ∷ more)) =
    if not (text_eq kind (text "sheets"))
    then err (message (text "不是有效的飞书表格链接"))
    else if is_nil token
    then err (message (text "飞书表格链接缺少表格 token"))
    else ok token
sheet_token _ = err (message (text "不是有效的飞书表格链接"))

-- `segments[0]` and `segments[1]` of `get_spreadsheet_token`: an index out of bounds panics.
unfoldable pub second_segment : List Text → Fallible Text
second_segment [] = panic
second_segment (first ∷ []) =
    if is_nil first then err (message (text "飞书表格链接缺少表格 token")) else panic
second_segment (first ∷ (second ∷ more)) =
    if is_nil first then err (message (text "飞书表格链接缺少表格 token")) else ok second

module _ (h : Host) where
  -- fn parse_lark_sheet_url
  unfoldable pub parse_lark_sheet_url : Text → Fallible (Text × Option Text)
  unfolding sheet_token sheet_param
  parse_lark_sheet_url input = do
    url ← parsed h input
    segments ← segments_of url
    check_scheme url
    token ← sheet_token segments
    ok (token, sheet_param url.query_pairs)

  -- fn get_spreadsheet_token
  unfoldable pub get_spreadsheet_token : Text → Fallible Text
  unfolding second_segment
  get_spreadsheet_token input = do
    url ← parsed h input
    segments ← segments_of url
    check_scheme url
    second_segment segments

-- The segments that are indexed out of bounds: none, or one that is not empty.
pub data IsTooShort : List Text → Type 0 where
  no_segment : IsTooShort []
  one_segment : {first : Text} → first ≢ [] → IsTooShort (first ∷ [])

second_segment_panics :
    (segments : List Text) → second_segment segments ≡ panic → IsTooShort segments
unfolding second_segment
second_segment_panics [] e = no_segment
second_segment_panics ([] ∷ []) e = cc
second_segment_panics ((c ∷ first) ∷ []) e = one_segment (λ p. cc)
second_segment_panics ([] ∷ (second ∷ more)) e = cc
second_segment_panics ((c ∷ first) ∷ (second ∷ more)) e = cc

IsTooShort-panics : (segments : List Text) → IsTooShort segments → second_segment segments ≡ panic
unfolding second_segment
IsTooShort-panics [] short = refl
IsTooShort-panics ([] ∷ []) (one_segment ne) = absurd (ne refl)
IsTooShort-panics ((c ∷ first) ∷ []) short = refl
IsTooShort-panics ([] ∷ (_ ∷ _)) short = elim short [ ]
IsTooShort-panics ((c ∷ first) ∷ (_ ∷ _)) short = elim short [ ]

-- An http or https URL with a path that is too short.
pub record HasShortPath (h : Host) (input : Text) : Type 0 where
  pub url : Url
  pub segments : List Text
  pub parses : h.parse_url input ≡ some url
  pub path : url.path_segments ≡ some segments
  pub http : is_http url.scheme ≡ true
  pub short : IsTooShort segments

get_spreadsheet_token_short :
    (h : Host) (input : Text) → get_spreadsheet_token h input ≡ panic → HasShortPath h input
unfolding get_spreadsheet_token
get_spreadsheet_token_short h input e = elim (Option-cases (h.parse_url input)) [
  | inl p ↦ absurd (let q = rw (p, get_spreadsheet_token) at e in cc)
  | inr (url, p) ↦ elim (Option-cases url.path_segments) [
    | inl s ↦ absurd (let q = rw (p, s, get_spreadsheet_token) at e in cc)
    | inr (segments, s) ↦ elim (Bool-cases (is_http url.scheme)) [
      | inr t ↦ absurd (let q = rw (p, s, t, get_spreadsheet_token) at e in cc)
      | inl t ↦ record {
        url = url;
        segments = segments;
        parses = p;
        path = s;
        http = t;
        short = second_segment_panics segments (rw (p, s, t, get_spreadsheet_token) at e);
      }
    ]
  ]
]

-- `get_spreadsheet_token` panics exactly for the http and https links whose path has no segment,
-- or only one, which is not empty; every other input gives a token or an error.
pub get_spreadsheet_token-panic_iff :
    (h : Host) (input : Text) → (get_spreadsheet_token h input ≡ panic) ↔ HasShortPath h input
unfolding get_spreadsheet_token
get_spreadsheet_token-panic_iff h input = (
  get_spreadsheet_token_short h input,
  λ s.
      rw (s.parses, get_spreadsheet_token)
        (rw s.path (rw s.http (IsTooShort-panics s.segments s.short))),
)

second_segment-sheet_token :
    (segments : List Text) (token : Text)
    → sheet_token segments ≡ ok token
    → second_segment segments ≡ ok token
unfolding sheet_token second_segment text_eq
second_segment-sheet_token [] token e = cc
second_segment-sheet_token (kind ∷ []) token e = cc
second_segment-sheet_token ([] ∷ (second ∷ more)) token e = cc
second_segment-sheet_token ((c ∷ kind) ∷ (second ∷ more)) token e = ground arith

-- Where `parse_lark_sheet_url` accepts a link, `get_spreadsheet_token` gives the same token.
pub get_spreadsheet_token-parse_lark_sheet_url :
    (h : Host) (input token : Text) (sheet : Option Text)
    → parse_lark_sheet_url h input ≡ ok (token, sheet)
    → get_spreadsheet_token h input ≡ ok token
unfolding parse_lark_sheet_url get_spreadsheet_token
get_spreadsheet_token-parse_lark_sheet_url h input token sheet e =
    elim (Option-cases (h.parse_url input)) [
      | inl p ↦ absurd (let q = rw (p, parse_lark_sheet_url) at e in cc)
      | inr (url, p) ↦ elim (Option-cases url.path_segments) [
        | inl s ↦ absurd (let q = rw (p, s, parse_lark_sheet_url) at e in cc)
        | inr (segments, s) ↦ elim (Bool-cases (is_http url.scheme)) [
          | inr t ↦ absurd (let q = rw (p, s, t, parse_lark_sheet_url) at e in cc)
          | inl t ↦
              rw (p, s, t, get_spreadsheet_token)
                (second_segment-sheet_token segments token (
                  paired (sheet_token segments) (sheet_param url.query_pairs)
                    (rw (p, s, t, parse_lark_sheet_url) at e)))
        ]
      ]
    ]
  where
    paired :
        (r : Fallible Text) (o : Option Text)
        → ◌>>=◌ {B = Text × Option Text} r (λ t. ok (t, o)) ≡ ok (token, sheet)
        → r ≡ ok token
    paired (ok t) o e' = cc
    paired (err x) o e' = cc
    paired panic o e' = cc
    paired unfinished o e' = cc
