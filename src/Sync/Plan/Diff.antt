-- ===== src/Sync/Plan/Diff.antt =====
-- `diff_fields` of src/pipeline/sync.rs.
use lark_utils_exp.Prelude.{
  List, [], ◌∷◌, Bool, true, false, ◌||◌, Option, none, some, All, ◌≡◌, ◌↔◌, refl, arith,
  if◌then◌else◌, map,
}
use lark_utils_exp.Text.{Text}
use lark_utils_exp.Text.Order.{text_eq_iff}
use lark_utils_exp.Json.{Value, Map}
use lark_utils_exp.Json.Map.{get, insert, get-insert, insert-ne-nil}
use lark_utils_exp.Host.{Host}
use lark_utils_exp.Sync.Rules.{FieldValueRules, contains, should_skip_field}
use lark_utils_exp.Sync.Rows.Keys.{Distinct}
use lark_utils_exp.Sync.Plan.{is_same_field, diff_from, diff_fields}

abbrev pub names : Map → List Text
names = map (λ f. f.0)

get-absent : (k : Text) (m : Map) → contains (names m) k ≡ false → get k m ≡ none
unfolding contains get
get-absent k [] e = refl
get-absent k ((j, v) ∷ m) e = ground (arith, get-absent k m)

module _ (h : Host) (rules : FieldValueRules) (old : Map) where
  -- A field that is not written: skipped by the rules, or of the same meaning as before.
  abbrev pub is_settled : Text → Value → Bool
  is_settled name new = should_skip_field h rules name || is_same_field h rules old name new

  abbrev pub merged : Text → Option Value → Option Value → Option Value
  merged name none before = before
  merged name (some new) before = if is_settled name new then before else some new

  get-diff_from :
      (k : Text) (changed new : Map)
      → Distinct (names new)
      → get k (diff_from h rules old changed new) ≡ merged k (get k new) (get k changed)
  unfolding diff_from get
  get-diff_from k changed [] d = refl
  get-diff_from k changed ((j, v) ∷ more) (fresh, d) = ground (
    arith,
    get-diff_from k changed more d,
    get-diff_from k (insert j v changed) more d,
    get-insert j k v changed,
    get-absent j more fresh,
    text_eq_iff j k,
  )

  diff_from-nil :
      (changed new : Map)
      → (diff_from h rules old changed new ≡ [])
        ↔ ((changed ≡ []) × All (λ f. is_settled f.0 f.1 ≡ true) new)
  unfolding diff_from
  diff_from-nil changed [] = (λ e. (e, tt), λ p. p.0)
  diff_from-nil changed ((j, v) ∷ more) = ground (
    arith,
    diff_from-nil changed more,
    diff_from-nil (insert j v changed) more,
    insert-ne-nil j v changed,
  )

-- The diff holds a field of the new row exactly where it is not skipped and its old value has not
-- the same meaning, and then with the new value; it holds nothing else. The names of the new
-- row's fields are distinct, as those of a JSON object are.
pub get-diff_fields :
    (h : Host) (rules : FieldValueRules) (old new : Map) (k : Text)
    → Distinct (names new)
    → get k (diff_fields h rules old new) ≡ merged h rules old k (get k new) none
unfolding diff_fields get
get-diff_fields h rules old new k d = get-diff_from h rules old k [] new d

-- Nothing is written exactly when every field of the new row is skipped or has kept its meaning.
pub diff_fields-nil :
    (h : Host) (rules : FieldValueRules) (old new : Map)
    → (diff_fields h rules old new ≡ []) ↔ All (λ f. is_settled h rules old f.0 f.1 ≡ true) new
unfolding diff_fields
diff_fields-nil h rules old new =
    let (to, from) = diff_from-nil h rules old [] new in (λ e. (to e).1, λ a. from (refl, a))
