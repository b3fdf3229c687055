-- ===== src/Bitable/Pages.antt =====
-- The pages of a field list (`read_bitable_field_names` of src/pipeline/bitable.rs).
use lark_utils_exp.Prelude.{
  ℕ, zero, suc, ◌≤◌, List, [], ◌∷◌, true, false, Option, none, some, ok, ◌≡◌, refl, ◌∙◌, arith,
  length,
}
use lark_utils_exp.Text.{Text}
use lark_utils_exp.Effects.{Log, Services, pure, lift, ◌>>=◌}
use lark_utils_exp.Effects.Success.{>>=-after}
use lark_utils_exp.Bitable.{set_extend, BitableFieldPage}
use lark_utils_exp.Bitable.Actions.{
  has_token, field_page, field_names_from, read_bitable_field_names,
}

-- The names of pages, together with those of a set.
abbrev pub names_of : List Text → List BitableFieldPage → List Text
names_of names [] = names
names_of names (page ∷ pages) = names_of (set_extend names page.field_names) pages

module _ (services : Services) (app table : Text) where
  -- The service gives these pages from a token on, each with the token of the next, the last one
  -- without more.
  pub data Listing : List BitableFieldPage → Option Text → Log → Log → Type 0 where
    last :
        {page : BitableFieldPage} {token : Option Text} {log end : Log}
        → field_page services app table token log ≡ (ok page, end)
        → page.has_more ≡ false
        → Listing (page ∷ []) token log end
    more :
        {page : BitableFieldPage} {pages : List BitableFieldPage} {token : Option Text}
        {next : Text} {log mid end : Log}
        → field_page services app table token log ≡ (ok page, mid)
        → page.has_more ≡ true
        → has_token services page.page_token ≡ ok next
        → Listing pages (some next) mid end
        → Listing (page ∷ pages) token log end

  field_names_from-Listing :
      (fuel : ℕ) (names : List Text) (pages : List BitableFieldPage) (token : Option Text)
      (log end : Log)
      → Listing pages token log end
      → length pages ≤ fuel
      → field_names_from services fuel names app table token log ≡ (ok (names_of names pages), end)
  unfolding field_names_from pure lift ◌>>=◌
  field_names_from-Listing zero names (page ∷ pages) token log end l b = absurd (omega arith)
  field_names_from-Listing zero names [] token log end l b = elim l [ ]
  field_names_from-Listing (suc fuel) names _ token log end (last {page} e m) b =
      >>=-after (field_page services app table token) _ e ∙ rw m refl
  field_names_from-Listing (suc fuel) names _ token log end
        (more {page} {pages} {next = next} {mid = mid} e m t l) b =
      >>=-after (field_page services app table token) _ e
      ∙ rw (m, t)
          (field_names_from-Listing fuel (set_extend names page.field_names) pages (some next) mid
            end l (omega arith))

  -- A field list that the service ends is read to its end, with as much fuel as it has pages, and
  -- the names read are those of all its pages.
  pub read_bitable_field_names-Listing :
      (fuel : ℕ) (pages : List BitableFieldPage) (log end : Log)
      → Listing pages none log end
      → length pages ≤ fuel
      → read_bitable_field_names services fuel app table log ≡ (ok (names_of [] pages), end)
  unfolding read_bitable_field_names
  read_bitable_field_names-Listing fuel pages log end l b =
      field_names_from-Listing fuel [] pages none log end l b
