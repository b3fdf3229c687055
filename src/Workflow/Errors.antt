-- ===== src/Workflow/Errors.antt =====
-- How src/workflow.rs reads an error: whether to try again, what to call it, whom to tell.
use lark_utils_exp.Prelude.{
  ℕ, ◌+◌, List, [], ◌∷◌, Bool, true, false, not, ◌&&◌, ◌||◌, some, leb, any, map, take, get_elem?,
  zero, suc, if◌then◌else◌, ◌≡◌, refl, ap, Bool-cases, inl, inr,
}
use lark_utils_exp.Text.{Text, text, text_eq, join}
use lark_utils_exp.Host.{Host}
use lark_utils_exp.Error.{Error}
use lark_utils_exp.Error.Display.{contains_text, chain}

-- `str::to_ascii_lowercase`
unfoldable pub to_ascii_lowercase : Text → Text
to_ascii_lowercase s = map (λ c. if leb b'A' c && leb c b'Z' then c + 32 else c) s

-- `format!("{error:#}")`: the chain of causes
unfoldable pub alternate : Host → Error → Text
unfolding join chain
alternate h e = join (text ": ") (chain h e)

abbrev pub permanent_markers : List Text
permanent_markers =
    text "未登录"
    ∷ (text "登录态"
        ∷ (text "登陆态"
            ∷ (text "未配置"
                ∷ (text "不能为空"
                    ∷ (text "不支持"
                        ∷ (text "不存在或未启用"
                            ∷ (text "fieldnamenotfound"
                                ∷ (text "permission denied"
                                    ∷ (text "forbidden"
                                        ∷ (text "cookie" ∷ (text "csrf" ∷ [])))))))))))

-- fn is_retryable_workflow_error, on the error's text
unfoldable pub is_retryable_workflow_error : Text → Bool
unfolding contains_text to_ascii_lowercase
is_retryable_workflow_error error =
    let lowercase = to_ascii_lowercase error in
    not (
      any (λ marker. contains_text marker error || contains_text marker lowercase)
        permanent_markers)

-- fn bounded_workflow_error
unfoldable pub bounded_workflow_error : Host → Error → Text
unfolding alternate
bounded_workflow_error h e = take 4000 (alternate h e)

abbrev pub login_invalid : Text
login_invalid = text "星图登陆状态失效"

abbrev pub xingtu_failed : Text
xingtu_failed = text "星图数据拉取失败"

abbrev pub workflow_failed : Text
workflow_failed = text "工作流执行失败"

abbrev pub is_login_error : Text → Bool
is_login_error error =
    contains_text (text "未登录") error
    || contains_text (text "登录态") error
    || contains_text (text "登陆态") error
    || contains_text (text "cookie") (to_ascii_lowercase error)
    || contains_text (text "csrf") (to_ascii_lowercase error)

abbrev pub is_xingtu_error : Text → Bool
is_xingtu_error error =
    contains_text (text "星图接口失败") error
    || contains_text (text "星图长任务失败") error
    || contains_text (text "等待星图导出结果超时") error
    || contains_text (text "星图任务导出失败") error
    || contains_text (text "xingtu.cn") (to_ascii_lowercase error)

-- fn classify_workflow_error
unfoldable pub classify_workflow_error : Text → Text
unfolding contains_text to_ascii_lowercase
classify_workflow_error error =
    if is_login_error error
    then login_invalid
    else if is_xingtu_error error
    then xingtu_failed
    else workflow_failed

or_true : (b : Bool) → b || true ≡ true
or_true true = refl
or_true false = refl

any-at :
    (p : Text → Bool) (i : ℕ) (marker : Text) (markers : List Text)
    → get_elem? markers i ≡ some marker
    → p marker ≡ true
    → any p markers ≡ true
any-at p i marker [] e k = cc
any-at p zero marker (m ∷ markers) e k = let same : m ≡ marker = cc in rw (same, k) refl
any-at p (suc i) marker (m ∷ markers) e k = rw (any-at p i marker markers e k) (or_true (p m))

-- A marker in the error, or in its lower case, forbids a retry.
module _ (error : Text) (i : ℕ) (marker : Text)
    (at : get_elem? permanent_markers i ≡ some marker) where
  marked : contains_text marker error ≡ true → is_retryable_workflow_error error ≡ false
  unfolding is_retryable_workflow_error
  marked e =
      rw
        (any-at (λ m. contains_text m error || contains_text m (to_ascii_lowercase error)) i marker
          permanent_markers at (rw e refl))
        refl

  marked_below :
      contains_text marker (to_ascii_lowercase error) ≡ true
      → is_retryable_workflow_error error ≡ false
  unfolding is_retryable_workflow_error
  marked_below e =
      rw
        (any-at (λ m. contains_text m error || contains_text m (to_ascii_lowercase error)) i marker
          permanent_markers at (rw e (or_true (contains_text marker error))))
        refl

is_login_error-permanent :
    (error : Text) → is_login_error error ≡ true → is_retryable_workflow_error error ≡ false
is_login_error-permanent error e = elim (Bool-cases (contains_text (text "未登录") error)) [
  | inl k ↦ marked error 0 (text "未登录") refl k
  | inr a ↦ elim (Bool-cases (contains_text (text "登录态") error)) [
    | inl k ↦ marked error 1 (text "登录态") refl k
    | inr b ↦ elim (Bool-cases (contains_text (text "登陆态") error)) [
      | inl k ↦ marked error 2 (text "登陆态") refl k
      | inr c ↦ elim (Bool-cases (contains_text (text "cookie") (to_ascii_lowercase error))) [
        | inl k ↦ marked_below error 10 (text "cookie") refl k
        | inr d ↦ marked_below error 11 (text "csrf") refl (rw (a, b, c, d) at e)
      ]
    ]
  ]
]

apart : false ≡ true → ⊥
apart e = cc

-- An error that is called a lost login is never tried again.
pub classify_workflow_error-permanent :
    (error : Text)
    → classify_workflow_error error ≡ login_invalid
    → is_retryable_workflow_error error ≡ false
unfolding classify_workflow_error text_eq
classify_workflow_error-permanent error e = elim (Bool-cases (is_login_error error)) [
  | inl k ↦ is_login_error-permanent error k
  | inr k ↦ elim (Bool-cases (is_xingtu_error error)) [
    | inl m ↦ absurd (apart (ap (λ t. text_eq t login_invalid) (rw (k, m) at e)))
    | inr m ↦ absurd (apart (ap (λ t. text_eq t login_invalid) (rw (k, m) at e)))
  ]
]
