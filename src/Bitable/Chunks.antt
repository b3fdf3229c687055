-- ===== src/Bitable/Chunks.antt =====
-- The batches of src/pipeline/bitable.rs: `records.chunks(size)`.
use lark_utils_exp.Prelude.{
  ℕ, zero, suc, ◌≤◌, List, [], ◌∷◌, ◌++◌, ◌≡◌, ◌≢◌, refl, ap, ◌∙◌, arith, All, length, take, drop,
  concat, take-append-drop, length-take-le, length-drop,
}
use lark_utils_exp.Bitable.{chunks_from, chunks}

abbrev pub IsChunk : {A : Type 0} → ℕ → List A → Type 0
IsChunk size chunk = (chunk ≢ []) × (length chunk ≤ size)

module _ {A : Type 0} (size : ℕ) where
  concat-chunks_from :
      (fuel : ℕ) (xs : List A) → length xs ≤ fuel → concat (chunks_from fuel (suc size) xs) ≡ xs
  unfolding chunks_from
  concat-chunks_from zero [] h = refl
  concat-chunks_from zero (x ∷ xs) h = absurd (omega arith)
  concat-chunks_from (suc fuel) [] h = refl
  concat-chunks_from (suc fuel) (x ∷ xs) h =
      ap (λ ys. take (suc size) (x ∷ xs) ++ ys)
        (concat-chunks_from fuel (drop (suc size) (x ∷ xs)) (omega (arith, length-drop size xs)))
      ∙ take-append-drop (suc size) (x ∷ xs)

  chunks_from-IsChunk :
      (fuel : ℕ) (xs : List A) → All (IsChunk (suc size)) (chunks_from fuel (suc size) xs)
  unfolding chunks_from
  chunks_from-IsChunk zero xs = tt
  chunks_from-IsChunk (suc fuel) [] = tt
  chunks_from-IsChunk (suc fuel) (x ∷ xs) = (
    ((λ e. cc), length-take-le (suc size) (x ∷ xs)),
    chunks_from-IsChunk fuel (drop (suc size) (x ∷ xs)),
  )

  pub concat-chunks : (xs : List A) → concat (chunks (suc size) xs) ≡ xs
  unfolding chunks
  concat-chunks xs = concat-chunks_from (length xs) xs (omega arith)

  pub chunks-IsChunk : (xs : List A) → All (IsChunk (suc size)) (chunks (suc size) xs)
  unfolding chunks
  chunks-IsChunk xs = chunks_from-IsChunk (length xs) xs
