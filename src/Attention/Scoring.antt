-- ===== src/Attention/Scoring.antt =====
-- src/attention/scoring.rs: the cosine similarity of two vectors.
use subspace_daemon.Base.{
  List, [], ap, arith, eqb, if◌then◌else◌, is_empty, length, not, refl, ◌||◌, ◌∙◌, ◌∷◌, ◌≡◌,
}
use subspace_daemon.Attention.Float.{Float}

module _ (fl : Float) where
  open fl use {F, zero_f, add, mul, div, sqrt, eq_f}

  -- `a.iter().zip(b.iter()).map(|(&ai, &bi)| ai * bi).sum()`, added from the left
  unfoldable pub dot_from : F → List F → List F → F
  dot_from acc (x ∷ xs) (y ∷ ys) = dot_from (add acc (mul x y)) xs ys
  dot_from acc _ _ = acc

  abbrev pub norm : List F → F
  norm a = sqrt (dot_from zero_f a a)

  unfoldable pub cosine_similarity : List F → List F → F
  cosine_similarity a b =
      if not (eqb (length a) (length b)) || is_empty a
      then zero_f
      else if eq_f (norm a) zero_f || eq_f (norm b) zero_f
      then zero_f
      else div (dot_from zero_f a b) (mul (norm a) (norm b))

  dot_from_comm :
      ((x y : F) → mul x y ≡ mul y x)
      → (acc : F) (a b : List F) → dot_from acc a b ≡ dot_from acc b a
  unfolding dot_from
  dot_from_comm comm acc [] [] = refl
  dot_from_comm comm acc [] (y ∷ ys) = refl
  dot_from_comm comm acc (x ∷ xs) [] = refl
  dot_from_comm comm acc (x ∷ xs) (y ∷ ys) =
      ap (λ p. dot_from (add acc p) xs ys) (comm x y) ∙ dot_from_comm comm (add acc (mul y x)) xs ys

  -- Where the product of two numbers does not depend on their order, neither does the similarity.
  pub cosine_similarity_comm :
      ((x y : F) → mul x y ≡ mul y x)
      → (a b : List F) → cosine_similarity a b ≡ cosine_similarity b a
  unfolding cosine_similarity
  cosine_similarity_comm comm [] [] = refl
  cosine_similarity_comm comm [] (y ∷ ys) = ground arith
  cosine_similarity_comm comm (x ∷ xs) [] = ground arith
  cosine_similarity_comm comm (x ∷ xs) (y ∷ ys) =
      ground
        (arith, dot_from_comm comm zero_f (x ∷ xs) (y ∷ ys), comm (norm (x ∷ xs)) (norm (y ∷ ys)))
