-- ===== src/Storage/Tables/Finding.antt =====
-- The first row of a table that a predicate chooses, after a statement.
use subspace_daemon.Base.{
  Bool, List, Option-cases, [], any, arith, find?, find?-holds, get_or, if◌then◌else◌, inl, inr,
  is_some, map, option_map, or_else, refl, some, true, ℕ, ◌++◌, ◌∷◌, ◌≡◌,
}
use subspace_daemon.Storage.Tables.{Table, upsert}

module _ {R : Type 0} where
  pub find?-map :
      (p : R → Bool) (f : R → R) (rs : List R)
      → ((r : R) → p (f r) ≡ p r)
      → find? p (map f rs) ≡ option_map f (find? p rs)
  find?-map p f [] h = refl
  find?-map p f (r ∷ rs) h = ground (arith, h r, find?-map p f rs h)

  pub find?-append :
      (p : R → Bool) (xs ys : List R) → find? p (xs ++ ys) ≡ or_else (find? p xs) (find? p ys)
  find?-append p [] ys = refl
  find?-append p (x ∷ xs) ys = ground (arith, find?-append p xs ys)

  pub find?-any : (p : R → Bool) (rs : List R) → is_some (find? p rs) ≡ any p rs
  find?-any p [] = refl
  find?-any p (r ∷ rs) = ground (arith, find?-any p rs)

  if-keeps :
      (p : R → Bool) (q : R → Bool) (f : R → R)
      → ((r : R) → p (f r) ≡ p r)
      → (r : R) → p (if q r then f r else r) ≡ p r
  if-keeps p q f h r = ground (arith, h r)

  if-chosen :
      (p : R → Bool) (f : R → R) (rs : List R)
      → option_map (λ r. if p r then f r else r) (find? p rs) ≡ option_map f (find? p rs)
  if-chosen p f rs = elim (Option-cases (find? p rs)) [
    | inl e ↦ ground (arith, e)
    | inr (r, e) ↦ ground (arith, e, find?-holds p rs e)
  ]

  -- After an upsert the row in conflict is there: the updated one, or the new one.
  pub find?-upsert :
      (p : R → Bool) (f : R → R) (fresh : ℕ → R) (t : Table R)
      → ((r : R) → p (f r) ≡ p r)
      → p (fresh t.next_id) ≡ true
      → find? p (upsert p f fresh t).rows
        ≡ some (get_or (option_map f (find? p t.rows)) (fresh t.next_id))
  unfolding upsert
  find?-upsert p f fresh t h new = elim (Option-cases (find? p t.rows)) [
    | inl e ↦ ground (arith, find?-any p t.rows, find?-append p t.rows (fresh t.next_id ∷ []))
    | inr (r, e) ↦ ground (
      arith,
      find?-any p t.rows,
      find?-map p (λ r. if p r then f r else r) t.rows (if-keeps p p f h),
      if-chosen p f t.rows,
    )
  ]
