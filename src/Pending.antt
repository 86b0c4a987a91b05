-- ===== src/Pending.antt =====
-- src/subspace/client.rs and src/gateway/client.rs: the `HashMap` of the requests that wait for a
-- response, by their references. A sender that is dropped answers its request as well.
use subspace_daemon.Base.{
  Bool, List, Option, String, [], arith, eqb, false, if◌then◌else◌, none, refl, some, true, ℕ, ◌++◌,
  ◌+◌, ◌==◌, ◌∷◌, ◌≡◌,
}
use mathlib.Core.Path.{subst}

module _ {A : Type 0} where
  -- `remove`: the entry of a key, and the others
  unfoldable pub take : String → List (String × A) → Option A × List (String × A)
  take key [] = (none, [])
  take key ((other, a) ∷ entries) = elim (other == key) [
    | true ↦ (some a, entries)
    | false ↦ let rest = take key entries in (rest.0, (other, a) ∷ rest.1)
  ]

  -- `insert`: the entry that it replaces, which is dropped, and the map
  unfoldable pub put : String → A → List (String × A) → Option A × List (String × A)
  unfolding take
  put key a entries = let old = take key entries in (old.0, (key, a) ∷ old.1)

  module _ (p : A → Bool) where
    -- how many entries satisfy a test
    abbrev pub tally : List A → ℕ
    tally [] = 0
    tally (a ∷ as_) = (if p a then 1 else 0) + tally as_

    abbrev pub one : Option A → ℕ
    one none = 0
    one (some a) = if p a then 1 else 0

    abbrev pub waiting : List (String × A) → ℕ
    waiting [] = 0
    waiting ((key, a) ∷ entries) = (if p a then 1 else 0) + waiting entries

    pub waiting-take :
        (key : String) (entries : List (String × A))
        → one (take key entries).0 + waiting (take key entries).1 ≡ waiting entries
    unfolding take
    waiting-take key [] = refl
    waiting-take key ((other, a) ∷ entries) = ground (arith, waiting-take key entries)

    pub waiting_taken :
        (key : String) (a : A) (entries : List (String × A))
        → (take key entries).0 ≡ some a
        → (if p a then 1 else 0) + waiting (take key entries).1 ≡ waiting entries
    waiting_taken key a entries h =
        subst (λ o. one o + waiting (take key entries).1 ≡ waiting entries) h
          (waiting-take key entries)

    pub waiting-put :
        (key : String) (a : A) (entries : List (String × A))
        → one (put key a entries).0 + waiting (put key a entries).1
          ≡ (if p a then 1 else 0) + waiting entries
    unfolding put
    waiting-put key a entries = omega (arith, waiting-take key entries)

pub tally-append :
    {A : Type 0} (p : A → Bool) (xs ys : List A) → tally p (xs ++ ys) ≡ tally p xs + tally p ys
tally-append p [] ys = omega arith
tally-append p (x ∷ xs) ys = omega (arith, tally-append p xs ys)

module _ {A : Type 0} where
  -- how often a request is answered
  abbrev pub answered : ℕ → List (ℕ × A) → ℕ
  answered n = tally (λ r. eqb r.0 n)

  pub answered-append :
      (n : ℕ) (xs ys : List (ℕ × A)) → answered n (xs ++ ys) ≡ answered n xs + answered n ys
  answered-append n xs ys = tally-append (λ r. eqb r.0 n) xs ys
