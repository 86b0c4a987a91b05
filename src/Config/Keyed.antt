-- ===== src/Config/Keyed.antt =====
-- src/config.rs: the loops of `Config::from_stored`, `normalize_sinks` and
-- `normalize_hard_failure_hooks`, which read the entries of a list and refuse a key for the second
-- time. `read` is what such a loop does with an entry: it gives the entry's key, and what is left
-- to be done after the key was found to be new.
use mathlib.Core.Path.{subst}
use subspace_daemon.Base.{
  >>=-eq-ok, All, Bool, List, Result, String, [], any, ap, arith, bail_if, bail_if-ok, eq_iff,
  false, map, ok, ok-inj, refl, suc, sym, ℕ, ◌==◌, ◌>>=◌, ◌↔◌, ◌∙◌, ◌∷◌, ◌≡◌, ◌≢◌,
}

-- Each key differs from those after it.
abbrev pub Distinct : List String → Type 0
Distinct [] = Unit
Distinct (k ∷ ks) = All (λ other. k ≢ other) ks × Distinct ks

module _ {E A B : Type 0} (read : ℕ → A → Result E (String × Result E B))
    (duplicate : String → E) where
  abbrev pub is_seen : List String → String → Bool
  is_seen seen key = any (λ k. k == key) seen

  -- The position of the first entry and the keys that were seen before it are arguments.
  unfoldable pub keyed_loop : ℕ → List String → List A → Result E (List B)
  keyed_loop index seen [] = ok []
  keyed_loop index seen (x ∷ xs) = read index x >>= λ p.
      bail_if (is_seen seen p.0) (duplicate p.0) >>= λ _.
      p.1 >>= λ b. keyed_loop (suc index) (p.0 ∷ seen) xs >>= λ bs. ok (b ∷ bs)

  -- Every entry can be read, with those keys and values.
  pub data Reads : ℕ → List A → List String → List B → Type 0 where
    nothing : {i : ℕ} → Reads i [] [] []
    next :
        {i : ℕ} {x : A} {xs : List A} {k : String} {ks : List String} {b : B} {bs : List B}
        → read i x ≡ ok (k, ok b)
        → Reads (suc i) xs ks bs
        → Reads i (x ∷ xs) (k ∷ ks) (b ∷ bs)

  abbrev pub AllNew : List String → List String → Type 0
  AllNew seen = All (λ k. is_seen seen k ≡ false)

  AllNew-split :
      (k : String) (seen ks : List String)
      → AllNew (k ∷ seen) ks
      → AllNew seen ks × All (λ other. k ≢ other) ks
  AllNew-split k seen [] h = (tt, tt)
  AllNew-split k seen (o ∷ ks) h =
      let rest = AllNew-split k seen ks h.1 in
      ((ground (arith, h.0), rest.0), (ground (arith, h.0, eq_iff k o), rest.1))

  AllNew-join :
      (k : String) (seen ks : List String)
      → AllNew seen ks
      → All (λ other. k ≢ other) ks
      → AllNew (k ∷ seen) ks
  AllNew-join k seen [] new h = tt
  AllNew-join k seen (o ∷ ks) new h =
      (ground (arith, new.0, h.0, eq_iff k o), AllNew-join k seen ks new.1 h.1)

  pub AllNew-nothing : (ks : List String) → AllNew [] ks
  AllNew-nothing [] = tt
  AllNew-nothing (k ∷ ks) = (refl, AllNew-nothing ks)

  Reads-cast :
      {i : ℕ} {xs : List A} {ks : List String} {bs cs : List B}
      → bs ≡ cs
      → Reads i xs ks bs
      → Reads i xs ks cs
  Reads-cast e reads = rw (sym e) reads

  pub keyed_loop_sound :
      (i : ℕ) (seen : List String) (xs : List A) {bs : List B}
      → keyed_loop i seen xs ≡ ok bs
      → (ks : List String) × Reads i xs ks bs × AllNew seen ks × Distinct ks
  unfolding keyed_loop
  keyed_loop_sound i seen [] h = ([], Reads-cast (ok-inj h) nothing, tt, tt)
  keyed_loop_sound i seen (x ∷ xs) h =
      let (p, found, h1) = >>=-eq-ok (read i x) _ h in
      let (u, new, h2) = >>=-eq-ok (bail_if (is_seen seen p.0) (duplicate p.0)) _ h1 in
      let (b, made, h3) = >>=-eq-ok p.1 _ h2 in
      let (more, rest, h4) = >>=-eq-ok (keyed_loop (suc i) (p.0 ∷ seen) xs) _ h3 in
      let (ks, reads, unseen, distinct) = keyed_loop_sound (suc i) (p.0 ∷ seen) xs rest in
      let parts = AllNew-split p.0 seen ks unseen in
      (
        p.0 ∷ ks,
        Reads-cast (ok-inj h4) (next (found ∙ ap (λ r. ok (p.0, r)) made) reads),
        (bail_if-ok (duplicate p.0) new, parts.0),
        (parts.1, distinct),
      )

  pub keyed_loop_complete :
      (i : ℕ) (seen : List String) (xs : List A) {ks : List String} {bs : List B}
      → Reads i xs ks bs
      → AllNew seen ks
      → Distinct ks
      → keyed_loop i seen xs ≡ ok bs
  unfolding keyed_loop
  keyed_loop_complete i seen [] nothing new d = refl
  keyed_loop_complete i seen (x ∷ xs) (next {k = k} {ks = ks} e more) new d =
      let rest =
        keyed_loop_complete (suc i) (k ∷ seen) xs more (AllNew-join k seen ks new.1 d.0) d.1 in
      rw (keyed_loop, e, new.0, rest) refl

  module _ (key : B → String) (R : ℕ → A → B → Type 0) where
    -- The entries and the values correspond one by one; the relation may use the position.
    abbrev pub AllAt : ℕ → List A → List B → Type 0
    AllAt i [] [] = Unit
    AllAt i [] (b ∷ bs) = ⊥
    AllAt i (x ∷ xs) [] = ⊥
    AllAt i (x ∷ xs) (b ∷ bs) = R i x b × AllAt (suc i) xs bs

    Reads-AllAt :
        ((i : ℕ) (x : A) (k : String) (b : B) → read i x ≡ ok (k, ok b) → (k ≡ key b) × R i x b)
        → (i : ℕ) (xs : List A) {ks : List String} (bs : List B) → Reads i xs ks bs
        → (ks ≡ map key bs) × AllAt i xs bs
    Reads-AllAt sound i [] [] nothing = (refl, tt)
    Reads-AllAt sound i [] (b ∷ bs) h = elim h [ ]
    Reads-AllAt sound i (x ∷ xs) [] h = elim h [ ]
    Reads-AllAt sound i (x ∷ xs) (b ∷ bs) (next {k = k} e more) =
        let one = sound i x k b e in
        let rest = Reads-AllAt sound (suc i) xs bs more in (cc (one.0, rest.0), (one.1, rest.1))

    AllAt-Reads :
        ((i : ℕ) (x : A) (b : B) → R i x b → read i x ≡ ok (key b, ok b))
        → (i : ℕ) (xs : List A) (bs : List B) → AllAt i xs bs
        → Reads i xs (map key bs) bs
    AllAt-Reads complete i [] [] h = nothing
    AllAt-Reads complete i [] (b ∷ bs) h = absurd h
    AllAt-Reads complete i (x ∷ xs) [] h = absurd h
    AllAt-Reads complete i (x ∷ xs) (b ∷ bs) h =
        next (complete i x b h.0) (AllAt-Reads complete (suc i) xs bs h.1)

    -- The loop gives those values exactly where each is read of its entry and no key is repeated.
    pub keyed_loop_accepts :
        ((i : ℕ) (x : A) (k : String) (b : B) → read i x ≡ ok (k, ok b) → (k ≡ key b) × R i x b)
        → ((i : ℕ) (x : A) (b : B) → R i x b → read i x ≡ ok (key b, ok b))
        → (xs : List A) (bs : List B)
        → (keyed_loop 0 [] xs ≡ ok bs) ↔ (AllAt 0 xs bs × Distinct (map key bs))
    keyed_loop_accepts sound complete xs bs = (
      λ h.
          let (ks, reads, new, distinct) = keyed_loop_sound 0 [] xs h in
          let all = Reads-AllAt sound 0 xs bs reads in (all.1, subst Distinct (all.0) distinct),
      λ h.
          keyed_loop_complete 0 [] xs (AllAt-Reads complete 0 xs bs h.0)
            (AllNew-nothing (map key bs)) h.1,
    )
