-- ===== src/Attention/Evaluate/Matches.antt =====
-- The matches that an evaluation reports, and their order.
use mathlib.Core.List.{Perm}
use mathlib.Core.List.Perm
use subspace_daemon.Base.{
  Bool, Bool-cases, List, Option-cases, String, [], any, arith, false, find?, find?-holds, inl, inr,
  is_empty, not, refl, some, true, ◌&&◌, ◌==◌, ◌||◌, ◌∷◌, ◌≡◌,
}
use subspace_daemon.Attention.Float.{Float}
use subspace_daemon.Attention.Receptor.{
  ReceptorClass, broad, intersection, project, wildcard, veto, is_veto_class, as_str,
  ComputedReceptor, is_veto, is_wildcard,
}
use subspace_daemon.Attention.Evaluate.{
  ReceptorMatch, insert_match, sort_matches, score_receptor, interest_matches, wildcard_matches,
  is_above,
}

-- No later score is higher than the one before it.
abbrev pub Descending : (fl : Float) → List (ReceptorMatch fl.F) → Type 0
Descending fl [] = Unit
Descending fl (m ∷ []) = Unit
Descending fl (m ∷ n ∷ ms) = (fl.lt_f m.score n.score ≡ false) × Descending fl (n ∷ ms)

-- The test of src/storage.rs for a match that permits a delivery.
abbrev pub is_accepted : {F : Type 0} → ReceptorMatch F → Bool
is_accepted m = m.above_threshold && not (as_str m.receptor_class == "veto")

pub as_str-veto : (c : ReceptorClass) → (as_str c == "veto") ≡ is_veto_class c
unfolding as_str
as_str-veto broad = refl
as_str-veto intersection = refl
as_str-veto project = refl
as_str-veto wildcard = refl
as_str-veto veto = refl

module _ (fl : Float) where
  open fl use {F, lt_f}

  any-insert_match :
      (p : ReceptorMatch F → Bool) (m : ReceptorMatch F) (ms : List (ReceptorMatch F))
      → any p (insert_match fl m ms) ≡ (p m || any p ms)
  unfolding insert_match
  any-insert_match p m [] = refl
  any-insert_match p m (x ∷ xs) = ground (arith, any-insert_match p m xs)

  pub any-sort_matches :
      (p : ReceptorMatch F → Bool) (ms : List (ReceptorMatch F))
      → any p (sort_matches fl ms) ≡ any p ms
  unfolding sort_matches
  any-sort_matches p [] = refl
  any-sort_matches p (m ∷ ms) =
      ground (arith, any-insert_match p m (sort_matches fl ms), any-sort_matches p ms)

  insert_match-perm :
      (m : ReceptorMatch F) (ms : List (ReceptorMatch F)) → Perm (insert_match fl m ms) (m ∷ ms)
  unfolding insert_match
  insert_match-perm m [] = Perm.refl (m ∷ [])
  insert_match-perm m (x ∷ xs) = elim (Bool-cases (lt_f m.score x.score)) [
    | inl e ↦ rw e (Perm.trans (Perm.cons x (insert_match-perm m xs)) (Perm.swap m x xs))
    | inr e ↦ rw e (Perm.refl (m ∷ x ∷ xs))
  ]

  sort_matches-perm : (ms : List (ReceptorMatch F)) → Perm (sort_matches fl ms) ms
  unfolding sort_matches
  sort_matches-perm [] = Perm.refl []
  sort_matches-perm (m ∷ ms) =
      Perm.trans (insert_match-perm m (sort_matches fl ms)) (Perm.cons m (sort_matches-perm ms))

  module _ (asym : (x y : F) → lt_f x y ≡ true → lt_f y x ≡ false) where
    insert_match-Descending :
        (m : ReceptorMatch F) (ms : List (ReceptorMatch F))
        → Descending fl ms
        → Descending fl (insert_match fl m ms)
    unfolding insert_match
    insert_match-Descending m [] h = tt
    insert_match-Descending m (x ∷ []) h = ground (arith, asym m.score x.score)
    insert_match-Descending m (x ∷ y ∷ ys) h =
        ground (
          arith,
          asym m.score x.score,
          asym m.score y.score,
          insert_match-Descending m (y ∷ ys) h.1,
        )

    sort_matches-Descending : (ms : List (ReceptorMatch F)) → Descending fl (sort_matches fl ms)
    unfolding sort_matches
    sort_matches-Descending [] = tt
    sort_matches-Descending (m ∷ ms) =
        insert_match-Descending m (sort_matches fl ms) (sort_matches-Descending ms)

    -- Sorting the matches keeps each of them, as often, and leaves no score above the one before
    -- it, where no two scores are each below the other.
    pub sort_matches-sorted :
        (ms : List (ReceptorMatch F))
        → Perm (sort_matches fl ms) ms × Descending fl (sort_matches fl ms)
    sort_matches-sorted ms = (sort_matches-perm ms, sort_matches-Descending ms)

  score_receptor-class :
      (v : List F) (space : String) (r : ComputedReceptor F) {m : ReceptorMatch F}
      → score_receptor fl v space r ≡ some m
      → m.receptor_class ≡ r.receptor_class
  unfolding score_receptor
  score_receptor-class v space r h = ground arith

  -- A match of a receptor that is no veto permits a delivery if it is above its threshold.
  pub interest_matches-accepted :
      (v : List F) (space : String) (rs : List (ComputedReceptor F))
      → any is_accepted (interest_matches fl v space rs)
        ≡ any is_above (interest_matches fl v space rs)
  unfolding interest_matches is_veto
  interest_matches-accepted v space [] = refl
  interest_matches-accepted v space (r ∷ rs) = elim (Option-cases (score_receptor fl v space r)) [
    | inl e ↦ ground (arith, interest_matches-accepted v space rs)
    | inr (m, e) ↦ ground (
      arith,
      interest_matches-accepted v space rs,
      score_receptor-class v space r e,
      as_str-veto m.receptor_class,
    )
  ]

  pub wildcard_matches-accepted :
      (rs : List (ComputedReceptor F))
      → any is_accepted (wildcard_matches fl rs) ≡ not (is_empty (wildcard_matches fl rs))
  unfolding wildcard_matches is_wildcard
  wildcard_matches-accepted rs = elim (Option-cases (find? is_wildcard rs)) [
    | inl e ↦ ground arith
    | inr (r, e) ↦ ground (arith, as_str-veto r.receptor_class, find?-holds is_wildcard rs e)
  ]
