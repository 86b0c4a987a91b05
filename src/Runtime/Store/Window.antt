-- ===== src/Runtime/Store/Window.antt =====
-- The invariant of the recent ids of `RuntimeStore`, and what keeps it.
use subspace_daemon.Base.{
  Bool-cases, List, Option, String, [], ap, arith, eq_iff, false, if◌then◌else◌, inl, inr, length,
  ltb, none, not, refl, some, sym, true, ℕ, ◌&&◌, ◌++◌, ◌==◌, ◌||◌, ◌∙◌, ◌∷◌, ◌≡◌, ◌≤◌,
}
use subspace_daemon.Runtime.Store.{
  RuntimeStore, RuntimeFile, contains, set_remove, set_insert, evict, insert_recent,
  insert_all_recent, mark_failed, mark_processed, empty_store, load,
}

abbrev pub Distinct : List String → Type 0
Distinct [] = Unit
Distinct (x ∷ xs) = (contains xs x ≡ false) × Distinct xs

-- The two views of the recent ids agree, no id is in the order twice, and there are at most as many
-- as the window.
pub record IsValid (s : RuntimeStore) : Type 0 where
  pub agree : (id : String) → contains s.recent_ids_set id ≡ contains s.recent_ids_order id
  pub distinct : Distinct s.recent_ids_order
  pub bounded : length s.recent_ids_order ≤ s.dedupe_window_size

pub contains-set_remove :
    (k q : String) (ids : List String)
    → contains (set_remove k ids) q ≡ (not (k == q) && contains ids q)
unfolding set_remove
contains-set_remove k q [] = ground arith
contains-set_remove k q (x ∷ xs) =
    ground (arith, contains-set_remove k q xs, eq_iff x k, eq_iff x q, eq_iff k q)

pub contains-eq :
    (k q : String) (ids : List String) → (k == q) ≡ true → contains ids k ≡ contains ids q
contains-eq k q ids h = ap (contains ids) ((eq_iff k q).0 h)

pub contains-set_insert :
    (k q : String) (ids : List String) → contains (set_insert k ids) q ≡ (k == q || contains ids q)
unfolding set_insert
contains-set_insert k q ids = ground (arith, contains-eq k q ids)

pub contains-append :
    (q x : String) (ids : List String) → contains (ids ++ x ∷ []) q ≡ (x == q || contains ids q)
contains-append q x [] = refl
contains-append q x (y ∷ ys) = ground (arith, contains-append q x ys)

Distinct-append :
    (x : String) (ids : List String)
    → contains ids x ≡ false
    → Distinct ids
    → Distinct (ids ++ x ∷ [])
Distinct-append x [] h d = (refl, tt)
Distinct-append x (y ∷ ys) h d = (
  ground (arith, contains-append y x ys, eq_iff x y, eq_iff y x),
  Distinct-append x ys (ground arith) d.1,
)

-- What the loop of evictions leaves.
record IsKept (window : ℕ) (kept : List String × List String) : Type 0 where
  agree : (id : String) → contains kept.1 id ≡ contains kept.0 id
  distinct : Distinct kept.0
  bounded : length kept.0 ≤ window

evict-IsKept :
    (window : ℕ) (ids set : List String)
    → Distinct ids
    → ((id : String) → contains set id ≡ contains ids id)
    → IsKept window (evict window ids set)
unfolding evict
evict-IsKept window [] set d h = record { agree = h; distinct = tt; bounded = omega arith }
evict-IsKept window (x ∷ xs) set d h = elim (Bool-cases (ltb window (length (x ∷ xs)))) [
  | inl more ↦ rw more (
      evict-IsKept window xs (set_remove x set) d.1
        (λ id. ground (arith, contains-set_remove x id set, h id, contains-eq x id xs)))
  | inr fits ↦ rw fits (record { agree = h; distinct = d; bounded = ground arith })
]

pub insert_recent-IsValid :
    (id : String) {s : RuntimeStore} → IsValid s → IsValid (insert_recent id s)
unfolding insert_recent
insert_recent-IsValid id {s} v = record {
  agree = kept.agree;
  distinct = kept.distinct;
  bounded = kept.bounded;
}
  where
    order : List String
    order =
        if contains s.recent_ids_set id then s.recent_ids_order else s.recent_ids_order ++ id ∷ []

    order-Distinct : Distinct order
    order-Distinct = elim (Bool-cases (contains s.recent_ids_set id)) [
      | inl old ↦ rw old v.distinct
      | inr new ↦ rw new (Distinct-append id s.recent_ids_order (sym (v.agree id) ∙ new) v.distinct)
    ]

    order-agree : (q : String) → contains (set_insert id s.recent_ids_set) q ≡ contains order q
    order-agree q = ground (
      arith,
      v.agree q,
      contains-set_insert id q s.recent_ids_set,
      contains-append q id s.recent_ids_order,
      contains-eq id q s.recent_ids_set,
    )

    kept :
        IsKept s.dedupe_window_size
          (evict s.dedupe_window_size order (set_insert id s.recent_ids_set))
    kept =
        evict-IsKept s.dedupe_window_size order (set_insert id s.recent_ids_set) order-Distinct
          order-agree

insert_all_recent-IsValid :
    (ids : List String) {s : RuntimeStore} → IsValid s → IsValid (insert_all_recent ids s)
unfolding insert_all_recent
insert_all_recent-IsValid [] v = v
insert_all_recent-IsValid (id ∷ ids) v = insert_all_recent-IsValid ids (insert_recent-IsValid id v)

-- A store that is loaded is valid, whatever the file holds: also if it lists an id twice, or more
-- ids than the window.
pub load-IsValid :
    (now : ℕ) (file : Option RuntimeFile) (window : ℕ) (floor : Option String)
    → IsValid (load now file window floor)
unfolding load empty_store
load-IsValid now none window floor = record {
  agree = λ id. refl;
  distinct = tt;
  bounded = omega arith;
}
load-IsValid now (some file) window floor =
    insert_all_recent-IsValid file.recent_ids
      (record { agree = λ id. refl; distinct = tt; bounded = omega arith })

pub mark_failed-IsValid : (id : String) {s : RuntimeStore} → IsValid s → IsValid (mark_failed id s)
unfolding mark_failed
mark_failed-IsValid id v = record { agree = v.agree; distinct = v.distinct; bounded = v.bounded }

pub mark_processed-IsValid :
    (id timestamp : String) {s : RuntimeStore} → IsValid s → IsValid (mark_processed id timestamp s)
unfolding mark_processed
mark_processed-IsValid id timestamp {s} v =
    let w : IsValid (insert_recent id (record s { pending_ids = set_remove id s.pending_ids })) =
      insert_recent-IsValid id
        (record { agree = v.agree; distinct = v.distinct; bounded = v.bounded }) in
    record { agree = w.agree; distinct = w.distinct; bounded = w.bounded }
