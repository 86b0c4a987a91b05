-- ===== src/Runtime/Store/Dedupe/Taken.antt =====
-- How long an id that a `RuntimeStore` has taken stays taken.
use subspace_daemon.Base.{
  Bool-cases, List, String, [], arith, eq_iff, eq_refl, false, if◌then◌else◌, inl, inr, length,
  length-append, not, refl, suc, true, ℕ, ◌&&◌, ◌++◌, ◌+◌, ◌<◌, ◌==◌, ◌∷◌, ◌≡◌,
}
use subspace_daemon.Runtime.Store.{
  RuntimeStore, contains, set_remove, set_insert, evict, insert_recent, mark_processed,
}
use subspace_daemon.Runtime.Store.Window.{IsValid, contains-set_remove, contains-append}

-- how many ids came after this one
abbrev pub younger : String → List String → ℕ
younger id [] = 0
younger id (x ∷ xs) = if x == id then length xs else younger id xs

-- The id is taken: a message with it is on its way, or it is among the `k` ids processed last.
pub data IsTaken (id : String) (k : ℕ) (s : RuntimeStore) : Type 0 where
  waits : contains s.pending_ids id ≡ true → contains s.recent_ids_order id ≡ false → IsTaken id k s
  done : contains s.recent_ids_order id ≡ true → younger id s.recent_ids_order < k → IsTaken id k s

evict-keeps :
    (window : ℕ) (id : String) (ids set : List String)
    → contains ids id ≡ true
    → younger id ids < window
    → (contains (evict window ids set).0 id ≡ true)
      × (younger id (evict window ids set).0 ≡ younger id ids)
unfolding evict
evict-keeps window id [] set h y = absurd (ground arith)
evict-keeps window id (x ∷ xs) set h y = ground (arith, evict-keeps window id xs (set_remove x set))

evict-absent :
    (window : ℕ) (id : String) (ids set : List String)
    → contains ids id ≡ false
    → contains (evict window ids set).0 id ≡ false
unfolding evict
evict-absent window id [] set h = h
evict-absent window id (x ∷ xs) set h = ground (arith, evict-absent window id xs (set_remove x set))

younger-append :
    (id x : String) (ids : List String)
    → contains ids id ≡ true
    → younger id (ids ++ x ∷ []) ≡ younger id ids + 1
younger-append id x [] h = absurd (ground arith)
younger-append id x (y ∷ ys) h = ground (arith, younger-append id x ys, length-append ys (x ∷ []))

younger-append_self :
    (id : String) (ids : List String) → contains ids id ≡ false → younger id (ids ++ id ∷ []) ≡ 0
younger-append_self id [] h = ground (arith, eq_refl id)
younger-append_self id (y ∷ ys) h = ground (arith, younger-append_self id ys)

module _ (id x : String) {s : RuntimeStore} (v : IsValid s) where
  insert_recent-done :
      (k : ℕ)
      → contains s.recent_ids_order id ≡ true
      → younger id s.recent_ids_order < k
      → k < s.dedupe_window_size
      → (contains (insert_recent x s).recent_ids_order id ≡ true)
        × (younger id (insert_recent x s).recent_ids_order < suc k)
  unfolding insert_recent
  insert_recent-done k h y room = elim (Bool-cases (contains s.recent_ids_set x)) [
    | inl old ↦ ground (
      arith,
      evict-keeps s.dedupe_window_size id s.recent_ids_order (set_insert x s.recent_ids_set),
    )
    | inr new ↦ ground (
      arith,
      younger-append id x s.recent_ids_order,
      contains-append id x s.recent_ids_order,
      evict-keeps s.dedupe_window_size id (s.recent_ids_order ++ x ∷ [])
          (set_insert x s.recent_ids_set),
    )
  ]

  insert_recent-absent :
      contains s.recent_ids_order id ≡ false
      → (x == id) ≡ false
      → contains (insert_recent x s).recent_ids_order id ≡ false
  unfolding insert_recent
  insert_recent-absent h other = elim (Bool-cases (contains s.recent_ids_set x)) [
    | inl old ↦ ground (
      arith,
      evict-absent s.dedupe_window_size id s.recent_ids_order (set_insert x s.recent_ids_set),
    )
    | inr new ↦ ground (
      arith,
      contains-append id x s.recent_ids_order,
      evict-absent s.dedupe_window_size id (s.recent_ids_order ++ x ∷ [])
          (set_insert x s.recent_ids_set),
    )
  ]

insert_recent_self :
    (id : String) {s : RuntimeStore}
    → IsValid s
    → contains s.recent_ids_order id ≡ false
    → 0 < s.dedupe_window_size
    → (contains (insert_recent id s).recent_ids_order id ≡ true)
      × (younger id (insert_recent id s).recent_ids_order ≡ 0)
unfolding insert_recent
insert_recent_self id {s} v h room = ground (
  arith,
  v.agree id,
  eq_refl id,
  younger-append_self id s.recent_ids_order,
  contains-append id id s.recent_ids_order,
  evict-keeps s.dedupe_window_size id (s.recent_ids_order ++ id ∷ [])
      (set_insert id s.recent_ids_set),
)

window-insert_recent :
    (id : String) (s : RuntimeStore)
    → (insert_recent id s).dedupe_window_size ≡ s.dedupe_window_size
unfolding insert_recent
window-insert_recent id s = refl

-- the store that `mark_processed` inserts into
abbrev settled : String → RuntimeStore → RuntimeStore
settled id s = record s { pending_ids = set_remove id s.pending_ids }

pending-settled :
    (x id : String) (s : RuntimeStore)
    → contains (insert_recent x (settled x s)).pending_ids id
      ≡ (not (x == id) && contains s.pending_ids id)
unfolding insert_recent
pending-settled x id s = contains-set_remove x id s.pending_ids

settled-IsValid : (id : String) {s : RuntimeStore} → IsValid s → IsValid (settled id s)
settled-IsValid id v = record { agree = v.agree; distinct = v.distinct; bounded = v.bounded }

pub mark_processed-IsTaken :
    (id x timestamp : String) (k : ℕ) {s : RuntimeStore}
    → IsValid s
    → k < s.dedupe_window_size
    → IsTaken id k s
    → IsTaken id (suc k) (mark_processed x timestamp s)
unfolding mark_processed
mark_processed-IsTaken id x timestamp k {s} v room (done h y) =
    let kept = insert_recent-done id x (settled-IsValid x v) k h y room in done kept.0 kept.1
mark_processed-IsTaken id x timestamp k {s} v room (waits p h) = elim (Bool-cases (x == id)) [
  | inl same ↦
      let e : x ≡ id = (eq_iff x id).0 same in
      let self = insert_recent_self id (settled-IsValid id v) h (omega arith) in
      rw e (done self.0 (omega (arith, self.1)))
  | inr other ↦
      waits (ground (arith, pending-settled x id s))
        (insert_recent-absent id x (settled-IsValid x v) h other)
]
