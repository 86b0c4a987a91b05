-- ===== src/Runtime/Store/Restart.antt =====
-- What a restart keeps of a `RuntimeStore`: `load` after `flush`.
use mathlib.Core.List.{append_assoc, append-nil}
use subspace_daemon.Base.{
  List, Option, String, [], ap, arith, eq_iff, false, length, length-append, refl, some, sym, ℕ,
  ◌++◌, ◌+◌, ◌<◌, ◌∙◌, ◌∷◌, ◌≡◌, ◌≤◌,
}
use subspace_daemon.Runtime.Store.{
  RuntimeStore, contains, set_insert, evict, insert_recent, insert_all_recent, empty_store, load,
  flush,
}
use subspace_daemon.Runtime.Store.Window.{IsValid, Distinct, insert_recent-IsValid, contains-append}

evict-fits :
    (window : ℕ) (ids set : List String) → length ids ≤ window → evict window ids set ≡ (ids, set)
unfolding evict
evict-fits window [] set h = refl
evict-fits window (x ∷ xs) set h = ground arith

-- A new id goes to the end where there is room.
insert_recent-order :
    (id : String) (s : RuntimeStore)
    → contains s.recent_ids_set id ≡ false
    → length s.recent_ids_order < s.dedupe_window_size
    → (insert_recent id s).recent_ids_order ≡ s.recent_ids_order ++ id ∷ []
unfolding insert_recent
insert_recent-order id s new room = ground (
  arith,
  length-append s.recent_ids_order (id ∷ []),
  evict-fits s.dedupe_window_size (s.recent_ids_order ++ id ∷ []) (set_insert id s.recent_ids_set),
)

window-insert_recent :
    (id : String) (s : RuntimeStore)
    → (insert_recent id s).dedupe_window_size ≡ s.dedupe_window_size
unfolding insert_recent
window-insert_recent id s = refl

-- No id of the list is in the other list.
abbrev Apart : List String → List String → Type 0
Apart [] seen = Unit
Apart (x ∷ xs) seen = (contains seen x ≡ false) × Apart xs seen

Apart-nil : (ids : List String) → Apart ids []
Apart-nil [] = tt
Apart-nil (x ∷ xs) = (refl, Apart-nil xs)

Apart-append :
    (x : String) (ids seen : List String)
    → contains ids x ≡ false
    → Apart ids seen
    → Apart ids (seen ++ x ∷ [])
Apart-append x [] seen h a = tt
Apart-append x (y ∷ ys) seen h a = (
  ground (arith, contains-append y x seen, eq_iff x y, eq_iff y x),
  Apart-append x ys seen (ground arith) a.1,
)

insert_all_recent-order :
    (ids : List String) (s : RuntimeStore)
    → IsValid s
    → Distinct ids
    → Apart ids s.recent_ids_order
    → length s.recent_ids_order + length ids ≤ s.dedupe_window_size
    → (insert_all_recent ids s).recent_ids_order ≡ s.recent_ids_order ++ ids
unfolding insert_all_recent
insert_all_recent-order [] s v d a room = sym (append-nil s.recent_ids_order)
insert_all_recent-order (x ∷ xs) s v d a room =
    let one = insert_recent-order x s (v.agree x ∙ a.0) (omega arith) in
    insert_all_recent-order xs (insert_recent x s) (insert_recent-IsValid x v) d.1
      (rw one (Apart-append x xs s.recent_ids_order d.0 a.1))
      (ground
        (arith, ap length one, length-append s.recent_ids_order (x ∷ []), window-insert_recent x s))
    ∙ (ap (λ l. l ++ xs) one ∙ append_assoc s.recent_ids_order (x ∷ []) xs)

last_seen-insert_all_recent :
    (ids : List String) (s : RuntimeStore)
    → ((insert_all_recent ids s).last_seen_ts ≡ s.last_seen_ts)
      × ((insert_all_recent ids s).reconnect_storm ≡ s.reconnect_storm)
unfolding insert_all_recent insert_recent
last_seen-insert_all_recent [] s = (refl, refl)
last_seen-insert_all_recent (x ∷ xs) s = last_seen-insert_all_recent xs (insert_recent x s)

-- A restart with the same window reads back what a valid store has written: the recent ids in their
-- order, the last timestamp and the state of the reconnect guard.
pub load-flush :
    (now : ℕ) (s : RuntimeStore) (floor : Option String)
    → IsValid s
    → ((load now (some (flush s)) s.dedupe_window_size floor).recent_ids_order ≡ s.recent_ids_order)
      × ((load now (some (flush s)) s.dedupe_window_size floor).last_seen_ts ≡ s.last_seen_ts)
      × ((load now (some (flush s)) s.dedupe_window_size floor).reconnect_storm ≡ s.reconnect_storm)
unfolding load flush empty_store
load-flush now s floor v =
    let kept = last_seen-insert_all_recent s.recent_ids_order _ in
    (
      insert_all_recent-order s.recent_ids_order _
          (record { agree = λ id. refl; distinct = tt; bounded = omega arith }) v.distinct
          (Apart-nil s.recent_ids_order) (omega (arith, v.bounded)),
      kept.0,
      kept.1,
    )
