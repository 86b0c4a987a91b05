-- ===== src/Storage/Sinks/Delivered.antt =====
-- A delivery that was made is not queued again.
use subspace_daemon.Base.{
  Option, Option-cases, arith, eqb_refl, false, find?, get_or, inl, inr, ok, option_map, refl, some,
  ℕ, ◌≡◌,
}
use subspace_daemon.Storage.Tables.{Database, SinkDelivery, SinkSnapshot}
use subspace_daemon.Storage.Action.{query_row}
use subspace_daemon.Storage.Tables.Finding.{find?-upsert}
use subspace_daemon.Storage.Sinks.{
  is_delivered, is_delivery_of, requeue, new_delivery, write_sink_delivery, upsert_sink_delivery,
  sink_delivery_id,
}

requeue-is_delivered :
    (now : ℕ) (s : SinkSnapshot) (r : SinkDelivery)
    → is_delivered (requeue now s r) ≡ is_delivered r
requeue-is_delivered now s r = ground arith

module _ {F : Type 0} where
  -- the delivery of an event to a target
  unfoldable pub delivery : ℕ → ℕ → Database F → Option SinkDelivery
  delivery event target d = find? (is_delivery_of event target) d.sink_delivery.rows

  delivery-write :
      (now event target : ℕ) (s : SinkSnapshot) (d : Database F)
      → delivery event target (write_sink_delivery now event target s d)
        ≡ some (
            get_or
              (option_map (requeue now s) (delivery event target d))
              (new_delivery now event target s d.sink_delivery.next_id))
  unfolding write_sink_delivery delivery
  delivery-write now event target s d =
      find?-upsert (is_delivery_of event target) (requeue now s) (new_delivery now event target s)
        d.sink_delivery (λ r. refl) (ground (arith, eqb_refl event, eqb_refl target))

  upsert-eq :
      (now event target : ℕ) (s : SinkSnapshot) (d : Database F)
      → upsert_sink_delivery now event target s d
        ≡ query_row
            (λ x. option_map (λ r. r.id) (delivery event target x))
            (write_sink_delivery now event target s d)
  unfolding upsert_sink_delivery sink_delivery_id delivery
  upsert-eq now event target s d = refl

  -- Queueing a delivery succeeds with the id of the event's first delivery to the target: that of
  -- the row that was there, or else the next free one. Afterwards that delivery is delivered
  -- exactly if it was delivered before.
  pub delivered_kept :
      (now event target : ℕ) (s : SinkSnapshot) (d : Database F)
      → let r = upsert_sink_delivery now event target s d in
        let before = delivery event target d in
        let after = delivery event target r.0 in
        (r.1 ≡ ok (get_or (option_map (λ x. x.id) before) d.sink_delivery.next_id))
        × (option_map is_delivered after ≡ some (get_or (option_map is_delivered before) false))
  delivered_kept now event target s d =
      let written = delivery-write now event target s d in
      rw (upsert-eq now event target s d) (elim (Option-cases (delivery event target d)) [
        | inl e ↦ ground (arith, written)
        | inr (r, e) ↦ ground (arith, written, requeue-is_delivered now s r)
      ])
