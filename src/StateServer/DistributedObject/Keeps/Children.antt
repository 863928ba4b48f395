-- ===== src/StateServer/DistributedObject/Keeps/Children.antt =====
-- What the cases for the children in src/stateserver/distributed_object.cpp keep.
use ardos.Prelude.{ℕ, zero, suc, ◌+◌, ◌%◌, ◌^◌, Bool, not, List, length, ltb, ◌==◌}
use ardos.Dc.{Dc}
use ardos.Net.Datagram.{Datagram, empty}
use ardos.Net.DatagramIterator.{get_uint16, get_uint32}
use ardos.StateServer.DistributedObject.{DistributedObject, Effect}
use ardos.StateServer.DistributedObject.Keeps.{
  Stable, Keeps, Keeps-pure, Keeps-self, ◌⨾◌, Keeps-if, Keeps-fill, Keeps-change, Keeps-send,
  Keeps-publish, Keeps-from_dgi,
}
use ardos.StateServer.Messages.{stateserver_context_wake_children}
use ardos.StateServer.ZoneObjects.{children}
use ardos.StateServer.DistributedObject.Children.{
  wake_children, admit_child, move_child, handle_changing_location, handle_get_location_resp,
  count_zones, count_children, handle_get_active_zones, answer_zones, handle_get_zones,
}
use ardos.StateServer.DistributedObject.Keeps.Entries.{
  send_interest_entry-Keeps, send_location_entry-Keeps,
}

module _ (dc : Dc) (P : DistributedObject → List Effect → Type 0) (st : Stable dc P) where
  pub wake_children-Keeps : Keeps P wake_children
  unfolding wake_children
  wake_children-Keeps = Keeps-self ⨾ λ o. Keeps-publish st.quiet _

  admit_child-Keeps : (o : DistributedObject) (child zone : ℕ) → Keeps P (admit_child o child zone)
  unfolding admit_child
  admit_child-Keeps o child zone =
      Keeps-change _ (λ o l p. st.enters zone child p) ⨾ λ _. Keeps-publish st.quiet _

  move_child-Keeps :
      (o : DistributedObject) (child new_parent new_zone old_parent old_zone : ℕ)
      → Keeps P (move_child o child new_parent new_zone old_parent old_zone)
  unfolding move_child
  move_child-Keeps o child new_parent new_zone old_parent old_zone =
      Keeps-if (new_parent == o.do_id)
        (Keeps-if (old_parent == o.do_id)
          (Keeps-if (new_zone == old_zone) (Keeps-pure tt) (
            Keeps-change _ (λ o l p. st.leaves old_zone child p) ⨾ λ _.
            admit_child-Keeps o child new_zone))
          (admit_child-Keeps o child new_zone))
        (Keeps-if (old_parent == o.do_id) (Keeps-change _ λ o l p. st.leaves old_zone child p)
          (Keeps-pure tt))

  pub handle_changing_location-Keeps : Keeps P handle_changing_location
  unfolding handle_changing_location
  handle_changing_location-Keeps = Keeps-from_dgi get_uint32 ⨾ λ child.
      Keeps-from_dgi get_uint32 ⨾ λ new_parent. Keeps-from_dgi get_uint32 ⨾ λ new_zone.
      Keeps-from_dgi get_uint32 ⨾ λ old_parent. Keeps-from_dgi get_uint32 ⨾ λ old_zone.
      Keeps-self ⨾ λ o. move_child-Keeps o child new_parent new_zone old_parent old_zone

  pub handle_get_location_resp-Keeps : Keeps P handle_get_location_resp
  unfolding handle_get_location_resp
  handle_get_location_resp-Keeps = Keeps-from_dgi get_uint32 ⨾ λ context.
      Keeps-if (not (context == stateserver_context_wake_children))
        (Keeps-from_dgi get_uint32 ⨾ λ _. Keeps-pure tt)
        (Keeps-from_dgi get_uint32 ⨾ λ child. Keeps-from_dgi get_uint32 ⨾ λ parent.
          Keeps-from_dgi get_uint32 ⨾ λ zone. Keeps-self ⨾ λ o.
          Keeps-if (parent == o.do_id) (Keeps-change _ λ o l p. st.enters zone child p)
            (Keeps-pure tt))

  count_zones-Keeps : (n child_count : ℕ) (dg : Datagram) → Keeps P (count_zones n child_count dg)
  unfolding count_zones
  count_zones-Keeps zero child_count dg = Keeps-pure (child_count, dg)
  count_zones-Keeps (suc n) child_count dg = Keeps-from_dgi get_uint32 ⨾ λ zone.
      Keeps-change _ (λ o l p. st.counts zone p) ⨾ λ _. Keeps-self ⨾ λ o. Keeps-fill _ dg ⨾ λ dg'.
      count_zones-Keeps n ((child_count + length (children zone o.zone_objects)) % 2 ^ 32) dg'

  count_children-Keeps :
      (o : DistributedObject) (sender context queried_parent zone_count : ℕ)
      → Keeps P (count_children o sender context queried_parent zone_count)
  unfolding count_children
  count_children-Keeps o sender context queried_parent zone_count = Keeps-fill _ empty ⨾ λ dg.
      count_zones-Keeps zone_count 0 dg ⨾ λ counted. Keeps-publish st.quiet _ ⨾ λ _.
      Keeps-if (ltb 0 counted.0) (Keeps-send st.quiet counted.1) (Keeps-pure tt)

  pub handle_get_active_zones-Keeps : (sender : ℕ) → Keeps P (handle_get_active_zones sender)
  unfolding handle_get_active_zones
  handle_get_active_zones-Keeps sender =
      Keeps-from_dgi get_uint32 ⨾ λ context. Keeps-self ⨾ λ o. Keeps-publish st.quiet _

  answer_zones-Keeps : (n sender context : ℕ) → Keeps P (answer_zones dc n sender context)
  unfolding answer_zones
  answer_zones-Keeps zero sender context = Keeps-pure tt
  answer_zones-Keeps (suc n) sender context = Keeps-from_dgi get_uint32 ⨾ λ zone. Keeps-self ⨾ λ o.
      Keeps-if (zone == o.zone_id)
        (Keeps-if o.parent_synchronized (send_interest_entry-Keeps dc P st.quiet sender context)
          (send_location_entry-Keeps dc P st.quiet sender))
        (answer_zones-Keeps n sender context)

  pub handle_get_zones-Keeps :
      (counted : Bool) (sender : ℕ) → Keeps P (handle_get_zones dc counted sender)
  unfolding handle_get_zones
  handle_get_zones-Keeps counted sender = Keeps-from_dgi get_uint32 ⨾ λ context.
      Keeps-from_dgi get_uint32 ⨾ λ queried_parent.
      Keeps-if counted (Keeps-from_dgi get_uint16) (Keeps-pure 1) ⨾ λ zone_count. Keeps-self ⨾ λ o.
      Keeps-if (queried_parent == o.parent_id) (answer_zones-Keeps zone_count sender context) (
        Keeps-if (queried_parent == o.do_id)
          (count_children-Keeps o sender context queried_parent zone_count) (Keeps-pure tt))
