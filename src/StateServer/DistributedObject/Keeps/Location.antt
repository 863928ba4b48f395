-- ===== src/StateServer/DistributedObject/Keeps/Location.antt =====
-- What the cases for the location in src/stateserver/distributed_object.cpp keep.
use ardos.Prelude.{ℕ, sym, not, List, ◌==◌, arith, if_ind, subst}
use ardos.Prelude.Action.{Action, Result}
use ardos.Dc.{Dc}
use ardos.Net.DatagramIterator.{get_uint32}
use ardos.StateServer.DistributedObject.{DistributedObject, Effect, Call}
use ardos.StateServer.DistributedObject.Keeps.{
  Stable, Keeps, Keeps-pure, Keeps-self, ◌⨾◌, Keeps-if, Keeps-change, Keeps-publish, Keeps-from_dgi,
}
use ardos.StateServer.DistributedObject.{self, change}
use ardos.StateServer.DistributedObject.Location.{
  ask_ai, announce_location, change_location, handle_location_change, handle_set_location,
  handle_get_location, handle_location_ack, relocate, parent_targets, zone_targets,
}
use ardos.StateServer.DistributedObject.Keeps.Moved.{moved, after_join, move-eq}
use ardos.StateServer.DistributedObject.Keeps.Entries.{send_location_entry-Keeps}

module _ (dc : Dc) (P : DistributedObject → List Effect → Type 0) (st : Stable dc P) where
  ask_ai-Keeps : Keeps P ask_ai
  unfolding ask_ai
  ask_ai-Keeps =
      Keeps-self ⨾ λ o. Keeps-change _ (λ o l p. st.asks p) ⨾ λ _. Keeps-publish st.quiet _

  announce_location-Keeps :
      (old : DistributedObject) (targets : List ℕ) (parent zone : ℕ)
      → Keeps P (announce_location dc old targets parent zone)
  unfolding announce_location
  announce_location-Keeps old targets parent zone =
      Keeps-change _ (λ o l p. st.unsynchronizes p) ⨾ λ _. Keeps-publish st.quiet _ ⨾ λ _.
      Keeps-if (parent == 0) (Keeps-pure tt) (send_location_entry-Keeps dc P st.quiet _)

  after_join-Keeps : (parent : ℕ) → Keeps P (after_join parent)
  after_join-Keeps parent = Keeps-self ⨾ λ o.
      Keeps-if (parent == 0)
        (Keeps-if o.ai_explicitly_set (Keeps-pure tt) (Keeps-change _ λ o l p. st.loses_ai p))
        (Keeps-if o.ai_explicitly_set (Keeps-pure tt) ask_ai-Keeps)

  pub handle_location_change-Keeps :
      (parent zone sender : ℕ) → Keeps P (handle_location_change dc parent zone sender)
  unfolding handle_location_change change_location self change
  handle_location_change-Keeps parent zone sender = record {
    kept = λ c p.
        if_ind (λ (m : Action Call (Unit {0})). P (m c).1.object (m c).1.log)
          (parent == c.object.do_id) (λ _. p)
          (λ not_self.
            if_ind (λ (m : Action Call (Unit {0})). P (m c).1.object (m c).1.log)
              (not (parent == c.object.parent_id))
              (λ other.
                subst (λ (r : Result (Unit {0}) × Call). P r.1.object r.1.log)
                  (sym (
                    move-eq parent zone
                      (announce_location dc c.object (parent_targets c.object parent) parent zone)
                      c))
                  ((after_join-Keeps parent ⨾ λ _.
                      announce_location-Keeps c.object (parent_targets c.object parent) parent
                        zone).kept
                    (moved parent zone c) (st.moves parent zone not_self (ground arith) p)))
              (λ same.
                if_ind (λ (m : Action Call (Unit {0})). P (m c).1.object (m c).1.log)
                  (not (zone == c.object.zone_id))
                  (λ _.
                    (announce_location-Keeps c.object (zone_targets c.object) parent zone).kept
                      (record c { object = relocate parent zone c.object })
                      (st.shifts parent zone (ground arith) p))
                  (λ _. p)));
  }

  pub handle_set_location-Keeps : (sender : ℕ) → Keeps P (handle_set_location dc sender)
  unfolding handle_set_location
  handle_set_location-Keeps sender = Keeps-from_dgi get_uint32 ⨾ λ parent.
      Keeps-from_dgi get_uint32 ⨾ λ zone. handle_location_change-Keeps parent zone sender

  pub handle_get_location-Keeps : (sender : ℕ) → Keeps P (handle_get_location sender)
  unfolding handle_get_location
  handle_get_location-Keeps sender =
      Keeps-from_dgi get_uint32 ⨾ λ context. Keeps-self ⨾ λ o. Keeps-publish st.quiet _

  pub handle_location_ack-Keeps : Keeps P handle_location_ack
  unfolding handle_location_ack
  handle_location_ack-Keeps = Keeps-from_dgi get_uint32 ⨾ λ parent.
      Keeps-from_dgi get_uint32 ⨾ λ zone. Keeps-change _ λ o l p. st.acknowledges parent zone p
