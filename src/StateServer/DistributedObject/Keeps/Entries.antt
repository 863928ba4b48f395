-- ===== src/StateServer/DistributedObject/Keeps/Entries.antt =====
-- What the entries of src/stateserver/distributed_object.cpp keep.
use ardos.Prelude.{ℕ, Bool, true, false, List, [], ◌∷◌}
use ardos.Prelude.Action.{Action}
use ardos.Dc.{Dc}
use ardos.Net.Datagram.{Datagram}
use ardos.StateServer.FieldMap.{is_unset}
use ardos.StateServer.DistributedObject.{DistributedObject, Effect}
use ardos.StateServer.DistributedObject.Entries.{
  append_values, append_required_data, append_other_data, send_entry, send_location_entry,
  send_ai_entry, send_owner_entry, send_interest_entry, is_in_entry,
}
use ardos.StateServer.DistributedObject.Keeps.{
  Quiet, Keeps, Keeps-pure, Keeps-self, ◌⨾◌, Keeps-if, Keeps-fill, Keeps-change, Keeps-send,
}

module _ (dc : Dc) (P : DistributedObject → List Effect → Type 0) (q : Quiet P) where
  append_values-Keeps :
      (client_only also_owner : Bool) (fields : List ℕ) (dg : Datagram)
      → Keeps P (append_values dc client_only also_owner fields dg)
  unfolding append_values
  append_values-Keeps client_only also_owner [] dg = Keeps-pure dg
  append_values-Keeps client_only also_owner (field ∷ fields) dg =
      Keeps-if (is_in_entry dc client_only also_owner field)
        (Keeps-change _ (λ o l p. q.touches field p) ⨾ λ _. Keeps-self ⨾ λ o.
          Keeps-fill _ _ ⨾ λ dg'. append_values-Keeps client_only also_owner fields dg')
        (append_values-Keeps client_only also_owner fields dg)

  pub append_required_data-Keeps :
      (client_only also_owner : Bool) (dg : Datagram)
      → Keeps P (append_required_data dc client_only also_owner dg)
  unfolding append_required_data
  append_required_data-Keeps client_only also_owner dg = Keeps-self ⨾ λ o. Keeps-fill _ _ ⨾ λ dg'.
      append_values-Keeps client_only also_owner (dc.inherited_fields o.dclass) dg'

  pub append_other_data-Keeps :
      (client_only also_owner : Bool) (dg : Datagram)
      → Keeps P (append_other_data dc client_only also_owner dg)
  unfolding append_other_data
  append_other_data-Keeps client_only also_owner dg = Keeps-self ⨾ λ o. Keeps-fill _ _

  send_entry-Keeps :
      (front : Action Datagram (Unit {0})) (client_only also_owner : Bool)
      → Keeps P (send_entry dc front client_only also_owner)
  unfolding send_entry
  send_entry-Keeps front client_only also_owner = Keeps-fill _ _ ⨾ λ dg.
      append_required_data-Keeps client_only also_owner dg ⨾ λ dg'. Keeps-self ⨾ λ o.
      Keeps-if (is_unset o.ram_fields) (Keeps-pure dg')
        (append_other_data-Keeps client_only also_owner dg')
      ⨾ λ dg''. Keeps-send q dg''

  pub send_location_entry-Keeps : (location : ℕ) → Keeps P (send_location_entry dc location)
  unfolding send_location_entry
  send_location_entry-Keeps location = Keeps-self ⨾ λ o. send_entry-Keeps _ true false

  pub send_ai_entry-Keeps : (location : ℕ) → Keeps P (send_ai_entry dc location)
  unfolding send_ai_entry
  send_ai_entry-Keeps location = Keeps-self ⨾ λ o. send_entry-Keeps _ false false

  pub send_owner_entry-Keeps : (location : ℕ) → Keeps P (send_owner_entry dc location)
  unfolding send_owner_entry
  send_owner_entry-Keeps location = Keeps-self ⨾ λ o. send_entry-Keeps _ true true

  pub send_interest_entry-Keeps :
      (location context : ℕ) → Keeps P (send_interest_entry dc location context)
  unfolding send_interest_entry
  send_interest_entry-Keeps location context = Keeps-self ⨾ λ o. send_entry-Keeps _ true false
