-- ===== src/StateServer/DistributedObject/Location.antt =====
-- Where an object is, src/stateserver/distributed_object.cpp: HandleLocationChange and the cases of
-- HandleDatagram for SET_LOCATION, GET_LOCATION and LOCATION_ACK.
pub mod Announces
use ardos.Prelude.{ℕ, ◌+◌, ◌%◌, ◌^◌, true, false, not, List, [], ◌==◌, if◌then◌else◌}
use ardos.Prelude.Action.{Action, pure, ◌>>=◌, ◌>>◌}
use ardos.Prelude.Sets.{insert}
use ardos.Dc.{Dc}
use ardos.Net.Datagram.{header_to, header_to_all, add_uint32, add_location}
use ardos.Net.DatagramIterator.{get_uint32}
use ardos.StateServer.Messages.{
  invalid_channel, location_as_channel, parent_to_children, stateserver_object_get_ai,
  stateserver_object_changing_location, stateserver_object_get_location_resp,
}
use ardos.StateServer.DistributedObject.{
  DistributedObject, subscribed, unsubscribed, Call, self, from_dgi, change, note, publish,
}
use ardos.StateServer.DistributedObject.Entries.{send_location_entry}

-- GetLocation
unfoldable pub get_location : DistributedObject → ℕ
unfolding location_as_channel
get_location o = location_as_channel o.parent_id o.zone_id

abbrev pub insert_channel : ℕ → List ℕ → List ℕ
insert_channel channel targets = if channel == 0 then targets else insert channel targets

-- Those that hear of every change: the AI and the owner.
unfoldable pub keepers : DistributedObject → List ℕ
keepers o = insert_channel o.owner_channel (insert_channel o.ai_channel [])

-- Those that hear of a change of parent: the old parent and the old location too, and the new parent.
unfoldable pub parent_targets : DistributedObject → ℕ → List ℕ
unfolding keepers location_as_channel
parent_targets o new_parent = insert_channel new_parent (
    if o.parent_id == 0
    then keepers o
    else insert (location_as_channel o.parent_id o.zone_id) (insert o.parent_id (keepers o)))

-- Those that hear of a change of zone under the same parent.
unfoldable pub zone_targets : DistributedObject → List ℕ
unfolding keepers location_as_channel
zone_targets o = insert (location_as_channel o.parent_id o.zone_id) (insert o.parent_id (keepers o))

unfoldable pub leave_parent : ℕ → Action Call (Unit {0})
unfolding parent_to_children
leave_parent old_parent =
    if old_parent == 0 then pure tt else note (unsubscribed (parent_to_children old_parent))

-- The question to a new parent for its AI, under the next context.
unfoldable pub ask_ai : Action Call (Unit {0})
unfolding header_to add_uint32
ask_ai = do
  o ← self
  change λ o. record o { next_context = (o.next_context + 1) % 2 ^ 32 }
  publish (do header_to o.parent_id o.do_id stateserver_object_get_ai; add_uint32 o.next_context)

unfoldable pub join_parent : ℕ → Action Call (Unit {0})
unfolding parent_to_children ask_ai
join_parent new_parent = do
  o ← self
  if new_parent == 0
      then (if o.ai_explicitly_set
          then pure tt
          else change λ o. record o { ai_channel = invalid_channel })
      else (do
        note (subscribed (parent_to_children new_parent))
        if o.ai_explicitly_set then pure tt else ask_ai)

abbrev pub relocate : ℕ → ℕ → DistributedObject → DistributedObject
relocate new_parent new_zone o = record o { parent_id = new_parent; zone_id = new_zone }

module _ (dc : Dc) where
  -- The end of HandleLocationChange, for an object that was as in `old`.
  unfoldable pub announce_location : DistributedObject → List ℕ → ℕ → ℕ → Action Call (Unit {0})
  unfolding header_to_all add_uint32 add_location send_location_entry location_as_channel
  announce_location old targets new_parent new_zone = do
    change λ o. record o { parent_synchronized = false }
    publish (do
      header_to_all targets old.do_id stateserver_object_changing_location
      add_uint32 old.do_id
      add_location new_parent new_zone
      add_location old.parent_id old.zone_id)
    if new_parent == 0
        then pure tt
        else send_location_entry dc (location_as_channel new_parent new_zone)

  -- HandleLocationChange of an object that is as in `o`.
  unfoldable pub change_location : DistributedObject → ℕ → ℕ → Action Call (Unit {0})
  unfolding announce_location leave_parent join_parent parent_targets zone_targets
  change_location o new_parent new_zone =
      if new_parent == o.do_id
      then pure tt
      else if not (new_parent == o.parent_id)
      then (do
        leave_parent o.parent_id
        change (relocate new_parent new_zone)
        join_parent new_parent
        announce_location o (parent_targets o new_parent) new_parent new_zone)
      else if not (new_zone == o.zone_id)
      then (do
        change (relocate new_parent new_zone)
        announce_location o (zone_targets o) new_parent new_zone)
      else pure tt

  -- DistributedObject::HandleLocationChange
  unfoldable pub handle_location_change : ℕ → ℕ → ℕ → Action Call (Unit {0})
  unfolding change_location
  handle_location_change new_parent new_zone sender = do
    o ← self
    change_location o new_parent new_zone

  unfoldable pub handle_set_location : ℕ → Action Call (Unit {0})
  unfolding get_uint32 handle_location_change
  handle_set_location sender = do
    new_parent ← from_dgi get_uint32
    new_zone ← from_dgi get_uint32
    handle_location_change new_parent new_zone sender

unfoldable pub handle_get_location : ℕ → Action Call (Unit {0})
unfolding get_uint32 header_to add_uint32 add_location
handle_get_location sender = do
  context ← from_dgi get_uint32
  o ← self
  publish (do
    header_to sender o.do_id stateserver_object_get_location_resp
    add_uint32 context
    add_uint32 o.do_id
    add_location o.parent_id o.zone_id)

-- The parent's word that it counts this object, taken when it is for the location of now.
unfoldable pub acknowledge : ℕ → ℕ → DistributedObject → DistributedObject
acknowledge parent zone o =
    if not (parent == o.parent_id)
    then o
    else if not (zone == o.zone_id)
    then o
    else record o { parent_synchronized = true }

unfoldable pub handle_location_ack : Action Call (Unit {0})
unfolding get_uint32 acknowledge
handle_location_ack = do
  parent ← from_dgi get_uint32
  zone ← from_dgi get_uint32
  change (acknowledge parent zone)
