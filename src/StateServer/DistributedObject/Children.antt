-- ===== src/StateServer/DistributedObject/Children.antt =====
-- What an object knows of its children, src/stateserver/distributed_object.cpp: WakeChildren and the
-- cases of HandleDatagram for CHANGING_LOCATION, GET_LOCATION_RESP, GET_ZONE_OBJECTS,
-- GET_ZONES_OBJECTS and GET_ACTIVE_ZONES.
pub mod Moves
use ardos.Prelude.{
  ℕ, zero, suc, ◌+◌, ◌%◌, ◌^◌, Bool, true, false, not, ◌||◌, List, [], ◌∷◌, length, ltb, ◌==◌,
  if◌then◌else◌,
}
use ardos.Prelude.Action.{Action, Result, ok, err, pure, modify, gets, ◌>>=◌, ◌>>◌, continue}
use ardos.Dc.{Dc}
use ardos.Net.Datagram.{Datagram, empty, header_to, add_uint16, add_uint32}
use ardos.Net.DatagramIterator.{get_uint16, get_uint32}
use ardos.StateServer.Messages.{
  parent_to_children, stateserver_context_wake_children, stateserver_object_get_location,
  stateserver_object_location_ack, stateserver_object_get_zones_objects,
  stateserver_object_get_zones_count_resp, stateserver_get_active_zones_resp,
}
use ardos.StateServer.ZoneObjects.{ZoneObjects, children, zones, enter, leave, touch_zone}
use ardos.StateServer.DistributedObject.{
  DistributedObject, Effect, published, Call, self, from_dgi, change, note, fill, publish,
}
use ardos.StateServer.DistributedObject.Entries.{send_location_entry, send_interest_entry}

abbrev pub enter_zone : ℕ → ℕ → DistributedObject → DistributedObject
enter_zone zone child o = record o { zone_objects = enter zone child o.zone_objects }

abbrev pub leave_zone : ℕ → ℕ → DistributedObject → DistributedObject
leave_zone zone child o = record o { zone_objects = leave zone child o.zone_objects }

-- DistributedObject::WakeChildren
unfoldable pub wake_children : Action Call (Unit {0})
unfolding header_to add_uint32 parent_to_children
wake_children = do
  o ← self
  publish (do
    header_to (parent_to_children o.do_id) o.do_id stateserver_object_get_location
    add_uint32 stateserver_context_wake_children)

-- A child that comes into a zone of this object, with the answer to it.
unfoldable pub admit_child : DistributedObject → ℕ → ℕ → Action Call (Unit {0})
unfolding header_to add_uint32
admit_child o child_id new_zone = do
  change (enter_zone new_zone child_id)
  publish (do
    header_to child_id o.do_id stateserver_object_location_ack
    add_uint32 o.do_id
    add_uint32 new_zone)

-- CHANGING_LOCATION, from `old_parent` and `old_zone`, at an object that is as in `o`.
unfoldable pub move_child : DistributedObject → ℕ → ℕ → ℕ → ℕ → ℕ → Action Call (Unit {0})
unfolding admit_child
move_child o child_id new_parent new_zone old_parent old_zone =
    if new_parent == o.do_id
    then (if old_parent == o.do_id
        then (if new_zone == old_zone
            then pure tt
            else (do change (leave_zone old_zone child_id); admit_child o child_id new_zone))
        else admit_child o child_id new_zone)
    else if old_parent == o.do_id
    then change (leave_zone old_zone child_id)
    else pure tt

unfoldable pub handle_changing_location : Action Call (Unit {0})
unfolding get_uint32 move_child
handle_changing_location = do
  child_id ← from_dgi get_uint32
  new_parent ← from_dgi get_uint32
  new_zone ← from_dgi get_uint32
  old_parent ← from_dgi get_uint32
  old_zone ← from_dgi get_uint32
  o ← self
  move_child o child_id new_parent new_zone old_parent old_zone

-- The answer of a child that was there before the object. Of an unexpected one the log message reads
-- four bytes more.
unfoldable pub handle_get_location_resp : Action Call (Unit {0})
unfolding get_uint32
handle_get_location_resp = do
  context ← from_dgi get_uint32
  if not (context == stateserver_context_wake_children)
      then (do from_dgi get_uint32 >>= λ _. pure tt)
      else (do
        child_id ← from_dgi get_uint32
        parent ← from_dgi get_uint32
        zone ← from_dgi get_uint32
        o ← self
        if parent == o.do_id then change (enter_zone zone child_id) else pure tt)

-- The loop over the zones of a query to this object: they go on to the children in `dg`, and the
-- children in them are counted. `_zoneObjects[zone]` makes an entry that is missing.
unfoldable pub count_zones : ℕ → ℕ → Datagram → Action Call (ℕ × Datagram)
unfolding get_uint32 add_uint32
count_zones zero child_count dg = pure (child_count, dg)
count_zones (suc n) child_count dg = do
  zone ← from_dgi get_uint32
  change λ o. record o { zone_objects = touch_zone zone o.zone_objects }
  o ← self
  dg' ← fill (add_uint32 zone) dg
  count_zones n ((child_count + length (children zone o.zone_objects)) % 2 ^ 32) dg'

-- The query at the parent: the count to the one that asks, and the question to the children.
unfoldable pub count_children : DistributedObject → ℕ → ℕ → ℕ → ℕ → Action Call (Unit {0})
unfolding count_zones header_to add_uint32 add_uint16 parent_to_children
count_children o sender context queried_parent zone_count = do
  dg ←
      fill
        (do
          header_to (parent_to_children o.do_id) sender stateserver_object_get_zones_objects
          add_uint32 context
          add_uint32 queried_parent
          add_uint16 zone_count)
        empty
  (child_count, relayed) ← count_zones zone_count 0 dg
  publish (do
    header_to sender o.do_id stateserver_object_get_zones_count_resp
    add_uint32 context
    add_uint32 child_count)
  if ltb 0 child_count then note (published relayed) else pure tt

-- std::unordered_map keys, in the order of the iteration.
abbrev pub add_zones : List ℕ → Action Datagram (Unit {0})
add_zones [] = pure tt
add_zones (zone ∷ zs) = do add_uint32 zone; add_zones zs

unfoldable pub handle_get_active_zones : ℕ → Action Call (Unit {0})
unfolding get_uint32 header_to add_uint32 add_uint16
handle_get_active_zones sender = do
  context ← from_dgi get_uint32
  o ← self
  let keys = zones o.zone_objects in
      publish (do
        header_to sender o.do_id stateserver_get_active_zones_resp
        add_uint32 context
        add_uint16 (length keys % 2 ^ 16)
        add_zones keys)

module _ (dc : Dc) where
  -- The loop over the zones of a query that the parent passed on: the first that is the object's own
  -- is answered, and ends it.
  unfoldable pub answer_zones : ℕ → ℕ → ℕ → Action Call (Unit {0})
  unfolding get_uint32 send_interest_entry send_location_entry
  answer_zones zero sender context = pure tt
  answer_zones (suc n) sender context = do
    zone ← from_dgi get_uint32
    o ← self
    if zone == o.zone_id
        then (if o.parent_synchronized
            then send_interest_entry dc sender context
            else send_location_entry dc sender)
        else answer_zones n sender context

  -- The cases GET_ZONE_OBJECTS and, with a count of zones, GET_ZONES_OBJECTS.
  unfoldable pub handle_get_zones : Bool → ℕ → Action Call (Unit {0})
  unfolding get_uint32 get_uint16 answer_zones count_children
  handle_get_zones counted sender = do
    context ← from_dgi get_uint32
    queried_parent ← from_dgi get_uint32
    zone_count ← if counted then from_dgi get_uint16 else pure 1
    o ← self
    if queried_parent == o.parent_id
        then answer_zones zone_count sender context
        else if queried_parent == o.do_id
        then count_children o sender context queried_parent zone_count
        else pure tt
