-- ===== src/StateServer/DistributedObject/Handle.antt =====
-- HandleDatagram of src/stateserver/distributed_object.cpp: which message goes to which case.
use ardos.Prelude.{ℕ, true, false, ◌==◌, if◌then◌else◌}
use ardos.Prelude.Action.{Action, pure, ◌>>=◌, ◌>>◌}
use ardos.Dc.{Dc}
use ardos.Net.DatagramIterator.{get_uint16, get_uint64, seek_payload}
use ardos.StateServer.Messages.{
  stateserver_delete_ai_objects, stateserver_object_delete_ram, stateserver_object_delete_children,
  stateserver_object_set_field, stateserver_object_set_fields, stateserver_object_changing_ai,
  stateserver_object_set_ai, stateserver_object_get_ai, stateserver_object_get_class,
  stateserver_object_get_ai_resp, stateserver_object_changing_location,
  stateserver_object_location_ack, stateserver_object_set_location, stateserver_object_get_location,
  stateserver_object_get_location_resp, stateserver_object_get_all, stateserver_object_get_field,
  stateserver_object_get_fields, stateserver_object_set_owner, stateserver_object_get_zone_objects,
  stateserver_object_get_zones_objects, stateserver_get_active_zones,
}
use ardos.StateServer.DistributedObject.{Call, from_dgi}
use ardos.StateServer.DistributedObject.Fields.{
  handle_set_field, handle_set_fields, handle_get_all, handle_get_field, handle_get_fields,
}
use ardos.StateServer.DistributedObject.Location.{
  handle_set_location, handle_get_location, handle_location_ack,
}
use ardos.StateServer.DistributedObject.Ai.{
  handle_changing_ai, handle_set_ai, handle_get_ai, handle_get_ai_resp, handle_get_class,
  handle_set_owner,
}
use ardos.StateServer.DistributedObject.Children.{
  handle_changing_location, handle_get_location_resp, handle_get_zones, handle_get_active_zones,
}
use ardos.StateServer.DistributedObject.Life.{
  handle_delete_ai_objects, handle_delete_ram, handle_delete_children,
}

module _ (dc : Dc) where
  -- The switch over the message type.
  unfoldable pub handle_message : ℕ → ℕ → Action Call (Unit {0})
  unfolding handle_set_field handle_set_fields handle_get_all handle_get_field handle_get_fields
      handle_set_location handle_get_location handle_location_ack handle_changing_ai handle_set_ai
      handle_get_ai handle_get_ai_resp handle_get_class handle_set_owner handle_changing_location
      handle_get_location_resp handle_get_zones handle_get_active_zones handle_delete_ai_objects
      handle_delete_ram handle_delete_children
  handle_message sender msg_type =
      if msg_type == stateserver_delete_ai_objects
      then handle_delete_ai_objects sender
      else if msg_type == stateserver_object_delete_ram
      then handle_delete_ram sender
      else if msg_type == stateserver_object_delete_children
      then handle_delete_children sender
      else if msg_type == stateserver_object_set_field
      then handle_set_field dc sender
      else if msg_type == stateserver_object_set_fields
      then handle_set_fields dc sender
      else if msg_type == stateserver_object_changing_ai
      then handle_changing_ai dc sender
      else if msg_type == stateserver_object_set_ai
      then handle_set_ai dc sender
      else if msg_type == stateserver_object_get_ai
      then handle_get_ai sender
      else if msg_type == stateserver_object_get_class
      then handle_get_class dc sender
      else if msg_type == stateserver_object_get_ai_resp
      then handle_get_ai_resp dc sender
      else if msg_type == stateserver_object_changing_location
      then handle_changing_location
      else if msg_type == stateserver_object_location_ack
      then handle_location_ack
      else if msg_type == stateserver_object_set_location
      then handle_set_location dc sender
      else if msg_type == stateserver_object_get_location
      then handle_get_location sender
      else if msg_type == stateserver_object_get_location_resp
      then handle_get_location_resp
      else if msg_type == stateserver_object_get_all
      then handle_get_all dc sender
      else if msg_type == stateserver_object_get_field
      then handle_get_field dc sender
      else if msg_type == stateserver_object_get_fields
      then handle_get_fields dc sender
      else if msg_type == stateserver_object_set_owner
      then handle_set_owner dc sender
      else if msg_type == stateserver_object_get_zone_objects
      then handle_get_zones dc false sender
      else if msg_type == stateserver_object_get_zones_objects
      then handle_get_zones dc true sender
      else if msg_type == stateserver_get_active_zones
      then handle_get_active_zones sender
      else pure tt

  -- DistributedObject::HandleDatagram
  unfoldable pub handle_datagram : Action Call (Unit {0})
  unfolding seek_payload get_uint64 get_uint16 handle_message
  handle_datagram = do
    from_dgi seek_payload
    sender ← from_dgi get_uint64
    msg_type ← from_dgi get_uint16
    handle_message sender msg_type
