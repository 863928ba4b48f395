-- ===== src/StateServer/DistributedObject/Keeps/Handle.antt =====
-- What HandleDatagram of src/stateserver/distributed_object.cpp keeps, over any row of datagrams.
use ardos.Prelude.{ℕ, true, false, List, ◌==◌}
use ardos.Dc.{Dc}
use ardos.Net.DatagramIterator.{get_uint16, get_uint64, seek_payload}
use ardos.StateServer.DistributedObject.{DistributedObject, Effect}
use ardos.StateServer.DistributedObject.Keeps.{
  Stable, Keeps, Keeps-pure, ◌⨾◌, Keeps-if, Keeps-from_dgi,
}
use ardos.StateServer.Messages.{
  stateserver_delete_ai_objects, stateserver_object_delete_ram, stateserver_object_delete_children,
  stateserver_object_set_field, stateserver_object_set_fields, stateserver_object_changing_ai,
  stateserver_object_set_ai, stateserver_object_get_ai, stateserver_object_get_class,
  stateserver_object_get_ai_resp, stateserver_object_changing_location,
  stateserver_object_location_ack, stateserver_object_set_location, stateserver_object_get_location,
  stateserver_object_get_location_resp, stateserver_object_get_all, stateserver_object_get_field,
  stateserver_object_get_fields, stateserver_object_set_owner, stateserver_object_get_zone_objects,
  stateserver_object_get_zones_objects, stateserver_get_active_zones,
}
use ardos.StateServer.DistributedObject.Handle.{handle_message, handle_datagram}
use ardos.StateServer.DistributedObject.Keeps.Fields.{
  handle_set_field-Keeps, handle_set_fields-Keeps, handle_get_all-Keeps, handle_get_field-Keeps,
  handle_get_fields-Keeps,
}
use ardos.StateServer.DistributedObject.Keeps.Location.{
  handle_set_location-Keeps, handle_get_location-Keeps, handle_location_ack-Keeps,
}
use ardos.StateServer.DistributedObject.Keeps.Ai.{
  handle_changing_ai-Keeps, handle_set_ai-Keeps, handle_get_ai-Keeps, handle_get_ai_resp-Keeps,
  handle_get_class-Keeps, handle_set_owner-Keeps,
}
use ardos.StateServer.DistributedObject.Keeps.Children.{
  handle_changing_location-Keeps, handle_get_location_resp-Keeps, handle_get_zones-Keeps,
  handle_get_active_zones-Keeps,
}
use ardos.StateServer.DistributedObject.Keeps.Life.{
  handle_delete_ai_objects-Keeps, handle_delete_ram-Keeps, handle_delete_children-Keeps,
}

module _ (dc : Dc) (P : DistributedObject → List Effect → Type 0) (st : Stable dc P) where
  handle_message-Keeps : (sender msg_type : ℕ) → Keeps P (handle_message dc sender msg_type)
  unfolding handle_message
  handle_message-Keeps sender msg_type =
      Keeps-if (msg_type == stateserver_delete_ai_objects)
        (handle_delete_ai_objects-Keeps dc P st sender)
        (Keeps-if (msg_type == stateserver_object_delete_ram)
          (handle_delete_ram-Keeps dc P st sender)
          (Keeps-if (msg_type == stateserver_object_delete_children)
            (handle_delete_children-Keeps dc P st sender)
            (Keeps-if (msg_type == stateserver_object_set_field)
              (handle_set_field-Keeps dc P st sender)
              (Keeps-if (msg_type == stateserver_object_set_fields)
                (handle_set_fields-Keeps dc P st sender)
                (Keeps-if (msg_type == stateserver_object_changing_ai)
                  (handle_changing_ai-Keeps dc P st sender)
                  (Keeps-if (msg_type == stateserver_object_set_ai)
                    (handle_set_ai-Keeps dc P st sender)
                    (Keeps-if (msg_type == stateserver_object_get_ai)
                      (handle_get_ai-Keeps dc P st sender)
                      (Keeps-if (msg_type == stateserver_object_get_class)
                        (handle_get_class-Keeps dc P st sender)
                        (Keeps-if (msg_type == stateserver_object_get_ai_resp)
                          (handle_get_ai_resp-Keeps dc P st sender)
                          (Keeps-if (msg_type == stateserver_object_changing_location)
                            (handle_changing_location-Keeps dc P st)
                            (Keeps-if (msg_type == stateserver_object_location_ack)
                              (handle_location_ack-Keeps dc P st)
                              (Keeps-if (msg_type == stateserver_object_set_location)
                                (handle_set_location-Keeps dc P st sender)
                                (Keeps-if (msg_type == stateserver_object_get_location)
                                  (handle_get_location-Keeps dc P st sender)
                                  (Keeps-if (msg_type == stateserver_object_get_location_resp)
                                    (handle_get_location_resp-Keeps dc P st)
                                    (Keeps-if (msg_type == stateserver_object_get_all)
                                      (handle_get_all-Keeps dc P st sender)
                                      (Keeps-if (msg_type == stateserver_object_get_field)
                                        (handle_get_field-Keeps dc P st sender)
                                        (Keeps-if (msg_type == stateserver_object_get_fields)
                                          (handle_get_fields-Keeps dc P st sender)
                                          (Keeps-if (msg_type == stateserver_object_set_owner)
                                            (handle_set_owner-Keeps dc P st sender)
                                            (Keeps-if
                                              (msg_type == stateserver_object_get_zone_objects)
                                              (handle_get_zones-Keeps dc P st false sender)
                                              (Keeps-if
                                                (msg_type == stateserver_object_get_zones_objects)
                                                (handle_get_zones-Keeps dc P st true sender)
                                                (Keeps-if (msg_type == stateserver_get_active_zones)
                                                  (handle_get_active_zones-Keeps dc P st sender)
                                                  (Keeps-pure tt))))))))))))))))))))))

  pub handle_datagram-Keeps : Keeps P (handle_datagram dc)
  unfolding handle_datagram
  handle_datagram-Keeps = Keeps-from_dgi seek_payload ⨾ λ _. Keeps-from_dgi get_uint64 ⨾ λ sender.
      Keeps-from_dgi get_uint16 ⨾ λ msg_type. handle_message-Keeps sender msg_type
