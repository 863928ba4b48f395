-- ===== src/StateServer/DistributedObject/Ai.antt =====
-- Who manages an object and who owns it, src/stateserver/distributed_object.cpp: HandleAIChange and
-- the cases of HandleDatagram for CHANGING_AI, SET_AI, GET_AI, GET_AI_RESP, GET_CLASS and SET_OWNER.
use ardos.Prelude.{ℕ, Bool, true, false, not, List, [], ◌∷◌, ◌==◌, if◌then◌else◌}
use ardos.Prelude.Action.{Action, pure, ◌>>=◌, ◌>>◌}
use ardos.Prelude.Sets.{insert}
use ardos.Dc.{Dc}
use ardos.Net.Datagram.{header_to, header_to_all, add_uint16, add_uint32, add_uint64}
use ardos.Net.DatagramIterator.{get_uint32, get_uint64}
use ardos.StateServer.Messages.{
  parent_to_children, stateserver_object_changing_ai, stateserver_object_get_ai_resp,
  stateserver_object_get_class_resp, stateserver_object_changing_owner,
}
use ardos.StateServer.ZoneObjects.{has_none}
use ardos.StateServer.DistributedObject.{DistributedObject, Call, self, from_dgi, change, publish}
use ardos.StateServer.DistributedObject.Entries.{send_ai_entry, send_owner_entry}

-- Those that hear of a change of AI: the old AI, and the children where there are any.
unfoldable pub ai_targets : DistributedObject → List ℕ
unfolding parent_to_children
ai_targets o =
    let old = if o.ai_channel == 0 then [] else o.ai_channel ∷ [] in
    if has_none o.zone_objects then old else insert (parent_to_children o.do_id) old

abbrev pub take_ai : ℕ → Bool → DistributedObject → DistributedObject
take_ai new_ai channel_is_explicit o = record o {
  ai_channel = new_ai;
  ai_explicitly_set = channel_is_explicit;
}

module _ (dc : Dc) where
  -- HandleAIChange of an object that is as in `o`.
  unfoldable pub change_ai : DistributedObject → ℕ → ℕ → Bool → Action Call (Unit {0})
  unfolding ai_targets header_to_all add_uint32 add_uint64 send_ai_entry
  change_ai o new_ai sender channel_is_explicit = if new_ai == o.ai_channel then pure tt else (do
    change (take_ai new_ai channel_is_explicit)
    publish (do
      header_to_all (ai_targets o) sender stateserver_object_changing_ai
      add_uint32 o.do_id
      add_uint64 new_ai
      add_uint64 o.ai_channel)
    if new_ai == 0 then pure tt else send_ai_entry dc new_ai)

  -- DistributedObject::HandleAIChange
  unfoldable pub handle_ai_change : ℕ → ℕ → Bool → Action Call (Unit {0})
  unfolding change_ai
  handle_ai_change new_ai sender channel_is_explicit = do
    o ← self
    change_ai o new_ai sender channel_is_explicit

  unfoldable pub handle_changing_ai : ℕ → Action Call (Unit {0})
  unfolding get_uint32 get_uint64 handle_ai_change
  handle_changing_ai sender = do
    parent ← from_dgi get_uint32
    new_channel ← from_dgi get_uint64
    o ← self
    if not (parent == o.parent_id)
        then pure tt
        else if o.ai_explicitly_set
        then pure tt
        else handle_ai_change new_channel sender false

  unfoldable pub handle_set_ai : ℕ → Action Call (Unit {0})
  unfolding get_uint64 handle_ai_change
  handle_set_ai sender = do
    new_channel ← from_dgi get_uint64
    handle_ai_change new_channel sender true

  unfoldable pub handle_get_ai_resp : ℕ → Action Call (Unit {0})
  unfolding get_uint32 get_uint64 handle_ai_change
  handle_get_ai_resp sender = do
    context ← from_dgi get_uint32
    parent ← from_dgi get_uint32
    o ← self
    if not (parent == o.parent_id) then pure tt else (do
      new_ai ← from_dgi get_uint64
      if o.ai_explicitly_set then pure tt else handle_ai_change new_ai sender false)

  unfoldable pub handle_get_class : ℕ → Action Call (Unit {0})
  unfolding get_uint32 header_to add_uint32 add_uint16
  handle_get_class sender = do
    o ← self
    context ← from_dgi get_uint32
    publish (do
      header_to sender o.do_id stateserver_object_get_class_resp
      add_uint32 context
      add_uint32 o.do_id
      add_uint16 (dc.class_number o.dclass))

  -- SET_OWNER of an object that is as in `o`.
  unfoldable pub change_owner : DistributedObject → ℕ → ℕ → Action Call (Unit {0})
  unfolding header_to add_uint32 add_uint64 send_owner_entry
  change_owner o new_owner sender = if new_owner == o.owner_channel then pure tt else (do
    if o.owner_channel == 0
        then pure tt
        else publish (do
          header_to o.owner_channel sender stateserver_object_changing_owner
          add_uint32 o.do_id
          add_uint64 new_owner
          add_uint64 o.owner_channel)
    change λ o. record o { owner_channel = new_owner }
    if new_owner == 0 then pure tt else send_owner_entry dc new_owner)

  unfoldable pub handle_set_owner : ℕ → Action Call (Unit {0})
  unfolding get_uint64 change_owner
  handle_set_owner sender = do
    new_owner ← from_dgi get_uint64
    o ← self
    change_owner o new_owner sender

unfoldable pub handle_get_ai : ℕ → Action Call (Unit {0})
unfolding get_uint32 header_to add_uint32 add_uint64
handle_get_ai sender = do
  o ← self
  context ← from_dgi get_uint32
  publish (do
    header_to sender o.do_id stateserver_object_get_ai_resp
    add_uint32 context
    add_uint32 o.do_id
    add_uint64 o.ai_channel)
