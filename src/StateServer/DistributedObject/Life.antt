-- ===== src/StateServer/DistributedObject/Life.antt =====
-- The life of an object, src/stateserver/distributed_object.cpp: its constructors, Init, Size,
-- Annihilate, DeleteChildren and the cases of HandleDatagram that delete.
pub mod Unpacks
pub mod Others
use ardos.Prelude.{
  ℕ, zero, suc, ◌+◌, Bool, true, false, not, ◌&&◌, Option, none, some, List, [], ◌∷◌, ◌==◌,
  if◌then◌else◌,
}
use ardos.Prelude.Action.{Action, pure, ◌>>=◌, ◌>>◌}
use ardos.Dc.{Dc}
use ardos.Net.Datagram.{header_to, header_to_all, add_uint32, add_location}
use ardos.Net.DatagramIterator.{
  DatagramIterator, get_uint16, get_uint32, get_uint64, unpack_field, seek_payload,
}
use ardos.StateServer.Messages.{
  invalid_channel, invalid_do_id, location_as_channel, parent_to_children,
  stateserver_object_changing_location, stateserver_object_delete_ram,
  stateserver_object_delete_children,
}
use ardos.StateServer.FieldMap.{FieldMap, value, assign, total_size}
use ardos.StateServer.ZoneObjects.{has_none}
use ardos.StateServer.DistributedObject.{
  DistributedObject, removed, stopped, Call, self, from_dgi, note, publish,
}
use ardos.StateServer.DistributedObject.Location.{insert_channel, handle_location_change}
use ardos.StateServer.DistributedObject.Children.{wake_children}

-- DistributedObject::Size
abbrev pub object_size : DistributedObject → ℕ
object_size o = total_size o.required_fields + total_size o.ram_fields

-- DistributedObject::DeleteChildren
unfoldable pub delete_children : ℕ → Action Call (Unit {0})
unfolding header_to add_uint32 parent_to_children
delete_children sender = do
  o ← self
  if has_none o.zone_objects
      then pure tt
      else publish (do
        header_to (parent_to_children o.do_id) sender stateserver_object_delete_children
        add_uint32 o.do_id)

-- Those that hear of the end of an object: its location, its owner and its AI.
unfoldable pub farewell_targets : DistributedObject → List ℕ
unfolding location_as_channel
farewell_targets o = insert_channel o.ai_channel (
    insert_channel o.owner_channel
      (if o.parent_id == 0 then [] else location_as_channel o.parent_id o.zone_id ∷ []))

-- The word to the parent, which is put at no location at all.
unfoldable pub notify_parent : DistributedObject → ℕ → Action Call (Unit {0})
unfolding header_to add_uint32 add_location
notify_parent o sender = publish (do
  header_to o.parent_id sender stateserver_object_changing_location
  add_uint32 o.do_id
  add_location invalid_do_id invalid_do_id
  add_location o.parent_id o.zone_id)

-- DistributedObject::Annihilate
unfoldable pub annihilate : ℕ → Bool → Action Call (Unit {0})
unfolding notify_parent farewell_targets header_to_all add_uint32 delete_children
annihilate sender notify = do
  o ← self
  if not (o.parent_id == 0) && notify then notify_parent o sender else pure tt
  publish (do
    header_to_all (farewell_targets o) sender stateserver_object_delete_ram
    add_uint32 o.do_id)
  delete_children sender
  note (removed o.do_id)
  note stopped

unfoldable pub handle_delete_ai_objects : ℕ → Action Call (Unit {0})
unfolding get_uint64 annihilate
handle_delete_ai_objects sender = do
  channel ← from_dgi get_uint64
  o ← self
  if not (o.ai_channel == channel) then pure tt else annihilate sender true

unfoldable pub handle_delete_ram : ℕ → Action Call (Unit {0})
unfolding get_uint32 annihilate
handle_delete_ram sender = do
  target ← from_dgi get_uint32
  o ← self
  if not (o.do_id == target) then pure tt else annihilate sender true

unfoldable pub handle_delete_children : ℕ → Action Call (Unit {0})
unfolding get_uint32 delete_children annihilate
handle_delete_children sender = do
  target ← from_dgi get_uint32
  o ← self
  if target == o.do_id
      then delete_children sender
      else if target == o.parent_id
      then annihilate sender false
      else pure tt

module _ (dc : Dc) where
  abbrev pub is_atomic_required : ℕ → Bool
  is_atomic_required field = dc.is_required field && is_atomic (dc.as_molecular_field field)
    where
      is_atomic : Option ℕ → Bool
      is_atomic none = true
      is_atomic (some m) = false

  -- The loop of the constructor over the inherited fields. UnpackField appends to what the field has.
  unfoldable pub unpack_required : List ℕ → FieldMap → Action DatagramIterator FieldMap
  unfolding unpack_field
  unpack_required [] fs = pure fs
  unpack_required (field ∷ fields) fs =
      if is_atomic_required field
      then (do
        bytes ← unpack_field dc field (value field fs)
        unpack_required fields (assign field bytes fs))
      else unpack_required fields fs

  -- The loop of the constructor over the other fields. A field with no RAM keyword is refused, and
  -- its value stays to be read.
  unfoldable pub unpack_other : (ℕ → Option ℕ) → ℕ → FieldMap → Action DatagramIterator FieldMap
  unfolding get_uint16 unpack_field
  unpack_other field_of zero fs = pure fs
  unpack_other field_of (suc n) fs = do
    field_id ← get_uint16
    elim (field_of field_id) [
      | none ↦ pure fs
      | some field ↦
          if dc.is_ram field
          then (do
            bytes ← unpack_field dc field (value field fs)
            unpack_other field_of n (assign field bytes fs))
          else unpack_other field_of n fs
    ]

  -- The members as the initialisers of both constructors leave them, with the fields given.
  unfoldable pub new_object : ℕ → ℕ → FieldMap → FieldMap → ℕ → ℕ → ℕ → DistributedObject
  new_object do_id dclass required ram parent zone sender = record {
    do_id = do_id;
    parent_id = invalid_do_id;
    zone_id = invalid_do_id;
    dclass = dclass;
    required_fields = required;
    ram_fields = ram;
    zone_objects = [];
    ai_channel = invalid_channel;
    owner_channel = invalid_channel;
    next_context = 0;
    ai_explicitly_set = false;
    parent_synchronized = false;
    pending_parent = parent;
    pending_zone = zone;
    pending_sender = sender;
  }

  -- The constructor that reads the fields of a CREATE_OBJECT message. Its SubscribeChannel comes
  -- before the end; a throw behind it can only be of a header that was read before.
  unfoldable pub construct : ℕ → ℕ → ℕ → ℕ → Bool → Action DatagramIterator DistributedObject
  unfolding unpack_required unpack_other get_uint16 get_uint64 seek_payload new_object
  construct do_id parent zone dclass other = do
    required ← unpack_required (dc.inherited_fields dclass) []
    ram ←
        if other
        then (do count ← get_uint16; unpack_other (dc.field_by_index dclass) count [])
        else pure []
    seek_payload
    sender ← get_uint64
    pure (new_object do_id dclass required ram parent zone sender)

  -- The constructor for fields that were read before.
  unfoldable pub construct_with : ℕ → ℕ → ℕ → ℕ → ℕ → FieldMap → FieldMap → DistributedObject
  unfolding new_object
  construct_with sender do_id parent zone dclass required ram =
      new_object do_id dclass required ram parent zone sender

  -- DistributedObject::Init, behind the SubscribeChannel of the constructor.
  unfoldable pub init_object : Action Call (Unit {0})
  unfolding handle_location_change wake_children
  init_object = do
    o ← self
    handle_location_change dc o.pending_parent o.pending_zone o.pending_sender
    wake_children
