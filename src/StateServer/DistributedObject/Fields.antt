-- ===== src/StateServer/DistributedObject/Fields.antt =====
-- The fields of an object, src/stateserver/distributed_object.cpp: SaveField, HandleOneUpdate,
-- HandleOneGet and the cases of HandleDatagram for SET_FIELD, SET_FIELDS, GET_ALL, GET_FIELD and
-- GET_FIELDS.
pub mod Updates
pub mod Gets
use ardos.Prelude.{
  ℕ, zero, suc, ◌+◌, ◌%◌, ◌^◌, Bool, true, false, not, ◌&&◌, Option, none, some, List, [], ◌∷◌, ltb,
  ◌==◌, if◌then◌else◌,
}
use ardos.Prelude.Action.{Action, Result, ok, err, stuck, pure, raise, gets, ◌>>=◌, ◌>>◌, catch_eof}
use ardos.Prelude.Sets.{insert}
use ardos.Dc.{Dc}
use ardos.Net.Datagram.{
  Datagram, empty, size, header_to, header_to_all, add_bool, add_uint16, add_uint32, add_data,
  add_datagram,
}
use ardos.Net.DatagramIterator.{get_uint16, get_uint32, unpack_field, tell, seek}
use ardos.StateServer.Messages.{
  location_as_channel, stateserver_object_set_field, stateserver_object_get_all_resp,
  stateserver_object_get_field_resp, stateserver_object_get_fields_resp,
}
use ardos.StateServer.FieldMap.{assign, find, is_unset}
use ardos.StateServer.DistributedObject.{
  DistributedObject, published, Call, self, from_dgi, change, note, fill, publish,
}
use ardos.StateServer.DistributedObject.Entries.{append_required_data, append_other_data}

-- A set of field numbers in the order of std::set.
abbrev pub insert_sorted : ℕ → List ℕ → List ℕ
insert_sorted x [] = x ∷ []
insert_sorted x (y ∷ ys) =
    let rest = insert_sorted x ys in
    if x == y then y ∷ ys else if ltb x y then x ∷ y ∷ ys else y ∷ rest

module _ (dc : Dc) where
  unfoldable pub save_field : ℕ → List ℕ → DistributedObject → DistributedObject
  save_field field bytes o =
      if dc.is_required field
      then record o { required_fields = assign field bytes o.required_fields }
      else if dc.is_ram field
      then record o { ram_fields = assign field bytes o.ram_fields }
      else o

  -- The loop of HandleOneUpdate over the atomic fields of a molecular one.
  unfoldable pub save_atomics : List ℕ → Action Call (Unit {0})
  unfolding unpack_field save_field
  save_atomics [] = pure tt
  save_atomics (atomic ∷ atomics) = do
    bytes ← from_dgi (unpack_field dc atomic [])
    change (save_field atomic bytes)
    save_atomics atomics

  unfoldable pub save_parts : Option ℕ → ℕ → ℕ → List ℕ → Action Call (Unit {0})
  unfolding save_atomics save_field seek
  save_parts none field start bytes = change (save_field field bytes)
  save_parts (some molecular) field start bytes = do
    from_dgi (seek start)
    save_atomics (dc.atomics molecular)

  abbrev pub insert_if : Bool → ℕ → List ℕ → List ℕ
  insert_if test channel targets = if test then insert channel targets else targets

  -- Whom a field update is passed on to.
  unfoldable pub update_targets : DistributedObject → ℕ → ℕ → List ℕ
  unfolding location_as_channel
  update_targets o field sender =
      insert_if
        (dc.is_ownrecv field && (not (o.owner_channel == 0) && not (o.owner_channel == sender)))
        o.owner_channel
        (insert_if (dc.is_airecv field && (not (o.ai_channel == 0) && not (o.ai_channel == sender)))
          o.ai_channel
          (insert_if (dc.is_broadcast field) (location_as_channel o.parent_id o.zone_id) []))

  -- HandleOneUpdate behind the try block: the bytes of the value, or none of a truncated one.
  unfoldable pub store_update : ℕ → ℕ → ℕ → ℕ → Option (List ℕ) → Action Call Bool
  unfolding save_parts update_targets header_to_all add_uint32 add_uint16 add_data
  store_update sender field_id field start none = pure false
  store_update sender field_id field start (some bytes) = do
    save_parts (dc.as_molecular_field field) field start bytes
    o ← self
    publish (do
      header_to_all (update_targets o field sender) sender stateserver_object_set_field
      add_uint32 o.do_id
      add_uint16 field_id
      add_data bytes)
    pure true

  unfoldable pub update_field : ℕ → ℕ → Option ℕ → Action Call Bool
  unfolding store_update unpack_field
  update_field sender field_id none = pure false
  update_field sender field_id (some field) = do
    start ← from_dgi (gets tell)
    bytes ← catch_eof (from_dgi (unpack_field dc field []))
    store_update sender field_id field start bytes

  -- DistributedObject::HandleOneUpdate
  unfoldable pub handle_one_update : ℕ → Action Call Bool
  unfolding update_field get_uint16
  handle_one_update sender = do
    field_id ← from_dgi get_uint16
    o ← self
    update_field sender field_id (dc.field_by_index o.dclass field_id)

  -- The loop of the SET_FIELDS case.
  unfoldable pub update_fields : ℕ → ℕ → Action Call (Unit {0})
  unfolding handle_one_update
  update_fields zero sender = pure tt
  update_fields (suc n) sender = do
    good ← handle_one_update sender
    if good then update_fields n sender else pure tt

  unfoldable pub handle_set_field : ℕ → Action Call (Unit {0})
  unfolding handle_one_update get_uint32
  handle_set_field sender = do
    target ← from_dgi get_uint32
    o ← self
    if not (o.do_id == target) then pure tt else (do handle_one_update sender >>= λ _. pure tt)

  unfoldable pub handle_set_fields : ℕ → Action Call (Unit {0})
  unfolding update_fields get_uint16 get_uint32
  handle_set_fields sender = do
    target ← from_dgi get_uint32
    o ← self
    if not (o.do_id == target)
        then pure tt
        else (do field_count ← from_dgi get_uint16; update_fields field_count sender)

  -- The value of a field in front of its number, which a part of a molecular field has not.
  abbrev pub add_value : Bool → ℕ → List ℕ → Action Datagram Bool
  add_value is_subfield field_id bytes = do
    if is_subfield then pure tt else add_uint16 field_id
    add_data bytes
    pure true

  -- HandleOneGet of a field that is not molecular, with what the two maps have of it.
  unfoldable pub get_value :
      ℕ → Bool → Bool → Option (List ℕ) → Option (List ℕ) → Action Datagram Bool
  unfolding add_uint16 add_data
  get_value field_id succeed_if_unset is_subfield (some bytes) ram =
      add_value is_subfield field_id bytes
  get_value field_id succeed_if_unset is_subfield none (some bytes) =
      add_value is_subfield field_id bytes
  get_value field_id succeed_if_unset is_subfield none none = pure succeed_if_unset

  -- The loop of HandleOneGet over the atomic fields, each one got by `get`.
  unfoldable pub get_atomics : (ℕ → Action Datagram Bool) → List ℕ → Action Datagram Bool
  get_atomics get [] = pure true
  get_atomics get (atomic ∷ atomics) = do
    good ← get (dc.field_number atomic)
    if good then get_atomics get atomics else pure false

  unfoldable pub get_parts :
      (ℕ → Action Datagram Bool)
      → Option ℕ
      → DistributedObject
      → ℕ
      → ℕ
      → Bool
      → Bool
      → Action Datagram Bool
  unfolding get_atomics get_value add_uint16
  get_parts get none o field_id field succeed_if_unset is_subfield =
      get_value field_id succeed_if_unset is_subfield (find field o.required_fields)
        (find field o.ram_fields)
  get_parts get (some molecular) o field_id field succeed_if_unset is_subfield = do
    add_uint16 field_id
    get_atomics get (dc.atomics molecular)

  unfoldable pub get_field :
      (ℕ → Action Datagram Bool)
      → Option ℕ
      → DistributedObject
      → ℕ
      → Bool
      → Bool
      → Action Datagram Bool
  unfolding get_parts
  get_field get none o field_id succeed_if_unset is_subfield = pure false
  get_field get (some field) o field_id succeed_if_unset is_subfield =
      get_parts get (dc.as_molecular_field field) o field_id field succeed_if_unset is_subfield

  -- The recursion of HandleOneGet, on the levels of fields within fields.
  unfoldable pub get_levels : ℕ → DistributedObject → ℕ → Bool → Bool → Action Datagram Bool
  unfolding get_field
  get_levels zero o field_id succeed_if_unset is_subfield = raise stuck
  get_levels (suc levels) o field_id succeed_if_unset is_subfield =
      get_field (λ number. get_levels levels o number succeed_if_unset true)
        (dc.field_by_index o.dclass field_id) o field_id succeed_if_unset is_subfield

  -- DistributedObject::HandleOneGet. A molecular field has atomic ones: two levels.
  unfoldable pub handle_one_get : DistributedObject → ℕ → Bool → Bool → Action Datagram Bool
  unfolding get_levels
  handle_one_get o field_id succeed_if_unset is_subfield =
      get_levels 2 o field_id succeed_if_unset is_subfield

  -- A call on a datagram of the handler, and the datagram after it.
  unfoldable pub got : Result Bool × Datagram → Action Call (Bool × Datagram)
  got (ok b, dg) c = (ok (b, dg), c)
  got (err e, dg) c = (err e, c)

  unfoldable pub handle_get_all : ℕ → Action Call (Unit {0})
  unfolding get_uint32 header_to add_uint32 append_required_data append_other_data
  handle_get_all sender = do
    context ← from_dgi get_uint32
    target ← from_dgi get_uint32
    o ← self
    if not (target == o.do_id) then pure tt else (do
      dg ←
          fill (do header_to sender o.do_id stateserver_object_get_all_resp; add_uint32 context)
            empty
      dg' ← append_required_data dc false false dg
      dg'' ← if is_unset o.ram_fields then pure dg' else append_other_data dc false false dg'
      note (published dg''))

  unfoldable pub handle_get_field : ℕ → Action Call (Unit {0})
  unfolding get_uint32 get_uint16 handle_one_get header_to add_uint32 add_bool add_datagram
  handle_get_field sender = do
    context ← from_dgi get_uint32
    target ← from_dgi get_uint32
    o ← self
    if not (target == o.do_id) then pure tt else (do
      field_id ← from_dgi get_uint16
      (success, raw_field) ← got (handle_one_get o field_id false false empty)
      publish (do
        header_to sender o.do_id stateserver_object_get_field_resp
        add_uint32 context
        add_bool success
        if success then add_datagram raw_field else pure tt))

  -- The requested fields, as they come in.
  unfoldable pub read_requested : ℕ → List ℕ → Action Call (List ℕ)
  unfolding get_uint16
  read_requested zero requested = pure requested
  read_requested (suc n) requested = do
    field_id ← from_dgi get_uint16
    read_requested n (insert_sorted field_id requested)

  -- The loop of GET_FIELDS over the requested fields, with the count of those found.
  unfoldable pub get_requested : DistributedObject → List ℕ → ℕ → Action Datagram (Bool × ℕ)
  unfolding handle_one_get
  get_requested o [] found = pure (true, found)
  get_requested o (field_id ∷ fields) found = do
    before ← gets λ (dg : Datagram). size dg
    good ← handle_one_get o field_id true false
    after ← gets λ (dg : Datagram). size dg
    if good
        then get_requested o fields (if ltb before after then (found + 1) % 2 ^ 16 else found)
        else pure (false, found)

  unfoldable pub got_all : Result (Bool × ℕ) × Datagram → Action Call (Bool × (ℕ × Datagram))
  got_all (ok (b, n), dg) c = (ok (b, (n, dg)), c)
  got_all (err e, dg) c = (err e, c)

  unfoldable pub handle_get_fields : ℕ → Action Call (Unit {0})
  unfolding get_uint32 get_uint16 read_requested get_requested header_to add_uint32 add_uint16
      add_bool add_datagram
  handle_get_fields sender = do
    context ← from_dgi get_uint32
    target ← from_dgi get_uint32
    o ← self
    if not (target == o.do_id) then pure tt else (do
      field_count ← from_dgi get_uint16
      requested ← read_requested field_count []
      (success, (fields_found, raw_fields)) ← got_all (get_requested o requested 0 empty)
      publish (do
        header_to sender o.do_id stateserver_object_get_fields_resp
        add_uint32 context
        add_bool success
        if success then (do add_uint16 fields_found; add_datagram raw_fields) else pure tt))
