-- ===== src/StateServer/DistributedObject/Entries.antt =====
-- The entries of src/stateserver/distributed_object.cpp: what an object says of itself to those that
-- meet it.
use ardos.Prelude.{
  ℕ, ◌%◌, ◌^◌, Bool, true, false, Option, none, some, not, ◌&&◌, ◌||◌, List, [], ◌∷◌, length,
  if◌then◌else◌,
}
use ardos.Prelude.Action.{Action, pure, ◌>>=◌, ◌>>◌}
use ardos.Dc.{Dc}
use ardos.Net.Datagram.{Datagram, empty, header_to, add_uint16, add_uint32, add_data, add_location}
use ardos.StateServer.Messages.{
  stateserver_object_enter_location_with_required,
  stateserver_object_enter_location_with_required_other, stateserver_object_enter_ai_with_required,
  stateserver_object_enter_ai_with_required_other, stateserver_object_enter_owner_with_required,
  stateserver_object_enter_owner_with_required_other,
  stateserver_object_enter_interest_with_required,
  stateserver_object_enter_interest_with_required_other,
}
use ardos.StateServer.FieldMap.{FieldMap, value, touch, is_unset}
use ardos.StateServer.DistributedObject.{
  DistributedObject, published, Call, self, change, note, fill,
}

module _ (dc : Dc) where
  -- Whether a field goes into an entry: every field for the server, for a client those it receives.
  abbrev pub is_shown : Bool → Bool → ℕ → Bool
  is_shown client_only also_owner field =
      not client_only
      || (dc.is_broadcast field || (dc.is_clrecv field || (also_owner && dc.is_ownrecv field)))

  abbrev pub is_in_entry : Bool → Bool → ℕ → Bool
  is_in_entry client_only also_owner field =
      dc.is_required field
      && (is_atomic (dc.as_molecular_field field) && is_shown client_only also_owner field)
    where
      is_atomic : Option ℕ → Bool
      is_atomic none = true
      is_atomic (some m) = false

  -- The loop of AppendRequiredData. `_requiredFields[field]` makes an entry that is missing.
  unfoldable pub append_values : Bool → Bool → List ℕ → Datagram → Action Call Datagram
  unfolding add_data
  append_values client_only also_owner [] dg = pure dg
  append_values client_only also_owner (field ∷ fields) dg =
      if is_in_entry client_only also_owner field
      then (do
        change λ o. record o { required_fields = touch field o.required_fields }
        o ← self
        dg' ← fill (add_data (value field o.required_fields)) dg
        append_values client_only also_owner fields dg')
      else append_values client_only also_owner fields dg

  unfoldable pub append_required_data : Bool → Bool → Datagram → Action Call Datagram
  unfolding append_values add_uint32 add_location add_uint16
  append_required_data client_only also_owner dg = do
    o ← self
    dg' ←
        fill
          (do
            add_uint32 o.do_id
            add_location o.parent_id o.zone_id
            add_uint16 (dc.class_number o.dclass))
          dg
    append_values client_only also_owner (dc.inherited_fields o.dclass) dg'

  -- The RAM fields that go into an entry.
  abbrev pub shown_fields : Bool → Bool → FieldMap → FieldMap
  shown_fields client_only also_owner [] = []
  shown_fields client_only also_owner ((field, bytes) ∷ fs) =
      let rest = shown_fields client_only also_owner fs in
      if is_shown client_only also_owner field then (field, bytes) ∷ rest else rest

  abbrev pub add_numbered : FieldMap → Action Datagram (Unit {0})
  add_numbered [] = pure tt
  add_numbered ((field, bytes) ∷ fs) = do
    add_uint16 (dc.field_number field)
    add_data bytes
    add_numbered fs

  unfoldable pub append_other_data : Bool → Bool → Datagram → Action Call Datagram
  unfolding add_uint16 add_data
  append_other_data client_only also_owner dg = do
    o ← self
    let fields = shown_fields client_only also_owner o.ram_fields in
        fill (do add_uint16 (length fields % 2 ^ 16); add_numbered fields) dg

  -- What the four entries have in common: the datagram so far, the fields, and its publication.
  unfoldable pub send_entry : Action Datagram (Unit {0}) → Bool → Bool → Action Call (Unit {0})
  unfolding append_required_data append_other_data
  send_entry front client_only also_owner = do
    dg ← fill front empty
    dg' ← append_required_data client_only also_owner dg
    o ← self
    dg'' ← if is_unset o.ram_fields then pure dg' else append_other_data client_only also_owner dg'
    note (published dg'')

  -- The message number, by whether there are RAM fields.
  abbrev pub required_or_other : DistributedObject → ℕ → ℕ → ℕ
  required_or_other o required other = if is_unset o.ram_fields then required else other

  unfoldable pub send_location_entry : ℕ → Action Call (Unit {0})
  unfolding send_entry header_to
  send_location_entry location = do
    o ← self
    send_entry
        (header_to location o.do_id (
          required_or_other o stateserver_object_enter_location_with_required
            stateserver_object_enter_location_with_required_other))
        true false

  unfoldable pub send_ai_entry : ℕ → Action Call (Unit {0})
  unfolding send_entry header_to
  send_ai_entry location = do
    o ← self
    send_entry
        (header_to location o.do_id (
          required_or_other o stateserver_object_enter_ai_with_required
            stateserver_object_enter_ai_with_required_other))
        false false

  unfoldable pub send_owner_entry : ℕ → Action Call (Unit {0})
  unfolding send_entry header_to
  send_owner_entry location = do
    o ← self
    send_entry
        (header_to location o.do_id (
          required_or_other o stateserver_object_enter_owner_with_required
            stateserver_object_enter_owner_with_required_other))
        true true

  unfoldable pub send_interest_entry : ℕ → ℕ → Action Call (Unit {0})
  unfolding send_entry header_to add_uint32
  send_interest_entry location context = do
    o ← self
    send_entry
        (header_to location o.do_id (
            required_or_other o stateserver_object_enter_interest_with_required
              stateserver_object_enter_interest_with_required_other)
          >> add_uint32 context)
        true false
