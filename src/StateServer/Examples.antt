-- ===== src/StateServer/Examples.antt =====
-- An object of src/stateserver at concrete inputs.
use ardos.Prelude.{
  ◌≢◌, ◌++◌, ◌&&◌, not, ℕ, ◌≡◌, refl, true, false, none, some, inl, inr, List, [], ◌∷◌, arith, ◌==◌,
  if◌then◌else◌, Bool-cases,
}
use ardos.Prelude.Sets.{mem}
use ardos.Dc.{Dc}
use ardos.Net.Datagram.{Datagram, from_bytes}
use ardos.Net.DatagramIterator.Reads.{Holds}
use ardos.Net.Items.{start, empty-IsValid}
use ardos.Prelude.Words.{le_bytes}
use ardos.Prelude.Action.{stuck, ok, err, ◌>>=◌}
use ardos.Net.Datagram.{empty}
use ardos.Net.Datagram.Writes.{Appended, contents}
use ardos.Net.DatagramIterator.{DatagramIterator, advance, get_uint16, get_data, unpack_field}
use ardos.Net.DatagramIterator.Reads.{Reads-bind, Reads-map, get_data-Reads, get_uint16-Reads}
use ardos.StateServer.FieldMap.{FieldMap, find, value}
use ardos.StateServer.DistributedObject.{published}
use ardos.StateServer.DistributedObject.Calls.{IsMessage}
use ardos.StateServer.DistributedObject.Entries.{append_values, append_other_data}
use ardos.StateServer.DistributedObject.Fields.{handle_one_update, handle_one_get}
use ardos.StateServer.DistributedObject.Fields.Gets.{IsFlat, handle_one_get_ends}
use ardos.StateServer.DistributedObject.Fields.Updates.{
  IsUpdate, update_bytes, is_target, handle_one_update-Published, handle_one_get-handle_one_update,
}
use ardos.StateServer.DistributedObject.Location.{handle_location_change}
use ardos.StateServer.DistributedObject.Location.Announces.{InRange, Logged}
use ardos.StateServer.DistributedObject.Handle.{handle_datagram}
use ardos.StateServer.DistributedObject.Handshake.{changing_bytes, location-handshake}
use ardos.StateServer.DistributedObject.Life.{is_atomic_required, unpack_required, unpack_other}
use ardos.StateServer.DistributedObject.Life.Unpacks.{
  IsValue, AppendsTo, unpack_required-append_values,
}
use ardos.StateServer.DistributedObject.Life.Others.{unpack_other-append_other_data}
use ardos.StateServer.Server.Consistent.{Event, for_server, for_object}
use ardos.StateServer.ZoneObjects.{children}
use ardos.StateServer.DistributedObject.{DistributedObject, Call}
use ardos.StateServer.DistributedObject.Calls.{words}
use ardos.StateServer.DistributedObject.Life.{new_object}
use ardos.StateServer.DistributedObject.Children.{handle_changing_location}
use ardos.StateServer.DistributedObject.Children.Moves.{
  change_words, mem-children-handle_changing_location,
}
use ardos.StateServer.DistributedObject.History.{serve, born}
use ardos.StateServer.DistributedObject.History.Location.{IsListening, serve-born-IsPlaced}

-- One class, 7: field 0 has four bytes, is required and broadcast; field 1 has a length tag and is
-- kept in RAM, for the owner and the AI; field 2 is the two together.
abbrev toys : Dc
toys = record {
  has_fixed_byte_size = λ f. f == 0;
  fixed_byte_size = λ _. 4;
  num_length_bytes = λ f. if f == 1 then 2 else 0;
  nested_fields = λ f. if f == 2 then 0 ∷ 1 ∷ [] else [];
  depth = λ f. if f == 2 then 1 else 0;
  nested_lower = λ f. elim (Bool-cases (f == 2)) [
    | inl e ↦ rw e (omega arith, (omega arith, tt))
    | inr e ↦ rw e tt
  ];
  field_by_name = λ _ _. none;
  as_atomic_field = λ _. none;
  num_elements = λ _. 0;
  has_element_default = λ _ _. false;
  element_default_string = λ _ _. none;
  get_class = λ c. if c == 7 then some 7 else none;
  class_number = λ c. c;
  inherited_fields = λ _. 0 ∷ 1 ∷ 2 ∷ [];
  field_by_index =
      λ _ i. if i == 0 then some 0 else if i == 1 then some 1 else if i == 2 then some 2 else none;
  field_number = λ f. f;
  as_molecular_field = λ f. if f == 2 then some 2 else none;
  is_required = λ f. f == 0;
  is_ram = λ f. f == 1;
  is_broadcast = λ f. f == 0;
  is_clrecv = λ _. false;
  is_ownrecv = λ f. f == 1;
  is_airecv = λ f. f == 1;
  atomics = λ f. if f == 2 then 0 ∷ 1 ∷ [] else [];
}

abbrev toy : DistributedObject
toy = record {
  do_id = 100;
  parent_id = 50;
  zone_id = 3;
  dclass = 7;
  required_fields = (0, 1 ∷ 2 ∷ 3 ∷ 4 ∷ []) ∷ [];
  ram_fields = [];
  zone_objects = (20, 200 ∷ 201 ∷ []) ∷ (21, 202 ∷ []) ∷ [];
  ai_channel = 7000;
  owner_channel = 0;
  next_context = 0;
  ai_explicitly_set = true;
  parent_synchronized = false;
  pending_parent = 0;
  pending_zone = 0;
  pending_sender = 0;
}

-- Object 200 goes from zone 20 of object 100 to its zone 21.
abbrev move_words : List ℕ
move_words = change_words 200 100 21 100 20

abbrev move_call : Call
move_call = record { object = toy; log = []; dgi = start (from_bytes (words move_words)) }

move_call-Holds : Holds move_call.dgi (words move_words)
unfolding from_bytes
move_call-Holds = record { inside = omega arith; bytes = refl }

mem-children-handle_changing_location_example :
    mem 200 (children 21 (handle_changing_location move_call).1.object.zone_objects) ≡ true
mem-children-handle_changing_location_example =
    mem-children-handle_changing_location 200 100 21 100 20 move_call 200 21
      (omega arith, (omega arith, (omega arith, (omega arith, (omega arith, tt))))) move_call-Holds
      (refl, ((refl, (refl, tt)), (refl, ((refl, tt), tt)))) refl

abbrev first_datagram : Datagram
first_datagram = from_bytes (1 ∷ 0 ∷ [])

serve-born-IsPlaced_example :
    let c =
      serve toys
        (first_datagram ∷ [])
        (born toys (new_object toys 100 7 [] [] 50 3 9) first_datagram) in
    (c.object.do_id ≡ 100)
    × ((c.object.dclass ≡ 7)
        × (((c.object.parent_id == 100) ≡ false) × IsListening 100 c.object.parent_id c.log))
serve-born-IsPlaced_example =
    serve-born-IsPlaced toys 100 7 (omega arith) [] [] 50 3 9 first_datagram (first_datagram ∷ [])
      (omega arith)

-- An update of field 0, sent by 9.
abbrev update_call : Call
update_call = record {
  object = toy;
  log = [];
  dgi = start (from_bytes (0 ∷ 0 ∷ 5 ∷ 6 ∷ 7 ∷ 8 ∷ []));
}

abbrev update_end : DatagramIterator
update_end = advance 6 update_call.dgi

update_call-IsUpdate : IsUpdate toys update_call 0 0 (5 ∷ 6 ∷ 7 ∷ 8 ∷ []) update_end
unfolding from_bytes get_uint16 unpack_field
update_call-IsUpdate = record {
  number = refl;
  known = refl;
  single = refl;
  whole = refl;
  short = omega arith;
}

handle_one_update-Published_example :
    let r = handle_one_update toys 9 update_call in
    (r.0 ≡ ok true)
    × ((k : ℕ)
        → find k r.1.object.required_fields ≡ (
            if toys.is_required 0 && (k == 0)
            then some (5 ∷ 6 ∷ 7 ∷ 8 ∷ [])
            else find k toy.required_fields))
    × ((k : ℕ)
        → find k r.1.object.ram_fields ≡ (
            if not (toys.is_required 0) && (toys.is_ram 0 && (k == 0))
            then some (5 ∷ 6 ∷ 7 ∷ 8 ∷ [])
            else find k toy.ram_fields))
    × ((dg : Datagram) × ((targets : List ℕ) × ((r.1.log ≡ [] ++ published dg ∷ [])
            × (IsMessage dg (update_bytes toy 0 (5 ∷ 6 ∷ 7 ∷ 8 ∷ []) targets 9)
                × ((k : ℕ) → mem k targets ≡ is_target toys toy 0 9 k)))))
handle_one_update-Published_example =
    handle_one_update-Published toys update_call 9 0 0 (5 ∷ 6 ∷ 7 ∷ 8 ∷ []) update_end
      update_call-IsUpdate

handle_one_get-handle_one_update_example :
    let r =
      handle_one_get toys (handle_one_update toys 9 update_call).1.object 0 false false empty in
    (r.0 ≡ ok true) × (contents r.1 ≡ 0 ∷ 0 ∷ 5 ∷ 6 ∷ 7 ∷ 8 ∷ [])
handle_one_get-handle_one_update_example =
    handle_one_get-handle_one_update toys update_call 9 0 0 (5 ∷ 6 ∷ 7 ∷ 8 ∷ []) update_end false
      update_call-IsUpdate refl

-- Object 100 goes from zone 3 of object 50 to zone 4 of object 60.
abbrev host_call : Call
host_call = record {
  object = record toy { do_id = 60; zone_objects = [] };
  log = [];
  dgi = start (from_bytes []);
}

toy-InRange : InRange toy
toy-InRange = record {
  id = omega arith;
  parent = omega arith;
  zone = omega arith;
  ai = omega arith;
  owner = omega arith;
}

location-handshake_example :
    let moved = (handle_location_change toys 60 4 9 move_call).1 in
    (targets : List ℕ) × ((said : Datagram) × ((mem 60 targets ≡ true)
        × (IsMessage said (changing_bytes toys targets 100 60 4 50 3)
            × (Logged (published said) moved.log
                × (let told = (handle_datagram toys (record host_call { dgi = start said })).1 in
                    (mem 100 (children 4 told.object.zone_objects) ≡ true)
                    × ((ack : Datagram) × (Logged (published ack) told.log
                          × ((handle_datagram toys
                                (record moved { dgi = start ack })).1.object.parent_synchronized
                              ≡ true))))))))
location-handshake_example =
    location-handshake toys 9 4 move_call host_call toy-InRange (omega arith) (omega arith) refl
      refl refl

-- The values of the two fields.
four_bytes : IsValue toys 0 (1 ∷ 2 ∷ 3 ∷ 4 ∷ [])
unfolding unpack_field
four_bytes =
    Reads-map (get_data 4) (λ bytes. [] ++ bytes) (1 ∷ 2 ∷ 3 ∷ 4 ∷ []) (1 ∷ 2 ∷ 3 ∷ 4 ∷ [])
      (get_data-Reads (1 ∷ 2 ∷ 3 ∷ 4 ∷ []))

tagged_bytes : IsValue toys 1 (2 ∷ 0 ∷ 9 ∷ 8 ∷ [])
unfolding unpack_field
tagged_bytes =
    Reads-bind get_uint16 _ (2 ∷ 0 ∷ []) (9 ∷ 8 ∷ []) 2 (2 ∷ 0 ∷ 9 ∷ 8 ∷ [])
      (get_uint16-Reads 2 (omega arith))
      (Reads-map (get_data 2) (λ bytes. [] ++ (le_bytes 2 2 ++ bytes)) (9 ∷ 8 ∷ []) (9 ∷ 8 ∷ [])
        (get_data-Reads (9 ∷ 8 ∷ [])))

abbrev four_iterator : DatagramIterator
four_iterator = start (from_bytes (1 ∷ 2 ∷ 3 ∷ 4 ∷ []))

four_iterator-Holds : Holds four_iterator (1 ∷ 2 ∷ 3 ∷ 4 ∷ [])
unfolding from_bytes
four_iterator-Holds = record { inside = omega arith; bytes = refl }

unpack_required-append_values_example :
    AppendsTo toys empty
      (1 ∷ 2 ∷ 3 ∷ 4 ∷ [])
      move_call
      (append_values toys false false (0 ∷ 1 ∷ 2 ∷ []) empty move_call)
    × ((fs : FieldMap) × ((unpack_required toys (0 ∷ 1 ∷ 2 ∷ []) [] four_iterator
            ≡ (ok fs, advance 4 four_iterator))
          × ((k : ℕ)
              → find k fs ≡ (
                  if mem k (0 ∷ 1 ∷ 2 ∷ []) && is_atomic_required toys k
                  then some (value k toy.required_fields)
                  else none))))
unfolding empty
unpack_required-append_values_example =
    unpack_required-append_values toys (0 ∷ 1 ∷ 2 ∷ []) empty move_call four_iterator empty-IsValid
      (refl, (refl, (refl, tt)))
      ((λ _. four_bytes), ((λ h. absurd (cc h)), ((λ h. absurd (cc h)), tt))) (omega arith)
      four_iterator-Holds

-- An object with the RAM field.
abbrev full_call : Call
full_call = record {
  object = record toy { ram_fields = (1, 2 ∷ 0 ∷ 9 ∷ 8 ∷ []) ∷ [] };
  log = [];
  dgi = start (from_bytes (1 ∷ 0 ∷ 1 ∷ 0 ∷ 2 ∷ 0 ∷ 9 ∷ 8 ∷ []));
}

full_call-Holds : Holds full_call.dgi (1 ∷ 0 ∷ 1 ∷ 0 ∷ 2 ∷ 0 ∷ 9 ∷ 8 ∷ [])
unfolding from_bytes
full_call-Holds = record { inside = omega arith; bytes = refl }

unpack_other-append_other_data_example :
    ((dg' : Datagram) × ((append_other_data toys false false empty full_call ≡ (ok dg', full_call))
        × Appended empty (1 ∷ 0 ∷ 1 ∷ 0 ∷ 2 ∷ 0 ∷ 9 ∷ 8 ∷ []) (ok tt, dg')))
    × ((get_uint16 >>= λ count. unpack_other toys (toys.field_by_index 7) count []) full_call.dgi
        ≡ (ok ((1, 2 ∷ 0 ∷ 9 ∷ 8 ∷ []) ∷ []), advance 8 full_call.dgi))
unfolding empty
unpack_other-append_other_data_example =
    unpack_other-append_other_data toys (toys.field_by_index 7) empty full_call full_call.dgi
      empty-IsValid (tt, tt) (omega arith, (refl, (refl, (tagged_bytes, tt)))) (omega arith)
      (omega arith) full_call-Holds

-- CREATE_OBJECT_WITH_REQUIRED to a state server, for object 100 of class 7 at zone 3 of object 50, with
-- a value for field 0.
abbrev create_bytes : List ℕ
create_bytes =
    (1 ∷ le_bytes 8 4002)
    ++ (le_bytes 8 9
        ++ (le_bytes 2 2000
            ++ (words (100 ∷ 50 ∷ 3 ∷ []) ++ (le_bytes 2 7 ++ (5 ∷ 6 ∷ 7 ∷ 8 ∷ [])))))

-- DELETE_RAM to the object.
abbrev delete_bytes : List ℕ
delete_bytes = (1 ∷ le_bytes 8 100) ++ (le_bytes 8 9 ++ (le_bytes 2 2032 ++ words (100 ∷ [])))

abbrev events : List Event
events = for_server (from_bytes create_bytes) ∷ for_object 100 first_datagram ∷ []

toys-IsFlat : IsFlat toys 7
toys-IsFlat field molecular h = elim (Bool-cases (molecular == 2)) [
  | inl e ↦ rw e (
    (λ g at. let same : 0 ≡ g = cc at in rw⁻¹ same refl),
    ((λ g at. let same : 1 ≡ g = cc at in rw⁻¹ same refl), tt),
  )
  | inr e ↦ rw e tt
]

handle_one_get_ends_example : (handle_one_get toys toy 2 true false empty).0 ≢ err stuck
handle_one_get_ends_example = handle_one_get_ends toys toy 2 true false empty toys-IsFlat
