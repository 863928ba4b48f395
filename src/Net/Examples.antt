-- ===== src/Net/Examples.antt =====
-- The messages of src/net at concrete inputs.
use ardos.Prelude.{
  none, false, true, ◌≡◌, inl, inr, refl, List, [], ◌∷◌, All, arith, ◌==◌, if◌then◌else◌,
  Bool-cases, replicate,
}
use ardos.Prelude.Action.{ok}
use ardos.Dc.{Dc}
use ardos.Net.Datagram.{empty, from_bytes, header_to_all, get_bytes}
use ardos.Net.DatagramIterator.{DatagramIterator, advance, unpack_field, skip_field}
use ardos.Net.Items.{
  Item, int16, uint16, text, location, plain, Fits, write_all, read_all, start, read_all-write_all,
}
use ardos.Net.Header.{
  read_header, read_sender, read_header-header_to_all, read_sender-header_to_all_wraps,
}
use ardos.Net.Fields.Skip.{KnownTags, forget, skip_field-unpack_field}
use ardos.Net.Fields.Unpack.{IsSound, Took, Took-unpack_field}
use ardos.Net.TcpTransport.{fresh, run, sends, wrote, closes, received}
use ardos.Net.NetworkClient.{NetworkClient, client_step}
use ardos.Net.NetworkClient.Transport.{view, transport_step, client_step-transport_step}
use ardos.Net.TcpTransport.Chunks.{run-received}
use ardos.Net.TcpTransport.WriteQueue.{
  IsQueued, Sent, accepted, fresh-IsQueued, run-IsQueued, run-fresh-Sent,
}

abbrev greeting : List Item
greeting = uint16 513 ∷ text (104 ∷ 105 ∷ []) ∷ location 4 2000 ∷ int16 65535 ∷ plain (7 ∷ []) ∷ []

greeting-Fits : All Fits greeting
greeting-Fits = (omega arith, (omega arith, ((omega arith, omega arith), (omega arith, (tt, tt)))))

read_all-write_all_example :
    let r = write_all greeting empty in
    (r.0 ≡ ok tt)
    × (read_all greeting (start r.1) ≡ (ok greeting, advance 17 (start r.1)))
    × (get_bytes r.1
        ≡ 1 ∷ 2 ∷ 2 ∷ 0 ∷ 104 ∷ 105 ∷ 4 ∷ 0 ∷ 0 ∷ 0 ∷ 208 ∷ 7 ∷ 0 ∷ 0 ∷ 255 ∷ 255 ∷ 7 ∷ [])
read_all-write_all_example = read_all-write_all greeting greeting-Fits (omega arith)

read_header-header_to_all_example :
    let r = header_to_all (1001 ∷ 1002 ∷ []) 7 2040 empty in
    (r.0 ≡ ok tt) × (read_header (start r.1) ≡ (ok (7, 2040), advance 27 (start r.1)))
read_header-header_to_all_example =
    read_header-header_to_all (1001 ∷ 1002 ∷ []) 7 2040 (omega arith, (omega arith, tt))
      (omega arith) (omega arith) (omega arith)

-- Two hundred and fifty-six recipients.
read_sender-header_to_all_wraps_example :
    let r = header_to_all (5 ∷ replicate 255 6) 7 2040 empty in
    (r.0 ≡ ok tt) × (read_sender (start r.1) ≡ (ok 5, advance 9 (start r.1)))
read_sender-header_to_all_wraps_example =
    read_sender-header_to_all_wraps [] (replicate 255 6) 5 7 2040 tt (omega arith) (omega arith)
      refl (omega arith)

-- Field 0 has four bytes, field 1 a tag of two bytes, and field 2 holds both.
abbrev fields : Dc
fields = record {
  has_fixed_byte_size = λ f. f == 0;
  fixed_byte_size = λ _. 4;
  num_length_bytes = λ f. if f == 1 then 2 else 0;
  nested_fields = λ f. if f == 2 then 0 ∷ 1 ∷ [] else [];
  depth = λ f. if f == 2 then 1 else 0;
  nested_lower = λ f. elim (Bool-cases (f == 2)) [
    | inl e ↦ rw e (omega arith, (omega arith, tt))
    | inr e ↦ rw e tt
  ];
  field_by_name = λ _ _. none;
  as_atomic_field = λ _. none;
  num_elements = λ _. 0;
  has_element_default = λ _ _. false;
  element_default_string = λ _ _. none;
  get_class = λ _. none;
  class_number = λ c. c;
  inherited_fields = λ _. [];
  field_by_index = λ _ _. none;
  field_number = λ f. f;
  as_molecular_field = λ _. none;
  is_required = λ _. false;
  is_ram = λ _. false;
  is_broadcast = λ _. false;
  is_clrecv = λ _. false;
  is_ownrecv = λ _. false;
  is_airecv = λ _. false;
  atomics = λ _. [];
}

fields-KnownTags : KnownTags fields
fields-KnownTags f = elim (Bool-cases (f == 1)) [
  | inl e ↦ rw e (inr (inl refl))
  | inr e ↦ rw e (inl refl)
]

abbrev message : DatagramIterator
message = record { dg = from_bytes (1 ∷ 2 ∷ 3 ∷ 4 ∷ 2 ∷ 0 ∷ 9 ∷ 8 ∷ 7 ∷ []); offset = 0 }

message-IsSound : IsSound message
unfolding from_bytes
message-IsSound = record {
  valid = record { lengths = refl; within = omega arith };
  are_bytes = ground arith;
  within = omega arith;
}

skip_field-unpack_field_example :
    skip_field fields 2 message ≡ forget (unpack_field fields 2 [] message)
skip_field-unpack_field_example = skip_field-unpack_field fields fields-KnownTags 2 [] message

Took-unpack_field_example : Took message [] (unpack_field fields 2 [] message)
Took-unpack_field_example = Took-unpack_field fields 2 [] message message-IsSound

-- Two messages that arrive in pieces of one, five and one bytes.
run-received_example :
    let c =
      run fresh
        (received (2 ∷ []) ∷ received (0 ∷ 10 ∷ 11 ∷ 1 ∷ 0 ∷ []) ∷ received (12 ∷ []) ∷ []) in
    (c.delivered ≡ (10 ∷ 11 ∷ []) ∷ (12 ∷ []) ∷ []) × (c.read_buffer ≡ [])
run-received_example =
    run-received ((10 ∷ 11 ∷ []) ∷ (12 ∷ []) ∷ [])
      ((2 ∷ []) ∷ (0 ∷ 10 ∷ 11 ∷ 1 ∷ 0 ∷ []) ∷ (12 ∷ []) ∷ [])
      ((omega arith, omega arith), ((omega arith, omega arith), tt)) refl

run-IsQueued_example : IsQueued (run fresh (sends (1 ∷ []) ∷ sends (2 ∷ []) ∷ wrote ∷ closes ∷ []))
run-IsQueued_example =
    run-IsQueued fresh (sends (1 ∷ []) ∷ sends (2 ∷ []) ∷ wrote ∷ closes ∷ []) fresh-IsQueued

run-fresh-Sent_example :
    let es = sends (1 ∷ []) ∷ sends (2 ∷ []) ∷ wrote ∷ closes ∷ sends (3 ∷ []) ∷ [] in
    Sent (run fresh es) (accepted fresh es)
run-fresh-Sent_example =
    run-fresh-Sent (sends (1 ∷ []) ∷ sends (2 ∷ []) ∷ wrote ∷ closes ∷ sends (3 ∷ []) ∷ [])

-- A client with a datagram on its way.
abbrev client : NetworkClient
client = record {
  data_buf = [];
  write_queue = (1 ∷ 0 ∷ 5 ∷ []) ∷ [];
  queued_bytes = 3;
  disconnected = false;
  is_writing = true;
  socket_closed = false;
  alive = true;
  handled = [];
  disconnects = 0;
  written = [];
  closes = 0;
}

client_step-transport_step_example :
    view (client_step client (received (1 ∷ 0 ∷ 9 ∷ 1 ∷ [])))
    ≡ transport_step (view client) (received (1 ∷ 0 ∷ 9 ∷ 1 ∷ []))
client_step-transport_step_example =
    client_step-transport_step client (received (1 ∷ 0 ∷ 9 ∷ 1 ∷ []))
