-- ===== src/StateServer/DistributedObject/Fields/Updates.antt =====
-- HandleOneUpdate of src/stateserver/distributed_object.cpp, and HandleOneGet after it.
use ardos.Prelude.{
  ℕ, ◌+◌, ◌*◌, ◌^◌, if◌then◌else◌, ◌≤◌, ◌≡◌, refl, ◌∙◌, Bool, true, false, not, ◌&&◌, ◌||◌, none,
  some, List, [], ◌∷◌, ◌++◌, length, length-append, arith, ◌==◌, if_ind, Bool-cases, ◌⊎◌, inl, inr,
}
use ardos.Prelude.Words.{le_bytes}
use ardos.Prelude.Sets.{mem, mem-insert}
use ardos.Prelude.Action.{Action, Result, ok, err, pure, ◌>>=◌, ◌>>◌, continue}
use ardos.Dc.{Dc}
use ardos.Net.Datagram.{Datagram, empty, header_to_all, add_uint16, add_uint32, add_data}
use ardos.Net.Datagram.Writes.{Writes-seq, contents}
use ardos.Net.Datagram.Adds.{
  header_bytes, header_to_all-Writes, add_uint16-Writes, add_uint32-Writes, add_data-Writes,
}
use ardos.Net.DatagramIterator.{DatagramIterator, advance, get_uint16, unpack_field}
use ardos.Net.Header.{length-header_bytes}
use ardos.Net.Items.{empty-IsValid}
use ardos.StateServer.Messages.{location_as_channel, stateserver_object_set_field}
use ardos.StateServer.FieldMap.{FieldMap, find, contains, find-assign, missing}
use ardos.StateServer.DistributedObject.{DistributedObject, published, Call, self, from_dgi, change}
use ardos.StateServer.DistributedObject.Calls.{IsMessage, publish-Published}
use ardos.StateServer.DistributedObject.Fields.{
  save_field, save_parts, insert_if, update_targets, store_update, update_field, handle_one_update,
  handle_one_get, get_value, add_value,
}

abbrev pub update_bytes : DistributedObject → ℕ → List ℕ → List ℕ → ℕ → List ℕ
update_bytes o field_id bytes targets sender =
    header_bytes targets sender stateserver_object_set_field
    ++ (le_bytes 4 o.do_id ++ (le_bytes 2 field_id ++ bytes))

length-insert_if :
    (dc : Dc) (test : Bool) (c : ℕ) (cs : List ℕ) → length (insert_if dc test c cs) ≤ 1 + length cs
length-insert_if dc true c cs = elim (Bool-cases (mem c cs)) [
  | inl e ↦ rw e (omega arith)
  | inr e ↦ rw e (omega arith)
]
length-insert_if dc false c cs = omega arith

last_true :
    (r : Result (Unit {0}) × Datagram) → r.0 ≡ ok tt → continue r (λ _. pure true) ≡ (ok true, r.1)
last_true (ok u, dg) h = refl
last_true (err e, dg) h = absurd (cc h)

seq_true :
    (r : Result (Unit {0}) × Datagram) (m : Action Datagram (Unit {0}))
    → (continue r (λ _. m)).0 ≡ ok tt
    → continue r (λ _. m >>= λ _. pure true) ≡ (ok true, (continue r (λ _. m)).1)
seq_true (ok u, dg) m h = last_true (m dg) h
seq_true (err e, dg) m h = absurd (cc h)

module _ (dc : Dc) where
  pub length-update_targets :
      (o : DistributedObject) (field sender : ℕ) → length (update_targets dc o field sender) ≤ 3
  unfolding update_targets
  length-update_targets o field sender =
      let own =
        dc.is_ownrecv field && (not (o.owner_channel == 0) && not (o.owner_channel == sender)) in
      let ai = dc.is_airecv field && (not (o.ai_channel == 0) && not (o.ai_channel == sender)) in
      let place = location_as_channel o.parent_id o.zone_id in
      let first = insert_if dc (dc.is_broadcast field) place [] in
      let second = insert_if dc ai o.ai_channel first in
      omega (
        arith,
        length-insert_if dc (dc.is_broadcast field) place [],
        length-insert_if dc ai o.ai_channel first,
        length-insert_if dc own o.owner_channel second,
      )

  -- The location for a broadcast field, and the AI and the owner for one that they receive, where there
  -- is one and it is not the sender.
  abbrev pub is_target : DistributedObject → ℕ → ℕ → ℕ → Bool
  is_target o field sender k =
      (dc.is_broadcast field && (k == o.parent_id * 2 ^ 32 + o.zone_id))
      || ((dc.is_airecv field
            && ((k == o.ai_channel) && (not (o.ai_channel == 0) && not (o.ai_channel == sender))))
          || (dc.is_ownrecv field
              && ((k == o.owner_channel)
                  && (not (o.owner_channel == 0) && not (o.owner_channel == sender)))))

  -- The update of a field that is not molecular, read whole.
  pub record IsUpdate (c : Call) (field_id field : ℕ) (bytes : List ℕ) (it : DatagramIterator)
      : Type 0 where
    pub number : get_uint16 c.dgi ≡ (ok field_id, advance 2 c.dgi)
    pub known : dc.field_by_index c.object.dclass field_id ≡ some field
    pub single : dc.as_molecular_field field ≡ none
    pub whole : unpack_field dc field [] (advance 2 c.dgi) ≡ (ok bytes, it)
    pub short : length bytes ≤ 65000

  one_update :
      (c : Call) (sender field_id field : ℕ) (bytes : List ℕ) (it : DatagramIterator)
      → IsUpdate c field_id field bytes it
      → let o = save_field dc field bytes c.object in
        (dg : Datagram) × ((handle_one_update dc sender c
            ≡ (ok true, record { object = o; log = c.log ++ published dg ∷ []; dgi = it }))
          × IsMessage dg (update_bytes o field_id bytes (update_targets dc o field sender) sender))
  unfolding handle_one_update update_field store_update save_parts self from_dgi change
  one_update c sender field_id field bytes it u =
      let o = save_field dc field bytes c.object in
      let targets = update_targets dc o field sender in
      let sent =
        publish-Published
          (header_to_all targets sender stateserver_object_set_field
            >> (add_uint32 o.do_id >> (add_uint16 field_id >> add_data bytes)))
          (update_bytes o field_id bytes targets sender)
          (record { object = o; log = c.log; dgi = it })
          (Writes-seq _ _ _ _ (header_to_all-Writes targets sender stateserver_object_set_field) (
            Writes-seq _ _ _ _ (add_uint32-Writes o.do_id)
              (Writes-seq _ _ _ _ (add_uint16-Writes field_id) (add_data-Writes bytes))))
          (omega (
            arith,
            length-append (header_bytes targets sender stateserver_object_set_field)
                (le_bytes 4 o.do_id ++ (le_bytes 2 field_id ++ bytes)),
            length-header_bytes targets sender stateserver_object_set_field,
            length-update_targets o field sender,
            u.short,
          )) in
      (sent.0, (rw (u.number, u.known, u.whole, u.single, sent.1.0) refl, sent.1.1))

  mem-insert_if :
      (test : Bool) (k c : ℕ) (cs : List ℕ)
      → mem k (insert_if dc test c cs) ≡ (test && (k == c)) || mem k cs
  mem-insert_if true k c cs = mem-insert k c cs
  mem-insert_if false k c cs = refl

  mem-update_targets :
      (o : DistributedObject) (field sender k : ℕ)
      → mem k (update_targets dc o field sender) ≡ is_target o field sender k
  unfolding update_targets
  mem-update_targets o field sender k =
      let own =
        dc.is_ownrecv field && (not (o.owner_channel == 0) && not (o.owner_channel == sender)) in
      let ai = dc.is_airecv field && (not (o.ai_channel == 0) && not (o.ai_channel == sender)) in
      let place = location_as_channel o.parent_id o.zone_id in
      let first = insert_if dc (dc.is_broadcast field) place [] in
      rw
        (
          mem-insert_if own k o.owner_channel (insert_if dc ai o.ai_channel first),
          mem-insert_if ai k o.ai_channel first,
          mem-insert_if (dc.is_broadcast field) k place [],
        )
        (ground arith)

  find_required-save_field :
      (o : DistributedObject) (field : ℕ) (bytes : List ℕ) (k : ℕ)
      → find k (save_field dc field bytes o).required_fields
        ≡ (if dc.is_required field && (k == field) then some bytes else find k o.required_fields)
  unfolding save_field
  find_required-save_field o field bytes k = elim (Bool-cases (dc.is_required field)) [
    | inl e ↦ rw e (find-assign k field bytes o.required_fields)
    | inr e ↦ elim (Bool-cases (dc.is_ram field)) [
      | inl ram ↦ rw (e, ram) refl
      | inr lost ↦ rw (e, lost) refl
    ]
  ]

  find_ram-save_field :
      (o : DistributedObject) (field : ℕ) (bytes : List ℕ) (k : ℕ)
      → find k (save_field dc field bytes o).ram_fields ≡ (
          if not (dc.is_required field) && (dc.is_ram field && (k == field))
          then some bytes
          else find k o.ram_fields)
  unfolding save_field
  find_ram-save_field o field bytes k = elim (Bool-cases (dc.is_required field)) [
    | inl e ↦ rw e refl
    | inr e ↦ elim (Bool-cases (dc.is_ram field)) [
      | inl ram ↦ rw (e, ram) (find-assign k field bytes o.ram_fields)
      | inr lost ↦ rw (e, lost) refl
    ]
  ]

  save_field-place :
      (o : DistributedObject) (field : ℕ) (bytes : List ℕ) (sender : ℕ)
      → (update_targets dc (save_field dc field bytes o) field sender
          ≡ update_targets dc o field sender)
        × ((save_field dc field bytes o).do_id ≡ o.do_id)
  unfolding save_field update_targets
  save_field-place o field bytes sender = elim (Bool-cases (dc.is_required field)) [
    | inl e ↦ rw e (refl, refl)
    | inr e ↦ elim (Bool-cases (dc.is_ram field)) [
      | inl ram ↦ rw (e, ram) (refl, refl)
      | inr lost ↦ rw (e, lost) (refl, refl)
    ]
  ]

  -- An update of a field of the class that is not molecular, whose value is whole and of at most 65000
  -- bytes: HandleOneUpdate returns true; the value is then what the field has among the required
  -- fields, if it is required, or else among the RAM fields, if it is kept in RAM, and no other
  -- field has changed; and one message is published, SET_FIELD from the sender with the identifier
  -- of the object, the number of the field and the value, to the location of the object where the
  -- field is broadcast, to its AI where that receives the field and to its owner where that does,
  -- but to an AI or owner only where there is one that is not the sender, and to no other channel.
  pub handle_one_update-Published :
      (c : Call) (sender field_id field : ℕ) (bytes : List ℕ) (it : DatagramIterator)
      → IsUpdate c field_id field bytes it
      → let r = handle_one_update dc sender c in
        let o = c.object in
        let o' = r.1.object in
        (r.0 ≡ ok true)
        × ((k : ℕ)
            → find k o'.required_fields ≡ (
                if dc.is_required field && (k == field)
                then some bytes
                else find k o.required_fields))
        × ((k : ℕ)
            → find k o'.ram_fields ≡ (
                if not (dc.is_required field) && (dc.is_ram field && (k == field))
                then some bytes
                else find k o.ram_fields))
        × ((dg : Datagram) × ((targets : List ℕ) × ((r.1.log ≡ c.log ++ published dg ∷ [])
                × (IsMessage dg (update_bytes o field_id bytes targets sender)
                    × ((k : ℕ) → mem k targets ≡ is_target o field sender k)))))
  handle_one_update-Published c sender field_id field bytes it u =
      let (dg, (run, message)) = one_update c sender field_id field bytes it u in
      let (targets, id) = save_field-place c.object field bytes sender in
      rw run (
        refl,
        find_required-save_field c.object field bytes,
        find_ram-save_field c.object field bytes,
        (
          dg,
          (
            update_targets dc c.object field sender,
            (refl, (rw (targets, id) at message, mem-update_targets c.object field sender)),
          ),
        ),
      )

  find-save_field :
      (o : DistributedObject) (field : ℕ) (bytes : List ℕ)
      → (dc.is_required field || (dc.is_ram field && not (contains field o.required_fields))) ≡ true
      → let o' = save_field dc field bytes o in
        (find field o'.required_fields ≡ some bytes)
        ⊎ ((find field o'.required_fields ≡ none) × (find field o'.ram_fields ≡ some bytes))
  unfolding save_field
  find-save_field o field bytes kept = elim (Bool-cases (dc.is_required field)) [
    | inl e ↦ rw e (inl (find-assign field field bytes o.required_fields ∙ ground arith))
    | inr e ↦ elim (Bool-cases (dc.is_ram field)) [
      | inl ram ↦
          rw (e, ram)
            (inr (
              missing (find field o.required_fields) (ground arith),
              find-assign field field bytes o.ram_fields ∙ ground arith,
            ))
      | inr lost ↦ absurd (ground arith)
    ]
  ]

  add_value-IsWritten :
      (field_id : ℕ) (bytes : List ℕ)
      → length bytes ≤ 65000
      → let r = add_value dc false field_id bytes empty in
        (r.0 ≡ ok true) × (contents r.1 ≡ le_bytes 2 field_id ++ bytes)
  unfolding empty
  add_value-IsWritten field_id bytes short =
      let w =
        Writes-seq (add_uint16 field_id) (add_data bytes) _ _ (add_uint16-Writes field_id)
          (add_data-Writes bytes) in
      let a = w.fits empty empty-IsValid (omega (arith, short)) in
      rw (seq_true (add_uint16 field_id empty) (add_data bytes) a.result) (refl, a.bytes)

  get_value-IsWritten :
      (field_id field : ℕ) (bytes : List ℕ) (succeed_if_unset : Bool) (required ram : FieldMap)
      → length bytes ≤ 65000
      → (find field required ≡ some bytes)
        ⊎ ((find field required ≡ none) × (find field ram ≡ some bytes))
      → let r =
          get_value dc field_id succeed_if_unset false
            (find field required)
            (find field ram)
            empty in
        (r.0 ≡ ok true) × (contents r.1 ≡ le_bytes 2 field_id ++ bytes)
  unfolding get_value
  get_value-IsWritten field_id field bytes succeed_if_unset required ram short (inl h) =
      rw h (add_value-IsWritten field_id bytes short)
  get_value-IsWritten field_id field bytes succeed_if_unset required ram short (inr (h, g)) =
      rw (h, g) (add_value-IsWritten field_id bytes short)

  save_field-dclass :
      (o : DistributedObject) (field : ℕ) (bytes : List ℕ)
      → (save_field dc field bytes o).dclass ≡ o.dclass
  unfolding save_field
  save_field-dclass o field bytes =
      if_ind (λ (p : DistributedObject). p.dclass ≡ o.dclass) (dc.is_required field) (λ _. refl)
        (λ _.
          if_ind (λ (p : DistributedObject). p.dclass ≡ o.dclass) (dc.is_ram field) (λ _. refl)
            (λ _. refl))

  -- After such an update of a field that is required, or kept in RAM and not among the required ones,
  -- HandleOneGet gives the number of the field and just those bytes.
  pub handle_one_get-handle_one_update :
      (c : Call) (sender field_id field : ℕ) (bytes : List ℕ) (it : DatagramIterator)
      (succeed_if_unset : Bool)
      → IsUpdate c field_id field bytes it
      → (dc.is_required field || (dc.is_ram field && not (contains field c.object.required_fields)))
        ≡ true
      → let r =
          handle_one_get dc
            (handle_one_update dc sender c).1.object
            field_id
            succeed_if_unset
            false
            empty in
        (r.0 ≡ ok true) × (contents r.1 ≡ le_bytes 2 field_id ++ bytes)
  unfolding handle_one_get
  handle_one_get-handle_one_update c sender field_id field bytes it succeed_if_unset u kept =
      let sent = one_update c sender field_id field bytes it u in
      let o = save_field dc field bytes c.object in
      rw (sent.1.0, save_field-dclass c.object field bytes, u.known, u.single)
        (get_value-IsWritten field_id field bytes succeed_if_unset o.required_fields o.ram_fields
          u.short (find-save_field c.object field bytes kept))
