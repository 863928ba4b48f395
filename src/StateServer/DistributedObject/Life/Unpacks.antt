-- ===== src/StateServer/DistributedObject/Life/Unpacks.antt =====
-- What AppendRequiredData and AppendOtherData of src/stateserver/distributed_object.cpp write, the
-- constructor of an object reads.
use ardos.Prelude.{
  ℕ, ◌+◌, ◌≤◌, ◌≡◌, refl, sym, ◌∙◌, true, false, ◌&&◌, none, some, List, [], ◌∷◌, ◌++◌, length,
  length-append, append-nil, All, arith, ◌==◌, if◌then◌else◌, Bool-cases, Option-cases, inl, inr,
}
use ardos.Prelude.Sets.{mem, NoDup}
use ardos.Prelude.Action.{Result, ok}
use ardos.Dc.{Dc}
use ardos.Net.Datagram.{Datagram, max_dg_size, add_data}
use ardos.Net.Datagram.Writes.{IsValid, Appended, Appended-seq, contents}
use ardos.Net.Datagram.Adds.{add_data-Writes}
use ardos.Net.DatagramIterator.{DatagramIterator, advance, unpack_field}
use ardos.Net.DatagramIterator.Reads.{Holds, Reads, Reads-pure, Reads-bind}
use ardos.StateServer.FieldMap.{FieldMap, find, value, touch, assign, find-assign, value-touch}
use ardos.StateServer.DistributedObject.{Call, self, change, fill}
use ardos.StateServer.DistributedObject.Calls.{filled-ok}
use ardos.StateServer.DistributedObject.Entries.{is_in_entry, append_values}
use ardos.StateServer.DistributedObject.Life.{is_atomic_required, unpack_required}

-- No bytes yet for these fields.
abbrev AreFresh : List ℕ → FieldMap → Type 0
AreFresh fields fs = All (λ f. value f fs ≡ []) fields

AreFresh-assign :
    (fields : List ℕ) (field : ℕ) (v : List ℕ) (fs : FieldMap)
    → mem field fields ≡ false
    → AreFresh fields fs
    → AreFresh fields (assign field v fs)
AreFresh-assign [] field v fs out n = tt
AreFresh-assign (f ∷ fields) field v fs out n = (
  rw (find-assign f field v fs) (ground (arith, n.0)),
  AreFresh-assign fields field v fs (ground arith) n.1,
)

AreFresh-at_first : (fields : List ℕ) → AreFresh fields []
AreFresh-at_first [] = tt
AreFresh-at_first (f ∷ fields) = (refl, AreFresh-at_first fields)

module _ (dc : Dc) where
  -- Bytes that UnpackField takes whole for a value of the field.
  abbrev pub IsValue : ℕ → List ℕ → Type 0
  IsValue field v = Reads (unpack_field dc field []) v v

  abbrev pub required_bytes : List ℕ → FieldMap → List ℕ
  required_bytes [] fs = []
  required_bytes (field ∷ fields) fs =
      let rest = required_bytes fields fs in
      if is_atomic_required dc field then value field fs ++ rest else rest

  -- Every required field that is not molecular has a value.
  abbrev pub AreValues : List ℕ → FieldMap → Type 0
  AreValues fields fs = All (λ f. is_atomic_required dc f ≡ true → IsValue f (value f fs)) fields

  abbrev unpacked : List ℕ → FieldMap → FieldMap → FieldMap
  unpacked [] fs gs = gs
  unpacked (field ∷ fields) fs gs =
      if is_atomic_required dc field
      then unpacked fields fs (assign field (value field fs) gs)
      else unpacked fields fs gs

  unpack_required-Reads :
      (fields : List ℕ) (fs gs : FieldMap)
      → NoDup fields
      → AreFresh fields gs
      → AreValues fields fs
      → Reads (unpack_required dc fields gs) (required_bytes fields fs) (unpacked fields fs gs)
  unfolding unpack_required
  unpack_required-Reads [] fs gs d n a = Reads-pure gs
  unpack_required-Reads (field ∷ fields) fs gs d n (v, a) =
      elim (Bool-cases (is_atomic_required dc field)) [
        | inl e ↦
            rw (e, n.0)
              (Reads-bind (unpack_field dc field [])
                (λ bytes. unpack_required dc fields (assign field bytes gs)) (value field fs)
                (required_bytes fields fs) (value field fs) _ (v e)
                (unpack_required-Reads fields fs (assign field (value field fs) gs) d.1
                  (AreFresh-assign fields field (value field fs) gs d.0 n.1) a))
        | inr e ↦ rw e (unpack_required-Reads fields fs gs d.1 n.1 a)
      ]

  find-unpacked :
      (k : ℕ) (fields : List ℕ) (fs gs : FieldMap)
      → find k (unpacked fields fs gs)
        ≡ (if mem k fields && is_atomic_required dc k then some (value k fs) else find k gs)
  find-unpacked k [] fs gs = refl
  find-unpacked k (field ∷ fields) fs gs = elim (Bool-cases (is_atomic_required dc field)) [
    | inl e ↦
        rw
          (
            e,
            find-unpacked k fields fs (assign field (value field fs) gs),
            find-assign k field (value field fs) gs,
          )
          (elim (Bool-cases (k == field)) [
            | inl same ↦ let eq : k ≡ field = ground arith in rw eq (ground (arith, e))
            | inr other ↦ ground arith
          ])
    | inr e ↦
        rw (e, find-unpacked k fields fs gs)
          (elim (Bool-cases (k == field)) [
            | inl same ↦ let eq : k ≡ field = ground arith in rw eq (ground (arith, e))
            | inr other ↦ ground arith
          ])
  ]

  is_in_entry-eq : (field : ℕ) → is_in_entry dc false false field ≡ is_atomic_required dc field
  is_in_entry-eq field = elim (Option-cases (dc.as_molecular_field field)) [
    | inl e ↦ rw e (ground arith)
    | inr (f, e) ↦ rw e (ground arith)
  ]

  required_bytes-touch :
      (fields : List ℕ) (field : ℕ) (fs : FieldMap)
      → required_bytes fields (touch field fs) ≡ required_bytes fields fs
  required_bytes-touch [] field fs = refl
  required_bytes-touch (f ∷ fields) field fs =
      rw (required_bytes-touch fields field fs, value-touch f field fs) refl

  -- The result of a loop that appends to a datagram.
  abbrev pub AppendsTo : Datagram → List ℕ → Call → Result Datagram × Call → Type 0
  AppendsTo dg xs c r =
      (dg' : Datagram) × ((c' : Call) × ((r ≡ (ok dg', c'))
          × (Appended dg xs (ok tt, dg')
              × ((c'.log ≡ c.log)
                  × ((k : ℕ)
                      → value k c'.object.required_fields ≡ value k c.object.required_fields)))))

  settled :
      {dg : Datagram} {xs : List ℕ} (r : Result (Unit {0}) × Datagram)
      → Appended dg xs r
      → Appended dg xs (ok tt, r.1)
  settled r a = record { result = refl; valid = a.valid; offset = a.offset; bytes = a.bytes }

  append_values-AppendsTo :
      (fields : List ℕ) (dg : Datagram) (c : Call)
      → IsValid dg
      → dg.buf_offset + length (required_bytes fields c.object.required_fields) ≤ max_dg_size
      → AppendsTo dg
          (required_bytes fields c.object.required_fields)
          c
          (append_values dc false false fields dg c)
  unfolding append_values self change fill
  append_values-AppendsTo [] dg c valid room = (
    dg,
    (
      c,
      (
        refl,
        (
          record {
            result = refl;
            valid = valid;
            offset = omega arith;
            bytes = sym (append-nil (contents dg));
          },
          (refl, λ k. refl),
        ),
      ),
    ),
  )
  append_values-AppendsTo (field ∷ fields) dg c valid room =
      elim (Bool-cases (is_atomic_required dc field)) [
        | inl e ↦
            let fs = c.object.required_fields in
            let v = value field fs in
            let room' : dg.buf_offset + length (v ++ required_bytes fields fs) ≤ max_dg_size =
              rw e at room in
            let first =
              (add_data-Writes v).fits dg valid
                (omega (arith, room', length-append v (required_bytes fields fs))) in
            let next = record c { object = record c.object { required_fields = touch field fs } } in
            let (dg', (c', (run, (rest, (log, same))))) =
              append_values-AppendsTo fields (add_data v dg).1 next first.valid (
                rw (required_bytes-touch fields field fs) (
                  omega
                    (arith, room', length-append v (required_bytes fields fs), first.offset))) in
            let rest' = rw (required_bytes-touch fields field fs) at rest in
            rw
              (
                is_in_entry-eq field,
                e,
                value-touch field field fs,
                filled-ok (add_data v dg) next first.result,
                run,
              )
              (
                dg',
                (
                  c',
                  (
                    refl,
                    (
                      Appended-seq dg v (required_bytes fields fs) first rest',
                      (log, λ k. same k ∙ value-touch k field fs),
                    ),
                  ),
                ),
              )
        | inr e ↦
            rw (is_in_entry-eq field, e) (append_values-AppendsTo fields dg c valid (rw e at room))
      ]

  -- The required fields that AppendRequiredData writes for the server, where none is listed twice, each
  -- has a value and all fit, are put behind what the datagram holds, with no change of a value and nothing published; and
  -- wherever those bytes stand, the loop of the constructor over the inherited fields reads just them:
  -- each required field of the class that is not molecular has its value again, and no other has one.
  pub unpack_required-append_values :
      (fields : List ℕ) (dg : Datagram) (c : Call) (it : DatagramIterator)
      → IsValid dg
      → NoDup fields
      → AreValues fields c.object.required_fields
      → dg.buf_offset + length (required_bytes fields c.object.required_fields) ≤ max_dg_size
      → Holds it (required_bytes fields c.object.required_fields)
      → let bytes = required_bytes fields c.object.required_fields in
        AppendsTo dg bytes c (append_values dc false false fields dg c)
        × ((fs : FieldMap) × ((unpack_required dc fields [] it ≡ (ok fs, advance (length bytes) it))
              × ((k : ℕ)
                  → find k fs ≡ (
                      if mem k fields && is_atomic_required dc k
                      then some (value k c.object.required_fields)
                      else none))))
  unpack_required-append_values fields dg c it valid once values room h =
      let fs = c.object.required_fields in
      (
        append_values-AppendsTo fields dg c valid room,
        (
          unpacked fields fs [],
          (
            unpack_required-Reads fields fs [] once (AreFresh-at_first fields) values it h,
            λ k. find-unpacked k fields fs [],
          ),
        ),
      )
