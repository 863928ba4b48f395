-- ===== src/StateServer/DistributedObject/Life/Others.antt =====
-- The RAM fields that AppendOtherData of src/stateserver/distributed_object.cpp writes, the constructor
-- of an object reads.
use ardos.Prelude.{
  ℕ, ◌+◌, ◌%◌, ◌^◌, ◌≤◌, ◌<◌, ◌≡◌, refl, sym, ap, subst, true, false, Option, some, List, [], ◌∷◌,
  ◌++◌, length, append_assoc, append-nil, All, arith,
}
use ardos.Prelude.Words.{le_bytes}
use ardos.Prelude.Action.{ok, pure, ◌>>=◌, ◌>>◌}
use ardos.Dc.{Dc}
use ardos.Net.Datagram.{Datagram, max_dg_size, add_uint16}
use ardos.Net.Datagram.Writes.{IsValid, Appended, Writes, Writes-seq, Writes-pure}
use ardos.Net.Datagram.Adds.{add_data-Writes, add_uint16-Writes}
use ardos.Net.DatagramIterator.{DatagramIterator, advance, unpack_field, get_uint16}
use ardos.Net.DatagramIterator.Reads.{Holds, Reads, Reads-pure, Reads-bind, get_uint16-Reads}
use ardos.StateServer.FieldMap.{FieldMap, value, assign}
use ardos.StateServer.DistributedObject.{Call, self, fill}
use ardos.StateServer.DistributedObject.Calls.{filled-ok}
use ardos.StateServer.DistributedObject.Entries.{shown_fields, add_numbered, append_other_data}
use ardos.StateServer.DistributedObject.Life.{unpack_other}
use ardos.StateServer.DistributedObject.Life.Unpacks.{IsValue}

-- The keys rise, as in a std::map.
abbrev pub IsSorted : FieldMap → Type 0
IsSorted [] = Unit {0}
IsSorted ((j, w) ∷ fs) = All (λ (p : ℕ × List ℕ). j < p.0) fs × IsSorted fs

All-below :
    {j k : ℕ} (v : List ℕ) (fs gs : FieldMap)
    → All (λ (p : ℕ × List ℕ). j < p.0) (gs ++ (k, v) ∷ fs)
    → j < k
All-below v fs [] a = a.0
All-below v fs (g ∷ gs) a = All-below v fs gs a.1

assign_last :
    (k : ℕ) (v : List ℕ) (fs gs : FieldMap)
    → IsSorted (gs ++ (k, v) ∷ fs)
    → assign k v gs ≡ gs ++ (k, v) ∷ []
assign_last k v fs [] s = refl
assign_last k v fs ((j, w) ∷ gs) (above, s) =
    ground (arith, All-below v fs gs above, assign_last k v fs gs s)

value_last :
    (k : ℕ) (v : List ℕ) (fs gs : FieldMap) → IsSorted (gs ++ (k, v) ∷ fs) → value k gs ≡ []
value_last k v fs [] s = refl
value_last k v fs ((j, w) ∷ gs) (above, s) =
    ground (arith, All-below v fs gs above, value_last k v fs gs s)

module _ (dc : Dc) where
  abbrev pub numbered_bytes : FieldMap → List ℕ
  numbered_bytes [] = []
  numbered_bytes ((field, w) ∷ fs) = le_bytes 2 (dc.field_number field) ++ (w ++ numbered_bytes fs)

  -- The class knows every field of the map under its number, as one that is kept in RAM.
  abbrev pub AreKnown : (ℕ → Option ℕ) → FieldMap → Type 0
  AreKnown field_of [] = Unit {0}
  AreKnown field_of ((field, w) ∷ fs) =
      (dc.field_number field < 2 ^ 16)
      × ((field_of (dc.field_number field) ≡ some field)
          × ((dc.is_ram field ≡ true) × (IsValue dc field w × AreKnown field_of fs)))

  unpack_other-Reads :
      (field_of : ℕ → Option ℕ) (fs gs : FieldMap)
      → AreKnown field_of fs
      → IsSorted (gs ++ fs)
      → Reads (unpack_other dc field_of (length fs) gs) (numbered_bytes fs) (gs ++ fs)
  unfolding unpack_other
  unpack_other-Reads field_of [] gs known s =
      subst (λ (hs : FieldMap). Reads (pure gs) [] hs) (sym (append-nil gs)) (Reads-pure gs)
  unpack_other-Reads field_of ((field, w) ∷ fs) gs (small, (at, (ram, (v, known)))) s =
      Reads-bind get_uint16 _ (le_bytes 2 (dc.field_number field)) (w ++ numbered_bytes fs)
        (dc.field_number field) _ (get_uint16-Reads (dc.field_number field) small)
        (rw (at, ram, value_last field w fs gs s)
          (Reads-bind (unpack_field dc field [])
            (λ bytes. unpack_other dc field_of (length fs) (assign field bytes gs)) w
            (numbered_bytes fs) w _ v
            (rw (assign_last field w fs gs s) (
              subst
                (λ (hs : FieldMap).
                  Reads (unpack_other dc field_of (length fs) (gs ++ (field, w) ∷ []))
                    (numbered_bytes fs) hs)
                (append_assoc gs ((field, w) ∷ []) fs)
                (unpack_other-Reads field_of fs (gs ++ (field, w) ∷ []) known
                  (subst IsSorted (sym (append_assoc gs ((field, w) ∷ []) fs)) s))))))

  add_numbered-Writes : (fs : FieldMap) → Writes (add_numbered dc fs) (numbered_bytes fs)
  add_numbered-Writes [] = Writes-pure
  add_numbered-Writes ((field, w) ∷ fs) =
      Writes-seq _ _ _ _ (add_uint16-Writes (dc.field_number field))
        (Writes-seq _ _ _ _ (add_data-Writes w) (add_numbered-Writes fs))

  shown_fields_all : (fs : FieldMap) → shown_fields dc false false fs ≡ fs
  shown_fields_all [] = refl
  shown_fields_all ((field, w) ∷ fs) = ap (◌∷◌ (field, w)) (shown_fields_all fs)

  abbrev pub other_bytes : FieldMap → List ℕ
  other_bytes fs = le_bytes 2 (length fs) ++ numbered_bytes fs

  -- The RAM fields that AppendOtherData writes for the server, fewer than 65536 that the class knows and
  -- that fit, are put behind what the datagram holds, and nothing else changes; and wherever those bytes
  -- stand, the count and the loop of the constructor over the other fields read just them, and make the
  -- same map.
  pub unpack_other-append_other_data :
      (field_of : ℕ → Option ℕ) (dg : Datagram) (c : Call) (it : DatagramIterator)
      → IsValid dg
      → IsSorted c.object.ram_fields
      → AreKnown field_of c.object.ram_fields
      → length c.object.ram_fields < 2 ^ 16
      → dg.buf_offset + length (other_bytes c.object.ram_fields) ≤ max_dg_size
      → Holds it (other_bytes c.object.ram_fields)
      → let bytes = other_bytes c.object.ram_fields in
        ((dg' : Datagram) × ((append_other_data dc false false dg c ≡ (ok dg', c))
            × Appended dg bytes (ok tt, dg')))
        × ((get_uint16 >>= λ count. unpack_other dc field_of count []) it
            ≡ (ok c.object.ram_fields, advance (length bytes) it))
  unfolding append_other_data self fill
  unpack_other-append_other_data field_of dg c it valid s known few room h =
      let fs = c.object.ram_fields in
      let count : length fs % 2 ^ 16 ≡ length fs = omega (arith, few) in
      let m = add_uint16 (length fs) >> add_numbered dc fs in
      let a =
        (Writes-seq (add_uint16 (length fs)) (add_numbered dc fs) _ _
            (add_uint16-Writes (length fs)) (add_numbered-Writes fs)).fits
          dg valid (omega (arith, room)) in
      (
        (
          (m dg).1,
          (
            rw (shown_fields_all fs, count) (filled-ok (m dg) c a.result),
            record { result = refl; valid = a.valid; offset = a.offset; bytes = a.bytes },
          ),
        ),
        Reads-bind get_uint16 (λ n. unpack_other dc field_of n []) (le_bytes 2 (length fs))
            (numbered_bytes fs) (length fs) fs (get_uint16-Reads (length fs) few)
            (unpack_other-Reads field_of fs [] known s) it h,
      )
