-- ===== src/Net/Datagram/Adds.antt =====
-- What each Add function and header constructor of src/net/datagram.cpp appends.
use ardos.Prelude.{
  ℕ, ◌+◌, ◌%◌, ◌^◌, ◌≡◌, refl, sym, Bool, true, false, List, [], ◌∷◌, ◌++◌, length, arith,
  if◌then◌else◌, ◌==◌, suc, ==_iff, subst, inl, inr, take, length-take, Bool-cases,
}
use ardos.Prelude.Words.{le_bytes}
use ardos.Prelude.Action.{pure, ◌>>◌}
use ardos.Net.Datagram.{
  Datagram, ensure_length, put, size, get_bytes, add_uint8, add_int8, add_bool, add_int16,
  add_uint16, add_int32, add_uint32, add_int64, add_uint64, add_float32, add_float64, add_string,
  add_blob, add_blob_raw, add_data, add_datagram, add_data_raw, add_location, header_to,
  add_channels, header_to_all,
}
use ardos.Net.Datagram.Writes.{
  IsValid, Writes, Writes-put, Writes-pure, Writes-seq, ensure_length-Ensured, ensure_length_room,
  ensure_length_overflow, put-Appended, Ensured-Appended, Appended-seq, Refused-at_once,
}

pub add_uint8-Writes : (v : ℕ) → Writes (add_uint8 v) (le_bytes 1 v)
unfolding add_uint8
add_uint8-Writes v = Writes-put (le_bytes 1 v) 1 refl

pub add_int8-Writes : (v : ℕ) → Writes (add_int8 v) (le_bytes 1 v)
unfolding add_int8
add_int8-Writes v = Writes-put (le_bytes 1 v) 1 refl

pub add_bool-Writes : (v : Bool) → Writes (add_bool v) ((if v then 1 else 0) ∷ [])
unfolding add_bool
add_bool-Writes true = add_uint8-Writes 1
add_bool-Writes false = add_uint8-Writes 0

pub add_int16-Writes : (v : ℕ) → Writes (add_int16 v) (le_bytes 2 v)
unfolding add_int16
add_int16-Writes v = Writes-put (le_bytes 2 v) 2 refl

pub add_uint16-Writes : (v : ℕ) → Writes (add_uint16 v) (le_bytes 2 v)
unfolding add_uint16
add_uint16-Writes v = Writes-put (le_bytes 2 v) 2 refl

pub add_int32-Writes : (v : ℕ) → Writes (add_int32 v) (le_bytes 4 v)
unfolding add_int32
add_int32-Writes v = Writes-put (le_bytes 4 v) 4 refl

pub add_uint32-Writes : (v : ℕ) → Writes (add_uint32 v) (le_bytes 4 v)
unfolding add_uint32
add_uint32-Writes v = Writes-put (le_bytes 4 v) 4 refl

pub add_int64-Writes : (v : ℕ) → Writes (add_int64 v) (le_bytes 8 v)
unfolding add_int64
add_int64-Writes v = Writes-put (le_bytes 8 v) 8 refl

pub add_uint64-Writes : (v : ℕ) → Writes (add_uint64 v) (le_bytes 8 v)
unfolding add_uint64
add_uint64-Writes v = Writes-put (le_bytes 8 v) 8 refl

pub add_float32-Writes : (v : ℕ) → Writes (add_float32 v) (le_bytes 4 v)
unfolding add_float32
add_float32-Writes v = Writes-put (le_bytes 4 v) 4 refl

pub add_float64-Writes : (v : ℕ) → Writes (add_float64 v) (le_bytes 8 v)
unfolding add_float64
add_float64-Writes v = Writes-put (le_bytes 8 v) 8 refl

-- A row of bytes behind its length in two bytes.
abbrev pub tagged : List ℕ → List ℕ
tagged v = le_bytes 2 (length v % 2 ^ 16) ++ v

-- AddString and the first AddBlob have this body: the room for all is made first.
ensured_tag_Writes :
    (v : List ℕ)
    → Writes (ensure_length (length v + 2) >> (add_uint16 (length v % 2 ^ 16) >> put v)) (tagged v)
unfolding add_uint16 put
ensured_tag_Writes v = record {
  fits = λ dg va h.
      let (dg', run, e) = ensure_length-Ensured dg (length v + 2) va (omega (arith, h)) in
      let tag = le_bytes 2 (length v % 2 ^ 16) in
      let first = put-Appended dg' tag e.valid (omega (arith, e.room, e.offset)) in
      rw
        (
          run,
          ensure_length_room dg' 2 (omega (arith, e.room, e.offset)) (omega (arith, h, e.offset)),
        )
        (Ensured-Appended dg dg' (tag ++ v) (length v + 2) e (
          Appended-seq dg' tag v first
            (put-Appended (put tag dg').1 v first.valid (omega (arith, e.room, e.offset)))));
  full = λ dg va b h.
      Refused-at_once dg (tagged v) va b
        (rw (ensure_length_overflow dg (length v + 2) (omega (arith, h))));
}

pub add_string-Writes : (v : List ℕ) → Writes (add_string v) (tagged v)
unfolding add_string
add_string-Writes v = ensured_tag_Writes v

pub add_blob-Writes : (v : List ℕ) → Writes (add_blob v) (tagged v)
unfolding add_blob
add_blob-Writes v = ensured_tag_Writes v

pub add_blob_raw-Writes : (v : List ℕ) → Writes (add_blob_raw v) (tagged v)
unfolding add_blob_raw
add_blob_raw-Writes v =
    Writes-seq (add_uint16 (length v % 2 ^ 16)) (ensure_length (length v) >> put v) _ v
      (add_uint16-Writes (length v % 2 ^ 16)) (Writes-put v (length v) refl)

suc-not_zero : (n : ℕ) → (suc n == 0) ≡ false
suc-not_zero n = ground arith

pub add_data-Writes : (v : List ℕ) → Writes (add_data v) v
unfolding add_data
add_data-Writes [] = Writes-pure
add_data-Writes (x ∷ xs) =
    rw (suc-not_zero (length xs)) (Writes-put (x ∷ xs) (suc (length xs)) refl)

length-get_bytes : (v : Datagram) → IsValid v → length (get_bytes v) ≡ size v
length-get_bytes v h = omega (arith, length-take (size v) v.buf, h.lengths, h.within)

pub add_datagram-Writes : (v : Datagram) → IsValid v → Writes (add_datagram v) (get_bytes v)
unfolding add_datagram
add_datagram-Writes v h = elim (Bool-cases (size v == 0)) [
  | inl e ↦
      rw e
        (subst (λ n. Writes (pure tt) (take n v.buf)) (sym ((==_iff (size v) 0).0 e)) Writes-pure)
  | inr e ↦ rw e (Writes-put (get_bytes v) (size v) (length-get_bytes v h))
]

pub add_data_raw-Writes : (v : List ℕ) → Writes (add_data_raw v) v
unfolding add_data_raw
add_data_raw-Writes v = Writes-put v (length v) refl

pub add_location-Writes : (p z : ℕ) → Writes (add_location p z) (le_bytes 4 p ++ le_bytes 4 z)
unfolding add_location
add_location-Writes p z =
    Writes-seq (add_uint32 p) (add_uint32 z) _ _ (add_uint32-Writes p) (add_uint32-Writes z)

-- The recipients, one after the other.
abbrev pub channel_bytes : List ℕ → List ℕ
channel_bytes [] = []
channel_bytes (c ∷ cs) = le_bytes 8 c ++ channel_bytes cs

pub add_channels-Writes : (cs : List ℕ) → Writes (add_channels cs) (channel_bytes cs)
unfolding add_channels
add_channels-Writes [] = Writes-pure
add_channels-Writes (c ∷ cs) =
    Writes-seq (add_uint64 c) (add_channels cs) _ _ (add_uint64-Writes c) (add_channels-Writes cs)

-- The header of a message to the channels `cs`.
abbrev pub header_bytes : List ℕ → ℕ → ℕ → List ℕ
header_bytes cs sender msg_type =
    le_bytes 1 (length cs % 2 ^ 8)
    ++ (channel_bytes cs ++ (le_bytes 8 sender ++ le_bytes 2 msg_type))

pub header_to_all-Writes :
    (cs : List ℕ) (sender msg_type : ℕ)
    → Writes (header_to_all cs sender msg_type) (header_bytes cs sender msg_type)
unfolding header_to_all
header_to_all-Writes cs sender msg_type =
    Writes-seq (add_uint8 (length cs % 2 ^ 8)) _ _ _ (add_uint8-Writes _) (
      Writes-seq (add_channels cs) _ _ _ (add_channels-Writes cs) (
        Writes-seq (add_uint64 sender) _ _ _ (add_uint64-Writes sender)
          (add_uint16-Writes msg_type)))

-- The constructor for one recipient writes what the constructor for a set of one does.
pub header_to-Writes :
    (c sender msg_type : ℕ)
    → Writes (header_to c sender msg_type) (header_bytes (c ∷ []) sender msg_type)
unfolding header_to
header_to-Writes c sender msg_type = Writes-seq (add_uint8 1) _ _ _ (add_uint8-Writes 1) (
    Writes-seq (add_uint64 c) _ _ _ (add_uint64-Writes c) (
      Writes-seq (add_uint64 sender) _ _ _ (add_uint64-Writes sender) (add_uint16-Writes msg_type)))
