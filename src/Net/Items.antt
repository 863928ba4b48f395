-- ===== src/Net/Items.antt =====
-- A message as a row of values of the kinds that src/net/datagram.h and src/net/datagram_iterator.h
-- have a pair of functions for: what one process adds, another one gets back.
use ardos.Prelude.{
  ℕ, ◌^◌, ◌≤◌, ◌<◌, ◌≡◌, refl, sym, subst, Bool, true, false, List, [], ◌∷◌, ◌++◌, length, take,
  All, arith, if◌then◌else◌,
}
use ardos.Prelude.Words.{le_bytes}
use ardos.Prelude.Action.{Action, Result, ok, pure, ◌>>=◌, ◌>>◌}
use ardos.Net.Datagram
use ardos.Net.Datagram.{Datagram, max_dg_size, empty, get_bytes}
use ardos.Net.Datagram.Writes.{IsValid, Writes, Writes-pure, Writes-seq, Appended}
use ardos.Net.Datagram.Adds
use ardos.Net.Datagram.Adds.{tagged}
use ardos.Net.DatagramIterator
use ardos.Net.DatagramIterator.{DatagramIterator, advance}
use ardos.Net.DatagramIterator.Reads.{
  Holds, Reads, Reads-pure, Reads-bind, Reads-map, get_uint8-Reads, get_uint16-Reads,
  get_uint32-Reads, get_uint64-Reads, get_string-Reads, get_blob-Reads, get_number-Reads,
  get_data-Reads,
}

pub data Item : Type 0 where
  bool : Bool → Item
  int8 int16 int32 int64 : ℕ → Item
  uint8 uint16 uint32 uint64 : ℕ → Item
  float32 float64 : ℕ → Item
  text blob raw_blob plain : List ℕ → Item
  location : ℕ → ℕ → Item

-- The values that the C++ argument types can hold; a signed or floating point value is the number that
-- has its bytes. A string's length fits its tag.
abbrev pub Fits : Item → Type 0
Fits (bool b) = Unit {0}
Fits (int8 v) = v < 2 ^ 8
Fits (int16 v) = v < 2 ^ 16
Fits (int32 v) = v < 2 ^ 32
Fits (int64 v) = v < 2 ^ 64
Fits (float32 v) = v < 2 ^ 32
Fits (float64 v) = v < 2 ^ 64
Fits (uint8 v) = v < 2 ^ 8
Fits (uint16 v) = v < 2 ^ 16
Fits (uint32 v) = v < 2 ^ 32
Fits (uint64 v) = v < 2 ^ 64
Fits (text s) = length s < 2 ^ 16
Fits (blob s) = length s < 2 ^ 16
Fits (raw_blob s) = length s < 2 ^ 16
Fits (plain s) = Unit {0}
Fits (location p z) = (p < 2 ^ 32) × (z < 2 ^ 32)

abbrev pub encode : Item → List ℕ
encode (bool b) = (if b then 1 else 0) ∷ []
encode (int8 v) = le_bytes 1 v
encode (int16 v) = le_bytes 2 v
encode (int32 v) = le_bytes 4 v
encode (int64 v) = le_bytes 8 v
encode (float32 v) = le_bytes 4 v
encode (float64 v) = le_bytes 8 v
encode (uint8 v) = le_bytes 1 v
encode (uint16 v) = le_bytes 2 v
encode (uint32 v) = le_bytes 4 v
encode (uint64 v) = le_bytes 8 v
encode (text s) = tagged s
encode (blob s) = tagged s
encode (raw_blob s) = tagged s
encode (plain s) = s
encode (location p z) = le_bytes 4 p ++ le_bytes 4 z

abbrev pub encode_all : List Item → List ℕ
encode_all [] = []
encode_all (i ∷ is) = encode i ++ encode_all is

-- The Add function for each kind of value.
abbrev pub write : Item → Action Datagram (Unit {0})
write (bool b) = Datagram.add_bool b
write (int8 v) = Datagram.add_int8 v
write (int16 v) = Datagram.add_int16 v
write (int32 v) = Datagram.add_int32 v
write (int64 v) = Datagram.add_int64 v
write (float32 v) = Datagram.add_float32 v
write (float64 v) = Datagram.add_float64 v
write (uint8 v) = Datagram.add_uint8 v
write (uint16 v) = Datagram.add_uint16 v
write (uint32 v) = Datagram.add_uint32 v
write (uint64 v) = Datagram.add_uint64 v
write (text s) = Datagram.add_string s
write (blob s) = Datagram.add_blob s
write (raw_blob s) = Datagram.add_blob_raw s
write (plain s) = Datagram.add_data s
write (location p z) = Datagram.add_location p z

abbrev pub write_all : List Item → Action Datagram (Unit {0})
write_all [] = pure tt
write_all (i ∷ is) = write i >> write_all is

-- The Get function for the kind of the value. GetData is told how many bytes to read.
abbrev pub read_like : Item → Action DatagramIterator Item
read_like (bool _) = do v ← DatagramIterator.get_bool; pure (bool v)
read_like (int8 _) = do v ← DatagramIterator.get_int8; pure (int8 v)
read_like (int16 _) = do v ← DatagramIterator.get_int16; pure (int16 v)
read_like (int32 _) = do v ← DatagramIterator.get_int32; pure (int32 v)
read_like (int64 _) = do v ← DatagramIterator.get_int64; pure (int64 v)
read_like (float32 _) = do v ← DatagramIterator.get_float32; pure (float32 v)
read_like (float64 _) = do v ← DatagramIterator.get_float64; pure (float64 v)
read_like (uint8 _) = do v ← DatagramIterator.get_uint8; pure (uint8 v)
read_like (uint16 _) = do v ← DatagramIterator.get_uint16; pure (uint16 v)
read_like (uint32 _) = do v ← DatagramIterator.get_uint32; pure (uint32 v)
read_like (uint64 _) = do v ← DatagramIterator.get_uint64; pure (uint64 v)
read_like (text _) = do s ← DatagramIterator.get_string; pure (text s)
read_like (blob _) = do s ← DatagramIterator.get_blob; pure (blob s)
read_like (raw_blob _) = do s ← DatagramIterator.get_blob; pure (raw_blob s)
read_like (plain s) = do xs ← DatagramIterator.get_data (length s); pure (plain xs)
read_like (location _ _) = do
  p ← DatagramIterator.get_uint32
  z ← DatagramIterator.get_uint32
  pure (location p z)

abbrev pub read_all : List Item → Action DatagramIterator (List Item)
read_all [] = pure []
read_all (i ∷ is) = do j ← read_like i; js ← read_all is; pure (j ∷ js)

-- An iterator at the start of a datagram.
abbrev pub start : Datagram → DatagramIterator
start dg = record { dg = dg; offset = 0 }

write-Writes : (i : Item) → Writes (write i) (encode i)
write-Writes (bool b) = Adds.add_bool-Writes b
write-Writes (int8 v) = Adds.add_int8-Writes v
write-Writes (int16 v) = Adds.add_int16-Writes v
write-Writes (int32 v) = Adds.add_int32-Writes v
write-Writes (int64 v) = Adds.add_int64-Writes v
write-Writes (float32 v) = Adds.add_float32-Writes v
write-Writes (float64 v) = Adds.add_float64-Writes v
write-Writes (uint8 v) = Adds.add_uint8-Writes v
write-Writes (uint16 v) = Adds.add_uint16-Writes v
write-Writes (uint32 v) = Adds.add_uint32-Writes v
write-Writes (uint64 v) = Adds.add_uint64-Writes v
write-Writes (text s) = Adds.add_string-Writes s
write-Writes (blob s) = Adds.add_blob-Writes s
write-Writes (raw_blob s) = Adds.add_blob_raw-Writes s
write-Writes (plain s) = Adds.add_data-Writes s
write-Writes (location p z) = Adds.add_location-Writes p z

-- Any row of values is appended whole, or DatagramOverflow is thrown.
pub write_all-Writes : (is : List Item) → Writes (write_all is) (encode_all is)
write_all-Writes [] = Writes-pure
write_all-Writes (i ∷ is) =
    Writes-seq (write i) (write_all is) (encode i) (encode_all is) (write-Writes i)
      (write_all-Writes is)

get_bool-Reads : (b : Bool) → Reads DatagramIterator.get_bool (encode (bool b)) b
unfolding DatagramIterator.get_bool
get_bool-Reads true it h = rw (get_uint8-Reads 1 (omega arith) it h)
get_bool-Reads false it h = rw (get_uint8-Reads 0 (omega arith) it h)

read_like-Reads : (i : Item) → Fits i → Reads (read_like i) (encode i) i
unfolding DatagramIterator.get_int8 DatagramIterator.get_int16 DatagramIterator.get_int32
    DatagramIterator.get_int64 DatagramIterator.get_float32 DatagramIterator.get_float64
read_like-Reads (bool b) f = Reads-map DatagramIterator.get_bool bool _ b (get_bool-Reads b)
read_like-Reads (int8 v) f = Reads-map DatagramIterator.get_int8 int8 _ v (get_number-Reads 1 v f)
read_like-Reads (int16 v) f =
    Reads-map DatagramIterator.get_int16 int16 _ v (get_number-Reads 2 v f)
read_like-Reads (int32 v) f =
    Reads-map DatagramIterator.get_int32 int32 _ v (get_number-Reads 4 v f)
read_like-Reads (int64 v) f =
    Reads-map DatagramIterator.get_int64 int64 _ v (get_number-Reads 8 v f)
read_like-Reads (float32 v) f =
    Reads-map DatagramIterator.get_float32 float32 _ v (get_number-Reads 4 v f)
read_like-Reads (float64 v) f =
    Reads-map DatagramIterator.get_float64 float64 _ v (get_number-Reads 8 v f)
read_like-Reads (uint8 v) f = Reads-map DatagramIterator.get_uint8 uint8 _ v (get_uint8-Reads v f)
read_like-Reads (uint16 v) f =
    Reads-map DatagramIterator.get_uint16 uint16 _ v (get_uint16-Reads v f)
read_like-Reads (uint32 v) f =
    Reads-map DatagramIterator.get_uint32 uint32 _ v (get_uint32-Reads v f)
read_like-Reads (uint64 v) f =
    Reads-map DatagramIterator.get_uint64 uint64 _ v (get_uint64-Reads v f)
read_like-Reads (text s) f = Reads-map DatagramIterator.get_string text _ s (get_string-Reads s f)
read_like-Reads (blob s) f = Reads-map DatagramIterator.get_blob blob _ s (get_blob-Reads s f)
read_like-Reads (raw_blob s) f =
    Reads-map DatagramIterator.get_blob raw_blob _ s (get_blob-Reads s f)
read_like-Reads (plain s) f =
    Reads-map (DatagramIterator.get_data (length s)) plain _ s (get_data-Reads s)
read_like-Reads (location p z) f =
    Reads-bind DatagramIterator.get_uint32 _ _ _ p _ (get_uint32-Reads p f.0)
      (Reads-map DatagramIterator.get_uint32 (location p) _ z (get_uint32-Reads z f.1))

pub read_all-Reads : (is : List Item) → All Fits is → Reads (read_all is) (encode_all is) is
read_all-Reads [] f = Reads-pure []
read_all-Reads (i ∷ is) f =
    Reads-bind (read_like i) _ _ _ i _ (read_like-Reads i f.0)
      (Reads-map (read_all is) (◌∷◌ i) _ is (read_all-Reads is f.1))

-- What was appended to an empty datagram stands at its start.
pub Appended-Holds :
    (xs : List ℕ) {r : Result (Unit {0}) × Datagram}
    → Appended empty xs r
    → length xs ≤ max_dg_size
    → Holds (start r.1) xs
unfolding empty
Appended-Holds xs {r} a h = record {
  inside = omega (arith, a.offset, h);
  bytes = subst (λ n. take n r.1.buf ≡ xs) (omega (arith, a.offset)) a.bytes;
}

pub empty-IsValid : IsValid empty
unfolding empty
empty-IsValid = record { lengths = refl; within = omega arith }

-- A row of values, each of a kind that has an Add and a Get function and within its C++ type, and at
-- most 65533 bytes in all, is added to an empty datagram without a throw; the bytes of the datagram
-- are then the encodings of the values, numbers with their low byte first and a string or a blob
-- behind its length; and the values come back from the Get functions in the same order, which leave
-- the iterator at the end of those bytes.
pub read_all-write_all :
    (is : List Item)
    → All Fits is
    → length (encode_all is) ≤ max_dg_size
    → let r = write_all is empty in
      (r.0 ≡ ok tt)
      × (read_all is (start r.1) ≡ (ok is, advance (length (encode_all is)) (start r.1)))
      × (get_bytes r.1 ≡ encode_all is)
unfolding empty
read_all-write_all is f h =
    let r = write_all is empty in
    let a = (write_all-Writes is).fits empty empty-IsValid (omega (arith, h)) in
    (
      a.result,
      read_all-Reads is f _ (Appended-Holds (encode_all is) a h),
      subst (λ n. take n r.1.buf ≡ encode_all is) (sym (omega (arith, a.offset, h))) a.bytes,
    )
