-- ===== src/Net/Datagram.antt =====
-- src/net/datagram.cpp. The object is its allocation, the write offset and the recorded length.
-- A size_t holds the size of an object in memory, so the sums of two of them here do not wrap.
-- The bytes of a fresh allocation are indeterminate in C++: they are zeros here.
pub mod Buffer
pub mod Writes
pub mod Adds
use ardos.Prelude.{
  ℕ, zero, suc, ◌+◌, ◌-◌, ◌%◌, ◌^◌, Bool, List, [], ◌∷◌, ◌++◌, length, take, replicate, ltb, leb,
  ◌==◌, if◌then◌else◌,
}
use ardos.Prelude.Action.{
  Action, Fault, overflow, pure, raise, modify, gets, ◌>>=◌, ◌>>◌, Result, ok, err, continue,
}
use ardos.Prelude.Words.{le_bytes}

-- kMaxDgSize and kMinDgSize.
abbrev pub max_dg_size : ℕ
max_dg_size = 0xffff - 2

abbrev pub min_dg_size : ℕ
min_dg_size = 0x80

pub record Datagram : Type 0 where
  pub buf : List ℕ
  pub buf_offset : ℕ
  pub buf_length : ℕ

-- `std::memcpy(buf + offset, bytes, ...)`. What would fall outside the allocation is dropped.
abbrev pub blit : List ℕ → ℕ → List ℕ → List ℕ
blit [] offset bytes = []
blit (b ∷ bs) zero [] = b ∷ bs
blit (b ∷ bs) zero (x ∷ xs) = x ∷ blit bs zero xs
blit (b ∷ bs) (suc offset) bytes = b ∷ blit bs offset bytes

-- Datagram::Datagram()
unfoldable pub empty : Datagram
empty = record { buf = replicate min_dg_size 0; buf_offset = 0; buf_length = min_dg_size }

-- Datagram::Datagram(const uint8_t*, const size_t&)
unfoldable pub from_bytes : List ℕ → Datagram
from_bytes bytes =
    let size = length bytes in
    record { buf = blit (replicate size 0) 0 bytes; buf_offset = size; buf_length = size }

-- Datagram::Clear
unfoldable pub clear : Action Datagram (Unit {0})
clear = modify λ dg. record dg { buf_offset = 0 }

-- Datagram::Size: the offset in a uint16_t.
abbrev pub size : Datagram → ℕ
size dg = dg.buf_offset % 2 ^ 16

-- Datagram::GetBytes
abbrev pub get_bytes : Datagram → List ℕ
get_bytes dg = take (size dg) dg.buf

-- The branch of EnsureLength that moves the buffer into a larger one.
unfoldable pub resize : ℕ → Datagram → Datagram
resize len dg =
    let new_length = dg.buf_length + min_dg_size + len in
    record dg {
      buf = blit (replicate new_length 0) 0 (take dg.buf_length dg.buf);
      buf_length = new_length;
    }

-- Datagram::EnsureLength
unfoldable pub ensure_length : ℕ → Action Datagram (Unit {0})
unfolding resize
ensure_length len dg =
    let new_offset = dg.buf_offset + len in
    if ltb max_dg_size new_offset
    then raise overflow dg
    else if ltb dg.buf_length new_offset
    then (ok tt, resize len dg)
    else (ok tt, dg)

-- The copy and the step of the offset that end every Add function.
unfoldable pub put : List ℕ → Action Datagram (Unit {0})
put bytes = modify λ dg. record dg {
  buf = blit dg.buf dg.buf_offset bytes;
  buf_offset = dg.buf_offset + length bytes;
}

unfoldable pub add_uint8 : ℕ → Action Datagram (Unit {0})
unfolding ensure_length put
add_uint8 v = do ensure_length 1; put (le_bytes 1 v)

unfoldable pub add_int8 : ℕ → Action Datagram (Unit {0})
unfolding ensure_length put
add_int8 v = do ensure_length 1; put (le_bytes 1 v)

unfoldable pub add_bool : Bool → Action Datagram (Unit {0})
unfolding add_uint8
add_bool v = add_uint8 (if v then 1 else 0)

unfoldable pub add_int16 : ℕ → Action Datagram (Unit {0})
unfolding ensure_length put
add_int16 v = do ensure_length 2; put (le_bytes 2 v)

unfoldable pub add_uint16 : ℕ → Action Datagram (Unit {0})
unfolding ensure_length put
add_uint16 v = do ensure_length 2; put (le_bytes 2 v)

unfoldable pub add_int32 : ℕ → Action Datagram (Unit {0})
unfolding ensure_length put
add_int32 v = do ensure_length 4; put (le_bytes 4 v)

unfoldable pub add_uint32 : ℕ → Action Datagram (Unit {0})
unfolding ensure_length put
add_uint32 v = do ensure_length 4; put (le_bytes 4 v)

unfoldable pub add_int64 : ℕ → Action Datagram (Unit {0})
unfolding ensure_length put
add_int64 v = do ensure_length 8; put (le_bytes 8 v)

unfoldable pub add_uint64 : ℕ → Action Datagram (Unit {0})
unfolding ensure_length put
add_uint64 v = do ensure_length 8; put (le_bytes 8 v)

unfoldable pub add_float32 : ℕ → Action Datagram (Unit {0})
unfolding ensure_length put
add_float32 v = do ensure_length 4; put (le_bytes 4 v)

unfoldable pub add_float64 : ℕ → Action Datagram (Unit {0})
unfolding ensure_length put
add_float64 v = do ensure_length 8; put (le_bytes 8 v)

-- The length goes to AddUint16 as a uint16_t.
unfoldable pub add_string : List ℕ → Action Datagram (Unit {0})
unfolding ensure_length add_uint16 put
add_string v = do ensure_length (length v + 2); add_uint16 (length v % 2 ^ 16); put v

-- AddBlob(const std::vector<uint8_t>&)
unfoldable pub add_blob : List ℕ → Action Datagram (Unit {0})
unfolding ensure_length add_uint16 put
add_blob v = do ensure_length (length v + 2); add_uint16 (length v % 2 ^ 16); put v

-- AddBlob(const uint8_t*, const size_t&) checks the room for the data after the tag is written.
unfoldable pub add_blob_raw : List ℕ → Action Datagram (Unit {0})
unfolding ensure_length add_uint16 put
add_blob_raw bytes = do add_uint16 (length bytes % 2 ^ 16); ensure_length (length bytes); put bytes

-- AddData(const std::vector<uint8_t>&)
unfoldable pub add_data : List ℕ → Action Datagram (Unit {0})
unfolding ensure_length put
add_data v = if length v == 0 then pure tt else (do ensure_length (length v); put v)

-- AddData(const std::shared_ptr<Datagram>&)
unfoldable pub add_datagram : Datagram → Action Datagram (Unit {0})
unfolding ensure_length put
add_datagram v = if size v == 0 then pure tt else (do ensure_length (size v); put (get_bytes v))

-- AddData(const uint8_t*, const uint32_t&)
unfoldable pub add_data_raw : List ℕ → Action Datagram (Unit {0})
unfolding ensure_length put
add_data_raw bytes = do ensure_length (length bytes); put bytes

unfoldable pub add_location : ℕ → ℕ → Action Datagram (Unit {0})
unfolding add_uint32
add_location parent_id zone_id = do add_uint32 parent_id; add_uint32 zone_id

-- Datagram::Datagram(const uint64_t&, const uint64_t&, const uint16_t&)
unfoldable pub header_to : ℕ → ℕ → ℕ → Action Datagram (Unit {0})
unfolding add_uint8 add_uint64 add_uint16
header_to to_channel from_channel msg_type = do
  add_uint8 1
  add_uint64 to_channel
  add_uint64 from_channel
  add_uint16 msg_type

-- The loop over the recipients.
unfoldable pub add_channels : List ℕ → Action Datagram (Unit {0})
unfolding add_uint64
add_channels [] = pure tt
add_channels (c ∷ cs) = do add_uint64 c; add_channels cs

-- Datagram::Datagram(const std::unordered_set<uint64_t>&, const uint64_t&, const uint16_t&). The
-- set is the list of its elements in the order of the iteration; its size goes into a uint8_t.
unfoldable pub header_to_all : List ℕ → ℕ → ℕ → Action Datagram (Unit {0})
unfolding add_uint8 add_channels add_uint64 add_uint16
header_to_all to_channels from_channel msg_type = do
  add_uint8 (length to_channels % 2 ^ 8)
  add_channels to_channels
  add_uint64 from_channel
  add_uint16 msg_type
