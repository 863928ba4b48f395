-- ===== src/Net/DatagramIterator.antt =====
-- src/net/datagram_iterator.cpp. The object is the datagram that it reads and the read offset.
pub mod Reads
use ardos.Prelude.{
  ℕ, zero, suc, ◌+◌, ◌-◌, ◌%◌, ◌^◌, Bool, true, false, not, ◌||◌, List, [], ◌∷◌, ◌++◌, take, drop,
  ltb, ◌==◌, if◌then◌else◌,
}
use ardos.Prelude.Action.{
  Action, Fault, eof, stuck, pure, raise, modify, gets, ◌>>=◌, ◌>>◌, Result, ok, err, continue,
}
use ardos.Prelude.Words.{le_bytes, le_value}
use ardos.Net.Datagram.{Datagram, size, from_bytes}
use ardos.Dc.{Dc}

pub record DatagramIterator : Type 0 where
  pub dg : Datagram
  pub offset : ℕ

abbrev pub advance : ℕ → DatagramIterator → DatagramIterator
advance n it = record it { offset = it.offset + n }

-- DatagramIterator::EnsureLength
unfoldable pub ensure_length : ℕ → Action DatagramIterator (Unit {0})
ensure_length len it =
    if ltb (size it.dg) it.offset || ltb (size it.dg - it.offset) len
    then raise eof it
    else (ok tt, it)

-- The copy out of the buffer and the step of the offset.
unfoldable pub copy_out : ℕ → Action DatagramIterator (List ℕ)
copy_out n it = (ok (take n (drop it.offset it.dg.buf)), advance n it)

-- The body of the Get functions for numbers.
unfoldable pub get_number : ℕ → Action DatagramIterator ℕ
unfolding ensure_length copy_out
get_number n = do ensure_length n; bytes ← copy_out n; pure (le_value bytes)

unfoldable pub get_uint8 : Action DatagramIterator ℕ
unfolding get_number
get_uint8 = get_number 1

unfoldable pub get_int8 : Action DatagramIterator ℕ
unfolding get_number
get_int8 = get_number 1

unfoldable pub get_bool : Action DatagramIterator Bool
unfolding get_uint8
get_bool = do v ← get_uint8; pure (not (v == 0))

unfoldable pub get_int16 : Action DatagramIterator ℕ
unfolding get_number
get_int16 = get_number 2

unfoldable pub get_uint16 : Action DatagramIterator ℕ
unfolding get_number
get_uint16 = get_number 2

unfoldable pub get_int32 : Action DatagramIterator ℕ
unfolding get_number
get_int32 = get_number 4

unfoldable pub get_uint32 : Action DatagramIterator ℕ
unfolding get_number
get_uint32 = get_number 4

unfoldable pub get_int64 : Action DatagramIterator ℕ
unfolding get_number
get_int64 = get_number 8

unfoldable pub get_uint64 : Action DatagramIterator ℕ
unfolding get_number
get_uint64 = get_number 8

unfoldable pub get_float32 : Action DatagramIterator ℕ
unfolding get_number
get_float32 = get_number 4

unfoldable pub get_float64 : Action DatagramIterator ℕ
unfolding get_number
get_float64 = get_number 8

unfoldable pub get_string : Action DatagramIterator (List ℕ)
unfolding get_uint16 ensure_length copy_out
get_string = do len ← get_uint16; ensure_length len; copy_out len

unfoldable pub get_blob : Action DatagramIterator (List ℕ)
unfolding get_uint16 ensure_length copy_out
get_blob = do len ← get_uint16; ensure_length len; copy_out len

-- DatagramIterator::GetData
unfoldable pub get_data : ℕ → Action DatagramIterator (List ℕ)
unfolding ensure_length copy_out
get_data n = do ensure_length n; copy_out n

unfoldable pub get_datagram : Action DatagramIterator Datagram
unfolding get_uint16 ensure_length copy_out
get_datagram = do len ← get_uint16; ensure_length len; bytes ← copy_out len; pure (from_bytes bytes)

abbrev pub get_underlying_datagram : DatagramIterator → Datagram
get_underlying_datagram it = it.dg

-- DatagramIterator::Tell: the offset in a uint16_t.
abbrev pub tell : DatagramIterator → ℕ
tell it = it.offset % 2 ^ 16

unfoldable pub skip : ℕ → Action DatagramIterator (Unit {0})
unfolding ensure_length
skip bytes = do ensure_length bytes; modify (advance bytes)

unfoldable pub seek : ℕ → Action DatagramIterator (Unit {0})
seek offset it =
    if ltb (size it.dg) offset then raise eof it else (ok tt, record it { offset = offset })

-- The loop of SeekPayload over the recipients.
unfoldable pub skip_channels : ℕ → Action DatagramIterator (Unit {0})
unfolding get_uint64
skip_channels zero = pure tt
skip_channels (suc n) = do get_uint64 >>= λ _. skip_channels n

unfoldable pub seek_payload : Action DatagramIterator (Unit {0})
unfolding get_uint8 skip_channels
seek_payload = do
  modify (λ it. record it { offset = 0 })
  channels ← get_uint8
  skip_channels channels

-- DatagramIterator::GetRemainingSize, a difference of size_t values.
abbrev pub get_remaining_size : DatagramIterator → ℕ
get_remaining_size it = (size it.dg + 2 ^ 64 - it.offset) % 2 ^ 64

unfoldable pub get_remaining_bytes : Action DatagramIterator (List ℕ)
unfolding copy_out
get_remaining_bytes = do len ← gets get_remaining_size; copy_out len

module _ (dc : Dc) where
  open dc use {has_fixed_byte_size, fixed_byte_size, num_length_bytes, nested_fields}

  -- The branch of UnpackField for a length tag of `n` bytes.
  unfoldable pub unpack_tagged : ℕ → List ℕ → Action DatagramIterator (List ℕ)
  unfolding get_uint16 get_uint32 get_data
  unpack_tagged n buffer =
      if n == 2
      then (do tag ← get_uint16; bytes ← get_data tag; pure (buffer ++ (le_bytes 2 tag ++ bytes)))
      else if n == 4
      then (do tag ← get_uint32; bytes ← get_data tag; pure (buffer ++ (le_bytes 4 tag ++ bytes)))
      else raise eof

  -- The loop of UnpackField over the nested fields, each read by `unpack`.
  unfoldable pub unpack_nested :
      (ℕ → List ℕ → Action DatagramIterator (List ℕ))
      → List ℕ
      → List ℕ
      → Action DatagramIterator (List ℕ)
  unpack_nested unpack [] buffer = pure buffer
  unpack_nested unpack (g ∷ gs) buffer = do
    buffer' ← unpack g buffer
    unpack_nested unpack gs buffer'

  unfoldable pub unpack_levels : ℕ → ℕ → List ℕ → Action DatagramIterator (List ℕ)
  unfolding unpack_tagged unpack_nested get_data
  unpack_levels zero field buffer = raise stuck
  unpack_levels (suc levels) field buffer =
      if has_fixed_byte_size field
      then (do bytes ← get_data (fixed_byte_size field); pure (buffer ++ bytes))
      else if num_length_bytes field == 0
      then unpack_nested (unpack_levels levels) (nested_fields field) buffer
      else unpack_tagged (num_length_bytes field) buffer

  -- DatagramIterator::UnpackField. The buffer is passed and returned; each caller drops what a throw
  -- leaves in it.
  unfoldable pub unpack_field : ℕ → List ℕ → Action DatagramIterator (List ℕ)
  unfolding unpack_levels
  unpack_field field buffer = unpack_levels (suc (dc.depth field)) field buffer

  -- The branch of SkipField for a length tag. Of an unknown length it skips that many bytes.
  unfoldable pub skip_tagged : ℕ → Action DatagramIterator (Unit {0})
  unfolding get_uint16 get_uint32 skip
  skip_tagged n =
      if n == 2
      then (do tag ← get_uint16; skip tag)
      else if n == 4
      then (do tag ← get_uint32; skip tag)
      else skip n

  unfoldable pub skip_nested :
      (ℕ → Action DatagramIterator (Unit {0})) → List ℕ → Action DatagramIterator (Unit {0})
  skip_nested skip_one [] = pure tt
  skip_nested skip_one (g ∷ gs) = do skip_one g; skip_nested skip_one gs

  unfoldable pub skip_levels : ℕ → ℕ → Action DatagramIterator (Unit {0})
  unfolding skip_tagged skip_nested skip
  skip_levels zero field = raise stuck
  skip_levels (suc levels) field =
      if has_fixed_byte_size field
      then skip (fixed_byte_size field)
      else if num_length_bytes field == 0
      then skip_nested (skip_levels levels) (nested_fields field)
      else skip_tagged (num_length_bytes field)

  -- DatagramIterator::SkipField
  unfoldable pub skip_field : ℕ → Action DatagramIterator (Unit {0})
  unfolding skip_levels
  skip_field field = skip_levels (suc (dc.depth field)) field
