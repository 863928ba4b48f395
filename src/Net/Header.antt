-- ===== src/Net/Header.antt =====
-- The routing header that the constructors of src/net/datagram.cpp write, and SeekPayload skips.
use ardos.Prelude.{
  ℕ, suc, ◌+◌, ◌*◌, ◌%◌, ◌^◌, ◌≤◌, ◌<◌, ◌≡◌, refl, sym, ap, subst, ◌∙◌, List, [], ◌∷◌, ◌++◌, length,
  All, length-append, append_assoc, arith,
}
use ardos.Prelude.Words.{le_bytes}
use ardos.Prelude.Action.{Action, ok, pure, ◌>>=◌, ◌>>◌}
use ardos.Net.Datagram.{Datagram, max_dg_size, empty, header_to_all}
use ardos.Net.Datagram.Adds.{channel_bytes, header_bytes, header_to_all-Writes}
use ardos.Net.DatagramIterator.{
  DatagramIterator, advance, get_uint8, get_uint16, get_uint64, skip_channels, seek_payload,
}
use ardos.Net.DatagramIterator.Reads.{
  Holds, Reads, Reads-pure, Reads-bind, Reads-map, Holds-append, get_uint8-Reads, get_uint16-Reads,
  get_uint64-Reads,
}
use ardos.Net.Items.{start, Appended-Holds, empty-IsValid}

abbrev pub IsChannel : ℕ → Type 0
IsChannel c = c < 2 ^ 64

skip_channels-Reads :
    (cs : List ℕ) → All IsChannel cs → Reads (skip_channels (length cs)) (channel_bytes cs) tt
unfolding skip_channels
skip_channels-Reads [] f = Reads-pure tt
skip_channels-Reads (c ∷ cs) f =
    Reads-bind get_uint64 _ _ _ c _ (get_uint64-Reads c f.0) (skip_channels-Reads cs f.1)

pub length-channel_bytes : (cs : List ℕ) → length (channel_bytes cs) ≡ 8 * length cs
length-channel_bytes [] = refl
length-channel_bytes (c ∷ cs) = omega (arith, length-channel_bytes cs)

pub channel_bytes-append :
    (cs ds : List ℕ) → channel_bytes (cs ++ ds) ≡ channel_bytes cs ++ channel_bytes ds
channel_bytes-append [] ds = refl
channel_bytes-append (c ∷ cs) ds =
    ap (λ xs. le_bytes 8 c ++ xs) (channel_bytes-append cs ds)
    ∙ sym (append_assoc (le_bytes 8 c) (channel_bytes cs) (channel_bytes ds))

-- What every handler of the program does first: skip the recipients, and read the sender.
abbrev pub read_sender : Action DatagramIterator ℕ
read_sender = seek_payload >> get_uint64

abbrev pub read_header : Action DatagramIterator (ℕ × ℕ)
read_header = do seek_payload; sender ← get_uint64; msg_type ← get_uint16; pure (sender, msg_type)

-- Any start of a datagram that counts `length cs` recipients, names `cs` and goes on with `ys`.
read_payload :
    {A : Type 0} (dg : Datagram) (cs ys : List ℕ) (k : Action DatagramIterator A) (a : A)
    → All IsChannel cs
    → length cs < 256
    → Reads k ys a
    → Holds (start dg) (le_bytes 1 (length cs) ++ (channel_bytes cs ++ ys))
    → (seek_payload >> k) (start dg)
      ≡ (ok a, advance (1 + length (channel_bytes cs ++ ys)) (start dg))
unfolding seek_payload
read_payload dg cs ys k a f few rk h =
    Reads-bind (get_uint8 >>= skip_channels) (λ _. k) (le_bytes 1 (length cs) ++ channel_bytes cs)
      ys tt a
      (Reads-bind get_uint8 skip_channels (le_bytes 1 (length cs)) (channel_bytes cs) (length cs) tt
        (get_uint8-Reads (length cs) few) (skip_channels-Reads cs f))
      rk (start dg) h
    ∙ ap (λ n. (ok a, advance n (start dg))) (omega arith)

count_byte : (m n : ℕ) → m % 256 ≡ n % 256 → le_bytes 1 (m % 2 ^ 8) ≡ le_bytes 1 n
count_byte m n h = ap (λ b. b ∷ []) (omega (arith, h))

pub length-header_bytes :
    (cs : List ℕ) (sender msg_type : ℕ)
    → length (header_bytes cs sender msg_type) ≡ 11 + 8 * length cs
length-header_bytes cs sender msg_type = omega (
  arith,
  length-append (channel_bytes cs) (le_bytes 8 sender ++ le_bytes 2 msg_type),
  length-channel_bytes cs,
)

write_header :
    (cs : List ℕ) (sender msg_type : ℕ)
    → 11 + 8 * length cs ≤ max_dg_size
    → let r = header_to_all cs sender msg_type empty in
      (r.0 ≡ ok tt) × Holds (start r.1) (header_bytes cs sender msg_type)
unfolding empty
write_header cs sender msg_type h =
    let len = length-header_bytes cs sender msg_type in
    let a =
      (header_to_all-Writes cs sender msg_type).fits empty empty-IsValid (omega (arith, h, len)) in
    (a.result, Appended-Holds (header_bytes cs sender msg_type) a (omega (arith, h, len)))

pub read_header-at :
    (dg : Datagram) (cs : List ℕ) (sender msg_type : ℕ)
    → All IsChannel cs
    → length cs ≤ 255
    → IsChannel sender
    → msg_type < 2 ^ 16
    → Holds (start dg) (header_bytes cs sender msg_type)
    → read_header (start dg) ≡ (ok (sender, msg_type), advance (11 + 8 * length cs) (start dg))
read_header-at dg cs sender msg_type f few g t h =
    read_payload dg cs rest _ (sender, msg_type) f (omega (arith, few))
      (Reads-bind get_uint64 (λ s. get_uint16 >>= λ u. pure (s, u)) (le_bytes 8 sender)
        (le_bytes 2 msg_type) sender (sender, msg_type) (get_uint64-Reads sender g)
        (Reads-map get_uint16 (λ u. (sender, u)) (le_bytes 2 msg_type) msg_type
          (get_uint16-Reads msg_type t)))
      (subst (λ b. Holds (start dg) (b ++ (channel_bytes cs ++ rest)))
        (count_byte (length cs) (length cs) refl) h)
    ∙ ap (λ n. (ok (sender, msg_type), advance n (start dg))) steps
  where
    rest : List ℕ
    rest = le_bytes 8 sender ++ le_bytes 2 msg_type

    steps : 1 + length (channel_bytes cs ++ rest) ≡ 11 + 8 * length cs
    steps = omega (arith, length-append (channel_bytes cs) rest, length-channel_bytes cs)

-- For at most 255 recipients, each one and the sender a uint64_t and the type a uint16_t, the
-- constructor of a datagram for a set of channels does not throw, and SeekPayload, GetUint64 and
-- GetUint16 on the result give the sender and the message type, and stop behind the header.
pub read_header-header_to_all :
    (cs : List ℕ) (sender msg_type : ℕ)
    → All IsChannel cs
    → length cs ≤ 255
    → IsChannel sender
    → msg_type < 2 ^ 16
    → let r = header_to_all cs sender msg_type empty in
      (r.0 ≡ ok tt)
      × (read_header (start r.1)
          ≡ (ok (sender, msg_type), advance (11 + 8 * length cs) (start r.1)))
read_header-header_to_all cs sender msg_type f few g t =
    let (result, h) = write_header cs sender msg_type (omega (arith, few)) in
    (result, read_header-at _ cs sender msg_type f few g t h)

-- For more recipients than its count byte can hold, in a number that is the position of the recipient
-- `c` modulo 256, the constructor does not throw either (as long as the header fits a datagram), but
-- SeekPayload and GetUint64 on the result give the recipient `c` in place of the sender.
pub read_sender-header_to_all_wraps :
    (front back : List ℕ) (c sender msg_type : ℕ)
    → All IsChannel front
    → IsChannel c
    → length front < 256
    → suc (length back) % 256 ≡ 0
    → 11 + 8 * length (front ++ c ∷ back) ≤ max_dg_size
    → let r = header_to_all (front ++ c ∷ back) sender msg_type empty in
      (r.0 ≡ ok tt) × (read_sender (start r.1) ≡ (ok c, advance (9 + 8 * length front) (start r.1)))
read_sender-header_to_all_wraps front back c sender msg_type f g few wraps room =
    let (result, h) = write_header (front ++ c ∷ back) sender msg_type room in
    (
      result,
      read_payload _ front (le_bytes 8 c) get_uint64 c f few (get_uint64-Reads c g)
            (Holds-append _ (le_bytes 1 (length front) ++ (channel_bytes front ++ le_bytes 8 c))
              (channel_bytes back ++ (le_bytes 8 sender ++ le_bytes 2 msg_type))
              (subst (Holds _) (shape (le_bytes 8 sender ++ le_bytes 2 msg_type)) h)).0
          ∙ ap
              (λ n. (
                ok c,
                advance n (start (header_to_all (front ++ c ∷ back) sender msg_type empty).1),
              ))
              steps,
    )
  where
    steps : 1 + length (channel_bytes front ++ le_bytes 8 c) ≡ 9 + 8 * length front
    steps =
        omega
          (arith, length-append (channel_bytes front) (le_bytes 8 c), length-channel_bytes front)

    shape :
        (rest : List ℕ)
        → le_bytes 1 (length (front ++ c ∷ back) % 2 ^ 8)
            ++ (channel_bytes (front ++ c ∷ back) ++ rest)
          ≡ (le_bytes 1 (length front) ++ (channel_bytes front ++ le_bytes 8 c))
            ++ (channel_bytes back ++ rest)
    shape rest =
        ap (λ b. b ++ (channel_bytes (front ++ c ∷ back) ++ rest))
          (count_byte (length (front ++ c ∷ back)) (length front)
            (omega (arith, length-append front (c ∷ back), wraps)))
        ∙ simp (channel_bytes-append, append_assoc)
