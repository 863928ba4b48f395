-- ===== src/StateServer/DistributedObject/Calls.antt =====
-- How the handlers of src/stateserver/distributed_object.cpp read a message that is as its sender
-- wrote it, and what publishing a message leaves.
use ardos.Prelude.{ℕ, ◌^◌, ◌≤◌, ◌<◌, ◌≡◌, refl, ◌∙◌, List, [], ◌∷◌, ◌++◌, length, All, arith}
use ardos.Prelude.Words.{le_bytes}
use ardos.Prelude.Action.{Action, Result, ok, err, ◌>>=◌, continue}
use ardos.Net.Datagram.{Datagram, max_dg_size, empty}
use ardos.Net.Datagram.Writes.{IsValid, Writes}
use ardos.Net.DatagramIterator.{DatagramIterator, advance, get_uint32}
use ardos.Net.DatagramIterator.Reads.{Holds, Reads, Holds-append, get_uint32-Reads}
use ardos.Net.Items.{start, Appended-Holds, empty-IsValid}
use ardos.StateServer.DistributedObject.{published, Call, from_dgi, note, filled, fill, publish}

-- The same call behind `n` more bytes of its datagram.
abbrev pub passed : ℕ → Call → Call
passed n c = record c { dgi = advance n c.dgi }

pub read_then {ℓ κ} :
    {A : Type ℓ} {B : Type κ} (m : Action DatagramIterator A) (k : A → Action Call B) (xs : List ℕ)
    (a : A) (c : Call)
    → Reads m xs a
    → Holds c.dgi xs
    → (from_dgi m >>= k) c ≡ k a (passed (length xs) c)
unfolding from_dgi
read_then m k xs a c rm h = rw (rm c.dgi h) refl

-- A row of uint32_t values.
abbrev pub words : List ℕ → List ℕ
words [] = []
words (v ∷ vs) = le_bytes 4 v ++ words vs

-- A handler that reads as many values as there are in the row, one after the other.
abbrev pub Reader : List ℕ → Type 0
Reader [] = Action Call (Unit {0})
Reader (v ∷ vs) = ℕ → Reader vs

abbrev pub reads : (vs : List ℕ) → Reader vs → Action Call (Unit {0})
reads [] k = k
reads (v ∷ vs) k = from_dgi get_uint32 >>= λ w. reads vs (k w)

-- The handler with the values of the row.
abbrev pub given : (vs : List ℕ) → Reader vs → Action Call (Unit {0})
given [] k = k
given (v ∷ vs) k = given vs (k v)

abbrev pub passed_words : List ℕ → Call → Call
passed_words [] c = c
passed_words (v ∷ vs) c = passed_words vs (passed 4 c)

pub reads-given :
    (vs : List ℕ) (k : Reader vs) (c : Call)
    → All (λ v. v < 2 ^ 32) vs
    → Holds c.dgi (words vs)
    → reads vs k c ≡ given vs k (passed_words vs c)
reads-given [] k c f h = refl
reads-given (v ∷ vs) k c (small, f) h =
    let (front, back) = Holds-append c.dgi (le_bytes 4 v) (words vs) h in
    read_then get_uint32 (λ w. reads vs (k w)) (le_bytes 4 v) v c (get_uint32-Reads v small) front
    ∙ reads-given vs (k v) (passed 4 c) f back

filled-object :
    (r : Result (Unit {0}) × Datagram) (c : Call) (k : Datagram → Action Call (Unit {0}))
    → ((dg : Datagram) → (k dg c).1.object ≡ c.object)
    → (continue (filled r c) k).1.object ≡ c.object
filled-object (ok u, dg) c k h = h dg
filled-object (err e, dg) c k h = refl

-- Publishing leaves the members alone.
pub publish-object : (m : Action Datagram (Unit {0})) (c : Call) → (publish m c).1.object ≡ c.object
unfolding publish fill note
publish-object m c = filled-object (m empty) c (λ dg. note (published dg)) (λ dg. refl)

-- A datagram with just these bytes.
pub record IsMessage (dg : Datagram) (xs : List ℕ) : Type 0 where
  pub valid : IsValid dg
  pub holds : Holds (start dg) xs
  pub offset : dg.buf_offset ≡ length xs

abbrev pub Published : Result (Unit {0}) × Call → Call → List ℕ → Type 0
Published r c xs =
    (dg : Datagram) × ((r ≡ (ok tt, record c { log = c.log ++ published dg ∷ [] }))
      × IsMessage dg xs)

-- A message of at most 65533 bytes is published as it is.
pub publish-Published :
    (m : Action Datagram (Unit {0})) (xs : List ℕ) (c : Call)
    → Writes m xs
    → length xs ≤ max_dg_size
    → Published (publish m c) c xs
unfolding publish fill note empty
publish-Published m xs c w room =
    let a = w.fits empty empty-IsValid (omega (arith, room)) in
    (
      (m empty).1,
      (
        rw (a.result) refl,
        record {
          valid = a.valid;
          holds = Appended-Holds xs a room;
          offset = omega (arith, a.offset);
        },
      ),
    )

pub filled-ok :
    (r : Result (Unit {0}) × Datagram) (c : Call) → r.0 ≡ ok tt → filled r c ≡ (ok r.1, c)
filled-ok (ok u, dg) c h = refl
filled-ok (err e, dg) c h = absurd (cc h)
