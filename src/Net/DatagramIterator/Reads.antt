-- ===== src/Net/DatagramIterator/Reads.antt =====
-- What the Get functions of src/net/datagram_iterator.cpp return, and where they leave the offset.
use native.Mathlib.Nat.{add_assoc}
use ardos.Prelude.{
  ℕ, ◌+◌, ◌%◌, ◌^◌, ◌≤◌, ◌<◌, ◌≡◌, refl, sym, ap, ◌∙◌, List, [], ◌∷◌, ◌++◌, length, take, drop,
  length-append, drop-drop, subst, leb, arith, if◌then◌else◌,
}
use ardos.Prelude.Action.{Action, ok, err, eof, pure, ◌>>=◌, ◌>>◌}
use ardos.Prelude.Words.{le_bytes, le_value, length-le_bytes, le_value-le_bytes}
use ardos.Net.Datagram.{size, from_bytes}
use ardos.Net.Datagram.Adds.{tagged}
use ardos.Net.DatagramIterator.{
  DatagramIterator, advance, ensure_length, copy_out, get_number, get_data, get_string, get_blob,
  get_datagram, get_uint8, get_uint16, get_uint32, get_uint64,
}

-- The bytes `xs` stand at the offset, inside the datagram.
pub record Holds (it : DatagramIterator) (xs : List ℕ) : Type 0 where
  pub inside : it.offset + length xs ≤ size it.dg
  pub bytes : take (length xs) (drop it.offset it.dg.buf) ≡ xs

-- `m` reads `xs`, returns `a` and steps over what it read.
abbrev pub Reads {ℓ} : {A : Type ℓ} → Action DatagramIterator A → List ℕ → A → Type ℓ
Reads m xs a = (it : DatagramIterator) → Holds it xs → m it ≡ (ok a, advance (length xs) it)

take-take-append :
    (xs ys zs : List ℕ)
    → take (length (xs ++ ys)) zs ≡ xs ++ ys
    → (take (length xs) zs ≡ xs) × (take (length ys) (drop (length xs) zs) ≡ ys)
take-take-append [] ys zs h = (refl, h)
take-take-append (x ∷ xs) ys [] h = absurd (cc h)
take-take-append (x ∷ xs) ys (z ∷ zs) h =
    let rest = take-take-append xs ys zs (cc h) in (cc (h, rest.0), rest.1)

pub Holds-append :
    (it : DatagramIterator) (xs ys : List ℕ)
    → Holds it (xs ++ ys)
    → Holds it xs × Holds (advance (length xs) it) ys
Holds-append it xs ys h =
    let (front, back) = take-take-append xs ys (drop it.offset it.dg.buf) h.bytes in
    (
      record { inside = omega (arith, h.inside, length-append xs ys); bytes = front },
      record {
        inside = omega (arith, h.inside, length-append xs ys);
        bytes = rw drop-drop at back;
      },
    )

advance-advance :
    (it : DatagramIterator) (xs ys : List ℕ)
    → advance (length ys) (advance (length xs) it) ≡ advance (length (xs ++ ys)) it
advance-advance it xs ys =
    rw length-append (ground (arith, add_assoc it.offset (length xs) (length ys)))

pub Reads-pure {ℓ} : {A : Type ℓ} (a : A) → Reads (pure a) [] a
Reads-pure a it h = ground arith

pub Reads-bind {ℓ κ} :
    {A : Type ℓ} {B : Type κ} (m : Action DatagramIterator A) (k : A → Action DatagramIterator B)
    (xs ys : List ℕ) (a : A) (b : B)
    → Reads m xs a
    → Reads (k a) ys b
    → Reads (m >>= k) (xs ++ ys) b
Reads-bind m k xs ys a b rm rk it h =
    let (front, back) = Holds-append it xs ys h in
    rw (rm it front) (rk _ back ∙ ap (λ s. (ok b, s)) (advance-advance it xs ys))

-- A last step that reads nothing.
pub Reads-map {ℓ κ} :
    {A : Type ℓ} {B : Type κ} (m : Action DatagramIterator A) (f : A → B) (xs : List ℕ) (a : A)
    → Reads m xs a
    → Reads (m >>= λ v. pure (f v)) xs (f a)
Reads-map m f xs a rm it h = rw (rm it h)

ensure_length_ok :
    (it : DatagramIterator) (n : ℕ) → it.offset + n ≤ size it.dg → ensure_length n it ≡ (ok tt, it)
unfolding ensure_length
ensure_length_ok it n h = ground arith

-- EnsureLength throws exactly when fewer than `n` bytes are left, and moves nothing.
pub ensure_length_lem :
    (it : DatagramIterator) (n : ℕ)
    → ensure_length n it ≡ (if leb (it.offset + n) (size it.dg) then (ok tt, it) else (err eof, it))
unfolding ensure_length
ensure_length_lem it n = ground arith

pub copy-Reads : (xs : List ℕ) → Reads (ensure_length (length xs) >> copy_out (length xs)) xs xs
unfolding copy_out
copy-Reads xs it h =
    rw (ensure_length_ok it (length xs) h.inside)
      (ap (λ ys. (ok ys, advance (length xs) it)) h.bytes)

pub get_number-Reads : (n v : ℕ) → v < 256 ^ n → Reads (get_number n) (le_bytes n v) v
unfolding get_number
get_number-Reads n v fits =
    subst
      (λ k.
        Reads (ensure_length k >> (copy_out k >>= λ bytes. pure (le_value bytes))) (le_bytes n v) v)
      (length-le_bytes n v) body
  where
    body :
        Reads
          (ensure_length (length (le_bytes n v))
            >> (copy_out (length (le_bytes n v)) >>= λ bytes. pure (le_value bytes)))
          (le_bytes n v)
          v
    body it h = rw (ensure_length_ok it (length (le_bytes n v)) h.inside) (
        ap (λ ys. (ok (le_value ys), advance (length (le_bytes n v)) it)) h.bytes
        ∙ ap (λ w. (ok w, advance (length (le_bytes n v)) it)) (le_value-le_bytes n v fits))

pub get_uint8-Reads : (v : ℕ) → v < 2 ^ 8 → Reads get_uint8 (le_bytes 1 v) v
unfolding get_uint8
get_uint8-Reads v fits = get_number-Reads 1 v fits

pub get_uint16-Reads : (v : ℕ) → v < 2 ^ 16 → Reads get_uint16 (le_bytes 2 v) v
unfolding get_uint16
get_uint16-Reads v fits = get_number-Reads 2 v fits

pub get_uint32-Reads : (v : ℕ) → v < 2 ^ 32 → Reads get_uint32 (le_bytes 4 v) v
unfolding get_uint32
get_uint32-Reads v fits = get_number-Reads 4 v fits

pub get_uint64-Reads : (v : ℕ) → v < 2 ^ 64 → Reads get_uint64 (le_bytes 8 v) v
unfolding get_uint64
get_uint64-Reads v fits = get_number-Reads 8 v fits

pub get_data-Reads : (xs : List ℕ) → Reads (get_data (length xs)) xs xs
unfolding get_data
get_data-Reads xs = copy-Reads xs

-- A string or a blob, behind its length.
pub get_string-Reads : (xs : List ℕ) → length xs < 2 ^ 16 → Reads get_string (tagged xs) xs
unfolding get_string
get_string-Reads xs short =
    subst (λ n. Reads get_string (le_bytes 2 n ++ xs) xs) (sym fits)
      (Reads-bind get_uint16 (λ len. ensure_length len >> copy_out len) (le_bytes 2 (length xs)) xs
        (length xs) xs (get_uint16-Reads (length xs) short) (copy-Reads xs))
  where
    fits : length xs % 2 ^ 16 ≡ length xs
    fits = omega (arith, short)

pub get_blob-Reads : (xs : List ℕ) → length xs < 2 ^ 16 → Reads get_blob (tagged xs) xs
unfolding get_blob get_string
get_blob-Reads xs short = get_string-Reads xs short

pub get_datagram-Reads :
    (xs : List ℕ) → length xs < 2 ^ 16 → Reads get_datagram (tagged xs) (from_bytes xs)
unfolding get_datagram copy_out
get_datagram-Reads xs short =
    subst (λ n. Reads get_datagram (le_bytes 2 n ++ xs) (from_bytes xs)) (sym fits)
      (Reads-bind get_uint16
        (λ len. ensure_length len >> (copy_out len >>= λ bytes. pure (from_bytes bytes)))
        (le_bytes 2 (length xs)) xs (length xs) (from_bytes xs) (get_uint16-Reads (length xs) short)
        (λ it h.
          rw (ensure_length_ok it (length xs) h.inside)
            (ap (λ ys. (ok (from_bytes ys), advance (length xs) it)) h.bytes)))
  where
    fits : length xs % 2 ^ 16 ≡ length xs
    fits = omega (arith, short)
