-- ===== src/Net/Datagram/Writes.antt =====
-- What the Add functions of src/net/datagram.cpp promise, whatever the state of the buffer: the
-- bytes go to the end, or DatagramOverflow is thrown and nothing but a first part was written.

use ardos.Prelude.{
  ℕ, ◌+◌, ◌≤◌, ◌<◌, ◌≡◌, refl, sym, ap, ◌∙◌, inl, inr, List, [], ◌++◌, length, take, replicate,
  length-append, length-replicate, length-take, append_assoc, append-nil, arith, ltb, Bool-cases,
  take_all, subst, ltb→lt,
}
use ardos.Prelude.Action.{Action, Result, ok, err, overflow, pure, ◌>>◌, continue}
use ardos.Net.Datagram.{Datagram, max_dg_size, min_dg_size, resize, ensure_length, put}
use ardos.Net.Datagram.Buffer.{length-blit, take-blit, take-blit_zero}

-- The bytes that were added so far.
abbrev pub contents : Datagram → List ℕ
contents dg = take dg.buf_offset dg.buf

-- The recorded length is that of the allocation, and the offset stays inside it.
pub record IsValid (dg : Datagram) : Type 0 where
  pub lengths : length dg.buf ≡ dg.buf_length
  pub within : dg.buf_offset ≤ dg.buf_length

pub record Appended (dg : Datagram) (xs : List ℕ) (r : Result (Unit {0}) × Datagram) : Type 0 where
  pub result : r.0 ≡ ok tt
  pub valid : IsValid r.1
  pub offset : r.1.buf_offset ≡ dg.buf_offset + length xs
  pub bytes : contents r.1 ≡ contents dg ++ xs

pub record Refused (dg : Datagram) (xs : List ℕ) (r : Result (Unit {0}) × Datagram) : Type 0 where
  pub result : r.0 ≡ err overflow
  pub valid : IsValid r.1
  pub front : List ℕ
  pub back : List ℕ
  pub split : xs ≡ front ++ back
  pub offset : r.1.buf_offset ≡ dg.buf_offset + length front
  pub bytes : contents r.1 ≡ contents dg ++ front
  pub bounded : r.1.buf_offset ≤ max_dg_size

pub record Writes (m : Action Datagram (Unit {0})) (xs : List ℕ) : Type 0 where
  pub fits :
      (dg : Datagram) → IsValid dg → dg.buf_offset + length xs ≤ max_dg_size → Appended dg xs (m dg)
  pub full :
      (dg : Datagram)
      → IsValid dg
      → dg.buf_offset ≤ max_dg_size
      → max_dg_size < dg.buf_offset + length xs
      → Refused dg xs (m dg)

-- Room for `n` more bytes, and nothing else changed.
pub record Ensured (dg : Datagram) (n : ℕ) (dg' : Datagram) : Type 0 where
  pub valid : IsValid dg'
  pub offset : dg'.buf_offset ≡ dg.buf_offset
  pub bytes : contents dg' ≡ contents dg
  pub room : dg.buf_offset + n ≤ dg'.buf_length

resize-Ensured : (dg : Datagram) (n : ℕ) → IsValid dg → Ensured dg n (resize n dg)
unfolding resize
resize-Ensured dg n v = record {
  valid = record {
    lengths = length-blit fresh 0 old ∙ length-replicate _ 0;
    within = omega (arith, v.within);
  };
  offset = refl;
  bytes =
      take-blit_zero fresh old dg.buf_offset
        (omega (arith, length-replicate {A = ℕ} (dg.buf_length + min_dg_size + n) 0, old_length))
        (omega (arith, old_length, v.within))
      ∙ ap (take dg.buf_offset) (take_all dg.buf dg.buf_length v.lengths);
  room = omega (arith, v.within);
}
  where
    fresh : List ℕ
    fresh = replicate (dg.buf_length + min_dg_size + n) 0

    old : List ℕ
    old = take dg.buf_length dg.buf

    old_length : length old ≡ dg.buf_length
    old_length = omega (arith, length-take dg.buf_length dg.buf, v.lengths)

pub ensure_length-Ensured :
    (dg : Datagram) (n : ℕ)
    → IsValid dg
    → dg.buf_offset + n ≤ max_dg_size
    → (dg' : Datagram) × (ensure_length n dg ≡ (ok tt, dg')) × Ensured dg n dg'
unfolding ensure_length
ensure_length-Ensured dg n v h = elim (Bool-cases (ltb dg.buf_length (dg.buf_offset + n))) [
  | inl small ↦ (resize n dg, ground arith, resize-Ensured dg n v)
  | inr large ↦
      (dg, ground arith, record { valid = v; offset = refl; bytes = refl; room = ground arith })
]

-- With room in the buffer it changes nothing.
pub ensure_length_room :
    (dg : Datagram) (n : ℕ)
    → dg.buf_offset + n ≤ dg.buf_length
    → dg.buf_offset + n ≤ max_dg_size
    → ensure_length n dg ≡ (ok tt, dg)
unfolding ensure_length
ensure_length_room dg n h k = ground arith

pub ensure_length_overflow :
    (dg : Datagram) (n : ℕ)
    → max_dg_size < dg.buf_offset + n
    → ensure_length n dg ≡ (err overflow, dg)
unfolding ensure_length
ensure_length_overflow dg n h = ground arith

pub put-Appended :
    (dg : Datagram) (xs : List ℕ)
    → IsValid dg
    → dg.buf_offset + length xs ≤ dg.buf_length
    → Appended dg xs (put xs dg)
unfolding put
put-Appended dg xs v h = record {
  result = refl;
  valid = record { lengths = length-blit dg.buf dg.buf_offset xs ∙ v.lengths; within = h };
  offset = refl;
  bytes = take-blit dg.buf dg.buf_offset xs (omega (arith, v.lengths));
}

-- A throw before anything is written.
pub Refused-at_once :
    (dg : Datagram) (xs : List ℕ) {r : Result (Unit {0}) × Datagram}
    → IsValid dg
    → dg.buf_offset ≤ max_dg_size
    → r ≡ (err overflow, dg)
    → Refused dg xs r
Refused-at_once dg xs v h e = subst (Refused dg xs) (sym e) (record {
  result = refl;
  valid = v;
  front = [];
  back = xs;
  split = refl;
  offset = omega arith;
  bytes = sym (append-nil _);
  bounded = h;
})

-- From room made by EnsureLength, as seen from the datagram before it.
pub Ensured-Appended :
    (dg dg' : Datagram) (xs : List ℕ) (n : ℕ) {r : Result (Unit {0}) × Datagram}
    → Ensured dg n dg'
    → Appended dg' xs r
    → Appended dg xs r
Ensured-Appended dg dg' xs n e a = record {
  result = a.result;
  valid = a.valid;
  offset = omega (arith, a.offset, e.offset);
  bytes = a.bytes ∙ ap (λ ys. ys ++ xs) e.bytes;
}

-- The body that the Add functions share.
pub Writes-put : (xs : List ℕ) (n : ℕ) → length xs ≡ n → Writes (ensure_length n >> put xs) xs
Writes-put xs n len = record {
  fits = λ dg v h.
      let (dg', run, e) = ensure_length-Ensured dg n v (omega (arith, len)) in
      rw run (
        Ensured-Appended dg dg' xs n e
          (put-Appended dg' xs e.valid (omega (arith, e.room, e.offset, len))));
  full =
      λ dg v b h. Refused-at_once dg xs v b (rw (ensure_length_overflow dg n (omega (arith, len))));
}

pub Writes-pure : Writes (pure tt) []
Writes-pure = record {
  fits = λ dg v h. record {
    result = refl;
    valid = v;
    offset = omega arith;
    bytes = sym (append-nil _);
  };
  full = λ dg v b h. absurd (omega arith);
}

pub Appended-seq :
    (dg : Datagram) (xs ys : List ℕ) {r s : Result (Unit {0}) × Datagram}
    → Appended dg xs r
    → Appended r.1 ys s
    → Appended dg (xs ++ ys) s
Appended-seq dg xs ys a b = record {
  result = b.result;
  valid = b.valid;
  offset = omega (arith, a.offset, b.offset, length-append xs ys);
  bytes = b.bytes ∙ ap (λ zs. zs ++ ys) a.bytes ∙ append_assoc (contents dg) xs ys;
}

Appended-Refused :
    (dg : Datagram) (xs ys : List ℕ) {r s : Result (Unit {0}) × Datagram}
    → Appended dg xs r
    → Refused r.1 ys s
    → Refused dg (xs ++ ys) s
Appended-Refused dg xs ys a b = record {
  result = b.result;
  valid = b.valid;
  front = xs ++ b.front;
  back = b.back;
  split = ap (λ zs. xs ++ zs) b.split ∙ sym (append_assoc xs b.front b.back);
  offset = omega (arith, a.offset, b.offset, length-append xs b.front);
  bytes = b.bytes ∙ ap (λ zs. zs ++ b.front) a.bytes ∙ append_assoc (contents dg) xs b.front;
  bounded = b.bounded;
}

Refused-append :
    (dg : Datagram) (xs ys : List ℕ) {r : Result (Unit {0}) × Datagram}
    → Refused dg xs r
    → Refused dg (xs ++ ys) r
Refused-append dg xs ys a = record {
  result = a.result;
  valid = a.valid;
  front = a.front;
  back = a.back ++ ys;
  split = ap (λ zs. zs ++ ys) a.split ∙ append_assoc a.front a.back ys;
  offset = a.offset;
  bytes = a.bytes;
  bounded = a.bounded;
}

continue-ok {ℓ} :
    {S : Type ℓ} (r : Result (Unit {0}) × S) (k : Action S (Unit {0}))
    → r.0 ≡ ok tt
    → continue r (λ _. k) ≡ k r.1
continue-ok (ok _, s) k e = refl
continue-ok (err f, s) k e = cc

continue-err {ℓ} :
    {S : Type ℓ} (r : Result (Unit {0}) × S) (k : Action S (Unit {0}))
    → r.0 ≡ err overflow
    → continue r (λ _. k) ≡ r
continue-err (ok _, s) k e = cc
continue-err (err f, s) k e = refl

-- One after the other.
pub Writes-seq :
    (m k : Action Datagram (Unit {0})) (xs ys : List ℕ)
    → Writes m xs
    → Writes k ys
    → Writes (m >> k) (xs ++ ys)
Writes-seq m k xs ys wm wk = record {
  fits = λ dg v h.
      let a = wm.fits dg v (omega (arith, h, length-append xs ys)) in
      rw (continue-ok (m dg) k a.result) (
        Appended-seq dg xs ys a
          (wk.fits (m dg).1 a.valid (omega (arith, h, a.offset, length-append xs ys))));
  full = λ dg v b h. elim (Bool-cases (ltb max_dg_size (dg.buf_offset + length xs))) [
    | inl over ↦
        let a = wm.full dg v b (ltb→lt _ _ over) in
        rw (continue-err (m dg) k a.result) (Refused-append dg xs ys a)
    | inr room ↦
        let a = wm.fits dg v (ground arith) in
        rw (continue-ok (m dg) k a.result) (
          Appended-Refused dg xs ys a (
            wk.full (m dg).1 a.valid (ground (arith, a.offset))
              (omega (arith, h, a.offset, length-append xs ys))))
  ];
}
