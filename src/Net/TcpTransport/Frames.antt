-- ===== src/Net/TcpTransport/Frames.antt =====
-- The loop of ProcessBuffer on the start of a row of frames.
use ardos.Prelude.{
  ℕ, zero, suc, ◌+◌, ◌-◌, ◌^◌, ◌≤◌, ◌<◌, ◌≡◌, refl, sym, ap, subst, ◌∙◌, List, [], ◌∷◌, ◌++◌,
  length, take, drop, All, length-append, take-append, drop-append, drop-drop, drop_all, take_all,
  length-drop, append-nil, arith, ap₂, ltb→lt, ◌/◌, ◌%◌, ltb, inl, inr, Bool-cases,
}
use ardos.Prelude.Words.{le_value}
use ardos.Net.TcpTransport.{frame, take_frames}

-- A message that is not empty, and that a frame can hold.
abbrev pub IsMessage : List ℕ → Type 0
IsMessage m = (0 < length m) × (length m < 2 ^ 16)

abbrev pub frames : List (List ℕ) → List ℕ
frames [] = []
frames (m ∷ ms) = frame m ++ frames ms

-- Two ways to cut one list, the first cut not before the second.
pub append_split {ℓ} :
    {A : Type ℓ} (xs ys zs ws : List A)
    → xs ++ ys ≡ zs ++ ws
    → length zs ≤ length xs
    → (t : List A) × (xs ≡ zs ++ t) × (t ++ ys ≡ ws)
append_split xs ys [] ws e h = (xs, refl, e)
append_split [] ys (z ∷ zs) ws e h = absurd (omega (arith, h))
append_split (x ∷ xs) ys (z ∷ zs) ws e h =
    let (t, front, back) = append_split xs ys zs ws (cc e) (omega (arith, h)) in
    (t, cc (front, e), back)

-- The size that stands at the head of a frame, once its two bytes are there.
pub frame_size :
    (buffer rest m tail : List ℕ)
    → length m < 2 ^ 16
    → buffer ++ rest ≡ frame m ++ tail
    → 2 ≤ length buffer
    → le_value (take 2 buffer) ≡ length m
frame_size [] rest m tail fits e h = absurd (omega (arith, h))
frame_size (a ∷ []) rest m tail fits e h = absurd (omega (arith, h))
frame_size (a ∷ b ∷ buffer) rest m tail fits e h =
    let low : a ≡ length m % 256 = cc e in
    let high : b ≡ length m / 256 % 256 = cc e in omega (arith, low, high, fits)

take_frames_short :
    (rounds : ℕ) (buffer rest m tail : List ℕ)
    → length m < 2 ^ 16
    → buffer ++ rest ≡ frame m ++ tail
    → length buffer < 2 + length m
    → take_frames rounds buffer ≡ ([], buffer)
unfolding take_frames
take_frames_short zero buffer rest m tail fits e h = refl
take_frames_short (suc rounds) buffer rest m tail fits e h =
    elim (Bool-cases (ltb 2 (length buffer))) [
      | inl more ↦ rw (more, frame_size buffer rest m tail fits e (ground arith)) (ground arith)
      | inr few ↦ rw few
    ]

take_frames_step :
    (rounds : ℕ) (buffer : List ℕ) (n : ℕ)
    → le_value (take 2 buffer) ≡ n
    → 2 < length buffer
    → n + 2 ≤ length buffer
    → take_frames (suc rounds) buffer ≡ (
      take n (drop 2 buffer) ∷ (take_frames rounds (drop (2 + n) buffer)).0,
      (take_frames rounds (drop (2 + n) buffer)).1,
    )
unfolding take_frames
take_frames_step rounds buffer n e more whole = rw e (ground arith)

pub take_frames-frame :
    (rounds : ℕ) (m tail : List ℕ)
    → IsMessage m
    → take_frames (suc rounds) (frame m ++ tail)
      ≡ (m ∷ (take_frames rounds tail).0, (take_frames rounds tail).1)
take_frames-frame rounds m tail h =
    take_frames_step rounds (frame m ++ tail) (length m)
      (frame_size (frame m ++ tail) [] m tail h.1 (append-nil _) (omega arith))
      (omega (arith, length-append m tail, h.0)) (omega (arith, length-append m tail))
    ∙ ap₂ (λ x (y : List ℕ). (x ∷ (take_frames rounds y).0, (take_frames rounds y).1))
        (take-append m tail) (sym (drop-drop 2 (length m) (frame m ++ tail)) ∙ drop-append m tail)

-- No whole frame is at hand: what is left of the frames in `buffer` ends inside the first of them.
abbrev pub IsShort : List ℕ → List (List ℕ) → Type 0
IsShort buffer [] = buffer ≡ []
IsShort buffer (m ∷ ms) = length buffer < 2 + length m

-- What the loop makes of the first part of a row of frames.
pub record Split (buffer rest : List ℕ) (ms : List (List ℕ)) (r : List (List ℕ) × List ℕ)
    : Type 0 where
  pub later : List (List ℕ)
  pub messages : ms ≡ r.0 ++ later
  pub stream : r.1 ++ rest ≡ frames later
  pub short : IsShort r.1 later
  pub are_messages : All IsMessage later

take_frames_nil : (rounds : ℕ) → take_frames rounds [] ≡ ([], [])
unfolding take_frames
take_frames_nil zero = refl
take_frames_nil (suc rounds) = refl

Split-short :
    (m : List ℕ) (ms : List (List ℕ)) (rounds : ℕ) (buffer rest : List ℕ)
    → All IsMessage (m ∷ ms)
    → buffer ++ rest ≡ frames (m ∷ ms)
    → length buffer < 2 + length m
    → Split buffer rest (m ∷ ms) (take_frames rounds buffer)
Split-short m ms rounds buffer rest h e short =
    rw (take_frames_short rounds buffer rest m (frames ms) h.0.1 e short)
      (record { later = m ∷ ms; messages = refl; stream = e; short = short; are_messages = h })

Split-frame :
    (m : List ℕ) (ms : List (List ℕ)) (rounds : ℕ) (t rest : List ℕ)
    → IsMessage m
    → Split t rest ms (take_frames rounds t)
    → Split (frame m ++ t) rest (m ∷ ms) (take_frames (suc rounds) (frame m ++ t))
Split-frame m ms rounds t rest h s =
    subst (Split (frame m ++ t) rest (m ∷ ms)) (sym (take_frames-frame rounds m t h)) (record {
      later = s.later;
      messages = ap (◌∷◌ m) s.messages;
      stream = s.stream;
      short = s.short;
      are_messages = s.are_messages;
    })

-- The loop delivers the whole frames, in order, and stops inside the next one.
pub take_frames-Split :
    (ms : List (List ℕ)) (rounds : ℕ) (buffer rest : List ℕ)
    → All IsMessage ms
    → length buffer ≤ rounds
    → buffer ++ rest ≡ frames ms
    → Split buffer rest ms (take_frames rounds buffer)
take_frames-Split [] rounds [] rest h n e =
    rw (take_frames_nil rounds)
      (record { later = []; messages = refl; stream = e; short = refl; are_messages = tt })
take_frames-Split [] rounds (b ∷ buffer) rest h n e = absurd (cc e)
take_frames-Split (m ∷ ms) zero buffer rest h n e =
    Split-short m ms zero buffer rest h e (omega (arith, n))
take_frames-Split (m ∷ ms) (suc rounds) buffer rest h n e =
    elim (Bool-cases (ltb (length buffer) (2 + length m))) [
      | inl short ↦ Split-short m ms (suc rounds) buffer rest h e (ltb→lt _ _ short)
      | inr whole ↦
          let (t, front, back) = append_split buffer rest (frame m) (frames ms) e (ground arith) in
          let shorter : length t ≤ rounds =
            omega (arith, n, ap length front, length-append (frame m) t) in
          subst (λ b. Split b rest (m ∷ ms) (take_frames (suc rounds) b)) (sym front)
            (Split-frame m ms rounds t rest h.0
              (take_frames-Split ms rounds t rest h.1 shorter back))
    ]

-- A chunk that is one whole frame goes the same way through the loop.
pub take_frames_one :
    (bytes : List ℕ)
    → 2 < length bytes
    → le_value (take 2 bytes) ≡ length bytes - 2
    → take_frames (length bytes) bytes ≡ (drop 2 bytes ∷ [], [])
take_frames_one [] more e = absurd (omega arith)
take_frames_one (b ∷ bytes) more e =
    take_frames_step (length bytes) (b ∷ bytes) (length bytes - 1) (omega (arith, e)) more
      (omega (arith, more))
    ∙ ap₂
        (λ x (y : List ℕ). (x ∷ (take_frames (length bytes) y).0, (take_frames (length bytes) y).1))
        (take_all (drop 1 bytes) (length bytes - 1) (length-drop 1 bytes))
        (drop_all (2 + (length bytes - 1)) (b ∷ bytes) (omega arith))
    ∙ rw (take_frames_nil (length bytes))
