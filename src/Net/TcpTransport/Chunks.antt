-- ===== src/Net/TcpTransport/Chunks.antt =====
-- TCP hands a stream over in chunks of any size: HandleData finds the frames again.
use ardos.Prelude.{
  ℕ, ◌-◌, ◌<◌, ◌≡◌, refl, sym, ap, subst, ◌∙◌, true, false, ◌&&◌, List, [], ◌∷◌, ◌++◌, map, length,
  take, drop, All, append_assoc, append-nil, length-append, arith, ◌==◌, inl, inr, Bool-cases,
  nil_of_length,
}
use ardos.Prelude.Words.{le_value}
use ardos.Net.TcpTransport.{
  TcpConnection, fresh, take_frames, deliver, process_buffer, is_one_frame, on_data, received, step,
  run,
}
use ardos.Net.TcpTransport.Frames.{
  IsMessage, frames, frame_size, IsShort, Split, take_frames-Split, take_frames_one,
}

abbrev pub concat : List (List ℕ) → List ℕ
concat [] = []
concat (xs ∷ xss) = xs ++ concat xss

-- The peer sends `ms`; `rest` is still on its way.
pub record IsReceiving (c : TcpConnection) (ms : List (List ℕ)) (rest : List ℕ) : Type 0 where
  pub open_alive : c.alive ≡ true
  pub open_closed : c.closed ≡ false
  pub open_handler : c.has_handler ≡ true
  pub later : List (List ℕ)
  pub messages : ms ≡ c.delivered ++ later
  pub stream : c.read_buffer ++ rest ≡ frames later
  pub short : IsShort c.read_buffer later
  pub are_messages : All IsMessage later

-- The connection after a chunk, when the loop has made `r` of all that is at hand.
abbrev after_loop : TcpConnection → List (List ℕ) × List ℕ → TcpConnection
after_loop c r = record c { read_buffer = r.1; delivered = c.delivered ++ r.0 }

after_loop-IsReceiving :
    (c : TcpConnection) (ms : List (List ℕ)) (chunk rest : List ℕ) (r : List (List ℕ) × List ℕ)
    (h : IsReceiving c ms (chunk ++ rest))
    → Split (c.read_buffer ++ chunk) rest h.later r
    → IsReceiving (after_loop c r) ms rest
after_loop-IsReceiving c ms chunk rest r h s = record {
  open_alive = h.open_alive;
  open_closed = h.open_closed;
  open_handler = h.open_handler;
  later = s.later;
  messages =
      h.messages
      ∙ ap (λ ls. c.delivered ++ ls) s.messages
      ∙ sym (append_assoc c.delivered r.0 s.later);
  stream = s.stream;
  short = s.short;
  are_messages = s.are_messages;
}

loop-Split :
    (c : TcpConnection) (ms : List (List ℕ)) (chunk rest : List ℕ)
    (h : IsReceiving c ms (chunk ++ rest))
    → let buffer = c.read_buffer ++ chunk in
      Split buffer rest h.later (take_frames (length buffer) buffer)
loop-Split c ms chunk rest h =
    take_frames-Split h.later (length (c.read_buffer ++ chunk)) (c.read_buffer ++ chunk) rest
      h.are_messages (omega arith) (append_assoc c.read_buffer chunk rest ∙ h.stream)

-- A whole frame on an empty buffer has a payload, since the peer sends no empty message.
one_frame_payload :
    (later : List (List ℕ)) (chunk rest : List ℕ)
    → All IsMessage later
    → chunk ++ rest ≡ frames later
    → is_one_frame chunk ≡ true
    → 2 < length chunk
one_frame_payload [] [] rest h e one = cc one
one_frame_payload [] (b ∷ chunk) rest h e one = absurd (cc e)
one_frame_payload (m ∷ later) chunk rest h e one =
    ground (arith, h.0.0, frame_size chunk rest m (frames later) h.0.1 e)

on_data-eq :
    (c : TcpConnection) (ms : List (List ℕ)) (chunk rest : List ℕ)
    (h : IsReceiving c ms (chunk ++ rest))
    → let buffer = c.read_buffer ++ chunk in
      on_data chunk c ≡ after_loop c (take_frames (length buffer) buffer)
unfolding on_data deliver process_buffer
on_data-eq c ms chunk rest h = elim (Bool-cases (length c.read_buffer == 0 && is_one_frame chunk)) [
  | inl fast ↦
      let empty : c.read_buffer ≡ [] = nil_of_length c.read_buffer (ground arith) in
      let one : is_one_frame chunk ≡ true = ground arith in
      let stream : chunk ++ rest ≡ frames h.later =
        ap (λ b. b ++ (chunk ++ rest)) (sym empty) ∙ h.stream in
      let more : 2 < length chunk =
        one_frame_payload h.later chunk rest h.are_messages stream one in
      let size : le_value (take 2 chunk) ≡ length chunk - 2 = ground arith in
      let taken : take_frames (length (c.read_buffer ++ chunk)) (c.read_buffer ++ chunk)
          ≡ (drop 2 chunk ∷ [], []) =
        subst (λ b. take_frames (length (b ++ chunk)) (b ++ chunk) ≡ (drop 2 chunk ∷ [], []))
          (sym empty) (take_frames_one chunk more size) in
      ground arith
  | inr slow ↦ ground arith
]

on_data-IsReceiving :
    (c : TcpConnection) (ms : List (List ℕ)) (chunk rest : List ℕ)
    → IsReceiving c ms (chunk ++ rest)
    → IsReceiving (on_data chunk c) ms rest
on_data-IsReceiving c ms chunk rest h =
    subst (λ d. IsReceiving d ms rest) (sym (on_data-eq c ms chunk rest h))
      (after_loop-IsReceiving c ms chunk rest _ h (loop-Split c ms chunk rest h))

run-IsReceiving :
    (c : TcpConnection) (ms : List (List ℕ)) (chunks : List (List ℕ)) (rest : List ℕ)
    → IsReceiving c ms (concat chunks ++ rest)
    → IsReceiving (run c (map received chunks)) ms rest
unfolding run step
run-IsReceiving c ms [] rest h = h
run-IsReceiving c ms (chunk ∷ chunks) rest h = run-IsReceiving (on_data chunk c) ms chunks rest (
    on_data-IsReceiving c ms chunk (concat chunks ++ rest)
      (subst (IsReceiving c ms) (append_assoc chunk (concat chunks) rest) h))

IsShort-nil : (ms : List (List ℕ)) → IsShort [] ms
IsShort-nil [] = refl
IsShort-nil (m ∷ ms) = omega arith

nothing_later :
    (later : List (List ℕ)) (buffer : List ℕ)
    → buffer ++ [] ≡ frames later
    → IsShort buffer later
    → (later ≡ []) × (buffer ≡ [])
nothing_later [] buffer e short = (refl, short)
nothing_later (m ∷ later) buffer e short =
    absurd
      (omega (arith, short, ap length e, length-append buffer [], length-append m (frames later)))

-- With nothing on its way every message is there.
finished :
    (c : TcpConnection) (ms : List (List ℕ))
    → IsReceiving c ms []
    → (c.delivered ≡ ms) × (c.read_buffer ≡ [])
finished c ms h =
    let (none_later, empty) = nothing_later h.later c.read_buffer h.stream h.short in
    (
      sym (append-nil c.delivered) ∙ ap (λ ls. c.delivered ++ ls) (sym none_later) ∙ sym h.messages,
      empty,
    )

-- However a stream that holds the frames of some messages, none empty and each shorter than 65536
-- bytes, is cut into chunks, a new connection that gets the chunks one after the other delivers
-- exactly those messages, in order, and keeps no byte back.
pub run-received :
    (ms chunks : List (List ℕ))
    → All IsMessage ms
    → concat chunks ≡ frames ms
    → let c = run fresh (map received chunks) in (c.delivered ≡ ms) × (c.read_buffer ≡ [])
run-received ms chunks h e = finished _ ms (
    run-IsReceiving fresh ms chunks [] (record {
      open_alive = refl;
      open_closed = refl;
      open_handler = refl;
      later = ms;
      messages = refl;
      stream = append-nil _ ∙ e;
      short = IsShort-nil ms;
      are_messages = h;
    }))
