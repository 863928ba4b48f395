-- ===== src/Net/TcpTransport/WriteQueue.antt =====
-- The write queue of a connection: what Send accepts is written once, in order.
use mathlib.Core.List.{map-append}
use ardos.Prelude.{
  ℕ, ◌+◌, ◌-◌, ◌^◌, ◌≤◌, ◌≡◌, refl, sym, ap, subst, ◌∙◌, Bool, true, false, not, ◌&&◌, ◌||◌, List,
  [], ◌∷◌, ◌++◌, map, length, append_assoc, append-nil, arith, ltb, leb, inl, inr, ◌⊎◌, Bool-cases,
  if_ind, if◌then◌else◌,
}
use ardos.Net.TcpTransport.{
  TcpConnection, high_water_bytes, fresh, frame, close_socket, clear_queue, write_front, pump_write,
  close, send, on_data, on_write, on_close, destroy, Event, sends, closes, wrote, ended, destroyed,
  received, step, run,
}

abbrev pub total : List (List ℕ) → ℕ
total [] = 0
total (b ∷ bs) = length b + total bs

total-append : (xs ys : List (List ℕ)) → total (xs ++ ys) ≡ total xs + total ys
total-append [] ys = omega arith
total-append (x ∷ xs) ys = omega (arith, total-append xs ys)

-- Whether Send takes a message into the queue.
abbrev pub accepts : TcpConnection → List ℕ → Bool
accepts c bytes =
    not c.closed
    && (leb (length bytes) (2 ^ 16 - 1)
        && leb (c.queued_bytes + (2 + length bytes)) high_water_bytes)

abbrev pub taken : TcpConnection → List ℕ → List (List ℕ)
taken c bytes = if accepts c bytes then bytes ∷ [] else []

-- The messages that Send took in the course of the events.
abbrev pub accepted : TcpConnection → List Event → List (List ℕ)
accepted c [] = []
accepted c (sends bytes ∷ es) = taken c bytes ++ accepted (send bytes c) es
accepted c (e ∷ es) = accepted (step c e) es

-- The queue is counted right and within the limit, waits only behind a write, and a closed socket
-- belongs to a closed connection.
pub record IsQueued (c : TcpConnection) : Type 0 where
  pub counted : c.queued_bytes ≡ total c.write_queue
  pub limited : c.queued_bytes ≤ high_water_bytes
  pub idle : (c.is_writing ≡ true) ⊎ (c.write_queue ≡ [])
  pub shut : (c.socket_closed ≡ false) ⊎ (c.closed ≡ true)

pub fresh-IsQueued : IsQueued fresh
fresh-IsQueued = record { counted = refl; limited = omega arith; idle = inr refl; shut = inl refl }

-- PumpWrite starts a write, so that nothing waits behind no write.
pump_queue-IsQueued :
    (c : TcpConnection) (queue : List (List ℕ))
    → c.write_queue ≡ queue
    → c.queued_bytes ≡ total queue
    → c.queued_bytes ≤ high_water_bytes
    → c.closed ≡ false
    → (c.socket_closed ≡ false) ⊎ (c.closed ≡ true)
    → IsQueued (if c.is_writing || c.socket_closed then c else write_front queue c)
unfolding write_front
pump_queue-IsQueued c [] e counted limited is_open shut = ground arith
pump_queue-IsQueued c (front ∷ rest) e counted limited is_open shut = ground arith

close-IsQueued : (c : TcpConnection) → IsQueued c → IsQueued (close c)
unfolding close
close-IsQueued c q = ground arith

-- Send before its call of PumpWrite.
abbrev push : List ℕ → TcpConnection → TcpConnection
push bytes c = record c {
  write_queue = c.write_queue ++ (frame bytes ∷ []);
  queued_bytes = c.queued_bytes + (2 + length bytes);
}

send-IsQueued : (c : TcpConnection) (bytes : List ℕ) → IsQueued c → IsQueued (send bytes c)
unfolding send
send-IsQueued c bytes q =
    if_ind IsQueued c.closed (λ _. q)
      λ is_open.
        if_ind IsQueued (ltb (2 ^ 16 - 1) (length bytes)) (λ _. q)
          λ _.
            if_ind IsQueued (ltb high_water_bytes (c.queued_bytes + (2 + length bytes)))
              (λ _. close-IsQueued c q)
              λ room.
                pump_queue-IsQueued (push bytes c) (push bytes c).write_queue refl
                  (omega (arith, q.counted, total-append c.write_queue (frame bytes ∷ [])))
                  (ground arith) is_open q.shut

on_write-IsQueued : (c : TcpConnection) → IsQueued c → IsQueued (on_write c)
unfolding on_write
on_write-IsQueued c q =
    if_ind IsQueued c.alive
      (λ _.
        if_ind IsQueued c.closed (λ is_closed. ground arith)
          λ is_open.
            pump_queue-IsQueued (record c { is_writing = false }) c.write_queue refl q.counted
              q.limited is_open q.shut)
      (λ _. q)

on_close-IsQueued : (c : TcpConnection) → IsQueued c → IsQueued (on_close c)
unfolding on_close
on_close-IsQueued c q = ground arith

destroy-IsQueued : (c : TcpConnection) → IsQueued c → IsQueued (destroy c)
unfolding destroy
destroy-IsQueued c q = ground arith

on_data-IsQueued : (c : TcpConnection) (bytes : List ℕ) → IsQueued c → IsQueued (on_data bytes c)
unfolding on_data
on_data-IsQueued c bytes q = ground arith

step-IsQueued : (c : TcpConnection) (e : Event) → IsQueued c → IsQueued (step c e)
unfolding step
step-IsQueued c (sends bytes) q = send-IsQueued c bytes q
step-IsQueued c closes q = close-IsQueued c q
step-IsQueued c wrote q = on_write-IsQueued c q
step-IsQueued c ended q = on_close-IsQueued c q
step-IsQueued c destroyed q = destroy-IsQueued c q
step-IsQueued c (received bytes) q = on_data-IsQueued c bytes q

-- In whatever order the calls of Send and Close, the events of the socket and the destructor come,
-- the count of queued bytes stays the size of the queue and at most 4 MiB, nothing waits unless a
-- write is in flight, and the socket of an open connection stays open.
pub run-IsQueued : (c : TcpConnection) (es : List Event) → IsQueued c → IsQueued (run c es)
unfolding run
run-IsQueued c [] q = q
run-IsQueued c (e ∷ es) q = run-IsQueued (step c e) es (step-IsQueued c e q)

-- What was written, and what waits, as messages: `ms` in order. A closed connection drops what waits.
abbrev pub Sent : TcpConnection → List (List ℕ) → Type 0
Sent c ms =
    (rest : List (List ℕ)) × (map frame ms ≡ c.written ++ rest)
    × ((c.closed ≡ true) ⊎ (rest ≡ c.write_queue))

pump_queue-Sent :
    (c : TcpConnection) (queue : List (List ℕ)) (ms : List (List ℕ))
    → c.write_queue ≡ queue
    → map frame ms ≡ c.written ++ queue
    → Sent (if c.is_writing || c.socket_closed then c else write_front queue c) ms
unfolding write_front
pump_queue-Sent c [] ms e s =
    if_ind (λ d. Sent d ms) (c.is_writing || c.socket_closed) (λ _. ([], s, inr (sym e)))
      (λ _. ([], s, inr (sym e)))
pump_queue-Sent c (front ∷ rest) ms e s =
    if_ind (λ d. Sent d ms) (c.is_writing || c.socket_closed) (λ _. (front ∷ rest, s, inr (sym e)))
      (λ _. (rest, s ∙ sym (append_assoc c.written (front ∷ []) rest), inr refl))

queue_waits :
    (c : TcpConnection) (rest : List (List ℕ))
    → c.closed ≡ false
    → (c.closed ≡ true) ⊎ (rest ≡ c.write_queue)
    → rest ≡ c.write_queue
queue_waits c rest is_open waits = ground arith

-- A step that writes nothing and leaves the queue of an open connection alone.
keep-Sent :
    (c d : TcpConnection) (ms : List (List ℕ))
    → d.written ≡ c.written
    → (d.closed ≡ true) ⊎ ((c.closed ≡ false) × (d.write_queue ≡ c.write_queue))
    → Sent c ms
    → Sent d ms
keep-Sent c d ms same keeps (rest, s, waits) =
    (rest, s ∙ ap (λ ws. ws ++ rest) (sym same), ground (arith, keeps, waits))

close-Sent : (c : TcpConnection) (ms : List (List ℕ)) → Sent c ms → Sent (close c) ms
unfolding close
close-Sent c ms = keep-Sent c (close c) ms (ground arith) (ground arith)

send_accepted :
    (c : TcpConnection) (bytes : List ℕ)
    → accepts c bytes ≡ true
    → (send bytes c ≡ pump_write (push bytes c)) × (c.closed ≡ false)
unfolding send
send_accepted c bytes acc = (ground arith, ground arith)

send_refused-Sent :
    (c : TcpConnection) (bytes : List ℕ) (ms : List (List ℕ))
    → accepts c bytes ≡ false
    → Sent c ms
    → Sent (send bytes c) ms
unfolding send
send_refused-Sent c bytes ms refused s =
    if_ind (λ d. Sent d ms) c.closed (λ _. s)
      λ is_open.
        if_ind (λ d. Sent d ms) (ltb (2 ^ 16 - 1) (length bytes)) (λ _. s)
          λ fits.
            if_ind (λ d. Sent d ms) (ltb high_water_bytes (c.queued_bytes + (2 + length bytes)))
              (λ _. close-Sent c ms s) (λ room. absurd (ground arith))

send-Sent :
    (c : TcpConnection) (bytes : List ℕ) (ms : List (List ℕ))
    → Sent c ms
    → Sent (send bytes c) (ms ++ taken c bytes)
unfolding pump_write
send-Sent c bytes ms (rest, s, waits) = elim (Bool-cases (accepts c bytes)) [
  | inl acc ↦
      let (same, is_open) = send_accepted c bytes acc in
      rw (acc, same)
        (pump_queue-Sent (push bytes c) (push bytes c).write_queue (ms ++ (bytes ∷ [])) refl (
          map-append frame ms (bytes ∷ [])
          ∙ ap (λ fs. fs ++ (frame bytes ∷ []))
              (s ∙ ap (λ q. c.written ++ q) (queue_waits c rest is_open waits))
          ∙ append_assoc c.written c.write_queue (frame bytes ∷ [])))
  | inr refused ↦
      rw (refused, append-nil ms) (send_refused-Sent c bytes ms refused (rest, s, waits))
]

on_write-Sent : (c : TcpConnection) (ms : List (List ℕ)) → Sent c ms → Sent (on_write c) ms
unfolding on_write
on_write-Sent c ms (rest, s, waits) =
    if_ind (λ d. Sent d ms) c.alive
      (λ _.
        if_ind (λ d. Sent d ms) c.closed
          (λ is_closed.
            keep-Sent c (close_socket (clear_queue (record c { is_writing = false }))) ms
              (ground arith) (ground arith) (rest, s, waits))
          λ is_open.
            pump_queue-Sent (record c { is_writing = false }) c.write_queue ms refl
              (s ∙ ap (λ q. c.written ++ q) (queue_waits c rest is_open waits)))
      (λ _. (rest, s, waits))

on_close-Sent : (c : TcpConnection) (ms : List (List ℕ)) → Sent c ms → Sent (on_close c) ms
unfolding on_close
on_close-Sent c ms = keep-Sent c (on_close c) ms (ground arith) (ground arith)

destroy-Sent : (c : TcpConnection) (ms : List (List ℕ)) → Sent c ms → Sent (destroy c) ms
unfolding destroy
destroy-Sent c ms = keep-Sent c (destroy c) ms (ground arith) (ground arith)

on_data-Sent :
    (c : TcpConnection) (bytes : List ℕ) (ms : List (List ℕ))
    → Sent c ms
    → Sent (on_data bytes c) ms
unfolding on_data
on_data-Sent c bytes ms = keep-Sent c (on_data bytes c) ms (ground arith) (ground arith)

-- From a connection that sent `ms`.
run-Sent :
    (c : TcpConnection) (es : List Event) (ms : List (List ℕ))
    → Sent c ms
    → Sent (run c es) (ms ++ accepted c es)
unfolding run step
run-Sent c [] ms s = subst (Sent c) (sym (append-nil ms)) s
run-Sent c (sends bytes ∷ es) ms s =
    subst (Sent (run (send bytes c) es)) (append_assoc ms (taken c bytes) _)
      (run-Sent (send bytes c) es (ms ++ taken c bytes) (send-Sent c bytes ms s))
run-Sent c (closes ∷ es) ms s = run-Sent (close c) es ms (close-Sent c ms s)
run-Sent c (wrote ∷ es) ms s = run-Sent (on_write c) es ms (on_write-Sent c ms s)
run-Sent c (ended ∷ es) ms s = run-Sent (on_close c) es ms (on_close-Sent c ms s)
run-Sent c (destroyed ∷ es) ms s = run-Sent (destroy c) es ms (destroy-Sent c ms s)
run-Sent c (received bytes ∷ es) ms s = run-Sent (on_data bytes c) es ms (on_data-Sent c bytes ms s)

-- In whatever order the calls and events come, what a new connection has written to its socket is the
-- frames of the messages that Send accepted, in their order and each one once, up to a rest; the rest
-- is what waits in the queue, unless the connection was closed.
pub run-fresh-Sent : (es : List Event) → Sent (run fresh es) (accepted fresh es)
run-fresh-Sent es = run-Sent fresh es [] ([], refl, inr refl)
