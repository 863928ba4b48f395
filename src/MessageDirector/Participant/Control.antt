-- ===== src/MessageDirector/Participant/Control.antt =====
-- The control messages of a participant, from their bytes to their effect, and its post removes.
use ardos.Prelude.{
  map, ℕ, ◌^◌, ◌<◌, ◌≤◌, ◌≡◌, refl, sym, ap, subst, ◌∙◌, true, false, List, [], ◌∷◌, ◌++◌, length,
  All, arith, if◌then◌else◌,
}
use ardos.Prelude.Words.{le_bytes}
use ardos.Prelude.Action.{
  Action, Result, ok, err, overflow, eof, invalid, stuck, pure, continue, ◌>>=◌, ◌>>◌,
}
use ardos.MessageDirector.RoutingKey.{build_channel_routing_key}
use ardos.Net.Datagram.{Datagram, max_dg_size, empty, from_bytes}
use ardos.Net.Datagram.Adds.{channel_bytes, tagged}
use ardos.Net.DatagramIterator.{get_uint8, get_uint16, get_uint64, get_string, get_datagram}
use ardos.Net.DatagramIterator.Reads.{
  Holds, Reads, Reads-pure, Reads-bind, get_uint8-Reads, get_uint16-Reads, get_uint64-Reads,
  get_string-Reads, get_datagram-Reads,
}
use ardos.Net.Items.{
  Item, uint8, uint16, uint64, text, blob, Fits, encode_all, write_all, write_all-Writes, start,
  Appended-Holds, empty-IsValid,
}
use ardos.Net.Header.{IsChannel}
use ardos.MessageDirector.Subscriber
use ardos.MessageDirector.Subscriber.{
  Director, interested, subscribe_channel, unsubscribe_channel, subscribe_range, unsubscribe_range,
}
use ardos.MessageDirector.Publish.{
  Node, Handler, publish_envelope, in_turn, hear, deliver_to_all, publish_datagram-eq,
}
use ardos.MessageDirector.Participant.{
  Participant, Command, add_channel, remove_channel, add_range, remove_range, add_post_remove,
  clear_post_removes, set_con_name, read_control, read_command, on_director, obey, handle_read,
  handle_client_datagram, dropping, publish_post_removes, leave_director, shutdown,
}

-- The requests that a participant can send.
pub data Request : Type 0 where
  subscribe unsubscribe : ℕ → Request
  subscribe_all unsubscribe_all : ℕ → ℕ → Request
  remember : ℕ → List ℕ → Request
  forget_all : Request
  be_called : List ℕ → Request

-- The message type and the values behind it, as the protocol has them.
abbrev pub msg_type : Request → ℕ
msg_type (subscribe _) = 9000
msg_type (unsubscribe _) = 9001
msg_type (subscribe_all _ _) = 9002
msg_type (unsubscribe_all _ _) = 9003
msg_type (remember _ _) = 9010
msg_type forget_all = 9011
msg_type (be_called _) = 9012

abbrev pub arguments : Request → List Item
arguments (subscribe c) = uint64 c ∷ []
arguments (unsubscribe c) = uint64 c ∷ []
arguments (subscribe_all min max) = uint64 min ∷ uint64 max ∷ []
arguments (unsubscribe_all min max) = uint64 min ∷ uint64 max ∷ []
arguments (remember sender bytes) = uint64 sender ∷ blob bytes ∷ []
arguments forget_all = []
arguments (be_called name) = text name ∷ []

-- A message with one recipient, the control channel, and no sender.
abbrev pub control_message : Request → List Item
control_message r = uint8 1 ∷ uint64 1 ∷ uint16 (msg_type r) ∷ arguments r

-- What each request asks for.
abbrev pub grant : ℕ → Request → Participant → Participant
grant s (subscribe c) p = on_director (subscribe_channel s c) p
grant s (unsubscribe c) p = on_director (unsubscribe_channel s c) p
grant s (subscribe_all min max) p = on_director (subscribe_range s (min, max)) p
grant s (unsubscribe_all min max) p = on_director (unsubscribe_range s (min, max)) p
grant s (remember sender bytes) p = record p {
  post_removes = p.post_removes ++ from_bytes bytes ∷ [];
}
grant s forget_all p = record p { post_removes = [] }
grant s (be_called name) p = record p { conn_name = name }

abbrev command : Request → Command
command (subscribe c) = add_channel c
command (unsubscribe c) = remove_channel c
command (subscribe_all min max) = add_range min max
command (unsubscribe_all min max) = remove_range min max
command (remember sender bytes) = add_post_remove sender (from_bytes bytes)
command forget_all = clear_post_removes
command (be_called name) = set_con_name name

one_number :
    (f : ℕ → Command) (n : ℕ)
    → n < 2 ^ 64
    → Reads (get_uint64 >>= λ v. pure (f v)) (encode_all (uint64 n ∷ [])) (f n)
one_number f n h =
    Reads-bind get_uint64 (λ v. pure (f v)) (le_bytes 8 n) [] n (f n) (get_uint64-Reads n h)
      (Reads-pure (f n))

two_numbers :
    (f : ℕ → ℕ → Command) (m n : ℕ)
    → m < 2 ^ 64
    → n < 2 ^ 64
    → Reads
        (get_uint64 >>= λ u. get_uint64 >>= λ v. pure (f u v))
        (encode_all (uint64 m ∷ uint64 n ∷ []))
        (f m n)
two_numbers f m n h k =
    Reads-bind get_uint64 (λ u. get_uint64 >>= λ v. pure (f u v)) (le_bytes 8 m)
      (encode_all (uint64 n ∷ [])) m (f m n) (get_uint64-Reads m h) (one_number (f m) n k)

read_control-Reads :
    (r : Request)
    → All Fits (arguments r)
    → Reads (read_control (msg_type r)) (encode_all (arguments r)) (command r)
unfolding read_control
read_control-Reads (subscribe c) f = one_number add_channel c f.0
read_control-Reads (unsubscribe c) f = one_number remove_channel c f.0
read_control-Reads (subscribe_all min max) f = two_numbers add_range min max f.0 f.1.0
read_control-Reads (unsubscribe_all min max) f = two_numbers remove_range min max f.0 f.1.0
read_control-Reads (remember sender bytes) f =
    Reads-bind get_uint64 (λ u. get_datagram >>= λ dg. pure (add_post_remove u dg))
      (le_bytes 8 sender) (encode_all (blob bytes ∷ [])) sender _ (get_uint64-Reads sender f.0)
      (Reads-bind get_datagram (λ dg. pure (add_post_remove sender dg)) (tagged bytes) []
        (from_bytes bytes) _ (get_datagram-Reads bytes f.1.0)
        (Reads-pure (add_post_remove sender (from_bytes bytes))))
read_control-Reads forget_all f = Reads-pure clear_post_removes
read_control-Reads (be_called name) f =
    Reads-bind get_string (λ n. pure (set_con_name n)) (tagged name) [] name (set_con_name name)
      (get_string-Reads name f.0) (Reads-pure (set_con_name name))

msg_type_small : (r : Request) → msg_type r < 2 ^ 16
msg_type_small (subscribe _) = omega arith
msg_type_small (unsubscribe _) = omega arith
msg_type_small (subscribe_all _ _) = omega arith
msg_type_small (unsubscribe_all _ _) = omega arith
msg_type_small (remember _ _) = omega arith
msg_type_small forget_all = omega arith
msg_type_small (be_called _) = omega arith

read_command-Reads :
    (r : Request)
    → All Fits (arguments r)
    → Reads read_command (encode_all (control_message r)) (command r)
unfolding read_command
read_command-Reads r f =
    Reads-bind get_uint8 _ (le_bytes 1 1) _ 1 (command r) (get_uint8-Reads 1 (omega arith)) (
      Reads-bind get_uint64 _ (le_bytes 8 1) _ 1 (command r) (get_uint64-Reads 1 (omega arith)) (
        Reads-bind get_uint16 read_control (le_bytes 2 (msg_type r)) (encode_all (arguments r))
          (msg_type r) (command r) (get_uint16-Reads (msg_type r) (msg_type_small r))
          (read_control-Reads r f)))

module _ (handle : Handler) where
  obey-command :
      (s : ℕ) (dg : Datagram) (r : Request) (p : Participant)
      → obey handle s dg (command r) p ≡ (ok tt, grant s r p)
  unfolding obey
  obey-command s dg (subscribe c) p = refl
  obey-command s dg (unsubscribe c) p = refl
  obey-command s dg (subscribe_all min max) p = refl
  obey-command s dg (unsubscribe_all min max) p = refl
  obey-command s dg (remember sender bytes) p = refl
  obey-command s dg forget_all p = refl
  obey-command s dg (be_called name) p = refl

  -- A participant that sends a control message, the datagram with the control channel as its one
  -- recipient, the type of the request and its arguments, each within its type and all within a
  -- datagram, gets what the request asks for: its channel or range is subscribed or given up, a
  -- post remove is added behind the others or all are forgotten, or its name is set; nothing is
  -- thrown.
  pub handle_client_datagram-control_message :
      (s : ℕ) (r : Request) (p : Participant)
      → All Fits (arguments r)
      → length (encode_all (control_message r)) ≤ max_dg_size
      → handle_client_datagram handle s (write_all (control_message r) empty).1 p
        ≡ (ok tt, grant s r p)
  unfolding handle_client_datagram handle_read empty
  handle_client_datagram-control_message s r p f h =
      let message = control_message r in
      let a = (write_all-Writes message).fits empty empty-IsValid (omega (arith, h)) in
      let dg = (write_all message empty).1 in
      ap (λ q. handle_read handle s dg q p)
        (read_command-Reads r f (start dg) (Appended-Holds (encode_all message) a h))
      ∙ obey-command s dg r p

-- A post remove that begins with its recipients.
pub record IsAddressed (dg : Datagram) (cs : List ℕ) : Type 0 where
  pub channels : All IsChannel cs
  pub few : length cs < 256
  pub rest : List ℕ
  pub header : Holds (start dg) (le_bytes 1 (length cs) ++ (channel_bytes cs ++ rest))

abbrev pub AllAddressed : List Datagram → List (List ℕ) → Type 0
AllAddressed [] [] = Unit {0}
AllAddressed [] (cs ∷ css) = ⊥
AllAddressed (dg ∷ dgs) [] = ⊥
AllAddressed (dg ∷ dgs) (cs ∷ css) = IsAddressed dg cs × AllAddressed dgs css

-- No exception but the two that Shutdown catches.
abbrev pub IsMild : Result (Unit {0}) → Type 0
IsMild (ok _) = Unit {0}
IsMild (err overflow) = Unit {0}
IsMild (err eof) = Unit {0}
IsMild (err invalid) = ⊥
IsMild (err stuck) = ⊥

module _ (handle : Handler) where
  -- Each datagram goes to its recipients in turn, as far as it comes.
  abbrev pub after_all : List Datagram → List (List ℕ) → Node → Node
  after_all [] css node = node
  after_all (dg ∷ dgs) [] node = node
  after_all (dg ∷ dgs) (cs ∷ css) node = after_all dgs css (deliver_to_all handle cs dg node).1

  dropping-IsMild : (r : Result (Unit {0}) × Node) → IsMild r.0 → dropping handle r ≡ (ok tt, r.1)
  unfolding dropping
  dropping-IsMild (ok _, node) m = refl
  dropping-IsMild (err overflow, node) m = refl
  dropping-IsMild (err eof, node) m = refl
  dropping-IsMild (err invalid, node) m = absurd m
  dropping-IsMild (err stuck, node) m = absurd m

  continue-IsMild :
      (r : Result (Unit {0}) × Node) (k : Action Node (Unit {0}))
      → IsMild r.0
      → ((node : Node) → IsMild (k node).0)
      → IsMild (continue r (λ _. k)).0
  continue-IsMild (ok _, node) k m n = n node
  continue-IsMild (err e, node) k m n = m

  module _ (mild : (s : ℕ) (dg : Datagram) (node : Node) → IsMild (handle s dg node).0) where
    in_turn-IsMild :
        (ss : List ℕ) (dg : Datagram) (node : Node)
        → IsMild (in_turn (map (hear handle dg) ss) node).0
    in_turn-IsMild [] dg node = tt
    in_turn-IsMild (s ∷ ss) dg node =
        continue-IsMild (hear handle dg s node) (in_turn (map (hear handle dg) ss))
          (mild s dg (record node { handed = node.handed ++ (s, dg) ∷ [] })) (in_turn-IsMild ss dg)

    deliver_to_all-IsMild :
        (cs : List ℕ) (dg : Datagram) (node : Node) → IsMild (deliver_to_all handle cs dg node).0
    deliver_to_all-IsMild [] dg node = tt
    deliver_to_all-IsMild (c ∷ cs) dg node =
        continue-IsMild (in_turn (map (hear handle dg) (interested c node.director)) node)
          (publish_envelope (build_channel_routing_key c) dg >> deliver_to_all handle cs dg)
          (in_turn-IsMild (interested c node.director) dg node)
          (λ node'. deliver_to_all-IsMild cs dg _)

    publish_post_removes-eq :
        (dgs : List Datagram) (css : List (List ℕ)) (node : Node)
        → AllAddressed dgs css
        → publish_post_removes handle dgs node ≡ (ok tt, after_all dgs css node)
    unfolding publish_post_removes
    publish_post_removes-eq [] css node h = refl
    publish_post_removes-eq (dg ∷ dgs) [] node h = absurd h
    publish_post_removes-eq (dg ∷ dgs) (cs ∷ css) node h =
        ap (λ r. continue r (λ _. publish_post_removes handle dgs))
          (ap (dropping handle)
              (publish_datagram-eq handle cs h.0.rest dg node h.0.channels h.0.few h.0.header)
            ∙ dropping-IsMild (deliver_to_all handle cs dg node) (deliver_to_all-IsMild cs dg node))
        ∙ publish_post_removes-eq dgs css (deliver_to_all handle cs dg node).1 h.1

    abbrev removed : ℕ → List (List ℕ) → Participant → Participant
    removed s css p =
        on_director (Subscriber.shutdown s)
          (record p { disconnected = true; node = after_all p.post_removes css p.node })

    first_shutdown :
        (s : ℕ) (css : List (List ℕ)) (p : Participant)
        → p.disconnected ≡ false
        → AllAddressed p.post_removes css
        → shutdown handle s p ≡ (ok tt, removed s css p)
    unfolding shutdown leave_director
    first_shutdown s css p live h =
        let q = record p { disconnected = true } in
        let r = publish_post_removes handle p.post_removes p.node in
        ap (λ b. if b then (ok tt, p) else leave_director handle s r q) live
        ∙ ap (λ r. leave_director handle s r q)
            (publish_post_removes-eq p.post_removes css p.node h)

    second_shutdown :
        (s : ℕ) (p : Participant) → p.disconnected ≡ true → shutdown handle s p ≡ (ok tt, p)
    unfolding shutdown
    second_shutdown s p gone =
        let r = publish_post_removes handle p.post_removes p.node in
        let q = record p { disconnected = true } in
        ap (λ b. if b then (ok tt, p) else leave_director handle s r q) gone

    -- Where the handlers of the subscribers throw nothing but the end of a datagram or its overflow: the
    -- first Shutdown of a participant whose post removes begin with a header hands each of them, in
    -- the order they came, to the subscribers of its recipients and to the broker, the participant
    -- itself not yet removed, and then gives up all its subscriptions; an exception ends the one post
    -- remove it comes from, and none comes out; a second Shutdown changes nothing.
    pub shutdown-after_all :
        (s : ℕ) (p : Participant) (css : List (List ℕ))
        → p.disconnected ≡ false
        → AllAddressed p.post_removes css
        → let r = shutdown handle s p in
          (r.0 ≡ ok tt)
          × (r.1.node ≡ (
              let node = after_all p.post_removes css p.node in
              record node { director = Subscriber.shutdown s node.director }))
          × (shutdown handle s r.1 ≡ (ok tt, r.1))
    shutdown-after_all s p css live h =
        let first = first_shutdown s css p live h in
        (
          ap (λ (r : Result (Unit {0}) × Participant). r.0) first,
          ap (λ (r : Result (Unit {0}) × Participant). r.1.node) first,
          subst (λ (r : Result (Unit {0}) × Participant). shutdown handle s r.1 ≡ (ok tt, r.1))
              (sym first) (second_shutdown s (removed s css p) refl),
        )
