-- ===== src/MessageDirector/Publish.antt =====
-- PublishDatagram of src/messagedirector/channel_subscriber.cpp and DeliverLocally of
-- message_director.cpp. HandleDatagram is virtual: it is a parameter, which may change the subscriptions
-- and the logs and may throw. The calls of it, and what goes to the broker, are kept as logs.
use ardos.Prelude.{
  ℕ, zero, suc, ◌<◌, ◌≡◌, refl, List, [], ◌∷◌, ◌++◌, map, length, All, Option, none, some,
}
use ardos.Prelude.Words.{le_bytes}
use ardos.Prelude.Action.{
  Action, Result, ok, invalid, pure, raise, modify, continue, ◌>>=◌, ◌>>◌, err,
}
use ardos.Net.Datagram.{Datagram, get_bytes}
use ardos.Net.Datagram.Adds.{channel_bytes}
use ardos.Net.DatagramIterator.{DatagramIterator, advance, get_uint8, get_uint64}
use ardos.Net.DatagramIterator.Reads.{Holds, Holds-append, get_uint8-Reads, get_uint64-Reads}
use ardos.Net.Items.{start}
use ardos.Net.Header.{IsChannel}
use ardos.MessageDirector.Subscriber.{Director, interested}
use ardos.MessageDirector.RoutingKey.{
  build_channel_routing_key, channel_from_routing_key,
  channel_from_routing_key-build_channel_routing_key,
}

pub record Node : Type 0 where
  pub director : Director
  -- The calls of HandleDatagram: the subscriber and the datagram.
  pub handed : List (ℕ × Datagram)
  -- What was published at the broker: the routing key and the body.
  pub published : List (List ℕ × List ℕ)

-- A call on the iterator of the datagram that is being published, and one on the process.
abbrev pub reading {ℓ} :
    {A : Type ℓ} → Action DatagramIterator A → Action (DatagramIterator × Node) A
reading m (it, node) = let r = m it in (r.0, (r.1, node))

abbrev pub doing {ℓ} : {A : Type ℓ} → Action Node A → Action (DatagramIterator × Node) A
doing m (it, node) = let r = m node in (r.0, (it, r.1))

abbrev pub publish_envelope : List ℕ → Datagram → Action Node (Unit {0})
publish_envelope routing_key dg =
    modify λ node. record node { published = node.published ++ (routing_key, get_bytes dg) ∷ [] }

-- Actions one after the other, up to the first that throws.
abbrev pub in_turn : List (Action Node (Unit {0})) → Action Node (Unit {0})
in_turn [] = pure tt
in_turn (m ∷ ms) = m >> in_turn ms

-- ChannelSubscriber::HandleDatagram of each subscriber.
abbrev pub Handler : Type 0
Handler = ℕ → Datagram → Action Node (Unit {0})

module _ (handle : Handler) where
  abbrev pub call : ℕ → Datagram → Action Node (Unit {0})
  call s dg = do modify λ node. record node { handed = node.handed ++ (s, dg) ∷ [] }; handle s dg

  -- The loop of DeliverLocally over the snapshot.
  unfoldable pub call_all : List ℕ → Datagram → Action Node (Unit {0})
  call_all [] dg = pure tt
  call_all (s ∷ snapshot) dg = do call s dg; call_all snapshot dg

  -- MessageDirector::DeliverLocally, which throws when the key has no number
  unfoldable pub deliver_locally : List ℕ → Datagram → Action Node (Unit {0})
  unfolding call_all
  deliver_locally routing_key dg = to (channel_from_routing_key routing_key)
    where
      to : Option ℕ → Action Node (Unit {0})
      to none node = raise invalid node
      to (some channel) node = call_all (interested channel node.director) dg node

  -- The loop of PublishDatagram over the recipients.
  unfoldable pub publish_channels : ℕ → Datagram → Action (DatagramIterator × Node) (Unit {0})
  unfolding get_uint64 deliver_locally
  publish_channels zero dg = pure tt
  publish_channels (suc n) dg = do
    channel ← reading get_uint64
    doing (deliver_locally (build_channel_routing_key channel) dg)
    doing (publish_envelope (build_channel_routing_key channel) dg)
    publish_channels n dg

  -- ChannelSubscriber::PublishDatagram
  unfoldable pub publish_datagram : Datagram → Action Node (Unit {0})
  unfolding get_uint8 publish_channels
  publish_datagram dg node =
      let r = (reading get_uint8 >>= λ channels. publish_channels channels dg) (start dg, node) in
      (r.0, r.1.1)

  -- A subscriber is handed a datagram: the call is noted, and its handler runs.
  abbrev pub hear : Datagram → ℕ → Action Node (Unit {0})
  hear dg s node = handle s dg (record node { handed = node.handed ++ (s, dg) ∷ [] })

  -- A datagram for the recipients `cs`: for each in turn, it goes to all that want it by then, and to
  -- the broker.
  abbrev pub deliver_to_all : List ℕ → Datagram → Action Node (Unit {0})
  deliver_to_all [] dg = pure tt
  deliver_to_all (c ∷ cs) dg = do
    λ (node : Node). in_turn (map (hear dg) (interested c node.director)) node
    publish_envelope (build_channel_routing_key c) dg
    deliver_to_all cs dg

  continue-eq :
      (r : Result (Unit {0}) × Node) (k l : Action Node (Unit {0}))
      → ((node : Node) → k node ≡ l node)
      → continue r (λ _. k) ≡ continue r (λ _. l)
  continue-eq (ok _, node) k l h = h node
  continue-eq (err e, node) k l h = refl

  call_all-in_turn :
      (ss : List ℕ) (dg : Datagram) (node : Node)
      → call_all ss dg node ≡ in_turn (map (hear dg) ss) node
  unfolding call_all
  call_all-in_turn [] dg node = refl
  call_all-in_turn (s ∷ ss) dg node =
      continue-eq (hear dg s node) (call_all ss dg) (in_turn (map (hear dg) ss))
        (call_all-in_turn ss dg)

  deliver_locally-eq :
      (c : ℕ) (dg : Datagram) (node : Node)
      → IsChannel c
      → deliver_locally (build_channel_routing_key c) dg node
        ≡ in_turn (map (hear dg) (interested c node.director)) node
  unfolding deliver_locally
  deliver_locally-eq c dg node h =
      rw (channel_from_routing_key-build_channel_routing_key c h)
        (call_all-in_turn (interested c node.director) dg node)

  -- The same on the process, and the iterator somewhere.
  Same : Result (Unit {0}) × (DatagramIterator × Node) → Result (Unit {0}) × Node → Type 0
  Same r q = (it : DatagramIterator) × (r ≡ (q.0, (it, q.1)))

  Same-after :
      (it : DatagramIterator) (r : Result (Unit {0}) × Node)
      (k : Action (DatagramIterator × Node) (Unit {0})) (l : Action Node (Unit {0}))
      → ((node : Node) → Same (k (it, node)) (l node))
      → Same (continue (r.0, (it, r.1)) (λ _. k)) (continue r (λ _. l))
  unfolding Same
  Same-after it (ok _, node) k l same = same node
  Same-after it (err e, node) k l same = (it, refl)

  publish_channels-Same :
      (cs : List ℕ) (dg : Datagram) (it : DatagramIterator) (node : Node)
      → All IsChannel cs
      → Holds it (channel_bytes cs)
      → Same (publish_channels (length cs) dg (it, node)) (deliver_to_all cs dg node)
  unfolding publish_channels Same
  publish_channels-Same [] dg it node f h = (it, refl)
  publish_channels-Same (c ∷ cs) dg it node f h =
      let (front, back) = Holds-append it (le_bytes 8 c) (channel_bytes cs) h in
      rw (get_uint64-Reads c f.0 it front, deliver_locally-eq c dg node f.0)
        (Same-after (advance 8 it) (in_turn (map (hear dg) (interested c node.director)) node)
          (doing (publish_envelope (build_channel_routing_key c) dg)
            >> publish_channels (length cs) dg)
          (publish_envelope (build_channel_routing_key c) dg >> deliver_to_all cs dg)
          (λ node'. publish_channels-Same cs dg (advance 8 it) _ f.1 back))

  -- Whatever the handlers of the subscribers do, publishing a datagram that begins with the count of
  -- its recipients, fewer than 256, and their channels is this: for each recipient in turn, the
  -- handlers of all that are interested in it by then are called one after the other, and then it is
  -- published under the routing key of the recipient; nothing is thrown but what a handler throws,
  -- which ends all at that call.
  pub publish_datagram-eq :
      (cs rest : List ℕ) (dg : Datagram) (node : Node)
      → All IsChannel cs
      → length cs < 256
      → Holds (start dg) (le_bytes 1 (length cs) ++ (channel_bytes cs ++ rest))
      → publish_datagram dg node ≡ deliver_to_all cs dg node
  unfolding publish_datagram Same
  publish_datagram-eq cs rest dg node f few h =
      let (front, back) =
        Holds-append (start dg) (le_bytes 1 (length cs)) (channel_bytes cs ++ rest) h in
      let (channels, _) = Holds-append (advance 1 (start dg)) (channel_bytes cs) rest back in
      let (it', done) = publish_channels-Same cs dg (advance 1 (start dg)) node f channels in
      rw (get_uint8-Reads (length cs) few (start dg) front, done) refl
