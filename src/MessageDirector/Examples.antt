-- ===== src/MessageDirector/Examples.antt =====
-- Subscribers at concrete inputs.
use ardos.Prelude.Action.{ok, eof, modify, raise}
use ardos.Net.Datagram.{Datagram, from_bytes, empty}
use ardos.Net.Items.{write_all}
use ardos.MessageDirector.RoutingKey.{
  build_channel_routing_key, channel_from_routing_key,
  channel_from_routing_key-build_channel_routing_key,
}
use ardos.MessageDirector.Publish.{
  Node, Handler, publish_datagram, deliver_to_all, publish_datagram-eq,
}
use ardos.MessageDirector.Subscriber
use ardos.MessageDirector.Participant.{Participant, handle_client_datagram}
use ardos.MessageDirector.Participant
use ardos.MessageDirector.Participant.Control.{
  subscribe_all, grant, control_message, after_all, IsAddressed, IsMild,
  handle_client_datagram-control_message, shutdown-after_all,
}
use ardos.Prelude.{
  some, List, ◌≡◌, ℕ, refl, true, false, List, [], ◌∷◌, length, arith, ◌==◌, if◌then◌else◌,
  Bool-cases, inl, inr,
}
use ardos.Prelude.Sets.{mem}
use ardos.MessageDirector.Subscriber.{
  fresh, interested, unsubscribe_channel, unsubscribe_range, shutdown, within_local_range, Event,
  inits, subscribes, unsubscribes, subscribes_range, unsubscribes_range, step, run,
}
use ardos.MessageDirector.Subscriber.Channels.{IsCounted}
use ardos.MessageDirector.Subscriber.Bindings.{run-IsCounted}
use ardos.MessageDirector.Subscriber.Dispatch.{
  wants, interested-run, wants-interested, interested-shutdown, interested-unsubscribe_range,
}

-- Subscriber 1 has a channel and a range, gives up another range far away; 2 has the channel too.
abbrev history : List Event
history =
    inits 1
    ∷ subscribes 1 5000
    ∷ subscribes_range 1 (100, 200)
    ∷ inits 2
    ∷ subscribes 2 5000
    ∷ subscribes_range 1 (1000000, 1000001)
    ∷ unsubscribes_range 1 (1000000, 1000001)
    ∷ unsubscribes 2 5000
    ∷ []

run-IsCounted_example : IsCounted (length history) (run fresh history)
run-IsCounted_example = run-IsCounted history (omega arith)

interested-run_example :
    mem 1 (interested 150 (run fresh history)) ≡ wants 150 ((run fresh history).locals 1)
unfolding step
interested-run_example = interested-run 1 150 history refl

wants-interested_example : wants 5000 ((run fresh history).locals 1) ≡ true
unfolding interested run
wants-interested_example = wants-interested 1 5000 history refl

interested-shutdown_example :
    let d = shutdown 1 (run fresh history) in
    (mem 1 (interested 5000 d) ≡ false)
    × (length (d.locals 1).local_channels ≡ 0)
    × (length (d.locals 1).local_ranges ≡ 0)
interested-shutdown_example = interested-shutdown 1 5000 history

-- Two ranges in the first bucket, which share no channel at all.
abbrev two_ranges : List Event
two_ranges = inits 1 ∷ subscribes_range 1 (0, 10) ∷ subscribes_range 1 (20, 30) ∷ []

interested-unsubscribe_range_example :
    let d = unsubscribe_range 1 (0, 10) (run fresh two_ranges) in
    (within_local_range 25 (d.locals 1).local_ranges ≡ true) × (mem 1 (interested 25 d) ≡ false)
unfolding run
interested-unsubscribe_range_example =
    interested-unsubscribe_range 1 25 (0, 10) two_ranges refl refl refl refl

channel_from_routing_key-build_channel_routing_key_example :
    channel_from_routing_key (build_channel_routing_key 1000001) ≡ some 1000001
channel_from_routing_key-build_channel_routing_key_example =
    channel_from_routing_key-build_channel_routing_key 1000001 (omega arith)

abbrev node : Node
node = record { director = run fresh history; handed = []; published = [] }

-- For channel 5000, and one more byte.
abbrev bytes : List ℕ
bytes = 1 ∷ 136 ∷ 19 ∷ 0 ∷ 0 ∷ 0 ∷ 0 ∷ 0 ∷ 0 ∷ 77 ∷ []

bytes-IsAddressed : IsAddressed (from_bytes bytes) (5000 ∷ [])
unfolding from_bytes
bytes-IsAddressed = record {
  channels = (omega arith, tt);
  few = omega arith;
  rest = 77 ∷ [];
  header = record { inside = omega arith; bytes = refl };
}

-- The first subscriber gives up channel 5000 when it hears something; the others read too far.
abbrev leaving : Handler
leaving s dg =
    if s == 1
    then modify (λ (n : Node). record n { director = unsubscribe_channel 1 5000 n.director })
    else raise eof

leaving-IsMild : (s : ℕ) (dg : Datagram) (n : Node) → IsMild (leaving s dg n).0
leaving-IsMild s dg n = elim (Bool-cases (s == 1)) [ inl e ↦ rw e tt | inr e ↦ rw e tt ]

publish_datagram-eq_example :
    publish_datagram leaving (from_bytes bytes) node
    ≡ deliver_to_all leaving (5000 ∷ []) (from_bytes bytes) node
publish_datagram-eq_example =
    let a = bytes-IsAddressed in
    publish_datagram-eq leaving (5000 ∷ []) a.rest (from_bytes bytes) node a.channels a.few a.header

abbrev participant : Participant
participant = record {
  node = node;
  conn_name = [];
  post_removes = from_bytes bytes ∷ [];
  disconnected = false;
}

handle_client_datagram-control_message_example :
    handle_client_datagram leaving 1
      (write_all (control_message (subscribe_all 7 9)) empty).1
      participant
    ≡ (ok tt, grant 1 (subscribe_all 7 9) participant)
handle_client_datagram-control_message_example =
    handle_client_datagram-control_message leaving 1 (subscribe_all 7 9) participant
      (omega arith, (omega arith, tt)) (omega arith)

shutdown-after_all_example :
    let r = Participant.shutdown leaving 1 participant in
    (r.0 ≡ ok tt)
    × (r.1.node ≡ (
        let n = after_all leaving (from_bytes bytes ∷ []) ((5000 ∷ []) ∷ []) node in
        record n { director = Subscriber.shutdown 1 n.director }))
    × (Participant.shutdown leaving 1 r.1 ≡ (ok tt, r.1))
shutdown-after_all_example =
    shutdown-after_all leaving leaving-IsMild 1 participant ((5000 ∷ []) ∷ []) refl
      (bytes-IsAddressed, tt)
