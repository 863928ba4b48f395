-- ===== src/MessageDirector/Subscriber.antt =====
-- The functions of src/messagedirector/channel_subscriber.cpp, and whom DeliverLocally of
-- message_director.cpp hands a datagram to. The first argument is the subscriber that is called.
pub mod Channels
pub mod Bindings
pub mod Views
pub mod Ranges
pub mod Index
pub mod Life
pub mod History
pub mod Dispatch
use ardos.Prelude.{
  ℕ, zero, suc, ◌+◌, ◌-◌, ◌/◌, ◌%◌, ◌^◌, Bool, true, false, not, ◌&&◌, ◌||◌, List, [], ◌∷◌, ◌++◌,
  length, leb, ◌==◌, if◌then◌else◌, Option, none, some,
}
use ardos.Prelude.Sets.{mem, insert, remove, insert_all, update}
pub use ardos.MessageDirector.Director.{
  bucket_of, BrokerCall, bind_channel, unbind_channel, bind_bucket, unbind_bucket, Subscriber,
  Director, fresh, same_range, mem_range, erase_range, buckets, count_at, set_locals, call_broker,
  index_channel, unindex_channel, index_buckets, unindex_buckets, add_subscriber, remove_subscriber,
  index_channels, index_ranges, begin, back, within_local_range,
}

-- The reference count of a channel that a subscriber has just taken, by the entry of the channel.
unfoldable pub retain_from : Option ℕ → ℕ → Director → Director
retain_from (some n) channel d = record d {
  global_channels = update channel (some ((n + 1) % 2 ^ 32)) d.global_channels;
}
retain_from none channel d = record (call_broker (bind_channel channel) d) {
  global_channels = update channel (some 1) d.global_channels;
}

unfoldable pub retain_channel : ℕ → Director → Director
unfolding retain_from
retain_channel channel d = retain_from (d.global_channels channel) channel d

-- A channel that the subscriber does not have goes into its set, and into the index.
abbrev pub take_channel : ℕ → ℕ → Director → Director
take_channel s channel d =
    let l = d.locals s in
    let d' = set_locals s (record l { local_channels = channel ∷ l.local_channels }) d in
    if l.shared then index_channel s channel d' else d'

-- ChannelSubscriber::SubscribeChannel
unfoldable pub subscribe_channel : ℕ → ℕ → Director → Director
unfolding retain_channel
subscribe_channel s channel d =
    if mem channel (d.locals s).local_channels
    then d
    else retain_channel channel (take_channel s channel d)

-- The end of UnsubscribeChannel, on an unsigned count.
unfoldable pub release_channel : ℕ → Director → Director
release_channel channel d =
    let n = (count_at (d.global_channels channel) + (2 ^ 32 - 1)) % 2 ^ 32 in
    if n == 0
    then record (call_broker (unbind_channel channel) d) {
      global_channels = update channel none d.global_channels;
    }
    else record d { global_channels = update channel (some n) d.global_channels }

abbrev pub drop_channel : ℕ → ℕ → Director → Director
drop_channel s channel d =
    let l = d.locals s in
    unindex_channel s channel
      (set_locals s (record l { local_channels = remove channel l.local_channels }) d)

-- ChannelSubscriber::UnsubscribeChannel
unfoldable pub unsubscribe_channel : ℕ → ℕ → Director → Director
unfolding release_channel
unsubscribe_channel s channel d =
    if mem channel (d.locals s).local_channels
    then release_channel channel (drop_channel s channel d)
    else d

unfoldable pub retain_bucket : ℕ → Director → Director
retain_bucket bucket d =
    let n = count_at (d.global_buckets bucket) in
    let d' = record d {
      global_buckets = update bucket (some ((n + 1) % 2 ^ 32)) d.global_buckets;
    } in
    if n == 0 then call_broker (bind_bucket bucket) d' else d'

unfoldable pub retain_buckets : List ℕ → Director → Director
unfolding retain_bucket
retain_buckets [] d = d
retain_buckets (b ∷ bs) d = retain_buckets bs (retain_bucket b d)

unfoldable pub release_bucket : ℕ → Director → Director
release_bucket bucket d =
    let n = (count_at (d.global_buckets bucket) + (2 ^ 32 - 1)) % 2 ^ 32 in
    if n == 0
    then record (call_broker (unbind_bucket bucket) d) {
      global_buckets = update bucket none d.global_buckets;
    }
    else record d { global_buckets = update bucket (some n) d.global_buckets }

unfoldable pub release_buckets : List ℕ → Director → Director
unfolding release_bucket
release_buckets [] d = d
release_buckets (b ∷ bs) d = release_buckets bs (release_bucket b d)

abbrev pub take_range : ℕ → ℕ × ℕ → Director → Director
take_range s r d =
    let l = d.locals s in
    let d' = set_locals s (record l { local_ranges = l.local_ranges ++ (r ∷ []) }) d in
    if l.shared then index_buckets s (buckets r) d' else d'

-- ChannelSubscriber::SubscribeRange
unfoldable pub subscribe_range : ℕ → ℕ × ℕ → Director → Director
unfolding retain_buckets
subscribe_range s r d =
    if mem_range r (d.locals s).local_ranges
    then d
    else retain_buckets (buckets r) (take_range s r d)

abbrev pub drop_range : ℕ → ℕ × ℕ → Director → Director
drop_range s r d =
    let l = d.locals s in
    unindex_buckets s (buckets r)
      (set_locals s (record l { local_ranges = erase_range r l.local_ranges }) d)

-- ChannelSubscriber::UnsubscribeRange
unfoldable pub unsubscribe_range : ℕ → ℕ × ℕ → Director → Director
unfolding release_buckets
unsubscribe_range s r d =
    if mem_range r (d.locals s).local_ranges
    then release_buckets (buckets r) (drop_range s r d)
    else d

-- ChannelSubscriber::Init, after the factory made the shared pointer.
unfoldable pub init : ℕ → Director → Director
init s d =
    let l = d.locals s in
    let d' = add_subscriber s (set_locals s (record l { shared = true }) d) in
    index_ranges s l.local_ranges (index_channels s l.local_channels d')

-- The loops of Shutdown: until the set or the vector is empty, of which each round takes one.
unfoldable pub unsubscribe_channels : ℕ → ℕ → Director → Director
unfolding unsubscribe_channel
unsubscribe_channels zero s d = d
unsubscribe_channels (suc rounds) s d =
    let channels = (d.locals s).local_channels in
    let rest = unsubscribe_channels rounds s (unsubscribe_channel s (begin channels) d) in
    if length channels == 0 then d else rest

unfoldable pub unsubscribe_ranges : ℕ → ℕ → Director → Director
unfolding unsubscribe_range
unsubscribe_ranges zero s d = d
unsubscribe_ranges (suc rounds) s d =
    let ranges = (d.locals s).local_ranges in
    let rest = unsubscribe_ranges rounds s (unsubscribe_range s (back (0, 0) ranges) d) in
    if length ranges == 0 then d else rest

-- ChannelSubscriber::Shutdown
unfoldable pub shutdown : ℕ → Director → Director
unfolding unsubscribe_channels unsubscribe_ranges
shutdown s d =
    let d' = unsubscribe_channels (length (d.locals s).local_channels) s (remove_subscriber s d) in
    unsubscribe_ranges (length (d'.locals s).local_ranges) s d'

-- The subscribers of a bucket that a channel of it is for.
abbrev pub within_range_of : ℕ → (ℕ → Subscriber) → List ℕ → List ℕ
within_range_of channel locals [] = []
within_range_of channel locals (s ∷ ss) =
    let rest = within_range_of channel locals ss in
    if within_local_range channel (locals s).local_ranges then s ∷ rest else rest

-- The set that DeliverLocally and the consumer of StartConsuming hand a datagram to.
unfoldable pub interested : ℕ → Director → List ℕ
interested channel d =
    insert_all (within_range_of channel d.locals (d.bucket_index (bucket_of channel)))
      (d.channel_index channel)

-- The consumer of StartConsuming up to the dispatch: whom a message from the broker goes to.
-- `own` is whether it carries the name of the local queue.
unfoldable pub consume : Bool → ℕ → Director → List ℕ
unfolding interested
consume own channel d = if own then [] else elim (d.global_channels channel) [
  | some _ ↦ interested channel d
  | none ↦ elim (d.global_buckets (bucket_of channel)) [ some _ ↦ interested channel d | none ↦ [] ]
]

-- What the subscribers of a process do.
pub data Event : Type 0 where
  inits shuts_down : ℕ → Event
  subscribes unsubscribes : ℕ → ℕ → Event
  subscribes_range unsubscribes_range : ℕ → ℕ × ℕ → Event

unfoldable pub step : Event → Director → Director
unfolding init shutdown subscribe_channel unsubscribe_channel subscribe_range unsubscribe_range
step (inits s) = init s
step (shuts_down s) = shutdown s
step (subscribes s c) = subscribe_channel s c
step (unsubscribes s c) = unsubscribe_channel s c
step (subscribes_range s r) = subscribe_range s r
step (unsubscribes_range s r) = unsubscribe_range s r

unfoldable pub run : Director → List Event → Director
unfolding step
run d [] = d
run d (e ∷ es) = run (step e d) es
