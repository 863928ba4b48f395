-- ===== src/MessageDirector/Director.antt =====
-- The state of src/messagedirector/channel_subscriber.cpp: the static maps and all the subscribers of a
-- process are one state, with the subscribers of message_director.cpp; a pointer to a subscriber is a
-- number, which no later one reuses. The calls that go to the broker are kept as a log.
use ardos.Prelude.{
  ℕ, ◌+◌, ◌-◌, ◌/◌, ◌^◌, Bool, false, ◌&&◌, ◌||◌, List, [], ◌∷◌, ◌++◌, leb, ◌==◌, if◌then◌else◌,
  Option, none, some,
}
use ardos.Prelude.Sets.{mem, insert, remove, update, count_up}

-- kChannelBucketShift: `channel >> 16`.
abbrev pub bucket_of : ℕ → ℕ
bucket_of channel = channel / 2 ^ 16

pub data BrokerCall : Type 0 where
  bind_channel unbind_channel bind_bucket unbind_bucket : ℕ → BrokerCall

pub record Subscriber : Type 0 where
  pub local_channels : List ℕ
  pub local_ranges : List (ℕ × ℕ)
  -- Whether weak_from_this() can be locked: not in the constructor, and not in the destructor.
  pub shared : Bool

-- A missing key of an index is the empty set.
pub record Director : Type 0 where
  pub subscribers : List ℕ
  pub locals : ℕ → Subscriber
  pub global_channels : ℕ → Option ℕ
  pub global_buckets : ℕ → Option ℕ
  pub channel_index : ℕ → List ℕ
  pub bucket_index : ℕ → List ℕ
  pub broker : List BrokerCall

-- A process that has just started, in which subscribers are being constructed.
abbrev pub fresh : Director
fresh = record {
  subscribers = [];
  locals = λ _. record { local_channels = []; local_ranges = []; shared = false };
  global_channels = λ _. none;
  global_buckets = λ _. none;
  channel_index = λ _. [];
  bucket_index = λ _. [];
  broker = [];
}

abbrev pub same_range : ℕ × ℕ → ℕ × ℕ → Bool
same_range (a, b) (c, d) = (a == c) && (b == d)

abbrev pub mem_range : ℕ × ℕ → List (ℕ × ℕ) → Bool
mem_range r [] = false
mem_range r (q ∷ qs) = same_range q r || mem_range r qs

-- The first occurrence is erased.
abbrev pub erase_range : ℕ × ℕ → List (ℕ × ℕ) → List (ℕ × ℕ)
erase_range r [] = []
erase_range r (q ∷ qs) = let rest = erase_range r qs in if same_range q r then qs else q ∷ rest

-- The buckets of the loops `for (bucket = minBucket; bucket <= maxBucket; ++bucket)`.
abbrev pub buckets : ℕ × ℕ → List ℕ
buckets (min, max) = count_up (bucket_of max + 1 - bucket_of min) (bucket_of min)

-- The count at a key as `operator[]` gives it.
abbrev pub count_at : Option ℕ → ℕ
count_at none = 0
count_at (some n) = n

abbrev pub set_locals : ℕ → Subscriber → Director → Director
set_locals s l d = record d { locals = update s l d.locals }

abbrev pub call_broker : BrokerCall → Director → Director
call_broker call d = record d { broker = d.broker ++ (call ∷ []) }

abbrev pub index_channel : ℕ → ℕ → Director → Director
index_channel s channel d = record d {
  channel_index = update channel (insert s (d.channel_index channel)) d.channel_index;
}

abbrev pub unindex_channel : ℕ → ℕ → Director → Director
unindex_channel s channel d = record d {
  channel_index = update channel (remove s (d.channel_index channel)) d.channel_index;
}

abbrev pub index_buckets : ℕ → List ℕ → Director → Director
index_buckets s bs d = record d {
  bucket_index = λ b. if mem b bs then insert s (d.bucket_index b) else d.bucket_index b;
}

abbrev pub unindex_buckets : ℕ → List ℕ → Director → Director
unindex_buckets s bs d = record d {
  bucket_index = λ b. if mem b bs then remove s (d.bucket_index b) else d.bucket_index b;
}

-- MessageDirector::AddSubscriber and MessageDirector::RemoveSubscriber, without the gauge
abbrev pub add_subscriber : ℕ → Director → Director
add_subscriber s d = record d { subscribers = insert s d.subscribers }

abbrev pub remove_subscriber : ℕ → Director → Director
remove_subscriber s d = record d { subscribers = remove s d.subscribers }

abbrev pub index_channels : ℕ → List ℕ → Director → Director
index_channels s [] d = d
index_channels s (c ∷ cs) d = index_channels s cs (index_channel s c d)

abbrev pub index_ranges : ℕ → List (ℕ × ℕ) → Director → Director
index_ranges s [] d = d
index_ranges s (r ∷ rs) d = index_ranges s rs (index_buckets s (buckets r) d)

-- `*_localChannels.begin()` and `_localRanges.back()` of what is not empty.
abbrev pub begin : List ℕ → ℕ
begin [] = 0
begin (c ∷ cs) = c

abbrev pub back : ℕ × ℕ → List (ℕ × ℕ) → ℕ × ℕ
back r [] = r
back r (q ∷ qs) = back q qs

-- ChannelSubscriber::WithinLocalRange
abbrev pub within_local_range : ℕ → List (ℕ × ℕ) → Bool
within_local_range channel [] = false
within_local_range channel ((min, max) ∷ rs) =
    (leb min channel && leb channel max) || within_local_range channel rs
