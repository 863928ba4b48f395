-- ===== src/MessageDirector/RoutingKey.antt =====
-- The routing keys of src/messagedirector/channel_subscriber.cpp.
use ardos.Prelude.{
  ℕ, ◌^◌, ◌<◌, ◌≡◌, refl, sym, ap, ◌∙◌, List, [], ◌∷◌, ◌++◌, All, append_assoc, Option, none, some,
  ◌==◌, if◌then◌else◌, arith,
}
use ardos.Prelude.Decimal.{to_string, stoull, IsDigit, to_string-IsDigit, stoull-to_string}
use ardos.MessageDirector.Director.{bucket_of}

-- `"chan."` and `'.'`
abbrev pub chan : List ℕ
chan = 99 ∷ 104 ∷ 97 ∷ 110 ∷ 46 ∷ []

-- ChannelSubscriber::BuildChannelRoutingKey
unfoldable pub build_channel_routing_key : ℕ → List ℕ
unfolding to_string
build_channel_routing_key channel =
    chan ++ (to_string (bucket_of channel) ++ (46 ∷ to_string channel))

-- ChannelSubscriber::BuildBucketRoutingPattern
unfoldable pub build_bucket_routing_pattern : ℕ → List ℕ
unfolding to_string
build_bucket_routing_pattern bucket = chan ++ (to_string bucket ++ (46 ∷ 42 ∷ []))

-- The text behind `rfind('.')`, and whether there is one.
abbrev pub after_last_dot : List ℕ → Option (List ℕ)
after_last_dot [] = none
after_last_dot (x ∷ xs) = behind (after_last_dot xs)
  where
    behind : Option (List ℕ) → Option (List ℕ)
    behind none = if x == 46 then some xs else none
    behind (some rest) = some rest

abbrev channel_of : List ℕ → Option (List ℕ) → Option ℕ
channel_of key none = stoull key
channel_of key (some rest) = stoull rest

-- ChannelSubscriber::ChannelFromRoutingKey, none where it throws
unfoldable pub channel_from_routing_key : List ℕ → Option ℕ
channel_from_routing_key key = channel_of key (after_last_dot key)

no_dot : (xs : List ℕ) → All IsDigit xs → after_last_dot xs ≡ none
no_dot [] h = refl
no_dot (x ∷ xs) h = rw (no_dot xs h.1) (ground (arith, h.0))

last_dot : (xs ys : List ℕ) → All IsDigit ys → after_last_dot (xs ++ (46 ∷ ys)) ≡ some ys
last_dot [] ys h = rw (no_dot ys h) refl
last_dot (x ∷ xs) ys h = rw (last_dot xs ys h) refl

-- The channel of a routing key that was built for a uint64_t is that number.
pub channel_from_routing_key-build_channel_routing_key :
    (channel : ℕ)
    → channel < 2 ^ 64
    → channel_from_routing_key (build_channel_routing_key channel) ≡ some channel
unfolding channel_from_routing_key build_channel_routing_key
channel_from_routing_key-build_channel_routing_key channel h =
    ap (channel_of (build_channel_routing_key channel)) (
      ap after_last_dot
        (sym (append_assoc chan (to_string (bucket_of channel)) (46 ∷ to_string channel)))
      ∙ last_dot (chan ++ to_string (bucket_of channel)) (to_string channel)
          (to_string-IsDigit channel))
    ∙ stoull-to_string channel h
