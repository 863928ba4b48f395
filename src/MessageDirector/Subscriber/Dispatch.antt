-- ===== src/MessageDirector/Subscriber/Dispatch.antt =====
-- Whom DeliverLocally and the consumer hand a datagram to, after any history of the subscribers.
use ardos.Prelude.{
  ℕ, ◌≡◌, inl, inr, refl, sym, ap, ◌∙◌, Bool, true, false, ◌&&◌, ◌||◌, List, [], ◌∷◌, length, arith,
  ◌==◌, Bool-cases,
}
use ardos.Prelude.Sets.{mem, mem-insert_all, mem-remove}
use ardos.MessageDirector.Subscriber.{
  Director, Subscriber, fresh, bucket_of, buckets, mem_range, erase_range, interested,
  within_range_of, within_local_range, release_buckets, drop_range, unsubscribe_range, shutdown,
  Event, run,
}
use ardos.MessageDirector.Subscriber.Ranges.{covers-within}
use ardos.MessageDirector.Subscriber.Views.{release_buckets-Untouched}
use ardos.MessageDirector.Subscriber.Life.{shutdown-IsGone}
use ardos.MessageDirector.Subscriber.History.{
  all_apart, run-Indexes, run-InAllBuckets, fresh-Indexes,
}

mem-within_range_of :
    (s c : ℕ) (locals : ℕ → Subscriber) (ss : List ℕ)
    → mem s (within_range_of c locals ss) ≡ mem s ss && within_local_range c (locals s).local_ranges
mem-within_range_of s c locals [] = refl
mem-within_range_of s c locals (t ∷ ss) = elim (Bool-cases (s == t)) [
  | inl e ↦
      let eq : s ≡ t = ground arith in
      rw (sym eq) (ground (arith, mem-within_range_of s c locals ss))
  | inr e ↦ ground (arith, mem-within_range_of s c locals ss)
]

mem-interested :
    (s c : ℕ) (d : Director)
    → mem s (interested c d)
      ≡ (mem s (d.bucket_index (bucket_of c)) && within_local_range c (d.locals s).local_ranges)
        || mem s (d.channel_index c)
unfolding interested
mem-interested s c d =
    mem-insert_all s (within_range_of c d.locals (d.bucket_index (bucket_of c))) (d.channel_index c)
    ∙ rw (mem-within_range_of s c d.locals (d.bucket_index (bucket_of c))) refl

-- Whether a subscriber asked for a channel, by itself or in a range.
abbrev pub wants : ℕ → Subscriber → Bool
wants c l = l.shared && (mem c l.local_channels || within_local_range c l.local_ranges)

-- After any history in which this subscriber never gives up a range while it keeps another one in
-- the same buckets, a datagram for a channel goes to it just when it has been initialised and has
-- the channel, by itself or in one of its ranges.
pub interested-run :
    (s c : ℕ) (es : List Event)
    → all_apart s fresh es ≡ true
    → let d = run fresh es in mem s (interested c d) ≡ wants c (d.locals s)
interested-run s c es alone =
    let d = run fresh es in
    let all = run-InAllBuckets s fresh es alone (fresh-Indexes s) (λ _. refl) (bucket_of c) in
    let chan = (run-Indexes s fresh es (fresh-Indexes s)).channels c in
    mem-interested s c d ∙ elim (Bool-cases (within_local_range c (d.locals s).local_ranges)) [
      | inl e ↦ ground (arith, all, chan, covers-within c (d.locals s).local_ranges e)
      | inr e ↦ ground (arith, chan)
    ]

-- After any history, a datagram for a channel goes to no subscriber that did not ask for it.
pub wants-interested :
    (s c : ℕ) (es : List Event)
    → mem s (interested c (run fresh es)) ≡ true
    → wants c ((run fresh es).locals s) ≡ true
wants-interested s c es h =
    let i = run-Indexes s fresh es (fresh-Indexes s) in
    ground (arith, mem-interested s c (run fresh es), i.channels c, i.some_buckets (bucket_of c))

-- After any history and its Shutdown, a subscriber has no channel and no range left, and no datagram
-- goes to it.
pub interested-shutdown :
    (s c : ℕ) (es : List Event)
    → let d = shutdown s (run fresh es) in
      (mem s (interested c d) ≡ false)
      × (length (d.locals s).local_channels ≡ 0)
      × (length (d.locals s).local_ranges ≡ 0)
interested-shutdown s c es =
    let i = run-Indexes s fresh es (fresh-Indexes s) in
    let g = shutdown-IsGone s (run fresh es) i.channels i.some_buckets in
    (
      ground (
        arith,
        mem-interested s c (shutdown s (run fresh es)),
        g.channels c,
        g.in_buckets (bucket_of c),
      ),
      g.no_channels,
      g.no_ranges,
    )

drop_range-local :
    (s : ℕ) (r : ℕ × ℕ) (d : Director)
    → (drop_range s r d).locals s
      ≡ record (d.locals s) { local_ranges = erase_range r (d.locals s).local_ranges }
drop_range-local s r d = ground arith

-- When a subscriber gives up one of two ranges in the same bucket, a channel of that bucket that it
-- has only in the other one is still within its ranges, but its datagrams do not go to it any more.
pub interested-unsubscribe_range :
    (s c : ℕ) (r : ℕ × ℕ) (es : List Event)
    → mem_range r ((run fresh es).locals s).local_ranges ≡ true
    → mem (bucket_of c) (buckets r) ≡ true
    → within_local_range c (erase_range r ((run fresh es).locals s).local_ranges) ≡ true
    → mem c ((run fresh es).locals s).local_channels ≡ false
    → let d = unsubscribe_range s r (run fresh es) in
      (within_local_range c (d.locals s).local_ranges ≡ true) × (mem s (interested c d) ≡ false)
unfolding unsubscribe_range
interested-unsubscribe_range s c r es had inside still absent =
    let d = run fresh es in
    let e = drop_range s r d in
    let u = release_buckets-Untouched s (buckets r) e in
    let i = run-Indexes s fresh es (fresh-Indexes s) in
    rw had (
      ap (λ (l : Subscriber). within_local_range c l.local_ranges)
            (u.local ∙ drop_range-local s r d)
          ∙ still,
      ground (
        arith,
        mem-interested s c (release_buckets (buckets r) e),
        u.buckets (bucket_of c),
        u.channels c,
        i.channels c,
        mem-remove s s (d.bucket_index (bucket_of c)),
      ),
    )
