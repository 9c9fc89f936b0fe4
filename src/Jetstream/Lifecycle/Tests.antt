-- ===== src/Jetstream/Lifecycle/Tests.antt =====
-- Lives of a consumer at fixed inputs.
use atproto_push_gateway.Base.{
  ◌*◌, ◌^◌, ℕ, suc, length, ◌≡◌, ◌≤◌, ◌<◌, ◌⊎◌, refl, Text, true, false, ltb, lit, digits_onto,
}
use atproto_push_gateway.Jetstream.Stream.{second}
use atproto_push_gateway.Jetstream.Lifecycle.{
  looping, pausing, stopped, Runner, look, close, connect_url, after_dial, token_registered, start,
  go_on, dial, progress, fail, wake, Steps, none_yet, one_more, new_runner,
}
use atproto_push_gateway.Jetstream.Lifecycle.Signals.{times, fresh, notify_token_registered_at_once}
use atproto_push_gateway.Jetstream.Lifecycle.Stopping.{rank, stopping_returns}
use atproto_push_gateway.Jetstream.Lifecycle.Backoff.{pausing_grows}

resumed :
    connect_url (lit "wss://j/s") 25
    ≡ lit
        "wss://j/s?compress=true&wantedCollections=app.bsky.feed.like&wantedCollections=app.bsky.feed.repost&wantedCollections=app.bsky.feed.post&wantedCollections=app.bsky.graph.follow&wantedCollections=app.bsky.graph.block&wantedCollections=app.bsky.graph.verification&cursor=25"
unfolding connect_url digits_onto
resumed = refl

notify_token_registered_at_once_example :
    (times 2 close (times 2 look (fresh false))).panicked ≡ ltb 1 2
notify_token_registered_at_once_example = notify_token_registered_at_once 2

abbrev url : Text
url = lit "wss://j/s"

-- A first token, and a connection that fails.
abbrev one_try : Runner
one_try = record (after_dial url second (record (new_runner false) { started = true })) {
  phase = pausing second;
  last_cursor = 7;
}

one_try-Steps : Steps url (new_runner false) one_try
unfolding after_dial
one_try-Steps =
    one_more
      (one_more
        (one_more
          (one_more (one_more (one_more none_yet token_registered) (start refl refl))
            (go_on second refl refl))
          (dial second refl))
        (progress second 7 refl))
      (fail second refl)

abbrev stopping : Runner
stopping = record one_try { stopping = true }

abbrev woken : Runner
woken = record stopping { phase = looping 2000 }

stopping_returns_example :
    ((woken.phase ≡ stopping.phase) ⊎ (rank woken.phase < rank stopping.phase))
    × (rank stopping.phase ≤ 4)
    × ((u : Runner) × Steps url woken u × (u.phase ≡ stopped))
stopping_returns_example = stopping_returns url stopping woken refl (wake second refl)

pausing_grows_example :
    (n : ℕ) × (length one_try.dialled ≡ suc n)
    × (((n < 6) × (second ≡ 2 ^ n * 1000)) ⊎ ((6 ≤ n) × (second ≡ 60000)))
unfolding after_dial
pausing_grows_example = pausing_grows url false one_try second one_try-Steps refl refl
