-- ===== src/Jetstream/Lifecycle.antt =====
-- consumer.go: NewConsumer's channels, NotifyTokenRegistered, Stop and the loop of Run.
pub mod Signals
pub mod Dialled
pub mod Stopping
pub mod Backoff
mod Tests
use atproto_push_gateway.Base.{
  ℕ, zero, suc, ◌+◌, ◌*◌, ◌≡◌, Text, Bool, true, false, List, [], ◌∷◌, ◌++◌, lit, ltb,
  if◌then◌else◌, decimal,
}
use atproto_push_gateway.Jetstream.Stream.{second, max_backoff}

-- startCh: whether it is closed, whether a close of it has panicked, and how many calls of
-- NotifyTokenRegistered found it open and have still to close it.
pub record Signal : Type 0 where
  pub closed : Bool
  pub panicked : Bool
  pub closers : ℕ

-- The select of NotifyTokenRegistered.
unfoldable pub look : Signal → Signal
look s = if s.closed then s else record s { closers = s.closers + 1 }

-- The close, by one of the calls that have still to do it.
unfoldable pub close : Signal → Signal
close s = elim s.closers [
  | zero ↦ s
  | suc others ↦
      if s.closed
      then record s { panicked = true; closers = others }
      else record s { closed = true; closers = others }
]

unfoldable pub notify_token_registered : Signal → Signal
unfolding look close
notify_token_registered s = close (look s)

abbrev pub wanted_params : Text
wanted_params =
    lit "?compress=true"
    ++ (lit "&wantedCollections=app.bsky.feed.like"
        ++ (lit "&wantedCollections=app.bsky.feed.repost"
            ++ (lit "&wantedCollections=app.bsky.feed.post"
                ++ (lit "&wantedCollections=app.bsky.graph.follow"
                    ++ (lit "&wantedCollections=app.bsky.graph.block"
                        ++ lit "&wantedCollections=app.bsky.graph.verification")))))

unfoldable pub connect_url : (url : Text) → (cursor : ℕ) → Text
connect_url url cursor =
    if ltb 0 cursor
    then url ++ (wanted_params ++ (lit "&cursor=" ++ decimal cursor))
    else url ++ wanted_params

-- Where Run is: before the first token, at the head of its loop, about to dial, in connect, in
-- the pause after a connection, or returned.
pub data Phase : Type 0 where
  waiting stopped : Phase
  looping dialling connected pausing : (backoff : ℕ) → Phase

-- Run with the channels that it selects on, and the URLs that it has dialled, the last one first.
pub record Runner : Type 0 where
  pub phase : Phase
  pub started : Bool
  pub stopping : Bool
  pub last_cursor : ℕ
  pub dialled : List Text

abbrev pub doubled : ℕ → ℕ
doubled backoff = if ltb max_backoff (backoff * 2) then max_backoff else backoff * 2

-- The call of connect, with the cursor of the last event.
unfoldable pub after_dial : (url : Text) → (backoff : ℕ) → Runner → Runner
unfolding connect_url
after_dial url backoff r = record r {
  phase = connected backoff;
  dialled = connect_url url r.last_cursor ∷ r.dialled;
}

-- A step of Run, or of the calls that close its channels. Connect returns no error only where it
-- finds stopCh closed (finish); it fails as the connection, the decoder or a read does.
pub data Step (url : Text) : Runner → Runner → Type 0 where
  token_registered : {r : Runner} → Step url r (record r { started = true })
  stop : {r : Runner} → Step url r (record r { stopping = true })
  start :
      {r : Runner}
      → r.phase ≡ waiting
      → r.started ≡ true
      → Step url r (record r { phase = looping second })
  give_up :
      {r : Runner}
      → r.phase ≡ waiting
      → r.stopping ≡ true
      → Step url r (record r { phase = stopped })
  quit :
      {r : Runner} (backoff : ℕ)
      → r.phase ≡ looping backoff
      → r.stopping ≡ true
      → Step url r (record r { phase = stopped })
  go_on :
      {r : Runner} (backoff : ℕ)
      → r.phase ≡ looping backoff
      → r.stopping ≡ false
      → Step url r (record r { phase = dialling backoff })
  dial :
      {r : Runner} (backoff : ℕ)
      → r.phase ≡ dialling backoff
      → Step url r (after_dial url backoff r)
  progress :
      {r : Runner} (backoff cursor : ℕ)
      → r.phase ≡ connected backoff
      → Step url r (record r { last_cursor = cursor })
  fail :
      {r : Runner} (backoff : ℕ)
      → r.phase ≡ connected backoff
      → Step url r (record r { phase = pausing backoff })
  finish :
      {r : Runner} (backoff : ℕ)
      → r.phase ≡ connected backoff
      → r.stopping ≡ true
      → Step url r (record r { phase = pausing second })
  wake :
      {r : Runner} (backoff : ℕ)
      → r.phase ≡ pausing backoff
      → Step url r (record r { phase = looping (doubled backoff) })
  leave :
      {r : Runner} (backoff : ℕ)
      → r.phase ≡ pausing backoff
      → r.stopping ≡ true
      → Step url r (record r { phase = stopped })

-- Any number of steps.
pub data Steps (url : Text) : Runner → Runner → Type 0 where
  none_yet : {r : Runner} → Steps url r r
  one_more : {r s t : Runner} → Steps url r s → Step url s t → Steps url r t

-- A consumer at the start of Run; `started` is whether the store has registered DIDs.
abbrev pub new_runner : (started : Bool) → Runner
new_runner started = record {
  phase = waiting;
  started = started;
  stopping = false;
  last_cursor = 0;
  dialled = [];
}
