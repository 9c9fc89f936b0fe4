-- ===== src/Server/Shutdown.antt =====
-- main.go: from the signal to the end of main, beside the requests and the consumer. Shutdown of
-- net/http closes the listeners and returns when no request is active or when its time is over.
pub mod Ordered
use atproto_push_gateway.Base.{ℕ, suc, ◌+◌, ◌≡◌, Text, Bytes, Bool, true, false, Option}
use atproto_push_gateway.Jetstream.Stream.{JetstreamEvent}
use atproto_push_gateway.Jetstream.System
use atproto_push_gateway.Jetstream.System.{System}

-- Where main is: before the signal, in Shutdown, before Close, at its end.
pub data Stage : Type 0 where
  serving shutting_down closing ended : Stage

-- The server with its open listeners and active requests, whether the ten seconds of Shutdown ran
-- out, whether the store is open, and the consumer.
pub record Running : Type 0 where
  pub stage : Stage
  pub listening : Bool
  pub active : ℕ
  pub timed_out : Bool
  pub store_open : Bool
  pub consumer : System

-- The server as it starts to listen.
unfoldable pub listen : System → Running
listen consumer = record {
  stage = serving;
  listening = true;
  active = 0;
  timed_out = false;
  store_open = true;
  consumer = consumer;
}

-- consumer.Stop()
abbrev pub stop_consumer : System → System
stop_consumer s = record s { stopping = true }

module _ (decode : Bytes → Option JetstreamEvent) (url : Text) where
  -- A step of main, of a request, or of the consumer, which main does not wait for.
  pub data Step : Running → Running → Type 0 where
    signal :
        {r : Running}
        → r.stage ≡ serving
        → Step r (record r { stage = shutting_down; consumer = stop_consumer r.consumer })
    close_listeners :
        {r : Running} → r.stage ≡ shutting_down → Step r (record r { listening = false })
    drained :
        {r : Running}
        → r.stage ≡ shutting_down
        → r.listening ≡ false
        → r.active ≡ 0
        → Step r (record r { stage = closing })
    times_out :
        {r : Running}
        → r.stage ≡ shutting_down
        → r.listening ≡ false
        → Step r (record r { stage = closing; timed_out = true })
    close_store :
        {r : Running} → r.stage ≡ closing → Step r (record r { stage = ended; store_open = false })
    accept : {r : Running} → r.listening ≡ true → Step r (record r { active = r.active + 1 })
    answer :
        {r : Running} (others : ℕ) → r.active ≡ suc others → Step r (record r { active = others })
    consume :
        {r : Running} (t : System)
        → System.Step decode url r.consumer t
        → Step r (record r { consumer = t })

  pub data Steps : Running → Running → Type 0 where
    none_yet : {r : Running} → Steps r r
    one_more : {r s t : Running} → Steps r s → Step s t → Steps r t
