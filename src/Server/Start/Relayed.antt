-- ===== src/Server/Start/Relayed.antt =====
-- What the relay's requirement of FCM_DATA_ONLY gives: the relay's notifications as FCM gets them.
use atproto_push_gateway.Base.{
  ◌≡◌, refl, ap, sym, ◌∙◌, ◌==◌, Text, Bytes, true, false, [], none, some, lit, ok, arith, lookup,
  insert,
}
use atproto_push_gateway.Store.{Store, Db, WebPushEndpoint}
use atproto_push_gateway.Push.{Notification, FcmMessage}
use atproto_push_gateway.Push.Fcm.{FcmSender, fcm_message, fcm_send}
use atproto_push_gateway.Push.Multi.{is_expo_token, multi_send, send_android}
use atproto_push_gateway.Push.Multi
use atproto_push_gateway.Relay
use atproto_push_gateway.Relay.Delivery.{relayed}
use atproto_push_gateway.Server.{Platform, is_true}
use atproto_push_gateway.Server.Start.{Gateway, start_relay, assemble, start}
use atproto_push_gateway.Server.Start.Parts.{start-IsStarted, configure_sender-data_only}

-- A message that the system renders nothing of, with the ciphertext among its data.
pub record IsDataMessage (ciphertext : Text) (m : FcmMessage) : Type 0 where
  pub unrendered : m.notification ≡ none
  pub no_channel : m.android_channel ≡ none
  pub carried : lookup (lit "m") m.fields ≡ some ciphertext
  pub marked : lookup (lit "source") m.fields ≡ some (lit "webpush")

relayed-IsDataMessage :
    (o : Relay.Outside) (e : WebPushEndpoint) (body : Bytes) (f : FcmSender)
    → f.data_only ≡ true
    → IsDataMessage (o.encode body) (fcm_message f (relayed o e body))
unfolding fcm_message relayed lookup insert ◌==◌
relayed-IsDataMessage o e body f data_only = record {
  unrendered = rw data_only refl;
  no_channel = rw data_only refl;
  carried = rw data_only refl;
  marked = rw data_only refl;
}

multi_send-fcm :
    (out : Multi.Outside) (m : Multi.MultiSender) (f : FcmSender) (n : Notification)
    → n.platform ≡ lit "android"
    → is_expo_token n.token ≡ false
    → m.fcm ≡ some f
    → multi_send out m n ≡ (m, fcm_send out.http out.fcm_token f n)
unfolding multi_send send_android ◌==◌
multi_send-fcm out m f n android native fcm = ground (arith, android, native, fcm)

module _ (p : Platform) where
  relay_wants :
      (s : Store) (did : Text) (r : Relay.Handler Store)
      → start_relay p s did ≡ ok (some r)
      → is_true p (lit "FCM_DATA_ONLY") [] ≡ true
  unfolding start_relay
  relay_wants s did r h = ground (arith, h)

  -- Where the gateway starts with the relay and an FCM sender, what the relay hands over for an
  -- Android device with a native token goes to that FCM sender, as a message with the ciphertext
  -- among its data and nothing for the system to render.
  pub start_relays_data :
      (db : Db) (file : Text → Store) (g : Gateway) (r : Relay.Handler Store) (f : FcmSender)
      (out : Multi.Outside) (o : Relay.Outside) (e : WebPushEndpoint) (body : Bytes)
      → start p db file ≡ ok g
      → g.relay ≡ some r
      → g.sender.fcm ≡ some f
      → e.platform ≡ lit "android"
      → is_expo_token e.device_token ≡ false
      → (multi_send out g.sender (relayed o e body)
          ≡ (g.sender, fcm_send out.http out.fcm_token f (relayed o e body)))
        × IsDataMessage (o.encode body) (fcm_message f (relayed o e body))
  unfolding relayed assemble
  start_relays_data db file g r f out o e body started relay fcm android native =
      let parts = start-IsStarted p db file g started in
      let relay_on : parts.relay ≡ some r = sym (ap (λ x. x.relay) parts.assembled) ∙ relay in
      let has_fcm : parts.sender.fcm ≡ some f =
        sym (ap (λ x. x.sender.fcm) parts.assembled) ∙ fcm in
      let wanted = relay_wants parts.store parts.service_did r (parts.relayed ∙ ap ok relay_on) in
      let data_only =
        configure_sender-data_only p parts.sender f parts.configured has_fcm ∙ wanted in
      (
        multi_send-fcm out g.sender f (relayed o e body) android native fcm,
        relayed-IsDataMessage o e body f data_only,
      )
