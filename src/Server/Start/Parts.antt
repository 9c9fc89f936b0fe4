-- ===== src/Server/Start/Parts.antt =====
-- What a gateway that started is made of.
use atproto_push_gateway.Base.{
  ◌≡◌, sym, ap, ◌∙◌, Text, Bytes, Option, some, [], ◌==◌, ok_injective, lit, ok, bind_ok, arith,
  Bool-cases, inl, inr,
}
use atproto_push_gateway.Store.{Store, Db}
use atproto_push_gateway.Push.Fcm.{FcmSender, new_fcm_sender_from_bytes, set_data_only}
use atproto_push_gateway.Push.Multi.{MultiSender}
use atproto_push_gateway.Relay
use atproto_push_gateway.Server.{Platform, bad_fcm_base64, bad_fcm_sender, get_env, is_true}
use atproto_push_gateway.Server.Senders.{
  or_fatal, decode_base64, fcm_of, configure_apns, configure_fcm, configure_sender,
}
use atproto_push_gateway.Server.Start.{
  Settings, Gateway, read_settings, read_service_did, open_store, start_relay, assemble, start,
}

module _ (p : Platform) where
  pub record IsStarted (db : Db) (file : Text → Store) (g : Gateway) : Type 0 where
    pub service_did : Text
    pub settings : Settings
    pub store : Store
    pub sender : MultiSender
    pub relay : Option (Relay.Handler Store)
    pub named : read_service_did p ≡ ok service_did
    pub limited : read_settings p ≡ ok settings
    pub opened : open_store p db file ≡ ok store
    pub configured : configure_sender p ≡ ok sender
    pub relayed : start_relay p store service_did ≡ ok relay
    pub assembled : g ≡ assemble p store service_did settings sender relay

  pub start-IsStarted :
      (db : Db) (file : Text → Store) (g : Gateway) → start p db file ≡ ok g → IsStarted db file g
  unfolding start
  start-IsStarted db file g h =
      let (service_did, named, h1) = bind_ok (read_service_did p) _ g h in
      let (settings, limited, h2) = bind_ok (read_settings p) _ g h1 in
      let (store, opened, h3) = bind_ok (open_store p db file) _ g h2 in
      let (sender, configured, h4) = bind_ok (configure_sender p) _ g h3 in
      let (relay, relayed, h5) = bind_ok (start_relay p store service_did) _ g h4 in
      record {
        service_did = service_did;
        settings = settings;
        store = store;
        sender = sender;
        relay = relay;
        named = named;
        limited = limited;
        opened = opened;
        configured = configured;
        relayed = relayed;
        assembled = sym (ok_injective _ g h5);
      }

  fcm_of-data_only :
      (account : Option Bytes) (f : FcmSender)
      → fcm_of p account ≡ ok (some f)
      → f.data_only ≡ is_true p (lit "FCM_DATA_ONLY") []
  unfolding fcm_of set_data_only
  fcm_of-data_only account f h =
      let (bytes, _, made) = bind_ok (or_fatal bad_fcm_sender account) _ (some f) h in
      let (g, _, done) =
        bind_ok
          (or_fatal bad_fcm_sender (new_fcm_sender_from_bytes p.project_id p.has_credentials bytes))
          _ (some f) made in
      ground (arith, done)

  configure_fcm-data_only :
      (f : FcmSender)
      → configure_fcm p ≡ ok (some f)
      → f.data_only ≡ is_true p (lit "FCM_DATA_ONLY") []
  unfolding configure_fcm
  configure_fcm-data_only f h =
      elim (Bool-cases (get_env p (lit "FCM_SERVICE_ACCOUNT_BASE64") [] == [])) [
        | inr set ↦
            (let (account, _, made) =
                bind_ok
                  (or_fatal bad_fcm_base64
                    (decode_base64 p (get_env p (lit "FCM_SERVICE_ACCOUNT_BASE64") [])))
                  (λ account. fcm_of p (some account)) (some f) (ground (arith, h, set)) in
              fcm_of-data_only (some account) f made)
        | inl unset ↦ elim (Bool-cases (get_env p (lit "FCM_SERVICE_ACCOUNT_PATH") [] == [])) [
          | inr path ↦
              fcm_of-data_only (p.read_file (get_env p (lit "FCM_SERVICE_ACCOUNT_PATH") [])) f
                (ground (arith, h, unset, path))
          | inl neither ↦ absurd (ground (arith, h, unset, neither))
        ]
      ]

  -- The sender that is configured takes its setting from FCM_DATA_ONLY.
  pub configure_sender-data_only :
      (m : MultiSender) (f : FcmSender)
      → configure_sender p ≡ ok m
      → m.fcm ≡ some f
      → f.data_only ≡ is_true p (lit "FCM_DATA_ONLY") []
  unfolding configure_sender
  configure_sender-data_only m f made has =
      let (apns, _, m1) = bind_ok (configure_apns p) _ m made in
      let (fcm, configured, m2) = bind_ok (configure_fcm p) _ m m1 in
      let same : fcm ≡ some f = ap (λ x. x.fcm) (ok_injective _ m m2) ∙ has in
      configure_fcm-data_only f (rw (← same) configured)
