-- ===== src/Server/Senders.antt =====
-- main.go: the senders that the environment configures.
use atproto_push_gateway.Base.{
  ◌==◌, Text, Bytes, not, ◌&&◌, [], Option, none, some, lit, if◌then◌else◌, Result, ok, err, ◌>>=◌,
}
use atproto_push_gateway.Push.Apns.{ApnsSender, new_apns_sender_from_bytes}
use atproto_push_gateway.Push.Fcm.{FcmSender, new_fcm_sender_from_bytes, set_data_only}
use atproto_push_gateway.Push.Multi.{MultiSender, new_multi_sender}
use atproto_push_gateway.Server.{
  Platform, Fatal, bad_apns_base64, bad_apns_sender, bad_fcm_base64, bad_fcm_sender, get_env,
  is_true,
}

unfoldable pub or_fatal {ℓ} : {A : Type ℓ} → Fatal → Option A → Result Fatal A
or_fatal e none = err e
or_fatal e (some a) = ok a

module _ (p : Platform) where
  -- The standard alphabet with padding, and then without.
  unfoldable pub decode_base64 : Text → Option Bytes
  decode_base64 s = elim (p.decode_std s) [ some bytes ↦ some bytes | none ↦ p.decode_raw_std s ]

  unfoldable pub apns_of : (key : Option Bytes) → Result Fatal (Option ApnsSender)
  unfolding or_fatal
  apns_of key = do
    bytes ← or_fatal bad_apns_sender key
    apns ← or_fatal bad_apns_sender (
        new_apns_sender_from_bytes p.is_ecdsa_key bytes (get_env p (lit "APNS_TOPIC") [])
          (is_true p (lit "APNS_SANDBOX") []))
    ok (some apns)

  unfoldable pub configure_apns : Result Fatal (Option ApnsSender)
  unfolding apns_of decode_base64
  configure_apns =
      let base64 = get_env p (lit "APNS_KEY_BASE64") [] in
      let path = get_env p (lit "APNS_KEY_PATH") [] in
      if not (get_env p (lit "APNS_KEY_ID") [] == [])
        && not (get_env p (lit "APNS_TEAM_ID") [] == [])
        && not (get_env p (lit "APNS_TOPIC") [] == [])
      then (if not (base64 == [])
          then (or_fatal bad_apns_base64 (decode_base64 base64) >>= λ key. apns_of (some key))
          else if not (path == [])
          then apns_of (p.read_file path)
          else ok none)
      else ok none

  unfoldable pub fcm_of : (account : Option Bytes) → Result Fatal (Option FcmSender)
  unfolding or_fatal
  fcm_of account = do
    bytes ← or_fatal bad_fcm_sender account
    fcm ← or_fatal bad_fcm_sender (new_fcm_sender_from_bytes p.project_id p.has_credentials bytes)
    ok (some (set_data_only (is_true p (lit "FCM_DATA_ONLY") []) fcm))

  unfoldable pub configure_fcm : Result Fatal (Option FcmSender)
  unfolding fcm_of decode_base64
  configure_fcm =
      let base64 = get_env p (lit "FCM_SERVICE_ACCOUNT_BASE64") [] in
      let path = get_env p (lit "FCM_SERVICE_ACCOUNT_PATH") [] in
      if not (base64 == [])
      then (or_fatal bad_fcm_base64 (decode_base64 base64) >>= λ account. fcm_of (some account))
      else if not (path == [])
      then fcm_of (p.read_file path)
      else ok none

  unfoldable pub configure_sender : Result Fatal MultiSender
  unfolding configure_apns configure_fcm
  configure_sender = do
    apns ← configure_apns
    fcm ← configure_fcm
    ok (record (new_multi_sender (get_env p (lit "EXPO_PUSH_ACCESS_TOKEN") [])) {
      apns = apns;
      fcm = fcm;
    })
