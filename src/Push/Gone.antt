-- ===== src/Push/Gone.antt =====
-- When Send calls a token invalid.
use atproto_push_gateway.Base.{
  ℕ, ◌≡◌, ◌≢◌, refl, ◌==◌, eq_iff, Text, false, Option, none, some, lit, arith, ◌⊎◌, inl, inr,
  Option-cases, Bool-cases, nat_eq,
}
use atproto_push_gateway.Push.{Notification, token_invalid, HttpResponse, Http}
use atproto_push_gateway.Push.Expo.{ExpoPushSender, expo_request, expo_send}
use atproto_push_gateway.Push.Fcm.{FcmSender, fcm_request, fcm_send}
use atproto_push_gateway.Push.Apns.{ApnsSender, get_token, apns_request, apns_result, apns_send}
use atproto_push_gateway.Push.Multi.{
  MultiSender, Outside, is_expo_token, send_ios, send_android, multi_send,
}

-- APNs was asked about the notification's device, and said that it is gone.
pub record IsGoneApns (http : Http) (n : Notification) : Type 0 where
  pub sender : ApnsSender
  pub jwt : Text
  pub response : HttpResponse
  pub asked : http (apns_request sender jwt n) ≡ some response
  pub refused : nat_eq response.status 200 ≡ false
  pub gone :
      (response.status ≡ 410)
      ⊎ ((response.reason ≡ lit "Unregistered") ⊎ (response.reason ≡ lit "BadDeviceToken"))

-- FCM was, and said so.
pub record IsGoneFcm (http : Http) (sender : FcmSender) (n : Notification) : Type 0 where
  pub access_token : Text
  pub response : HttpResponse
  pub asked : http (fcm_request sender access_token n) ≡ some response
  pub refused : nat_eq response.status 200 ≡ false
  pub gone : (response.reason ≡ lit "UNREGISTERED") ⊎ (response.reason ≡ lit "NOT_FOUND")

expo_send-valid :
    (http : Http) (e : ExpoPushSender) (n : Notification) → expo_send http e n ≢ token_invalid
unfolding expo_send
expo_send-valid http e n invalid = elim (Option-cases (http (expo_request e n))) [
  | inl unanswered ↦ ground (arith, unanswered, invalid)
  | inr (response, answered) ↦ ground (arith, answered, invalid)
]

fcm_send-IsGoneFcm :
    (http : Http) (access_token : Option Text) (f : FcmSender) (n : Notification)
    → fcm_send http access_token f n ≡ token_invalid
    → IsGoneFcm http f n
unfolding fcm_send
fcm_send-IsGoneFcm http none f n invalid = absurd (ground (arith, invalid))
fcm_send-IsGoneFcm http (some access_token) f n invalid =
    elim (Option-cases (http (fcm_request f access_token n))) [
      | inl unanswered ↦ absurd (ground (arith, unanswered, invalid))
      | inr (response, answered) ↦ record {
        access_token = access_token;
        response = response;
        asked = answered;
        refused = ground (arith, answered, invalid);
        gone = ground (
          arith,
          answered,
          invalid,
          eq_iff response.reason (lit "UNREGISTERED"),
          eq_iff response.reason (lit "NOT_FOUND"),
        );
      }
    ]

apns_result-gone :
    (response : HttpResponse)
    → apns_result (some response) ≡ token_invalid
    → (nat_eq response.status 200 ≡ false)
      × ((response.status ≡ 410)
          ⊎ ((response.reason ≡ lit "Unregistered") ⊎ (response.reason ≡ lit "BadDeviceToken")))
unfolding apns_result
apns_result-gone response invalid = ground (
  arith,
  eq_iff response.reason (lit "Unregistered"),
  eq_iff response.reason (lit "BadDeviceToken"),
)

apns_send-IsGoneApns :
    (http : Http) (sign : ℕ → Option Text) (now : ℕ) (a : ApnsSender) (n : Notification)
    → (apns_send http sign now a n).1 ≡ token_invalid
    → IsGoneApns http n
unfolding apns_send
apns_send-IsGoneApns http sign now a n invalid = by_token (get_token sign now a).1 refl
  where
    by_token : (t : Option Text) → (get_token sign now a).1 ≡ t → IsGoneApns http n
    by_token none unsigned = absurd (ground (arith, unsigned, invalid))
    by_token (some t) signed =
        elim (Option-cases (http (apns_request (get_token sign now a).0 t n))) [
          | inl unanswered ↦ absurd (ground (arith, signed, unanswered, invalid))
          | inr (response, answered) ↦
              (let (refused, gone) =
                  apns_result-gone response (ground (arith, signed, answered, invalid)) in
                record {
                  sender = (get_token sign now a).0;
                  jwt = t;
                  response = response;
                  asked = answered;
                  refused = refused;
                  gone = gone;
                })
        ]

send_ios-gone :
    (o : Outside) (m : MultiSender) (n : Notification)
    → (send_ios o m n).1 ≡ token_invalid
    → (is_expo_token n.token ≡ false) × IsGoneApns o.http n
unfolding send_ios
send_ios-gone o m n invalid = elim (Bool-cases (is_expo_token n.token)) [
  | inl token ↦ absurd (expo_send-valid o.http m.expo n (ground (arith, token, invalid)))
  | inr native ↦ elim (Option-cases m.apns) [
    | inl unset ↦ absurd (ground (arith, native, unset, invalid))
    | inr (a, set) ↦ (
      native,
      apns_send-IsGoneApns o.http o.sign o.now a n (ground (arith, native, set, invalid)),
    )
  ]
]

send_android-gone :
    (o : Outside) (m : MultiSender) (n : Notification)
    → (send_android o m n).1 ≡ token_invalid
    → (is_expo_token n.token ≡ false) × ((f : FcmSender) × (m.fcm ≡ some f) × IsGoneFcm o.http f n)
unfolding send_android
send_android-gone o m n invalid = elim (Bool-cases (is_expo_token n.token)) [
  | inl token ↦ absurd (expo_send-valid o.http m.expo n (ground (arith, token, invalid)))
  | inr native ↦ elim (Option-cases m.fcm) [
    | inl unset ↦ absurd (ground (arith, native, unset, invalid))
    | inr (f, set) ↦ (
      native,
      (f, set, fcm_send-IsGoneFcm o.http o.fcm_token f n (ground (arith, native, set, invalid))),
    )
  ]
]

-- A token is called invalid only where it is a native one and APNs, asked about it, answered that
-- the device is gone, or FCM, asked by the sender that is configured, did.
pub multi_send-gone :
    (o : Outside) (m : MultiSender) (n : Notification)
    → (multi_send o m n).1 ≡ token_invalid
    → (is_expo_token n.token ≡ false)
      × (((n.platform ≡ lit "ios") × IsGoneApns o.http n)
          ⊎ ((n.platform ≡ lit "android")
              × ((f : FcmSender) × (m.fcm ≡ some f) × IsGoneFcm o.http f n)))
unfolding multi_send
multi_send-gone o m n invalid = elim (Bool-cases (n.platform == lit "ios")) [
  | inl ios ↦
      (let (native, gone) = send_ios-gone o m n (ground (arith, ios, invalid)) in
        (native, inl ((eq_iff n.platform (lit "ios")).0 ios, gone)))
  | inr other ↦ elim (Bool-cases (n.platform == lit "android")) [
    | inl android ↦
        (let (native, gone) = send_android-gone o m n (ground (arith, other, android, invalid)) in
          (native, inr ((eq_iff n.platform (lit "android")).0 android, gone)))
    | inr neither ↦ absurd (ground (arith, other, neither, invalid))
  ]
]
