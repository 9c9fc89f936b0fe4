-- ===== src/Push.antt =====
-- internal/push: the notification that the relay and the consumer hand over, the answer of a
-- sender, and the HTTP exchange with a provider. What the client and the provider do is a
-- function from the request to the response, none where the exchange fails or the request cannot
-- be made.
pub mod Expo
pub mod Fcm
pub mod Apns
pub mod Multi
pub mod Gone
mod Tests
use atproto_push_gateway.Base.{ℕ, Text, Bool, Map, List, Option}

pub record Notification : Type 0 where
  pub token : Text
  pub platform : Text
  pub title : Text
  pub body : Text
  pub fields : Map Text

-- The error of Send: none, one that wraps ErrTokenInvalid, or another one.
pub data SendResult : Type 0 where
  sent token_invalid failed : SendResult

pub record ExpoMessage : Type 0 where
  pub to : Text
  pub title : Text
  pub body : Text
  pub fields : Map Text
  pub sound : Text
  pub mutable_content : Bool

pub record FcmNotification : Type 0 where
  pub title : Text
  pub body : Text

-- The fields of fcmMessage, with the channel of its Android notification.
pub record FcmMessage : Type 0 where
  pub token : Text
  pub notification : Option FcmNotification
  pub fields : Map Text
  pub priority : Text
  pub android_channel : Option Text

pub record ApnsPayload : Type 0 where
  pub title : Text
  pub body : Text
  pub sound : Text
  pub mutable_content : ℕ
  pub fields : Map Text

pub data Payload : Type 0 where
  expo : ExpoMessage → Payload
  fcm : FcmMessage → Payload
  apns : ApnsPayload → Payload

pub record HttpRequest : Type 0 where
  pub url : Text
  pub headers : Map Text
  pub payload : Payload

-- The status, and the error word that the body gives: `error.status` of FCM or `reason` of APNs,
-- "" if there is none.
pub record HttpResponse : Type 0 where
  pub status : ℕ
  pub reason : Text

abbrev pub Http : Type 0
Http = HttpRequest → Option HttpResponse
