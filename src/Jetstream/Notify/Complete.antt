-- ===== src/Jetstream/Notify/Complete.antt =====
-- Nobody who should be told is passed over.
use mathlib.Core.List
use mathlib.Core.List.{append_assoc, append-nil, Perm}
use atproto_push_gateway.Base.{
  ◌+◌, ◌≡◌, refl, sym, ap, Text, true, false, List, [], ◌∷◌, ◌++◌, map, keep,
}
use atproto_push_gateway.Store.{PushToken, select_tokens}
use atproto_push_gateway.Store.Rows.{IsWhole, order_by, read_rows_whole, order_by-Perm}
use atproto_push_gateway.Store.Tokens.{is_of, is_registered, get_tokens_for_did}
use atproto_push_gateway.Store.Blocks.{is_blocked}
use atproto_push_gateway.Push.{Notification, SendResult, sent, token_invalid, failed}
use atproto_push_gateway.Jetstream.{Consumer, Outside}
use atproto_push_gateway.Jetstream.Notify.{
  Event, notification_for, after_send, send_each, send_notification,
}

after_send-handed :
    (o : Outside) (t : PushToken) (result : SendResult) (c : Consumer)
    → (after_send o t result c).handed ≡ c.handed
unfolding after_send
after_send-handed o t sent c = refl
after_send-handed o t token_invalid c = refl
after_send-handed o t failed c = refl

send_each-handed :
    (o : Outside) (e : Event) (tokens : List PushToken) (c : Consumer)
    → (send_each o e tokens c).handed ≡ c.handed ++ map (notification_for o e) tokens
unfolding send_each
send_each-handed o e [] c = sym (append-nil c.handed)
send_each-handed o e (t ∷ tokens) c =
    let n = notification_for o e t in
    let c' : Consumer = record c { handed = c.handed ++ n ∷ [] } in
    rw
      (
        send_each-handed o e tokens (after_send o t (o.send n) c'),
        after_send-handed o t (o.send n) c',
      )
      (append_assoc c.handed (n ∷ []) (map (notification_for o e) tokens))

-- Where a notification goes.
abbrev pub address : Notification → Text × Text
address n = (n.token, n.platform)

-- The device of a row.
abbrev pub device : PushToken → Text × Text
device t = (t.push_token, t.platform)

address-notification_for :
    (o : Outside) (e : Event) (tokens : List PushToken)
    → map address (map (notification_for o e) tokens) ≡ map device tokens
unfolding notification_for
address-notification_for o e [] = refl
address-notification_for o e (t ∷ tokens) =
    ap (λ l. device t ∷ l) (address-notification_for o e tokens)

-- If the target is registered, neither party blocks the other and the tokens can be read to the
-- last row, sendNotification hands over, after what was handed over before, one notification to the
-- device token and the platform of each of the target's rows and no other, in some order, whatever
-- the sender answers on the way.
pub send_notification_tells :
    (o : Outside) (e : Event) (c : Consumer)
    → is_registered c.store e.target_did ≡ true
    → is_blocked c.store e.actor_did e.target_did ≡ false
    → o.db select_tokens ≡ true
    → IsWhole o.db select_tokens
    → (new : List Notification) × ((send_notification o e c).handed ≡ c.handed ++ new)
      × Perm (map address new) (map device (keep (is_of e.target_did) c.store.push_tokens))
unfolding send_notification get_tokens_for_did
send_notification_tells o e c known free up whole =
    let rows = keep (is_of e.target_did) c.store.push_tokens in
    let tokens = order_by (λ r. r.push_token) rows in
    (
      map (notification_for o e) tokens,
      rw (known, free, up, read_rows_whole o.db select_tokens 0 tokens whole)
          (send_each-handed o e tokens (record c { matched_events = c.matched_events + 1 })),
      rw (address-notification_for o e tokens)
          (List.Perm.map device (order_by-Perm (λ r. r.push_token) rows)),
    )
