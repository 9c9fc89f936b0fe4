-- ===== src/Jetstream/Notify/Permitted.antt =====
-- Who is notified, and how the counters follow.
use mathlib.Core.List.{append_assoc, append-nil}
use atproto_push_gateway.Base.{
  ◌+◌, ◌≡◌, ◌≢◌, refl, sym, ◌∙◌, ◌==◌, Text, false, List, [], ◌∷◌, ◌++◌, some, lit, All, All-append,
  length, length-append, lookup, arith, ◌⊎◌, inl, inr, Result, ok, err, Bool-cases,
}
use atproto_push_gateway.Store.{Store, PushToken, Error}
use atproto_push_gateway.Store.Tokens.{is_registered, get_tokens_for_did, unregister_token}
use atproto_push_gateway.Store.Blocks.{is_blocked, has_block}
use atproto_push_gateway.Push.{Notification, SendResult, sent, token_invalid, failed}
use atproto_push_gateway.Jetstream.{Consumer, Outside}
use atproto_push_gateway.Jetstream.Notify.{
  Event, notification_for, after_send, send_each, send_notification,
}

-- From one state to a later one: the blocks are the same, more notifications were handed over, all
-- with the property, and each counts as a push that was sent or one that failed.
pub record Sends (P : Notification → Type 0) (c d : Consumer) : Type 0 where
  pub blocks : d.store.blocks ≡ c.store.blocks
  pub new : List Notification
  pub appended : d.handed ≡ c.handed ++ new
  pub all : All P new
  pub counted : d.pushes_sent + d.push_errors ≡ c.pushes_sent + c.push_errors + length new

module _ (P : Notification → Type 0) where
  pub Sends-refl :
      (c d : Consumer)
      → d.store.blocks ≡ c.store.blocks
      → d.handed ≡ c.handed
      → d.pushes_sent ≡ c.pushes_sent
      → d.push_errors ≡ c.push_errors
      → Sends P c d
  Sends-refl c d blocks handed pushes errors = record {
    blocks = blocks;
    new = [];
    appended = handed ∙ sym (append-nil c.handed);
    all = tt;
    counted = omega arith;
  }

  pub Sends-trans : {c d e : Consumer} → Sends P c d → Sends P d e → Sends P c e
  Sends-trans {c} s t = record {
    blocks = t.blocks ∙ s.blocks;
    new = s.new ++ t.new;
    appended = rw (t.appended, s.appended) (append_assoc c.handed s.new t.new);
    all = All-append P s.new t.new s.all t.all;
    counted = omega (arith, s.counted, t.counted, length-append s.new t.new);
  }

  module _ (o : Outside) (e : Event) (each : (t : PushToken) → P (notification_for o e t)) where
    after_send-Sends :
        (t : PushToken) (result : SendResult) (c : Consumer)
        → Sends P c
            (after_send o t result (record c { handed = c.handed ++ notification_for o e t ∷ [] }))
    unfolding after_send unregister_token
    after_send-Sends t sent c = record {
      blocks = refl;
      new = notification_for o e t ∷ [];
      appended = refl;
      all = (each t, tt);
      counted = omega arith;
    }
    after_send-Sends t token_invalid c = record {
      blocks = ground arith;
      new = notification_for o e t ∷ [];
      appended = refl;
      all = (each t, tt);
      counted = omega arith;
    }
    after_send-Sends t failed c = record {
      blocks = refl;
      new = notification_for o e t ∷ [];
      appended = refl;
      all = (each t, tt);
      counted = omega arith;
    }

    pub send_each-Sends :
        (tokens : List PushToken) (c : Consumer) → Sends P c (send_each o e tokens c)
    unfolding send_each
    send_each-Sends [] c = Sends-refl c c refl refl refl refl
    send_each-Sends (t ∷ tokens) c =
        Sends-trans (after_send-Sends t (o.send (notification_for o e t)) c)
          (send_each-Sends tokens _)

-- A notification for an actor, against the blocks of a store: its fields name the actor and a
-- recipient who is not blocked in either direction, and who is not the actor unless the
-- notification is about a verification.
abbrev pub IsPermitted : Store → Text → Notification → Type 0
IsPermitted s actor n =
    (target : Text) × (lookup (lit "recipientDid") n.fields ≡ some target)
    × (lookup (lit "actorDid") n.fields ≡ some actor)
    × (is_blocked s actor target ≡ false)
    × ((target ≢ actor)
        ⊎ (lookup (lit "reason") n.fields ≡ some (lit "verified"))
        ⊎ (lookup (lit "reason") n.fields ≡ some (lit "unverified")))

-- What an event must meet.
abbrev pub IsProper : Text → Event → Type 0
IsProper actor e =
    (e.actor_did ≡ actor)
    × ((e.target_did ≢ actor) ⊎ (e.reason ≡ lit "verified") ⊎ (e.reason ≡ lit "unverified"))

notification_for-fields :
    (o : Outside) (e : Event) (t : PushToken)
    → (lookup (lit "recipientDid") (notification_for o e t).fields ≡ some e.target_did)
      × (lookup (lit "actorDid") (notification_for o e t).fields ≡ some e.actor_did)
      × (lookup (lit "reason") (notification_for o e t).fields ≡ some e.reason)
unfolding notification_for lookup ◌==◌
notification_for-fields o e t = (refl, refl, refl)

same_blocks : (s t : Store) (a b : Text) → t.blocks ≡ s.blocks → is_blocked t a b ≡ is_blocked s a b
unfolding is_blocked has_block
same_blocks s t a b h = ground arith

module _ (o : Outside) (s : Store) (actor : Text) (e : Event) (c : Consumer) where
  send_tokens-Sends :
      ((t : PushToken) → IsPermitted s actor (notification_for o e t))
      → (r : Result Error (List PushToken))
      → Sends (IsPermitted s actor) c (elim r [
        | err _ ↦ c
        | ok tokens ↦ send_each o e tokens (record c { matched_events = c.matched_events + 1 })
      ])
  send_tokens-Sends each (err _) = Sends-refl (IsPermitted s actor) c c refl refl refl refl
  send_tokens-Sends each (ok tokens) =
      let sends =
        send_each-Sends (IsPermitted s actor) o e each tokens
          (record c { matched_events = c.matched_events + 1 }) in
      record {
        blocks = sends.blocks;
        new = sends.new;
        appended = sends.appended;
        all = sends.all;
        counted = sends.counted;
      }

  each-IsPermitted :
      c.store.blocks ≡ s.blocks
      → IsProper actor e
      → is_blocked c.store e.actor_did e.target_did ≡ false
      → (t : PushToken) → IsPermitted s actor (notification_for o e t)
  each-IsPermitted blocks (is_actor, proper) free t =
      let (recipient, by, why) = notification_for-fields o e t in
      (
        e.target_did,
        recipient,
        rw (← is_actor) by,
        ground (arith, same_blocks c.store s e.actor_did e.target_did (sym blocks)),
        elim proper [
          | inl other ↦ inl other
          | inr (inl verified) ↦ inr (inl (rw (← verified) why))
          | inr (inr unverified) ↦ inr (inr (rw (← unverified) why))
        ],
      )

  pub send_notification-Sends :
      c.store.blocks ≡ s.blocks
      → IsProper actor e
      → Sends (IsPermitted s actor) c (send_notification o e c)
  unfolding send_notification
  send_notification-Sends blocks proper =
      let idle = Sends-refl (IsPermitted s actor) c c refl refl refl refl in
      elim (Bool-cases (is_registered c.store e.target_did)) [
        | inr unknown ↦ rw unknown idle
        | inl known ↦ elim (Bool-cases (is_blocked c.store e.actor_did e.target_did)) [
          | inl blocked ↦ rw (known, blocked) idle
          | inr free ↦
              rw (known, free)
                (send_tokens-Sends (each-IsPermitted blocks proper free)
                  (get_tokens_for_did o.db c.store e.target_did))
        ]
      ]
