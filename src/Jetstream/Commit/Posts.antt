-- ===== src/Jetstream/Commit/Posts.antt =====
-- The notifications of likes, reposts, posts and follows, each permitted.
use atproto_push_gateway.Base.{
  ◌≡◌, ◌≢◌, refl, ◌∙◌, ◌==◌, eq_iff, Text, Bytes, Bool, true, false, not, ◌&&◌, ◌||◌, List, [], ◌∷◌,
  Option, none, some, lit, arith, inl, inr, Bool-cases, if◌then◌else◌,
}
use atproto_push_gateway.Store.{Store}
use atproto_push_gateway.Jetstream.{Consumer, Outside, SubjectRecord, Feature}
use atproto_push_gateway.Jetstream.Notify.{Event, send_notification}
use atproto_push_gateway.Jetstream.Notify.Permitted.{
  Sends, Sends-refl, Sends-trans, IsPermitted, IsProper, send_notification-Sends,
}
use atproto_push_gateway.Jetstream.Commit.{
  extract_did_from_uri, subject_event, notify_via, notify_subject, handle_like, handle_repost,
  notify_author, quoted_uri, notify_mention, notify_features, notify_facets, notify_if, handle_post,
  account_event, handle_follow,
}

module _ (o : Outside) (actor : Text) (s : Store) where
  -- The state has the blocks of `s`, and what follows sends to permitted recipients only.
  abbrev pub Keeps : (Consumer → Consumer) → Type 0
  Keeps f = (c : Consumer) → c.store.blocks ≡ s.blocks → Sends (IsPermitted s actor) c (f c)

  pub idle : Keeps (λ c. c)
  idle c same = Sends-refl (IsPermitted s actor) c c refl refl refl refl

  Keeps-then : (f g : Consumer → Consumer) → Keeps f → Keeps g → Keeps (λ c. g (f c))
  Keeps-then f g h k c same =
      let first = h c same in
      Sends-trans (IsPermitted s actor) first (k (f c) (first.blocks ∙ same))

  Keeps-if :
      (b : Bool) (f : Consumer → Consumer)
      → (b ≡ true → Keeps f)
      → Keeps (λ c. if b then f c else c)
  Keeps-if true f h c same = h refl c same
  Keeps-if false f h c same = idle c same

  pub Keeps-send : (e : Event) → IsProper actor e → Keeps (send_notification o e)
  Keeps-send e proper c same = send_notification-Sends o s actor e c same proper

  other_of_test : (to : Text) → (to == actor) ≡ false → to ≢ actor
  other_of_test to h = λ e. ground (arith, eq_iff to actor)

  notify_via-Keeps :
      (target via_reason uri subject_uri : Text) (via : Option Text)
      → Keeps (notify_via o actor target via_reason uri subject_uri via)
  unfolding notify_via
  notify_via-Keeps target via_reason uri subject_uri none = idle
  notify_via-Keeps target via_reason uri subject_uri (some via) =
      let to = extract_did_from_uri via in
      Keeps-if (not (to == []) && not (to == actor) && not (to == target)) _
        (λ test. Keeps-send _ (refl, inl (other_of_test to (ground arith))))

  notify_subject-Keeps :
      (reason via_reason uri : Text) (r : SubjectRecord)
      → Keeps (notify_subject o actor reason via_reason uri r)
  unfolding notify_subject
  notify_subject-Keeps reason via_reason uri r c same =
      let to = extract_did_from_uri r.subject_uri in
      elim (Bool-cases (to == [] || to == actor)) [
        | inl nobody ↦ rw nobody (idle c same)
        | inr someone ↦ rw someone (
            Keeps-then (send_notification o (subject_event actor to reason uri r.subject_uri)) _
              (Keeps-send _ (refl, inl (other_of_test to (ground arith))))
              (notify_via-Keeps to via_reason uri r.subject_uri r.via_uri) c same)
      ]

  notify_author-Keeps :
      (rkey reason uri post_text : Text) → Keeps (notify_author o actor rkey reason uri post_text)
  unfolding notify_author
  notify_author-Keeps rkey reason uri post_text =
      let target = extract_did_from_uri uri in
      Keeps-if (not (target == []) && not (target == actor)) _
        (λ test. Keeps-send _ (refl, inl (other_of_test target (ground arith))))

  notify_mention-Keeps :
      (rkey post_text : Text) (f : Feature) → Keeps (notify_mention o actor rkey post_text f)
  unfolding notify_mention
  notify_mention-Keeps rkey post_text f =
      let test =
        f.feature_type == lit "app.bsky.richtext.facet#mention"
        && not (f.did == [])
        && not (f.did == actor) in
      Keeps-if test _ (λ h. Keeps-send _ (refl, inl (other_of_test f.did (ground arith))))

  notify_features-Keeps :
      (rkey post_text : Text) (fs : List Feature)
      → Keeps (notify_features o actor rkey post_text fs)
  unfolding notify_features
  notify_features-Keeps rkey post_text [] = idle
  notify_features-Keeps rkey post_text (f ∷ fs) =
      Keeps-then _ _ (notify_mention-Keeps rkey post_text f)
        (notify_features-Keeps rkey post_text fs)

  notify_facets-Keeps :
      (rkey post_text : Text) (facets : List (List Feature))
      → Keeps (notify_facets o actor rkey post_text facets)
  unfolding notify_facets
  notify_facets-Keeps rkey post_text [] = idle
  notify_facets-Keeps rkey post_text (fs ∷ facets) =
      Keeps-then _ _ (notify_features-Keeps rkey post_text fs)
        (notify_facets-Keeps rkey post_text facets)

  notify_if-Keeps :
      (rkey reason : Text) (uri : Option Text) (post_text : Text)
      → Keeps (notify_if o actor rkey reason uri post_text)
  unfolding notify_if
  notify_if-Keeps rkey reason none post_text = idle
  notify_if-Keeps rkey reason (some uri) post_text = notify_author-Keeps rkey reason uri post_text

  -- The handlers of a record that was decoded.
  Keeps-decoded :
      {A : Type 0} (decoded : Option A) (f : A → Consumer → Consumer)
      → ((a : A) → Keeps (f a))
      → Keeps (λ c. elim decoded [ none ↦ c | some a ↦ f a c ])
  Keeps-decoded none f h = idle
  Keeps-decoded (some a) f h = h a

  pub handle_like-Keeps : (rkey : Text) (raw : Bytes) → Keeps (handle_like o actor rkey raw)
  unfolding handle_like
  handle_like-Keeps rkey raw =
      Keeps-decoded (o.decoders.like raw) _ (λ r. notify_subject-Keeps _ _ _ r)

  pub handle_repost-Keeps : (rkey : Text) (raw : Bytes) → Keeps (handle_repost o actor rkey raw)
  unfolding handle_repost
  handle_repost-Keeps rkey raw =
      Keeps-decoded (o.decoders.repost raw) _ (λ r. notify_subject-Keeps _ _ _ r)

  pub handle_post-Keeps : (rkey : Text) (raw : Bytes) → Keeps (handle_post o actor rkey raw)
  unfolding handle_post
  handle_post-Keeps rkey raw = Keeps-decoded (o.decoders.post raw) _ (λ p.
      Keeps-then _ _
        (Keeps-then _ _ (notify_if-Keeps rkey _ p.reply_parent _)
          (notify_if-Keeps rkey _ (quoted_uri o actor rkey p.embed) _))
        (notify_facets-Keeps rkey _ p.facets))

  pub handle_follow-Keeps : (rkey : Text) (raw : Bytes) → Keeps (handle_follow o actor rkey raw)
  unfolding handle_follow
  handle_follow-Keeps rkey raw = Keeps-decoded (o.decoders.follow raw) _ follow
    where
      follow :
          (to : Text)
          → Keeps (λ c.
            if to == [] || to == actor
            then c
            else send_notification o
                (account_event o actor rkey to (lit "follow") (lit "app.bsky.graph.follow"))
                c)
      follow to c same = elim (Bool-cases (to == [] || to == actor)) [
        | inl nobody ↦ rw nobody (idle c same)
        | inr someone ↦
            rw someone (Keeps-send _ (refl, inl (other_of_test to (ground arith))) c same)
      ]
