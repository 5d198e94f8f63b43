-- ===== src/Stream/Once.antt =====
-- An event that is published again reaches no subscription again.
use omni_schema.Prelude.Bytes.{is_empty}
use omni_schema.Prelude.{ℕ, ◌≡◌, refl, ap, ◌∙◌, arith, ◌⊎◌, inl, inr}
use omni_schema.Prelude.{Bool, true, false, if◌then◌else◌}
use omni_schema.Prelude.{List, [], ◌∷◌, Option, none, some}
use omni_schema.Prelude.Bytes.{Text, text_eq_refl, mem_text}
use omni_schema.Prelude.Result.{Result, ok, err}
use omni_schema.Uir.Node.{Node}
use omni_schema.Registry.{Registry}
use omni_schema.Stream.Subscription.{
  Subscription, RootField, Frame, close, remember, matches_event, append_batch, enqueue,
}
use omni_schema.Stream.Envelope.{Event}
use omni_schema.Stream.Publish.{
  Services, BuildError, Broker, is_pinned, schema_still_valid, batch_frame, build_frame,
  enqueue_built, route, forward, checked, remembered, deliver, deliver_all, publish,
}

module _ (svc : Services) (r : Registry) where
  -- The event is of no more concern to the subscription.
  abbrev Settled : Event → Subscription → Type 0
  Settled evt s = (s.closed ≡ true) ⊎ (mem_text evt.id s.seen ≡ true)

  batch_frame-seen :
      (s : Subscription) (evt : Event) (rf : RootField) (n : Node)
      → (batch_frame svc r s evt rf n).1.seen ≡ s.seen
  unfolding batch_frame append_batch
  batch_frame-seen s evt rf n = ground arith

  enqueue_built-seen :
      (x : Result BuildError Frame × Subscription) → (enqueue_built svc r x).seen ≡ x.1.seen
  unfolding enqueue
  enqueue_built-seen (ok f, s) = refl
  enqueue_built-seen (err e, s) = refl

  build_frame-seen :
      (s : Subscription) (evt : Event) (n : Node) (rf : RootField)
      → (build_frame svc r s evt n rf).1.seen ≡ s.seen
  unfolding build_frame
  build_frame-seen s evt n rf = on (is_pinned s) (svc.project_event r s rf n)
    where
      on :
          (b : Bool) (o : Option Node)
          → (if b
              then (elim o [
                | none ↦ (err BuildError.failed, s)
                | some m ↦ batch_frame svc r s evt rf m
              ])
              else batch_frame svc r s evt rf n).1.seen
            ≡ s.seen
      on true none = refl
      on true (some m) = batch_frame-seen s evt rf m
      on false o = batch_frame-seen s evt rf n

  route-seen :
      (evt : Event) (s : Subscription) (o : Option Node) (m : Option RootField)
      → (route svc r evt s o m).seen ≡ s.seen
  route-seen evt s none m = refl
  route-seen evt s (some n) none = refl
  route-seen evt s (some n) (some rf) =
      enqueue_built-seen (build_frame svc r s evt n rf) ∙ build_frame-seen s evt n rf

  forward-seen : (evt : Event) (s : Subscription) → (forward svc r evt s).seen ≡ s.seen
  unfolding forward
  forward-seen evt s =
      route-seen evt s
        (svc.decode_payload
          (if is_empty s.source_format then evt.source_format else s.source_format) evt.payload s)
        (matches_event evt.type s)

  schema_still_valid-seen : (s : Subscription) → (schema_still_valid r s).1.seen ≡ s.seen
  unfolding schema_still_valid
  schema_still_valid-seen s = ground arith

  checked-Settled :
      (evt : Event) (x : Bool × Subscription)
      → mem_text evt.id x.1.seen ≡ true
      → Settled evt (checked svc r evt x)
  unfolding close
  checked-Settled evt (true, s) new = inr (ap (mem_text evt.id) (forward-seen evt s) ∙ new)
  checked-Settled evt (false, s) new = inl refl

  -- The set remembers the event, whether it was new or not.
  remember-seen :
      (id : Text) (s : Subscription)
      → is_empty id ≡ false
      → mem_text id (remember id s).1.seen ≡ true
  unfolding remember mem_text
  remember-seen [] s named = cc
  remember-seen (b ∷ bs) s named = ground (arith, text_eq_refl (b ∷ bs))

  remember-known :
      (id : Text) (s : Subscription)
      → is_empty id ≡ false
      → mem_text id s.seen ≡ true
      → remember id s ≡ (false, s)
  unfolding remember
  remember-known [] s named known = cc
  remember-known (b ∷ bs) s named known = rw (remember, known) refl

  remembered-Settled :
      (evt : Event) (x : Bool × Subscription)
      → mem_text evt.id x.1.seen ≡ true
      → Settled evt (remembered svc r evt x)
  remembered-Settled evt (true, s) known =
      checked-Settled evt (schema_still_valid r s)
        (ap (mem_text evt.id) (schema_still_valid-seen s) ∙ known)
  remembered-Settled evt (false, s) known = inr known

  deliver-Settled :
      (evt : Event) (s : Subscription) → is_empty evt.id ≡ false → Settled evt (deliver svc r evt s)
  unfolding deliver
  deliver-Settled evt s named = on s.closed refl
    where
      on :
          (b : Bool)
          → s.closed ≡ b
          → Settled evt (if b then s else remembered svc r evt (remember evt.id s))
      on true shut = inl shut
      on false alive = remembered-Settled evt (remember evt.id s) (remember-seen evt.id s named)

  Settled-deliver :
      (evt : Event) (s : Subscription)
      → is_empty evt.id ≡ false
      → Settled evt s
      → deliver svc r evt s ≡ s
  unfolding deliver
  Settled-deliver evt s named settled = on s.closed refl settled
    where
      on :
          (b : Bool)
          → s.closed ≡ b
          → Settled evt s
          → (if b then s else remembered svc r evt (remember evt.id s)) ≡ s
      on true shut which = refl
      on false alive (inl shut) = cc
      on false alive (inr known) = ap (remembered svc r evt) (remember-known evt.id s named known)

  redeliver :
      (evt : Event)
      → is_empty evt.id ≡ false
      → (m : List (ℕ × Subscription))
      → deliver_all svc r evt (deliver_all svc r evt m) ≡ deliver_all svc r evt m
  redeliver evt named [] = refl
  redeliver evt named ((k, s) ∷ m) =
      let again = Settled-deliver evt (deliver svc r evt s) named (deliver-Settled evt s named) in
      rw (again, redeliver evt named m) refl

-- With any registry and whatever decoding, projection and encoding do: publishing an event that has
-- an id a second time leaves the broker and all its subscriptions, their queues and batches included,
-- as the first time left them.
pub publish-publish :
    (svc : Services) (r : Registry) (evt : Event) (b : Broker)
    → is_empty evt.id ≡ false
    → publish svc r evt (publish svc r evt b) ≡ publish svc r evt b
unfolding publish
publish-publish svc r evt b named =
    ap (λ m. record b { subscriptions = m }) (redeliver svc r evt named b.subscriptions)
