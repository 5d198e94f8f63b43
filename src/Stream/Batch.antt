-- ===== src/Stream/Batch.antt =====
-- Batches of a subscription lose no node and keep the order.
use omni_schema.Prelude.{◌<◌, ◌≡◌, refl, sym, ap, ◌∙◌, arith}
use omni_schema.Prelude.{true, false, leb, Bool-cases, inl, inr, All}
use omni_schema.Prelude.{
  List, [], ◌∷◌, ◌++◌, length, length-append, append_assoc, append-nil, Option, none, some,
}
use omni_schema.Uir.Node.{Node}
use omni_schema.Stream.Subscription.{Subscription, append_batch}

-- The batch of a call in front of those of the later calls.
abbrev pub and_then : Option (List Node) → List (List Node) → List (List Node)
and_then none bs = bs
and_then (some b) bs = b ∷ bs

-- The batches that a sequence of nodes fills, and the subscription after it.
abbrev pub feed : List Node → Subscription → List (List Node) × Subscription
feed [] s = ([], s)
feed (n ∷ ns) s =
    let (full, t) = append_batch n s in let (later, u) = feed ns t in (and_then full later, u)

abbrev pub concat : List (List Node) → List Node
concat [] = []
concat (b ∷ bs) = b ++ concat bs

-- The batches and the nodes still kept are the nodes kept before and the new ones, in order; each
-- batch has the size, and fewer nodes than that are kept.
abbrev pub Batched : List Node → Subscription → List (List Node) × Subscription → Type 0
Batched ns s (bs, u) =
    (concat bs ++ u.batch_nodes ≡ s.batch_nodes ++ ns)
    × All (λ b. length b ≡ s.batch_size) bs
    × (length u.batch_nodes < s.batch_size)

append_batch-full :
    (n : Node) (s : Subscription)
    → leb s.batch_size (length (s.batch_nodes ++ (n ∷ []))) ≡ true
    → append_batch n s ≡ (some (s.batch_nodes ++ (n ∷ [])), record s { batch_nodes = [] })
unfolding append_batch
append_batch-full n s full = rw (append_batch, full) refl

append_batch-kept :
    (n : Node) (s : Subscription)
    → leb s.batch_size (length (s.batch_nodes ++ (n ∷ []))) ≡ false
    → append_batch n s ≡ (none, record s { batch_nodes = s.batch_nodes ++ (n ∷ []) })
unfolding append_batch
append_batch-kept n s kept = rw (append_batch, kept) refl

-- With a batch size of at least one, and fewer nodes kept than that: over any sequence of nodes, the
-- batches that appendBatch hands out and the nodes it still keeps are the nodes it kept before and the
-- new ones, in order; every batch has exactly the batch size, and fewer nodes than that are kept.
pub feed-Batched :
    (ns : List Node) (s : Subscription)
    → length s.batch_nodes < s.batch_size
    → Batched ns s (feed ns s)
feed-Batched [] s few = (sym (append-nil s.batch_nodes), tt, few)
feed-Batched (n ∷ ns) s few =
    let nodes = s.batch_nodes ++ (n ∷ []) in
    let size = length-append s.batch_nodes (n ∷ []) in
    elim (Bool-cases (leb s.batch_size (length nodes))) [
      | inl full ↦
          let (same, sizes, rest) =
            feed-Batched ns (record s { batch_nodes = [] }) (omega (arith, few)) in
          let (later, u) = feed ns (record s { batch_nodes = [] }) in
          rw (append_batch-full n s full) (
            append_assoc nodes (concat later) u.batch_nodes
                ∙ ap (λ w. nodes ++ w) same
                ∙ append_assoc s.batch_nodes (n ∷ []) ns,
            (ground (arith, size, few, full), sizes),
            rest,
          )
      | inr kept ↦
          let (same, sizes, rest) =
            feed-Batched ns (record s { batch_nodes = nodes }) (ground (arith, kept)) in
          rw (append_batch-kept n s kept)
            (same ∙ append_assoc s.batch_nodes (n ∷ []) ns, sizes, rest)
    ]
