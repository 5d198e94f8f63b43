-- ===== src/Stream/Queue.antt =====
-- The bounded queue of a subscription drops the oldest frames.
use omni_schema.Prelude.{ℕ, zero, suc, ◌+◌, ◌-◌, ◌≤◌, ◌≡◌, refl, sym, ap, ◌∙◌, arith}
use omni_schema.Prelude.{true, ltb, Bool-cases, inl, inr}
use omni_schema.Prelude.{List, [], ◌∷◌, ◌++◌, length, drop, length-append, append_assoc, append-nil}
use omni_schema.Prelude.{length-drop}
use omni_schema.Stream.Subscription.{Frame, Subscription, enqueue, push, make_room, queue_capacity}

-- One frame after the other.
abbrev pub enqueue_all : List Frame → Subscription → Subscription
enqueue_all [] s = s
enqueue_all (f ∷ fs) s = enqueue_all fs (enqueue f s)

drop_append :
    {A : Type 0} (n : ℕ) (xs ys : List A) → n ≤ length xs → drop n (xs ++ ys) ≡ drop n xs ++ ys
drop_append zero xs ys h = refl
drop_append (suc n) [] ys h = absurd (omega arith)
drop_append (suc n) (x ∷ xs) ys h = drop_append n xs ys (omega arith)

drop_nil : {A : Type 0} (k : ℕ) → ◌≡◌ {A = List A} (drop k []) []
drop_nil zero = refl
drop_nil (suc k) = refl

drop-drop : {A : Type 0} (n m : ℕ) (xs : List A) → drop n (drop m xs) ≡ drop (m + n) xs
drop-drop n zero xs = ap (λ k. drop k xs) (omega arith)
drop-drop n (suc m) [] = drop_nil n ∙ sym (drop_nil (suc m + n))
drop-drop n (suc m) (x ∷ xs) =
    let next : suc (m + n) ≡ suc m + n = omega arith in
    drop-drop n m xs ∙ ap (λ k. drop k (x ∷ xs)) next

enqueue-drop :
    (f : Frame) (q : List Frame)
    → length q ≤ queue_capacity
    → push queue_capacity f (make_room queue_capacity q)
      ≡ drop (length q + 1 - queue_capacity) (q ++ (f ∷ []))
unfolding push make_room
enqueue-drop f [] h = refl
enqueue-drop f (g ∷ gs) h = elim (Bool-cases (ltb (length (g ∷ gs)) queue_capacity)) [
  | inl spare ↦
      let none_lost : length (g ∷ gs) + 1 - queue_capacity ≡ 0 = ground arith in
      rw (spare, none_lost, spare) refl
  | inr full ↦
      let one_lost : length (g ∷ gs) + 1 - queue_capacity ≡ 1 = ground arith in
      let spare : ltb (length gs) queue_capacity ≡ true = ground arith in
      rw (full, one_lost, spare) refl
]

-- However many frames are put on a queue that holds at most its 100: what is in it then are the last
-- 100 of the frames that were in it and the new ones, in order, or all of them where there are fewer.
pub enqueue_all-drop :
    (fs : List Frame) (s : Subscription)
    → length s.queue ≤ queue_capacity
    → (enqueue_all fs s).queue ≡ drop (length s.queue + length fs - queue_capacity) (s.queue ++ fs)
unfolding enqueue
enqueue_all-drop [] s h =
    let none_lost : length s.queue + 0 - queue_capacity ≡ 0 = omega arith in
    rw (none_lost, append-nil s.queue) refl
enqueue_all-drop (f ∷ fs) s h =
    let k = length s.queue + 1 - queue_capacity in
    let here = enqueue-drop f s.queue h in
    let size = length-drop k (s.queue ++ (f ∷ [])) in
    let whole = length-append s.queue (f ∷ []) in
    let q = s.queue ++ (f ∷ []) in
    let stays : length (enqueue f s).queue ≡ length s.queue + 1 - k =
      ap length here ∙ omega (arith, size, whole) in
    enqueue_all-drop fs (enqueue f s) (omega (arith, stays))
    ∙ ap (λ p. drop (length p + length fs - queue_capacity) (p ++ fs)) here
    ∙ ap (λ w. drop (length (drop k q) + length fs - queue_capacity) w)
        (sym (drop_append k q fs (omega (arith, whole))))
    ∙ drop-drop (length (drop k q) + length fs - queue_capacity) k (q ++ fs)
    ∙ ap (λ m. drop m (q ++ fs)) (omega (arith, size, whole, h))
    ∙ ap (λ w. drop (length s.queue + length (f ∷ fs) - queue_capacity) w)
        (append_assoc s.queue (f ∷ []) fs)
