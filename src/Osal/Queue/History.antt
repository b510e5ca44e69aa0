-- ===== src/Osal/Queue/History.antt =====
-- What goes through a queue of mm_halow_osal.c over any sequence of pushes and pops.
use mm_halow_driver.Base.{
  ℕ, ◌≡◌, refl, sym, ap, ◌∙◌, Bool, true, false, Option, none, some, List, [], ◌∷◌, ◌++◌,
  if◌then◌else◌,
}
use mm_halow_driver.Osal.Queue.{Queue, pop, push}
use mm_halow_driver.Osal.Queue.Fifo.{
  IsQueue, contents, push_list, pop_list, push-pop-contents, pop_list-some, pop_list-none,
  push_list-true, push_list-false,
}

-- mmosal_queue_push_from_isr of an item, or mmosal_queue_pop_from_isr.
pub data Op (A : Type 0) : Type 0 where
  pushes : A → Op A
  pops : Op A

-- The pushes that were taken, the items that were popped, and the queue behind.
pub record Run (A : Type 0) : Type 0 where
  pub taken : List A
  pub popped : List A
  pub queue : Queue A

append_assoc : {A : Type 0} (xs ys zs : List A) → (xs ++ ys) ++ zs ≡ xs ++ (ys ++ zs)
append_assoc [] ys zs = refl
append_assoc (x ∷ xs) ys zs = ap (◌∷◌ x) (append_assoc xs ys zs)

append_nil : {A : Type 0} (xs : List A) → xs ++ [] ≡ xs
append_nil [] = refl
append_nil (x ∷ xs) = ap (◌∷◌ x) (append_nil xs)

module _ {A : Type 0} (d : A) where
  abbrev pub pushed : A → Bool × Queue A → (Queue A → Run A) → Run A
  pushed a (taken, q) go = let r = go q in if taken then record r { taken = a ∷ r.taken } else r

  abbrev popped_one : Option A × Queue A → (Queue A → Run A) → Run A
  popped_one (none, q) go = go q
  popped_one (some a, q) go = let r = go q in record r { popped = a ∷ r.popped }

  unfoldable pub run_ops : List (Op A) → Queue A → Run A
  run_ops [] q = record { taken = []; popped = []; queue = q }
  run_ops (pushes a ∷ ops) q = pushed a (push a q) (run_ops ops)
  run_ops (pops ∷ ops) q = popped_one (pop d q) (run_ops ops)

  pushed-queue :
      (a : A) (ops : List (Op A)) (r : Bool × Queue A)
      → (pushed a r (run_ops ops)).queue ≡ (run_ops ops r.1).queue
  pushed-queue a ops (true, q) = refl
  pushed-queue a ops (false, q) = refl

  popped_one-queue :
      (ops : List (Op A)) (r : Option A × Queue A)
      → (popped_one r (run_ops ops)).queue ≡ (run_ops ops r.1).queue
  popped_one-queue ops (none, q) = refl
  popped_one-queue ops (some a, q) = refl

  pub run_ops-append :
      (xs ys : List (Op A)) (q : Queue A)
      → (run_ops (xs ++ ys) q).queue ≡ (run_ops ys (run_ops xs q).queue).queue
  unfolding run_ops
  run_ops-append [] ys q = refl
  run_ops-append (pushes a ∷ xs) ys q =
      pushed-queue a (xs ++ ys) (push a q)
      ∙ run_ops-append xs ys (push a q).1
      ∙ ap (λ q. (run_ops ys q).queue) (sym (pushed-queue a xs (push a q)))
  run_ops-append (pops ∷ xs) ys q =
      popped_one-queue (xs ++ ys) (pop d q)
      ∙ run_ops-append xs ys (pop d q).1
      ∙ ap (λ q. (run_ops ys q).queue) (sym (popped_one-queue xs (pop d q)))

  -- What was held and what was taken is what was popped and what is left, in order.
  abbrev IsOrdered : List A → Run A → Type 0
  IsOrdered xs r = (xs ++ r.taken ≡ r.popped ++ contents d r.queue) × IsQueue r.queue

  pushed-IsOrdered :
      (a : A) (n : ℕ) (xs : List A) (r : Bool × Queue A) (go : Queue A → Run A)
      → (r.0, contents d r.1) ≡ push_list n a xs
      → IsOrdered (contents d r.1) (go r.1)
      → IsOrdered xs (pushed a r go)
  pushed-IsOrdered a n xs (true, q) go e v =
      let taken = (go q).taken in
      let (room, c) = push_list-true n a xs (contents d q) e in
      (sym (append_assoc xs (a ∷ []) taken) ∙ ap (λ ys. ys ++ taken) (sym c) ∙ v.0, v.1)
  pushed-IsOrdered a n xs (false, q) go e v =
      (ap (λ ys. ys ++ (go q).taken) (sym (push_list-false n a xs (contents d q) e)) ∙ v.0, v.1)

  popped-IsOrdered :
      (xs : List A) (r : Option A × Queue A) (go : Queue A → Run A)
      → (r.0, contents d r.1) ≡ pop_list xs
      → IsOrdered (contents d r.1) (go r.1)
      → IsOrdered xs (popped_one r go)
  popped-IsOrdered xs (none, q) go e v =
      (ap (λ ys. ys ++ (go q).taken) (pop_list-none xs (contents d q) e) ∙ v.0, v.1)
  popped-IsOrdered xs (some a, q) go e v =
      (ap (λ ys. ys ++ (go q).taken) (pop_list-some a xs (contents d q) e) ∙ ap (◌∷◌ a) v.0, v.1)

  -- Whatever is pushed and popped, the items come out in the order in which they went in: what a
  -- well-formed queue held at first and then the pushes that it took are what was popped and then
  -- what it holds at last. It stays well formed.
  pub run_ops-IsOrdered :
      (ops : List (Op A)) (q : Queue A)
      → IsQueue q
      → (contents d q ++ (run_ops ops q).taken
          ≡ (run_ops ops q).popped ++ contents d (run_ops ops q).queue)
        × IsQueue (run_ops ops q).queue
  unfolding run_ops
  run_ops-IsOrdered [] q v = (append_nil (contents d q), v)
  run_ops-IsOrdered (pushes a ∷ ops) q v =
      let s = push-pop-contents d a q v in
      pushed-IsOrdered a q.num_items (contents d q) (push a q) (run_ops ops) s.0
        (run_ops-IsOrdered ops (push a q).1 s.2)
  run_ops-IsOrdered (pops ∷ ops) q v =
      let s = push-pop-contents d d q v in
      popped-IsOrdered (contents d q) (pop d q) (run_ops ops) s.1
        (run_ops-IsOrdered ops (pop d q).1 s.3)
