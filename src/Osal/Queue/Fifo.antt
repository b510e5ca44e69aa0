-- ===== src/Osal/Queue/Fifo.antt =====
-- A queue of mm_halow_osal.c is a bounded first-in-first-out list.
pub mod Creation
use mm_halow_driver.Base.{
  ℕ, zero, suc, ◌+◌, ◌-◌, ◌%◌, ◌≤◌, ◌<◌, ◌≡◌, ◌≢◌, ◌⊎◌, refl, Bool, true, false, Option, none, some,
  List, [], ◌∷◌, ◌++◌, arith, inl, inr, ltb, if◌then◌else◌, length, get_or, set, length-set,
  get_or-set_self, get_or-set_ne, sym, ap, ap₂, ◌∙◌,
}
use native.Mathlib.Nat.{mod-lt, mod-add-mod, mod-eq_of_lt, mod-eq-sub-mod}
use native.Mathlib.Decide.{dec_lt}
use mm_halow_driver.Osal.Queue.{Queue, pop, push}

-- The ring's numbers agree: the tail is `count` slots behind the head.
pub record IsQueue {A : Type 0} (q : Queue A) : Type 0 where
  pub slots : length q.items ≡ q.num_items
  pub bounded : q.count ≤ q.num_items
  pub head : (q.num_items ≡ 0) ⊎ (q.head < q.num_items)
  pub tail : (q.num_items ≡ 0) ⊎ (q.tail ≡ (q.head + q.count) % q.num_items)

-- `k` items from the slot `i` on, around the ring.
pub items_from : {A : Type 0} → A → List A → ℕ → ℕ → ℕ → List A
items_from d xs n i zero = []
items_from d xs n i (suc k) = get_or xs i d ∷ items_from d xs n ((i + 1) % n) k

-- What the queue holds, oldest first.
pub contents : {A : Type 0} → A → Queue A → List A
contents d q = items_from d q.items q.num_items q.head q.count

-- The queue as its users see it: the items in order, and their number.
pub push_list : {A : Type 0} → ℕ → A → List A → Bool × List A
push_list n a xs = if ltb (length xs) n then (true, xs ++ a ∷ []) else (false, xs)

pub pop_list : {A : Type 0} → List A → Option A × List A
pop_list [] = (none, [])
pop_list (x ∷ xs) = (some x, xs)

-- What each answer of the list says.
module _ {A : Type 0} where
  pub pop_list-some : (a : A) (xs ys : List A) → (some a, ys) ≡ pop_list xs → xs ≡ a ∷ ys
  unfolding pop_list
  pop_list-some a [] ys e = absurd (taken (ap (λ p. p.0) e))
    where
      taken : (Option.some a ≡ none) → ⊥
      taken q = cc
  pop_list-some a (x ∷ xs) ys e =
      ap₂ (λ z zs. z ∷ zs) (same (ap (λ p. p.0) e)) (sym (ap (λ p. p.1) e))
    where
      same : some a ≡ some x → x ≡ a
      same q = cc

  pub pop_list-none : (xs ys : List A) → (none, ys) ≡ pop_list xs → xs ≡ ys
  unfolding pop_list
  pop_list-none [] ys e = sym (ap (λ p. p.1) e)
  pop_list-none (x ∷ xs) ys e = absurd (taken (ap (λ p. p.0) e))
    where
      taken : (none ≡ Option.some x) → ⊥
      taken q = cc

  pub push_list-true :
      (n : ℕ) (a : A) (xs ys : List A)
      → (true, ys) ≡ push_list n a xs
      → (length xs < n) × (ys ≡ xs ++ a ∷ [])
  unfolding push_list
  push_list-true n a xs ys e =
      (ground (arith, ap (λ p. p.0) e), ground (arith, ap (λ p. p.0) e, ap (λ p. p.1) e))

  pub push_list-false : (n : ℕ) (a : A) (xs ys : List A) → (false, ys) ≡ push_list n a xs → ys ≡ xs
  unfolding push_list
  push_list-false n a xs ys e = ground (arith, ap (λ p. p.0) e, ap (λ p. p.1) e)

-- One more step around the ring.
wrap_step : (n i k : ℕ) → ((i + 1) % n + k) % n ≡ (i + suc k) % n
wrap_step n i k = mod-add-mod (i + 1) n k ∙ ap (λ m. m % n) (omega arith)

-- Fewer steps than slots do not come back to the start.
wrap_ne : (n i k : ℕ) → i < n → 0 < k → k < n → i ≢ (i + k) % n
wrap_ne n i k lt pos kn e = elim (dec_lt (i + k) n) [
  | yes small ↦ omega (arith, e, mod-eq_of_lt small)
  | no large ↦
      let inside : i + k - n < n = omega arith in
      let back : n ≤ i + k = omega arith in
      omega (arith, e, mod-eq-sub-mod back, mod-eq_of_lt inside)
]

module _ {A : Type 0} (d : A) where
  length-items_from : (xs : List A) (n i k : ℕ) → length (items_from d xs n i k) ≡ k
  unfolding items_from
  length-items_from xs n i zero = refl
  length-items_from xs n i (suc k) = ap suc (length-items_from xs n ((i + 1) % n) k)

  items_from-set :
      (xs : List A) (n i k : ℕ) (a : A)
      → length xs ≡ n
      → i < n
      → k < n
      → items_from d (set xs ((i + k) % n) a) n i (suc k) ≡ items_from d xs n i k ++ a ∷ []
  unfolding items_from
  items_from-set xs n i zero a l lt kn =
      let here : (i + 0) % n ≡ i = mod-eq_of_lt (omega arith) ∙ omega arith in
      rw here (ap (λ x. x ∷ []) (get_or-set_self xs i a d (omega (arith, l))))
  items_from-set xs n i (suc k) a l lt kn =
      ap₂ (λ x ys. x ∷ ys)
        (get_or-set_ne xs a d (λ e. wrap_ne n i (suc k) lt (omega arith) kn (sym e)))
        (ap (λ j. items_from d (set xs j a) n ((i + 1) % n) (suc k)) (sym (wrap_step n i k))
          ∙ items_from-set xs n ((i + 1) % n) k a l (mod-lt (i + 1) (omega arith)) (omega arith))

  room_or_full :
      (a : A) (q : Queue A)
      → (q.count < q.num_items)
          × (push a q ≡ (
            true,
            record q {
              items = set q.items q.tail a;
              tail = (q.tail + 1) % q.num_items;
              count = q.count + 1;
            },
          ))
        ⊎ (q.num_items ≤ q.count) × (push a q ≡ (false, q))
  unfolding push
  room_or_full a q = elim (dec_lt q.count q.num_items) [
    | yes h ↦ inl (h, ground arith)
    | no h ↦ inr (omega arith, ground arith)
  ]

  some_or_empty :
      (q : Queue A)
      → (0 < q.count)
          × (pop d q ≡ (
            some (get_or q.items q.head d),
            record q { head = (q.head + 1) % q.num_items; count = q.count - 1 },
          ))
        ⊎ (q.count ≡ 0) × (pop d q ≡ (none, q))
  unfolding pop
  some_or_empty q = elim (dec_lt 0 q.count) [
    | yes h ↦ inl (h, ground arith)
    | no h ↦ inr (omega arith, ground arith)
  ]

  tail_at : (q : Queue A) → IsQueue q → 0 < q.num_items → q.tail ≡ (q.head + q.count) % q.num_items
  tail_at q v pos = elim v.tail [ inl z ↦ absurd (omega arith) | inr e ↦ e ]

  head_in : (q : Queue A) → IsQueue q → 0 < q.num_items → q.head < q.num_items
  head_in q v pos = elim v.head [ inl z ↦ absurd (omega arith) | inr e ↦ e ]

  push-IsQueue : (a : A) (q : Queue A) → IsQueue q → IsQueue (push a q).1
  push-IsQueue a q v = elim (room_or_full a q) [
    | inr (full, e) ↦ rw e v
    | inl (room, e) ↦ rw e (record {
      slots = length-set q.items q.tail a ∙ v.slots;
      bounded = omega arith;
      head = v.head;
      tail = inr (
          ap (λ t. (t + 1) % q.num_items) (tail_at q v (omega arith))
          ∙ (mod-add-mod (q.head + q.count) q.num_items 1
              ∙ ap (λ m. m % q.num_items) (omega arith)));
    })
  ]

  pop-IsQueue : (q : Queue A) → IsQueue q → IsQueue (pop d q).1
  pop-IsQueue q v = elim (some_or_empty q) [
    | inr (empty, e) ↦ rw e v
    | inl (more, e) ↦ rw e (record {
      slots = v.slots;
      bounded = omega (arith, v.bounded);
      head = inr (mod-lt (q.head + 1) (omega (arith, v.bounded)));
      tail = inr (
          tail_at q v (omega (arith, v.bounded))
          ∙ sym (
              wrap_step q.num_items q.head (q.count - 1)
              ∙ ap (λ m. m % q.num_items) (omega arith)));
    })
  ]

  push-contents :
      (a : A) (q : Queue A)
      → IsQueue q
      → ((push a q).0, contents d (push a q).1) ≡ push_list q.num_items a (contents d q)
  unfolding contents push_list
  push-contents a q v = elim (room_or_full a q) [
    | inl (room, e) ↦
        rw (e, length-items_from q.items q.num_items q.head q.count, tail_at q v (omega arith))
          (ground (
            arith,
            items_from-set q.items q.num_items q.head q.count a v.slots (head_in q v (omega arith))
                room,
          ))
    | inr (full, e) ↦ rw (e, length-items_from q.items q.num_items q.head q.count) (ground arith)
  ]

  pop-contents : (q : Queue A) → ((pop d q).0, contents d (pop d q).1) ≡ pop_list (contents d q)
  unfolding contents items_from pop_list
  pop-contents q = elim (some_or_empty q) [
    | inl (more, e) ↦ rw e (at_count q.count more)
    | inr (empty, e) ↦ rw e (none_left empty)
  ]
    where
      at_count :
          (k : ℕ)
          → 0 < k
          → (
            some (get_or q.items q.head d),
            items_from d q.items q.num_items ((q.head + 1) % q.num_items) (k - 1),
          )
            ≡ pop_list (items_from d q.items q.num_items q.head k)
      at_count zero more = absurd (omega arith)
      at_count (suc k) more =
          ap
            (λ j. (
              some (get_or q.items q.head d),
              items_from d q.items q.num_items ((q.head + 1) % q.num_items) j,
            ))
            (omega arith)

      none_left : q.count ≡ 0 → (none, contents d q) ≡ pop_list (contents d q)
      none_left z = rw z refl

  -- mmosal_queue_push_from_isr and mmosal_queue_pop_from_isr on a well-formed ring do to what it
  -- holds what a bounded list does: a push goes to the end, or is refused when the list is full, and
  -- a pop takes the oldest item, or reports that there is none. Both keep the ring well formed.
  pub push-pop-contents :
      (a : A) (q : Queue A)
      → IsQueue q
      → (((push a q).0, contents d (push a q).1) ≡ push_list q.num_items a (contents d q))
        × (((pop d q).0, contents d (pop d q).1) ≡ pop_list (contents d q))
        × IsQueue (push a q).1
        × IsQueue (pop d q).1
  push-pop-contents a q v =
      (push-contents a q v, pop-contents q, push-IsQueue a q v, pop-IsQueue q v)
