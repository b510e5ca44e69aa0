-- ===== src/Osal/Queue/Waits.antt =====
-- mmosal_queue_pop and mmosal_queue_push: the queue's operations as the condition of a wait.
use mm_halow_driver.Base.{
  ℕ, ◌<◌, ◌≡◌, refl, sym, ap, ◌∙◌, subst, Bool, true, false, Option, none, some, List, [], ◌∷◌,
  ◌++◌, length,
}
use mm_halow_driver.Sched.Wait.{Host, wait}
use mm_halow_driver.Sched.Wait.Rules.{Rule, Outcome, wait-Outcome}
use mm_halow_driver.Osal.Sync.{Cell}
use mm_halow_driver.Osal.Queue.{Queue, pop, push}
use mm_halow_driver.Osal.Queue.History.{Op, Run, run_ops, run_ops-append, run_ops-IsOrdered}
use mm_halow_driver.Osal.Queue.Fifo.{
  IsQueue, contents, push_list, pop_list, push-pop-contents, pop_list-some, push_list-true,
}

module _ {S A : Type 0} (h : Host S) where
  abbrev pub popped : Cell S (Queue A) → Cell S A → Option A × Queue A → S → Bool × S
  popped c item (none, q) s = (false, s)
  popped c item (some a, q) s = (true, h.wake (item.put a (c.put q s)))

  -- mm_halow_queue_popped, of the queue in `c` into the buffer `item`; no queue is the null pointer.
  unfoldable pub queue_popped : A → Option (Cell S (Queue A)) → Cell S A → S → Bool × S
  queue_popped d none item s = (false, s)
  queue_popped d (some c) item s = popped c item (pop d (c.get s)) s

  abbrev pub pushed : Cell S (Queue A) → Bool × Queue A → S → Bool × S
  pushed c (false, q) s = (false, s)
  pushed c (true, q) s = (true, h.wake (c.put q s))

  -- mm_halow_queue_pushed
  unfoldable pub queue_pushed : Option (Cell S (Queue A)) → A → S → Bool × S
  queue_pushed none a s = (false, s)
  queue_pushed (some c) a s = pushed c (push a (c.get s)) s

  -- mmosal_queue_pop
  unfoldable pub queue_pop :
      A → Option (Cell S (Queue A)) → Cell S A → ℕ → ℕ → S → Option (Bool × S)
  queue_pop d c item fuel t s = wait h (queue_popped d c item) fuel t s

  -- mmosal_queue_push
  unfoldable pub queue_push : Option (Cell S (Queue A)) → A → ℕ → ℕ → S → Option (Bool × S)
  queue_push c a fuel t s = wait h (queue_pushed c a) fuel t s

-- `history s` is what others have done to the queue until `s`.
module _ {S A : Type 0} (h : Host S) (d : A) (c : Cell S (Queue A)) (item : Cell S A)
    (history : S → List (Op A)) where
  -- Others push to the queue, and pop from it, and do nothing else to it; the history has all of it.
  pub record Acts (s s' : S) : Type 0 where
    pub ops : List (Op A)
    pub recorded : history s' ≡ history s ++ ops
    pub done : c.get s' ≡ (run_ops d ops (c.get s)).queue

  -- Nothing was done to the queue.
  pub record Leaves (s s' : S) : Type 0 where
    pub queue : c.get s' ≡ c.get s
    pub past : history s' ≡ history s

  -- The queue and the buffer are variables of their own, which the scheduler's calls leave alone; it
  -- is while the caller is parked that others get at the queue.
  pub record Steady : Type 0 where
    pub stored : (q : Queue A) (s : S) → c.get (c.put q s) ≡ q
    pub stored_past : (q : Queue A) (s : S) → history (c.put q s) ≡ history s
    pub item_stored : (a : A) (s : S) → item.get (item.put a s) ≡ a
    pub item_put : (a : A) (s : S) → Leaves s (item.put a s)
    pub ticks : (s : S) → Leaves s (h.ticks s).1
    pub enter : (s : S) → Leaves s (h.enter s)
    pub leave : (s : S) → Leaves s (h.leave s)
    pub wake : (s : S) → Leaves s (h.wake s)
    pub item_leave : (s : S) → item.get (h.leave s) ≡ item.get s
    pub item_wake : (s : S) → item.get (h.wake s) ≡ item.get s
    pub park : (timed : Bool) (at : ℕ) (s : S) → Acts s (h.park timed at s)

  module _ (steady : Steady) (q0 : Queue A) where
    -- What others made of `q0` until `s`.
    abbrev pub others : S → Run A
    others s = run_ops d (history s) q0

    -- The queue is `q0` with what others did to it, and well formed.
    pub record Followed (s : S) : Type 0 where
      pub same : c.get s ≡ (others s).queue
      pub sound : IsQueue (c.get s)

    -- What was held at first and what others pushed since came out in that order: what others popped,
    -- then the item that is in the buffer, and what the queue holds now is the rest.
    pub record Popped (s : S) : Type 0 where
      pub fifo :
          contents d q0 ++ (others s).taken ≡ (others s).popped ++ item.get s ∷ contents d (c.get s)
      pub sound : IsQueue (c.get s)

    -- The queue that others left had room, and the item is behind all that it held.
    pub record Pushed (a : A) (s : S) : Type 0 where
      pub room : length (contents d (others s).queue) < (others s).queue.num_items
      pub newest : contents d (c.get s) ≡ contents d (others s).queue ++ a ∷ []
      pub sound : IsQueue (c.get s)

    Leaves-Followed : {s s' : S} → Leaves s s' → Followed s → Followed s'
    Leaves-Followed l v = record {
      same = rw (l.queue, l.past) v.same;
      sound = rw (l.queue) v.sound;
    }

    Acts-Followed : {s s' : S} → Acts s s' → Followed s → Followed s'
    Acts-Followed {s} {s'} l v =
        let all : IsQueue (run_ops d l.ops (c.get s)).queue =
          (run_ops-IsOrdered d l.ops (c.get s) v.sound).1 in
        record {
          same =
              l.done
              ∙ ap (λ q. (run_ops d l.ops q).queue) v.same
              ∙ sym (run_ops-append d (history s) l.ops q0)
              ∙ ap (λ ops. (run_ops d ops q0).queue) (sym l.recorded);
          sound = rw (l.done) all;
        }

    Leaves-Popped : {s s' : S} → item.get s' ≡ item.get s → Leaves s s' → Popped s → Popped s'
    Leaves-Popped e l p = record {
      fifo = rw (e, l.queue, l.past) p.fifo;
      sound = rw (l.queue) p.sound;
    }

    Leaves-Pushed : (a : A) {s s' : S} → Leaves s s' → Pushed a s → Pushed a s'
    Leaves-Pushed a l p = record {
      room = rw (l.past) p.room;
      newest = rw (l.queue, l.past) p.newest;
      sound = rw (l.queue) p.sound;
    }

    popped-Popped :
        (sound0 : IsQueue q0) (r : Option A × Queue A) (s : S)
        → (r.0, contents d r.1) ≡ pop_list (contents d (c.get s))
        → IsQueue r.1
        → Followed s
        → Outcome Followed Popped (some (popped h c item r s))
    unfolding Outcome
    popped-Popped sound0 (none, q) s e v i = i
    popped-Popped sound0 (some a, q) s e v i =
        let s1 = item.put a (c.put q s) in
        let queue : c.get s1 ≡ q = (steady.item_put a (c.put q s)).queue ∙ steady.stored q s in
        let past : history s1 ≡ history s =
          (steady.item_put a (c.put q s)).past ∙ steady.stored_past q s in
        let oldest : contents d (others s).queue ≡ a ∷ contents d q =
          ap (contents d) (sym i.same) ∙ pop_list-some a (contents d (c.get s)) (contents d q) e in
        let before = (run_ops-IsOrdered d (history s) q0 sound0).0 in
        Leaves-Popped (steady.item_wake s1) (steady.wake s1) (record {
          fifo =
              rw (past, queue, steady.item_stored a (c.put q s))
                (before ∙ ap (λ xs. (others s).popped ++ xs) oldest);
          sound = rw queue v;
        })

    pushed-Pushed :
        (a : A) (r : Bool × Queue A) (s : S)
        → (r.0, contents d r.1) ≡ push_list (c.get s).num_items a (contents d (c.get s))
        → IsQueue r.1
        → Followed s
        → Outcome Followed (Pushed a) (some (pushed h c r s))
    unfolding Outcome
    pushed-Pushed a (false, q) s e v i = i
    pushed-Pushed a (true, q) s e v i =
        let (room, newest) =
          push_list-true (c.get s).num_items a (contents d (c.get s)) (contents d q) e in
        let s1 = c.put q s in
        let past = steady.stored_past q s in
        Leaves-Pushed a (steady.wake s1) (record {
          room = rw past (subst (λ (q : Queue A). length (contents d q) < q.num_items) i.same room);
          newest = rw (past, steady.stored q s) (newest ∙ ap (λ q. contents d q ++ a ∷ []) i.same);
          sound = rw (steady.stored q s) v;
        })

    -- The parts of an outcome, by what was reported.
    fails_of :
        (Post : S → Type 0) (r : Bool × S)
        → Outcome Followed Post (some r)
        → r.0 ≡ false
        → Followed r.1
    unfolding Outcome
    fails_of Post (false, s) o e = o
    fails_of Post (true, s) o e = absurd (cc)

    succeeds_of :
        (Post : S → Type 0) (r : Bool × S) → Outcome Followed Post (some r) → r.0 ≡ true → Post r.1
    unfolding Outcome
    succeeds_of Post (true, s) o e = o
    succeeds_of Post (false, s) o e = absurd (cc)

    queue_rule :
        (cond : S → Bool × S) (Post : S → Type 0)
        → ((s : S) → Followed s → Outcome Followed Post (some (cond s)))
        → ((s : S) → Post s → Post (h.leave s))
        → ((s : S) → Post s → Post (h.wake s))
        → Rule h cond Followed Post
    queue_rule cond Post ends leaves wakes = record {
      ticks = λ s. Leaves-Followed (steady.ticks s);
      park = λ timed at s. Acts-Followed (steady.park timed at s);
      enter = λ s. Leaves-Followed (steady.enter s);
      leave = λ s. Leaves-Followed (steady.leave s);
      fails = λ s i e. fails_of Post (cond s) (ends s i) e;
      succeeds = λ s i e. succeeds_of Post (cond s) (ends s i) e;
      post_leave = leaves;
      post_wake = wakes;
    }

    pops_end :
        IsQueue q0
        → (s : S) → Followed s
        → Outcome Followed Popped (some (queue_popped h d (some c) item s))
    unfolding queue_popped
    pops_end sound0 s i =
        let fifo = push-pop-contents d d (c.get s) i.sound in
        popped-Popped sound0 (pop d (c.get s)) s fifo.1 fifo.3 i

    pushes_end :
        (a : A) (s : S)
        → Followed s
        → Outcome Followed (Pushed a) (some (queue_pushed h (some c) a s))
    unfolding queue_pushed
    pushes_end a s i =
        let fifo = push-pop-contents d a (c.get s) i.sound in
        pushed-Pushed a (push a (c.get s)) s fifo.0 fifo.2 i

    first-Followed : (s : S) → q0 ≡ c.get s → history s ≡ [] → IsQueue q0 → Followed s
    unfolding run_ops
    first-Followed s e past v = record { same = rw past (sym e); sound = subst IsQueue e v }

  module _ (steady : Steady) where
    -- mmosal_queue_pop, with any timeout, of a well-formed queue that others push to and pop from while
    -- the caller is parked, and touch in no other way. Where it reports success, what the queue held at
    -- the call and then what others pushed since is, in this order, what others popped, then the item
    -- that is in the buffer, then what the queue holds now. Where it times out the queue is the one at
    -- the call with what others did to it. Either way it is well formed.
    pub queue_pop-Outcome :
        (fuel t : ℕ) (s : S)
        → IsQueue (c.get s)
        → history s ≡ []
        → Outcome
            (Followed steady (c.get s))
            (Popped steady (c.get s))
            (queue_pop h d (some c) item fuel t s)
    unfolding queue_pop
    queue_pop-Outcome fuel t s v past =
        let q = c.get s in
        wait-Outcome h (queue_popped h d (some c) item) (Followed steady q) (Popped steady q)
          (queue_rule steady q (queue_popped h d (some c) item) (Popped steady q)
            (pops_end steady q v)
            (λ s. Leaves-Popped steady q (steady.item_leave s) (steady.leave s))
            (λ s. Leaves-Popped steady q (steady.item_wake s) (steady.wake s)))
          fuel t s (first-Followed steady q s refl past v)

    -- mmosal_queue_push, with any timeout, of such a queue: where it reports success the queue that
    -- others left had room, and the item is behind all that it held; where it times out the queue is
    -- the one at the call with what others did to it. Either way it is well formed.
    pub queue_push-Outcome :
        (a : A) (fuel t : ℕ) (s : S)
        → IsQueue (c.get s)
        → history s ≡ []
        → Outcome
            (Followed steady (c.get s))
            (Pushed steady (c.get s) a)
            (queue_push h (some c) a fuel t s)
    unfolding queue_push
    queue_push-Outcome a fuel t s v past =
        let q = c.get s in
        wait-Outcome h (queue_pushed h (some c) a) (Followed steady q) (Pushed steady q a)
          (queue_rule steady q (queue_pushed h (some c) a) (Pushed steady q a)
            (pushes_end steady q a) (λ s. Leaves-Pushed steady q a (steady.leave s))
            (λ s. Leaves-Pushed steady q a (steady.wake s)))
          fuel t s (first-Followed steady q s refl past v)
