-- ===== src/Osal/Objects.antt =====
-- How the objects of mm_halow_osal.c are made in the driver's heap and given back to it. A pointer to
-- an object is its address, and none is the null pointer.
use mm_halow_driver.Base.{
  ℕ, ◌≡◌, refl, Bool, false, Option, none, some, List, arith, ap, inl, inr, Bool-cases, sym, ◌∙◌,
  ◌==◌, ◌&&◌, ltb, not, ◌/◌, ◌-◌, ◌+◌, ◌*◌, u32, u32_max,
}
use mm_halow_driver.Heap.{Heap, malloc, free}
use mm_halow_driver.Heap.Invariant.{IsHeap}
use mm_halow_driver.Heap.RoundTrip.{free-malloc}
use mm_halow_driver.Osal.Sync.{Mutex, new_mutex, Sem, new_sem}
use mm_halow_driver.Osal.Queue.{create, set_up, queue_struct}
use mm_halow_driver.Osal.Timers.{
  Timer, timer_create, timer_delete, add_timer, unlink_timer, timer_struct,
}

-- sizeof(struct mmosal_mutex), sizeof(struct mmosal_sem) and sizeof(struct mmosal_semb)
abbrev pub mutex_struct : ℕ
mutex_struct = 12

abbrev pub sem_struct : ℕ
sem_struct = 8

abbrev pub semb_struct : ℕ
semb_struct = 1

-- An object at the address that the heap gave, if it gave one.
abbrev pub set_at : {A : Type 0} → A → Option ℕ × Heap → Option (ℕ × A) × Heap
set_at a (none, h) = (none, h)
set_at a (some p, h) = (some (p, a), h)

-- mmosal_mutex_create; `unset` is what `taken_ms` holds before it is set.
pub mutex_create : ℕ → Heap → Option (ℕ × Mutex) × Heap
mutex_create unset h = set_at (new_mutex unset) (malloc mutex_struct h)

-- mmosal_mutex_delete
pub mutex_delete : Option ℕ → Heap → Heap
mutex_delete p h = free p h

-- mmosal_sem_create
pub sem_create : ℕ → ℕ → Heap → Option (ℕ × Sem) × Heap
sem_create max_count initial_count h =
    set_at (new_sem max_count initial_count) (malloc sem_struct h)

-- mmosal_sem_delete
pub sem_delete : Option ℕ → Heap → Heap
sem_delete p h = free p h

-- mmosal_semb_create; the object is its `signalled`.
pub semb_create : Heap → Option (ℕ × Bool) × Heap
semb_create h = set_at false (malloc semb_struct h)

-- mmosal_semb_delete
pub semb_delete : Option ℕ → Heap → Heap
semb_delete p h = free p h

-- mmosal_queue_delete
pub queue_delete : Option ℕ → Heap → Heap
queue_delete p h = free p h

-- What an object is made with: the arguments of its mmosal_..._create.
pub data Kind : Type 0 where
  mutex : ℕ → Kind
  sem : ℕ → ℕ → Kind
  semb : Kind
  queue : ℕ → ℕ → Kind
  timer : ℕ → ℕ → Bool → ℕ → ℕ → Kind

abbrev address : {A : Type 0} → Option (ℕ × A) × Heap → List Timer → Option ℕ × Heap × List Timer
address (none, h) ts = (none, h, ts)
address (some (p, a), h) ts = (some p, h, ts)

-- The mmosal_..._create of a kind, over the heap and the list of the timers.
unfoldable pub make : Kind → Heap → List Timer → Option ℕ × Heap × List Timer
make (mutex unset) h ts = address (mutex_create unset h) ts
make (sem max_count initial_count) h ts = address (sem_create max_count initial_count h) ts
make semb h ts = address (semb_create h) ts
make (queue n size) h ts = address (create {A = ℕ} 0 n size h) ts
make (timer name period auto arg callback) h ts = timer_create name period auto arg callback h ts

-- The mmosal_..._delete of a kind.
pub dispose : Kind → Option ℕ → Heap → List Timer → Heap × List Timer
dispose (mutex unset) p h ts = (mutex_delete p h, ts)
dispose (sem max_count initial_count) p h ts = (sem_delete p h, ts)
dispose semb p h ts = (semb_delete p h, ts)
dispose (queue n size) p h ts = (queue_delete p h, ts)
dispose (timer name period auto arg callback) p h ts = timer_delete p h ts

address-set_at :
    {A : Type 0} (a : A) (r : Option ℕ × Heap) (ts : List Timer)
    → address (set_at a r) ts ≡ (r.0, r.1, ts)
address-set_at a (none, h) ts = refl
address-set_at a (some p, h) ts = refl

address-set_up :
    (n size : ℕ) (r : Option ℕ × Heap) (ts : List Timer)
    → address (set_up {A = ℕ} 0 n size r) ts ≡ (r.0, r.1, ts)
address-set_up n size (none, h) ts = refl
address-set_up n size (some p, h) ts = refl

-- Memory `r` of the heap that leaves the timers alone.
abbrev Gives : Option ℕ × Heap → List Timer → ℕ → Heap → List Timer → Type 0
Gives r ts p h' ts' = ◌≡◌ {A = Option ℕ × Heap × List Timer} (r.0, r.1, ts) (some p, h', ts')

-- What the heap gave is given back to it.
returned :
    {base : ℕ} (n : ℕ) (h : Heap) (ts : List Timer) (p : ℕ) (h' : Heap) (ts' : List Timer)
    → IsHeap base h
    → Gives (malloc n h) ts p h' ts'
    → ◌≡◌ {A = Heap × List Timer} (free (some p) h', ts') (h, ts)
returned n h ts p h' ts' v e =
    λ i. (free-malloc n p h' v (λ j. ((e j).0, (e j).1)) i, sym (ap (λ x. x.2) e) i)

-- The timer that stands in front is the one that is taken out of the list.
timer_listed :
    (name period : ℕ) (auto : Bool) (arg callback : ℕ) (h : Heap) (ts : List Timer)
    (r : Option ℕ × Heap) (p : ℕ) (h' : Heap) (ts' : List Timer)
    → add_timer name period auto arg callback ts r ≡ (some p, h', ts')
    → Gives r ts p h' (unlink_timer p ts')
unfolding add_timer unlink_timer
timer_listed name period auto arg callback h ts (none, g) p h' ts' e = absurd cc
timer_listed name period auto arg callback h ts (some q, g) p h' ts' e = ground arith

-- An object that was made and is given back at once leaves the heap, block for block, and the list of the
-- timers as they were.
pub dispose-make :
    {base : ℕ} (k : Kind) (h : Heap) (ts : List Timer) (p : ℕ) (h' : Heap) (ts' : List Timer)
    → IsHeap base h
    → make k h ts ≡ (some p, h', ts')
    → dispose k (some p) h' ts' ≡ (h, ts)
unfolding make dispose mutex_create sem_create semb_create mutex_delete sem_delete semb_delete
    queue_delete create timer_create timer_delete
dispose-make (mutex unset) h ts p h' ts' v e =
    returned mutex_struct h ts p h' ts' v
      (sym (address-set_at (new_mutex unset) (malloc mutex_struct h) ts) ∙ e)
dispose-make (sem max_count initial_count) h ts p h' ts' v e =
    returned sem_struct h ts p h' ts' v
      (sym (address-set_at (new_sem max_count initial_count) (malloc sem_struct h) ts) ∙ e)
dispose-make semb h ts p h' ts' v e =
    returned semb_struct h ts p h' ts' v (sym (address-set_at false (malloc semb_struct h) ts) ∙ e)
dispose-make (queue n size) h ts p h' ts' v e =
    elim (Bool-cases (not (size == 0) && ltb ((u32_max - queue_struct) / size) n)) [
      | inl over ↦ absurd (ground (arith, e, over))
      | inr fits ↦
          let n' = u32 (queue_struct + n * size) in
          returned n' h ts p h' ts' v (sym (address-set_up n size (malloc n' h) ts) ∙ rw fits at e)
    ]
dispose-make (timer name period auto arg callback) h ts p h' ts' v e =
    returned timer_struct h ts p h' (unlink_timer p ts') v
      (timer_listed name period auto arg callback h ts (malloc timer_struct h) p h' ts' e)
