-- ===== src/Sched/Service.antt =====
-- The claim on the transceiver of mm_halow_sched.c: who may service it, and for how long.
use mm_halow_driver.Base.{
  ℕ, zero, suc, ◌+◌, ◌-◌, ◌%◌, ◌<◌, ◌≡◌, refl, Bool, true, false, ◌⊎◌, arith, ltb, ◌==◌,
  if◌then◌else◌,
}
use mm_halow_driver.Sched.{Sched, Owner, nobody, thread, irq}

-- The context a call comes from, by mm_halow_in_irq().
pub data Context : Type 0 where
  from_thread from_irq : Context

abbrev pub owner_of : Context → Owner
owner_of from_thread = thread
owner_of from_irq = irq

-- `owner == MM_HALOW_OWNER_NONE || owner == caller`
abbrev pub admits : Owner → Context → Bool
admits nobody c = true
admits thread from_thread = true
admits thread from_irq = false
admits irq from_thread = false
admits irq from_irq = true

-- mm_halow_sched_claim; `mm_halow_service_depth` is a uint8_t.
unfoldable pub claim : Context → Sched → Bool × Sched
claim c s =
    if admits s.owner c
    then (true, record s { owner = owner_of c; depth = (s.depth + 1) % 256 })
    else (false, s)

-- mm_halow_sched_release
unfoldable pub release : Sched → Sched
release s =
    if ltb 0 s.depth
    then record s { depth = s.depth - 1; owner = if s.depth - 1 == 0 then nobody else s.owner }
    else s

-- The scheduler, and how many claims each context was granted and has not released.
pub record World : Type 0 where
  pub sched : Sched
  pub by_thread : ℕ
  pub by_irq : ℕ

abbrev pub held_by : Context → World → ℕ
held_by from_thread w = w.by_thread
held_by from_irq w = w.by_irq

abbrev pub count_claim : Context → Bool × Sched → World → World
count_claim from_thread (true, s) w = record w { sched = s; by_thread = w.by_thread + 1 }
count_claim from_irq (true, s) w = record w { sched = s; by_irq = w.by_irq + 1 }
count_claim c (false, s) w = record w { sched = s }

abbrev pub count_release : Context → Sched → World → World
count_release from_thread s w = record w { sched = s; by_thread = w.by_thread - 1 }
count_release from_irq s w = record w { sched = s; by_irq = w.by_irq - 1 }

-- A step of either context, in any order. A context releases only what it was granted; that claims
-- nest less than 255 deep is the callers' business, and a premise.
pub data Step (w : World) : World → Type 0 where
  claims : (c : Context) → w.sched.depth < 255 → Step w (count_claim c (claim c w.sched) w)
  releases : (c : Context) → 0 < held_by c w → Step w (count_release c (release w.sched) w)

pub data Reach (w : World) : World → Type 0 where
  here : Reach w w
  next : {u v : World} → Reach w u → Step u v → Reach w v

-- The depth counts the claims that are held, and the owner is the one context that holds any.
pub record IsExclusive (w : World) : Type 0 where
  pub counted : w.sched.depth ≡ w.by_thread + w.by_irq
  pub one_owner : (w.by_thread ≡ 0) ⊎ (w.by_irq ≡ 0)
  pub nobodys : w.sched.owner ≡ nobody → w.by_thread + w.by_irq ≡ 0
  pub threads : w.sched.owner ≡ thread → 0 < w.by_thread
  pub irqs : w.sched.owner ≡ irq → 0 < w.by_irq

Step-IsExclusive : {w v : World} → Step w v → IsExclusive w → IsExclusive v
unfolding claim release
Step-IsExclusive (claims from_thread h) x = ground arith
Step-IsExclusive (claims from_irq h) x = ground arith
Step-IsExclusive (releases from_thread h) x = ground arith
Step-IsExclusive (releases from_irq h) x = ground arith

-- Over any interleaving of claims and releases in which a claim is tried only while fewer than 255
-- are held, and a context releases only a claim that it was granted and still holds, at most one
-- context holds the transceiver, and the depth and the owner that mm_halow_sched.c keeps are exactly
-- those of the claims that are held, if that was so at the start.
pub Reach-IsExclusive : {w v : World} → Reach w v → IsExclusive w → IsExclusive v
Reach-IsExclusive here x = x
Reach-IsExclusive (next r st) x = Step-IsExclusive st (Reach-IsExclusive r x)

abbrev pub other : Context → Context
other from_thread = from_irq
other from_irq = from_thread

-- While one context holds a claim the other is refused and nothing changes, and the holder itself
-- is granted a nested one.
pub claim_while_held :
    (c : Context) (w : World)
    → IsExclusive w
    → 0 < held_by c w
    → (claim (other c) w.sched ≡ (false, w.sched)) × ((claim c w.sched).0 ≡ true)
unfolding claim
claim_while_held from_thread w x h = ground arith
claim_while_held from_irq w x h = ground arith

pub claim_times : ℕ → Context → Sched → Sched
claim_times zero c s = s
claim_times (suc n) c s = (claim c (claim_times n c s)).1

pub release_times : ℕ → Sched → Sched
release_times zero s = s
release_times (suc n) s = release_times n (release s)

-- `n` nested claims of `c` on a free transceiver.
record Nested (n : ℕ) (c : Context) (s : Sched) : Type 0 where
  depth : s.depth ≡ n
  owner : s.owner ≡ (if n == 0 then nobody else owner_of c)

claim-Nested :
    (n : ℕ) (c : Context) (s : Sched)
    → n < 255
    → Nested n c s
    → Nested (suc n) c (claim c s).1 × (release (claim c s).1 ≡ s)
unfolding claim release
claim-Nested n from_thread s h v = ground arith
claim-Nested n from_irq s h v = ground arith

claim_times-Nested :
    (n : ℕ) (c : Context) (s : Sched) → n < 256 → Nested 0 c s → Nested n c (claim_times n c s)
unfolding claim_times
claim_times-Nested zero c s h v = v
claim_times-Nested (suc n) c s h v =
    (claim-Nested n c _ (omega arith) (claim_times-Nested n c s (omega arith) v)).0

-- A free transceiver that one context claims up to 255 times, and releases as often, is free again
-- and the scheduler is as it was.
pub release-claim_times :
    (n : ℕ) (c : Context) (s : Sched)
    → n < 256
    → s.owner ≡ nobody
    → s.depth ≡ 0
    → release_times n (claim_times n c s) ≡ s
unfolding release_times claim_times
release-claim_times zero c s h o d = refl
release-claim_times (suc n) c s h o d =
    rw
      ((claim-Nested n c _ (omega arith)
        (claim_times-Nested n c s (omega arith) (record { depth = d; owner = o }))).1)
      (release-claim_times n c s (omega arith) o d)

-- At 256 nested claims the uint8_t depth wraps to 0 while the owner stays, so that a release no
-- longer gives the transceiver back.
pub depth_wraps :
    (c : Context) (s : Sched)
    → s.depth ≡ 255
    → s.owner ≡ owner_of c
    → release (claim c s).1 ≡ record s { depth = 0 }
unfolding claim release
depth_wraps from_thread s d o = ground arith
depth_wraps from_irq s d o = ground arith
