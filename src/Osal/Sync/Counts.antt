-- ===== src/Osal/Sync/Counts.antt =====
-- What the counting and the binary semaphores of mm_halow_osal.c count.
use mm_halow_driver.Base.{ℕ, ◌+◌, ◌≤◌, ◌≡◌, List, [], ◌∷◌, arith, if◌then◌else◌}
use mm_halow_driver.Osal.Sync.{Sem, sem_give, sem_taken}

pub data SemCall : Type 0 where
  gives takes : SemCall

-- A semaphore with the calls that succeeded.
pub record Tally (B : Type 0) : Type 0 where
  pub sem : B
  pub given : ℕ
  pub taken : ℕ

pub step_sem : SemCall → Tally Sem → Tally Sem
step_sem gives t =
    let (ok, s) = sem_give t.sem in
    record t { sem = s; given = if ok then t.given + 1 else t.given }
step_sem takes t =
    let (ok, s) = sem_taken t.sem in
    record t { sem = s; taken = if ok then t.taken + 1 else t.taken }

unfoldable pub run_sem : List SemCall → Tally Sem → Tally Sem
run_sem [] t = t
run_sem (c ∷ cs) t = run_sem cs (step_sem c t)

-- Nothing is lost and nothing appears: what was given since `first` is taken or still there.
pub record IsBalanced (max_count first : ℕ) (t : Tally Sem) : Type 0 where
  pub max_kept : t.sem.max_count ≡ max_count
  pub balance : t.sem.count + t.taken ≡ first + t.given
  pub bounded : t.sem.count ≤ max_count

step_sem-IsBalanced :
    (m f : ℕ) (c : SemCall) (t : Tally Sem) → IsBalanced m f t → IsBalanced m f (step_sem c t)
unfolding step_sem sem_give sem_taken
step_sem-IsBalanced m f gives t v = ground arith
step_sem-IsBalanced m f takes t v = ground arith

-- Over any sequence of mmosal_sem_give and successful or failing takes the count is what was there
-- at first and what was given, less what was taken, and never more than the maximum.
pub run_sem-IsBalanced :
    (m f : ℕ) (cs : List SemCall) (t : Tally Sem) → IsBalanced m f t → IsBalanced m f (run_sem cs t)
unfolding run_sem
run_sem-IsBalanced m f [] t v = v
run_sem-IsBalanced m f (c ∷ cs) t v =
    run_sem-IsBalanced m f cs (step_sem c t) (step_sem-IsBalanced m f c t v)
