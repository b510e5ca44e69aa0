-- ===== src/Osal/Sync/Nesting.antt =====
-- The critical sections of mm_halow_osal.c nest.
use mm_halow_driver.Base.{ℕ, suc, ◌+◌, ◌-◌, ◌<◌, ◌^◌, ◌≡◌, Bool, true, List, [], ◌∷◌, arith}
use mm_halow_driver.Osal.Sync.{Critical, enter_critical, exit_critical}

pub data CriticalCall : Type 0 where
  enters exits : CriticalCall

unfoldable pub run_critical : List CriticalCall → Critical → Critical
run_critical [] c = c
run_critical (enters ∷ cs) c = run_critical cs (enter_critical c)
run_critical (exits ∷ cs) c = run_critical cs (exit_critical c)

-- How deep the sections are nested, where an exit without a section is ignored.
pub depth_after : List CriticalCall → ℕ → ℕ
depth_after [] d = d
depth_after (enters ∷ cs) d = depth_after cs (d + 1)
depth_after (exits ∷ cs) d = depth_after cs (d - 1)

unfoldable pub enters_of : List CriticalCall → ℕ
enters_of [] = 0
enters_of (enters ∷ cs) = suc (enters_of cs)
enters_of (exits ∷ cs) = enters_of cs

-- `d` sections are open over interrupts that were masked or not, as `before` says.
pub record IsNested (before : Bool) (d : ℕ) (c : Critical) : Type 0 where
  pub nesting : c.nesting ≡ d
  pub outside : d ≡ 0 → c.masked ≡ before
  pub inside : 0 < d → (c.masked ≡ true) × (c.saved ≡ before)

enter-IsNested :
    (before : Bool) (d : ℕ) (c : Critical)
    → d + 1 < 2 ^ 32
    → IsNested before d c
    → IsNested before (d + 1) (enter_critical c)
unfolding enter_critical
enter-IsNested before d c h v = ground arith

exit-IsNested :
    (before : Bool) (d : ℕ) (c : Critical)
    → IsNested before d c
    → IsNested before (d - 1) (exit_critical c)
unfolding exit_critical
exit-IsNested before d c v = ground arith

-- Any sequence of mmosal_task_enter_critical and mmosal_task_exit_critical, with fewer than 2^32
-- entries: interrupts are masked while a section is open, and as they were before the first one
-- as soon as none is.
pub run_critical-IsNested :
    (before : Bool) (cs : List CriticalCall) (d : ℕ) (c : Critical)
    → IsNested before d c
    → d + enters_of cs < 2 ^ 32
    → IsNested before (depth_after cs d) (run_critical cs c)
unfolding run_critical depth_after enters_of
run_critical-IsNested before [] d c v h = v
run_critical-IsNested before (enters ∷ cs) d c v h =
    run_critical-IsNested before cs (d + 1) (enter_critical c)
      (enter-IsNested before d c (omega arith) v) (omega arith)
run_critical-IsNested before (exits ∷ cs) d c v h =
    run_critical-IsNested before cs (d - 1) (exit_critical c) (exit-IsNested before d c v)
      (omega arith)
