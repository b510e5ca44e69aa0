-- ===== src/Osal/Log.antt =====
-- mmosal_printf of mm_halow_osal.c: the budget of log lines per second.
use mm_halow_driver.Base.{
  ℕ, suc, ◌+◌, ◌-◌, ◌<◌, ◌≡◌, ◌^◌, refl, Bool, true, false, Option, none, some, List, [], ◌∷◌,
  arith, ltb, leb, if◌then◌else◌, ◌==◌, add32, sub32, min, Bool-cases, inl, inr,
}

-- MM_HALOW_LOG_LINES_PER_S
abbrev pub lines_per_s : ℕ
lines_per_s = 20

-- The static variables of mmosal_printf.
pub record Log : Type 0 where
  pub window_start : ℕ
  pub lines : ℕ
  pub dropped : ℕ

-- What a call writes: the note on dropped lines, and the line itself.
pub record Written : Type 0 where
  pub note : Option ℕ
  pub line : Bool

-- The test of the window, with the note.
pub open_window : ℕ → Log → Option ℕ × Log
open_window now l =
    if leb 1000 (sub32 now l.window_start)
    then (
      (if l.dropped == 0 then none else some l.dropped),
      record { window_start = now; lines = 0; dropped = 0 },
    )
    else (none, l)

-- mmosal_printf, at the clock reading `now`
pub printf : ℕ → Log → Written × Log
unfolding open_window
printf now l =
    let (note, l1) = open_window now l in
    let lines = add32 l1.lines 1 in
    if ltb lines_per_s lines
    then (
      record { note = note; line = false },
      record l1 { lines = lines; dropped = add32 l1.dropped 1 },
    )
    else (record { note = note; line = true }, record l1 { lines = lines })

-- The lines that a run of calls, at the given times, writes and drops.
pub record Count : Type 0 where
  pub written : ℕ
  pub lost : ℕ

pub count_lines : List ℕ → Log → Count × Log
count_lines [] l = (record { written = 0; lost = 0 }, l)
count_lines (t ∷ ts) l =
    let (w, l1) = printf t l in
    let (c, l2) = count_lines ts l1 in
    ((if w.line then record c { written = c.written + 1 } else record c { lost = c.lost + 1 }), l2)

-- All times lie in the window that is open.
abbrev pub InWindow : List ℕ → Log → Type 0
InWindow [] l = Unit
InWindow (t ∷ ts) l = (sub32 t l.window_start < 1000) × InWindow ts l

abbrev pub calls_of : List ℕ → ℕ
calls_of [] = 0
calls_of (t ∷ ts) = suc (calls_of ts)

-- A call inside the window.
record Printed (l : Log) (r : Written × Log) : Type 0 where
  line : r.0.line ≡ leb (l.lines + 1) lines_per_s
  start : r.1.window_start ≡ l.window_start
  lines : r.1.lines ≡ l.lines + 1
  dropped : r.1.dropped ≡ l.lines + 1 - lines_per_s

printf-Printed :
    (t : ℕ) (l : Log)
    → sub32 t l.window_start < 1000
    → l.lines + 1 < 2 ^ 32
    → l.dropped ≡ l.lines - lines_per_s
    → Printed l (printf t l)
unfolding printf open_window
printf-Printed t l i h d = ground arith

InWindow-start :
    (ts : List ℕ) (l l' : Log) → l'.window_start ≡ l.window_start → InWindow ts l → InWindow ts l'
InWindow-start [] l l' e i = tt
InWindow-start (t ∷ ts) l l' e i = (omega (arith, e, i.0), InWindow-start ts l l' e i.1)

-- Within one window of a second at most MM_HALOW_LOG_LINES_PER_S lines are written, counting the
-- `lines` before, all calls beyond those are dropped, and `dropped` counts just these.
pub count_lines-window :
    (ts : List ℕ) (l : Log)
    → InWindow ts l
    → l.lines + calls_of ts < 2 ^ 32
    → l.dropped ≡ l.lines - lines_per_s
    → let (c, l') = count_lines ts l in
      (c.written + min l.lines lines_per_s ≡ min (l.lines + calls_of ts) lines_per_s)
      × (c.written + c.lost ≡ calls_of ts)
      × (l'.dropped ≡ l'.lines - lines_per_s)
      × (l'.lines ≡ l.lines + calls_of ts)
unfolding count_lines
count_lines-window [] l i h d = (omega arith, refl, d, omega arith)
count_lines-window (t ∷ ts) l i h d =
    let p = printf-Printed t l i.0 (omega arith) d in
    let rest =
      count_lines-window ts (printf t l).1 (InWindow-start ts l (printf t l).1 p.start i.1)
        (omega (arith, p.lines)) (omega (arith, p.lines, p.dropped)) in
    elim (Bool-cases (leb (l.lines + 1) lines_per_s)) [
      | inl e ↦ rw (p.line, e) (ground (arith, rest, p.lines))
      | inr e ↦ rw (p.line, e) (ground (arith, rest, p.lines))
    ]
