-- ===== src/Ctrl/Channels/Choice.antt =====
-- What mm_halow_ap_channel chooses.
use mm_halow_driver.Base.{
  ℕ, zero, suc, ◌≤◌, ◌<◌, ◌≡◌, ◌≢◌, refl, subst, false, Option, none, some, List, [], ◌∷◌, ◌++◌,
  arith, inl, inr, ltb, ◌==◌, All, All-append, All-map, Bool-cases,
}
use mathlib.Core.List.{append_assoc}
use mm_halow_driver.Ctrl.Channels.{Channel, channel_from, ap_channel}

-- `d` is narrower than `c`; `d` is no wider than `c`.
abbrev pub Below : Channel → Channel → Type 0
Below c d = d.chan_bw_mhz < c.chan_bw_mhz

abbrev pub Within : Channel → Channel → Type 0
Within c d = d.chan_bw_mhz ≤ c.chan_bw_mhz

-- The choice among `cs` for the configured number: the first channel of that number, or, for zero,
-- the first of the widest; none if there is none of that number, or none at all.
pub data Chosen (num : ℕ) (cs : List Channel) : Option Channel → Type 0 where
  asked :
      (pre post : List Channel) (c : Channel)
      → num ≢ 0
      → cs ≡ pre ++ c ∷ post
      → c.s1g_chan_num ≡ num
      → All (λ (d : Channel). d.s1g_chan_num ≢ num) pre
      → Chosen num cs (some c)
  widest :
      (pre post : List Channel) (c : Channel)
      → num ≡ 0
      → cs ≡ pre ++ c ∷ post
      → All (Below c) pre
      → All (Within c) post
      → Chosen num cs (some c)
  not_offered : num ≢ 0 → All (λ (d : Channel). d.s1g_chan_num ≢ num) cs → Chosen num cs none
  nothing : num ≡ 0 → cs ≡ [] → Chosen num cs none

-- A channel in front of the rest, which is not of the number that is asked for.
Chosen-later :
    (num : ℕ) (c : Channel) (cs : List Channel) {o : Option Channel}
    → num ≢ 0
    → c.s1g_chan_num ≢ num
    → Chosen num cs o
    → Chosen num (c ∷ cs) o
Chosen-later num c cs nz ne (asked pre post d nz' e n h) =
    asked (c ∷ pre) post d nz (rw e refl) n (ne, h)
Chosen-later num c cs nz ne (widest pre post d z e h k) = absurd (nz z)
Chosen-later num c cs nz ne (not_offered nz' h) = not_offered nz (ne, h)
Chosen-later num c cs nz ne (nothing z e) = absurd (nz z)

asked-Chosen : (num : ℕ) (cs : List Channel) → num ≢ 0 → Chosen num cs (channel_from num none cs)
unfolding channel_from
asked-Chosen num [] nz = not_offered nz tt
asked-Chosen num (c ∷ cs) nz =
    rw (the_false, channel_from)
      (elim (Bool-cases (c.s1g_chan_num == num)) [
        | inl e ↦ rw e (asked [] cs c nz refl (ground arith) tt)
        | inr ne ↦ rw ne (Chosen-later num c cs nz (ground arith) (asked-Chosen num cs nz))
      ])
  where
    the_false : (num == 0) ≡ false
    the_false = ground arith

-- The search for the widest, where `b` is the widest so far, behind `pre` and in front of `mid`.
widest-Chosen :
    (pre mid rest : List Channel) (b : Channel)
    → All (Below b) pre
    → All (Within b) mid
    → Chosen 0 (pre ++ b ∷ (mid ++ rest)) (channel_from 0 (some b) rest)
unfolding channel_from
widest-Chosen pre mid [] b h k =
    widest pre (mid ++ []) b refl refl h (All-append (Within b) mid [] k tt)
widest-Chosen pre mid (r ∷ rest) b h k = elim (Bool-cases (ltb b.chan_bw_mhz r.chan_bw_mhz)) [
  | inl e ↦ rw e (
      subst (λ l. Chosen 0 l (channel_from 0 (some r) rest)) (append_assoc pre (b ∷ mid) (r ∷ rest))
        (widest-Chosen (pre ++ b ∷ mid) [] rest r
          (All-append (Below r) pre (b ∷ mid)
            (All-map (Below b) (Below r) pre (λ d lt. ground arith) h)
            (ground arith, All-map (Within b) (Below r) mid (λ d le. ground arith) k))
          tt))
  | inr e ↦ rw e (
      subst (λ l. Chosen 0 (pre ++ b ∷ l) (channel_from 0 (some b) rest))
        (append_assoc mid (r ∷ []) rest)
        (widest-Chosen pre (mid ++ r ∷ []) rest b h
          (All-append (Within b) mid (r ∷ []) k (ground arith, tt))))
]

-- mm_halow_ap_channel takes the first channel of the configured number and none if there is no
-- such channel; with no number configured it takes the first of the widest channels, and none only
-- from an empty list.
pub ap_channel-Chosen : (num : ℕ) (cs : List Channel) → Chosen num cs (ap_channel (some cs) num)
unfolding ap_channel channel_from
ap_channel-Chosen zero [] = nothing refl refl
ap_channel-Chosen zero (c ∷ cs) = widest-Chosen [] [] cs c tt tt
ap_channel-Chosen (suc n) cs = asked-Chosen (suc n) cs (omega arith)
