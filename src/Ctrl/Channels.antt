-- ===== src/Ctrl/Channels.antt =====
-- The regulatory channel list in mm_halow_ctrl.c: which channel the access point takes, and which
-- channel a frequency stands for. The list itself is morselib's.
pub mod Choice
use mm_halow_driver.Base.{
  ℕ, Bool, true, false, ◌&&◌, Option, none, some, List, [], ◌∷◌, ltb, ◌==◌, if◌then◌else◌,
}

-- struct mmwlan_s1g_channel, as far as the source reads it; an operating class is none where it is
-- MMWLAN_SKIP_OP_CLASS_CHECK.
pub record Channel : Type 0 where
  pub centre_freq_hz : ℕ
  pub chan_bw_mhz : ℕ
  pub s1g_chan_num : ℕ
  pub s1g_operating_class : Option ℕ
  pub global_operating_class : ℕ

-- mm_halow_freq_to_chan
pub freq_to_chan : Option (List Channel) → ℕ → ℕ → ℕ
freq_to_chan none freq bw = 0
freq_to_chan (some []) freq bw = 0
freq_to_chan (some (c ∷ cs)) freq bw =
    if (c.centre_freq_hz == freq) && (c.chan_bw_mhz == bw)
    then c.s1g_chan_num
    else freq_to_chan (some cs) freq bw

-- `best == NULL || ch->bw_mhz > best->bw_mhz`, and the assignment
abbrev pub wider : Channel → Option Channel → Channel
wider c none = c
wider c (some b) = if ltb b.chan_bw_mhz c.chan_bw_mhz then c else b

-- The loop of mm_halow_ap_channel, at self->ap_chan_num
unfoldable pub channel_from : ℕ → Option Channel → List Channel → Option Channel
channel_from num best [] = best
channel_from num best (c ∷ cs) = elim (num == 0) [
  | true ↦ channel_from num (some (wider c best)) cs
  | false ↦ (if c.s1g_chan_num == num then some c else channel_from num best cs)
]

-- mm_halow_ap_channel
unfoldable pub ap_channel : Option (List Channel) → ℕ → Option Channel
ap_channel none num = none
ap_channel (some cs) num = channel_from num none cs

-- The operating class that mm_halow_ap_enable asks for.
pub op_class : Channel → ℕ
op_class c = elim c.s1g_operating_class [ none ↦ c.global_operating_class | some k ↦ k ]
