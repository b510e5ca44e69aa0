-- ===== src/Hal/Ranges.antt =====
-- Bounds of the blobs, transfers and random numbers of mm_halow_hal.c.
use mm_halow_driver.Base.{
  ℕ, zero, suc, ◌+◌, ◌-◌, ◌%◌, ◌^◌, ◌≤◌, ◌<◌, ◌≡◌, ◌⊎◌, inl, inr, refl, subst, Bool-cases, none,
  some, List, [], ◌∷◌, arith, ltb, min, u32_max,
}
use native.Mathlib.Nat.{mod-lt, mod-eq_of_lt}
use native.Mathlib.Decide.{dec_lt}
use mm_halow_driver.Hal.{read_chunk, read_blob, read_buf, random_u32}

-- A read of the firmware or the board configuration stays inside the blob and within what was asked
-- for; past the end it is refused, and before it at least one byte comes back.
pub read_blob_lem :
    (start end offset requested : ℕ)
    → start ≤ end
    → 0 < requested
    → ((read_blob start end offset requested).buf ≡ none)
        × ((read_blob start end offset requested).len ≡ 0)
        × (end < start + offset)
      ⊎ ((read_blob start end offset requested).buf ≡ some (start + offset))
        × (start + offset + (read_blob start end offset requested).len ≤ end)
        × ((read_blob start end offset requested).len ≤ requested)
        × ((start + offset ≡ end) ⊎ (0 < (read_blob start end offset requested).len))
unfolding read_blob
read_blob_lem start end offset requested le pos = ground arith

-- The transfers are one behind the other, each of at most MM_HALOW_READ_CHUNK bytes, from `buf` to `end`.
pub Covers : ℕ → ℕ → List (ℕ × ℕ) → Type 0
Covers buf end [] = buf ≡ end
Covers buf end ((a, n) ∷ ts) = (a ≡ buf) × (0 < n) × (n ≤ read_chunk) × Covers (buf + n) end ts

Covers-end : (a b c : ℕ) (ts : List (ℕ × ℕ)) → b ≡ c → Covers a b ts → Covers a c ts
Covers-end a b c ts e = subst (λ k. Covers a k ts) e

read_buf-fuel : (f buf len : ℕ) → len ≤ f → Covers buf (buf + len) (read_buf f buf len)
unfolding read_buf Covers
read_buf-fuel zero buf len le = omega arith
read_buf-fuel (suc f) buf len le =
    let chunk = min len read_chunk in
    elim (Bool-cases (ltb 0 len)) [
      | inr e ↦ rw (e, read_buf, Covers) (ground arith)
      | inl e ↦
          rw (e, read_buf, Covers)
            (
              refl,
              ground arith,
              ground arith,
              Covers-end (buf + chunk) (buf + chunk + (len - chunk)) (buf + len)
                  (read_buf f (buf + chunk) (len - chunk)) (ground arith)
                  (read_buf-fuel f (buf + chunk) (len - chunk) (ground arith)),
            )
    ]

-- mmhal_wlan_spi_read_buf fills the buffer exactly, whatever its length, in pieces that fit the
-- buffer of ones that is clocked out.
pub read_buf-Covers : (buf len : ℕ) → Covers buf (buf + len) (read_buf len buf len)
read_buf-Covers buf len = read_buf-fuel len buf len (omega arith)

random_u32-span :
    (value min max : ℕ)
    → min < max
    → max < 2 ^ 32
    → max - min < u32_max
    → random_u32 value min max ≡ min + value % (max - min + 1)
unfolding random_u32
random_u32-span value min max lt top span =
    let positive : 0 < max - min + 1 = omega arith in ground (arith, mod-lt value positive)

random_u32-low : (value min max : ℕ) → max ≤ min → random_u32 value min max ≡ min
unfolding random_u32
random_u32-low value min max le = ground arith

random_u32-whole :
    (value min max : ℕ) → min < max → max - min ≡ u32_max → random_u32 value min max ≡ value
unfolding random_u32
random_u32-whole value min max lt e = ground arith

-- mmhal_random_u32 gives a number between the bounds, both included, and every such number comes
-- of some value of the source.
pub random_u32_lem :
    (min max value n : ℕ)
    → min ≤ n
    → n ≤ max
    → max < 2 ^ 32
    → value < 2 ^ 32
    → (min ≤ random_u32 value min max)
      × (random_u32 value min max ≤ max)
      × ((v : ℕ) × (v < 2 ^ 32) × (random_u32 v min max ≡ n))
random_u32_lem min max value n low high top v = elim (dec_lt min max) [
  | no eq ↦
      let same = random_u32-low value min max (omega arith) in
      (omega (arith, same), omega (arith, same), (value, v, omega (arith, same)))
  | yes lt ↦ elim (dec_lt (max - min) u32_max) [
    | yes span ↦
        let r = random_u32-span value min max lt top span in
        let s = random_u32-span (n - min) min max lt top span in
        let positive : 0 < max - min + 1 = omega arith in
        let small : n - min < max - min + 1 = omega arith in
        let below = mod-lt value positive in
        let exact = mod-eq_of_lt small in
        (omega (arith, r), omega (arith, r, below), (n - min, omega arith, omega (arith, s, exact)))
    | no whole ↦
        let r = random_u32-whole value min max lt (omega arith) in
        let s = random_u32-whole n min max lt (omega arith) in
        (omega (arith, r), omega (arith, r), (n, omega arith, s))
  ]
]
