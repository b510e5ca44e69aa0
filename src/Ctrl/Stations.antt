-- ===== src/Ctrl/Stations.antt =====
-- The stations of the access point, as mm_halow_ap_sta_status_cb keeps them. A MAC address is a
-- number; `ap_stas` with `ap_sta_count` is a list. MM_HALOW_AP_MAX_STAS is morselib's, the parameter `max`.
pub mod View
use mm_halow_driver.Base.{
  ℕ, ◌-◌, ◌≤◌, ◌≡◌, ◌≢◌, inl, inr, refl, Bool, true, false, ◌&&◌, ◌||◌, List, [], ◌∷◌, ◌++◌, arith,
  ltb, ◌==◌, if◌then◌else◌, length, length-append, count, count-append, take, min, Bool-cases,
}

-- `memcmp(self->ap_stas[i], mac, 6) == 0` for some `i`
pub is_listed : ℕ → List ℕ → Bool
is_listed a [] = false
is_listed a (x ∷ xs) = if x == a then true else is_listed a xs

-- The memmove over the entry that was found.
pub remove : ℕ → List ℕ → List ℕ
remove a [] = []
remove a (x ∷ xs) = if x == a then xs else x ∷ remove a xs

-- mm_halow_ap_sta_status_cb, for the station `a`; `authorized` is
-- `status->state == MMWLAN_AP_STA_AUTHORIZED`.
pub sta_status : ℕ → ℕ → Bool → List ℕ → List ℕ
sta_status max a authorized xs =
    if is_listed a xs
    then (if authorized then xs else remove a xs)
    else if authorized && ltb (length xs) max
    then xs ++ a ∷ []
    else xs

-- mm_halow_wifi_ap_get_stas: how many stations it reports of at most `n`, and which.
pub get_stas : ℕ → List ℕ → ℕ × List ℕ
get_stas n xs = (min n (length xs), take (min n (length xs)) xs)

-- The list fits the array, and names no station twice.
pub record IsRoster (max : ℕ) (xs : List ℕ) : Type 0 where
  pub bounded : length xs ≤ max
  pub once : (a : ℕ) → count a xs ≤ 1

pub is_listed-count : (a : ℕ) (xs : List ℕ) → is_listed a xs ≡ ltb 0 (count a xs)
unfolding is_listed
is_listed-count a [] = refl
is_listed-count a (x ∷ xs) = ground (arith, is_listed-count a xs)

count-remove :
    (a b : ℕ) (xs : List ℕ)
    → count b (remove a xs) ≡ (if a == b then count b xs - 1 else count b xs)
unfolding remove
count-remove a b [] = ground arith
count-remove a b (x ∷ xs) = ground (arith, count-remove a b xs)

pub length-remove : (a : ℕ) (xs : List ℕ) → length (remove a xs) ≤ length xs
unfolding remove
length-remove a [] = omega arith
length-remove a (x ∷ xs) = ground (arith, length-remove a xs)

-- A status change keeps the list within the array and free of duplicates. The station it is about
-- is listed afterwards exactly if it is authorized and was listed before or found room; every other
-- station is listed as before.
pub sta_status-IsRoster :
    (max a : ℕ) (authorized : Bool) (xs : List ℕ)
    → IsRoster max xs
    → IsRoster max (sta_status max a authorized xs)
      × (is_listed a (sta_status max a authorized xs)
          ≡ (authorized && (is_listed a xs || ltb (length xs) max)))
      × ((b : ℕ) → a ≢ b → is_listed b (sta_status max a authorized xs) ≡ is_listed b xs)
unfolding sta_status
sta_status-IsRoster max a authorized xs v = elim (Bool-cases (is_listed a xs)) [
  | inl e ↦ elim (Bool-cases authorized) [
    | inl y ↦ rw (e, sta_status, y) (v, e, λ b ne. refl)
    | inr n ↦
        rw (e, sta_status, n)
          (
            record {
              bounded = omega (arith, v.bounded, length-remove a xs);
              once = λ b. ground (arith, v.once b, count-remove a b xs);
            },
            ground (arith, is_listed-count a (remove a xs), count-remove a a xs, v.once a),
            λ b ne.
                ground (
                  arith,
                  is_listed-count b (remove a xs),
                  is_listed-count b xs,
                  count-remove a b xs,
                ),
          )
  ]
  | inr e ↦ elim (Bool-cases (authorized && ltb (length xs) max)) [
    | inl y ↦
        rw (e, sta_status, y)
          (
            record {
              bounded = ground (arith, length-append xs (a ∷ []));
              once =
                  λ b. ground (arith, v.once b, is_listed-count a xs, count-append b xs (a ∷ []));
            },
            ground (arith, is_listed-count a (xs ++ a ∷ []), count-append a xs (a ∷ [])),
            λ b ne. ground (
              arith,
              is_listed-count b (xs ++ a ∷ []),
              is_listed-count b xs,
              count-append b xs (a ∷ []),
            ),
          )
    | inr n ↦ rw (e, sta_status, n) (v, ground arith, λ b ne. refl)
  ]
]
