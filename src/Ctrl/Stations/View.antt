-- ===== src/Ctrl/Stations/View.antt =====
-- What the station list of mm_halow_ctrl.c says once its order is forgotten.
use mathlib.Core.Quot
use mathlib.Core.Quot.{Quot}
use mm_halow_driver.Base.{
  ℕ, ap, ◌+◌, ◌≤◌, ◌≡◌, refl, Bool, true, false, List, [], ◌∷◌, arith, ltb, ◌==◌, if◌then◌else◌,
  length, length-append, count, inl, inr, Bool-cases, ◌∙◌, sym,
}
use mm_halow_driver.Ctrl.Stations.{
  is_listed, is_listed-count, sta_status, length-remove, IsRoster, sta_status-IsRoster,
}

-- The calls of mm_halow_ap_sta_status_cb, one after the other: the station, and whether it is authorized.
pub run_status : ℕ → List (ℕ × Bool) → List ℕ → List ℕ
run_status max [] xs = xs
run_status max ((a, authorized) ∷ es) xs = run_status max es (sta_status max a authorized xs)

-- The last status of a station, which was `now` before.
unfoldable pub last_status : ℕ → Bool → List (ℕ × Bool) → Bool
last_status a now [] = now
last_status a now ((b, authorized) ∷ es) = last_status a (if b == a then authorized else now) es

-- The stations, in no order.
abbrev pub SameStations : List ℕ → List ℕ → Type 0
SameStations xs ys = (a : ℕ) → count a xs ≡ count a ys

abbrev pub Stations : Type 0
Stations = Quot SameStations

abbrev pub view : List ℕ → Stations
view xs = Quot.mk xs

length-sta_status :
    (max a : ℕ) (authorized : Bool) (xs : List ℕ)
    → length (sta_status max a authorized xs) ≤ length xs + 1
unfolding sta_status
length-sta_status max a authorized xs =
    ground (arith, length-remove a xs, length-append xs (a ∷ []))

-- With room for it, a station is listed exactly if its status says so.
listed_after :
    (max a : ℕ) (authorized : Bool) (xs : List ℕ) (b : ℕ)
    → IsRoster max xs
    → length xs + 1 ≤ max
    → is_listed b (sta_status max a authorized xs) ≡ (if a == b then authorized else is_listed b xs)
listed_after max a authorized xs b v room =
    let (w, own, others) = sta_status-IsRoster max a authorized xs v in
    elim (Bool-cases (a == b)) [
      | inl e ↦
          rw e
            (ap (λ c. is_listed c (sta_status max a authorized xs)) (same e) ∙ own ∙ ground arith)
      | inr ne ↦ rw ne (others b (λ e. absurd (ground arith)))
    ]
  where
    same : (a == b) ≡ true → b ≡ a
    same e = ground arith

run_status-IsRoster :
    (max : ℕ) (es : List (ℕ × Bool)) (xs : List ℕ)
    → IsRoster max xs
    → length xs + length es ≤ max
    → IsRoster max (run_status max es xs)
      × ((a : ℕ) → is_listed a (run_status max es xs) ≡ last_status a (is_listed a xs) es)
unfolding run_status last_status
run_status-IsRoster max [] xs v room = (v, λ a. refl)
run_status-IsRoster max ((a, authorized) ∷ es) xs v room =
    let (w, own, others) = sta_status-IsRoster max a authorized xs v in
    let (u, last) =
      run_status-IsRoster max es (sta_status max a authorized xs) w
        (omega (arith, length-sta_status max a authorized xs, room)) in
    (
      u,
      λ b.
          last b
          ∙ ap (λ now. last_status b now es)
              (listed_after max a authorized xs b v (omega (arith, room))),
    )

count-same :
    (max : ℕ) (xs ys : List ℕ) (a : ℕ)
    → IsRoster max xs
    → IsRoster max ys
    → is_listed a xs ≡ is_listed a ys
    → count a xs ≡ count a ys
count-same max xs ys a v w e =
    let tests : ltb 0 (count a xs) ≡ ltb 0 (count a ys) =
      sym (is_listed-count a xs) ∙ e ∙ is_listed-count a ys in
    ground (arith, v.once a, w.once a, tests)

none_listed : (max : ℕ) → IsRoster max []
none_listed max = record { bounded = omega arith; once = λ a. omega arith }

-- From an empty list on, with at most as many changes as the array has entries, the stations that
-- the driver lists depend only on the last status of each, up to order: not on how the changes of
-- different stations were interleaved, nor on what was superseded.
pub view-run_status :
    (max : ℕ) (es fs : List (ℕ × Bool))
    → length es ≤ max
    → length fs ≤ max
    → ((a : ℕ) → last_status a false es ≡ last_status a false fs)
    → view (run_status max es []) ≡ view (run_status max fs [])
unfolding is_listed
view-run_status max es fs les lfs same =
    let (v, ve) = run_status-IsRoster max es [] (none_listed max) (omega arith) in
    let (w, wf) = run_status-IsRoster max fs [] (none_listed max) (omega arith) in
    Quot.sound λ a.
      count-same max (run_status max es []) (run_status max fs []) a v w
        (ve a ∙ same a ∙ sym (wf a))
