-- ===== src/Sched/Lifetime/Fits.antt =====
-- Stacks in a heap, as maps: which slot has which stack, and which pointer has how much room.
use mm_halow_driver.Base.{
  ℕ, subst, ◌*◌, ◌≤◌, ◌≡◌, ◌≢◌, refl, sym, ◌∙◌, ap, true, false, Option, none, some, arith, inl,
  inr, ◌==◌, if◌then◌else◌, Bool-cases,
}

-- `f` gives the stack of a slot, as its address and its number of words, and `g` the bytes behind a
-- pointer that is handed out: each stack has its room, and no two slots have the same.
pub record Fits (f : ℕ → Option (ℕ × ℕ)) (g : ℕ → Option ℕ) : Type 0 where
  pub held : (i p w : ℕ) → f i ≡ some (p, w) → (m : ℕ) × (g p ≡ some m) × (w * 4 ≤ m)
  pub apart : (i j p w x : ℕ) → i ≢ j → f i ≡ some (p, w) → f j ≢ some (p, x)

pub Fits-grow :
    (f : ℕ → Option (ℕ × ℕ)) (g g' : ℕ → Option ℕ)
    → ((p m : ℕ) → g p ≡ some m → g' p ≡ some m)
    → Fits f g
    → Fits f g'
Fits-grow f g g' keeps v = record {
  held = λ i p w e. let (m, e', le) = v.held i p w e in (m, keeps p m e', le);
  apart = v.apart;
}

pub Fits-same :
    (f f' : ℕ → Option (ℕ × ℕ)) (g : ℕ → Option ℕ) → ((i : ℕ) → f' i ≡ f i) → Fits f g → Fits f' g
Fits-same f f' g same v = record {
  held = λ i p w e. v.held i p w (sym (same i) ∙ e);
  apart = λ i j p w x ne a b. v.apart i j p w x ne (sym (same i) ∙ a) (sym (same j) ∙ b);
}

-- A slot loses its stack, which goes back to the heap.
pub Fits-drop :
    (f f' : ℕ → Option (ℕ × ℕ)) (g g' : ℕ → Option ℕ) (i : ℕ)
    → ((j : ℕ) → f' j ≡ (if i == j then none else f j))
    → ((j p w m : ℕ) → i ≢ j → f j ≡ some (p, w) → g p ≡ some m → g' p ≡ some m)
    → Fits f g
    → Fits f' g'
Fits-drop f f' g g' i lost keeps v = record { held = held; apart = apart }
  where
    was : (j p w : ℕ) → f' j ≡ some (p, w) → (i ≢ j) × (f j ≡ some (p, w))
    was j p w e = elim (Bool-cases (i == j)) [
      | inl y ↦ absurd (ground (arith, lost j, e))
      | inr n ↦ (ground arith, ground (arith, lost j, e))
    ]

    held : (j p w : ℕ) → f' j ≡ some (p, w) → (m : ℕ) × (g' p ≡ some m) × (w * 4 ≤ m)
    held j p w e =
        let (ne, e') = was j p w e in
        let (m, out, le) = v.held j p w e' in (m, keeps j p w m ne e' out, le)

    apart : (j k p w x : ℕ) → j ≢ k → f' j ≡ some (p, w) → f' k ≢ some (p, x)
    apart j k p w x ne a b = v.apart j k p w x ne (was j p w a).1 (was k p x b).1

abbrev pointer : Option (ℕ × ℕ) → ℕ
pointer none = 0
pointer (some (p, w)) = p

abbrev words : Option (ℕ × ℕ) → ℕ
words none = 0
words (some (p, w)) = w

-- A slot gets a stack that nobody held.
pub Fits-add :
    (f f' : ℕ → Option (ℕ × ℕ)) (g g' : ℕ → Option ℕ) (i p w m : ℕ)
    → ((j : ℕ) → f' j ≡ (if i == j then some (p, w) else f j))
    → g p ≡ none
    → g' p ≡ some m
    → w * 4 ≤ m
    → ((q n : ℕ) → g q ≡ some n → g' q ≡ some n)
    → Fits f g
    → Fits f' g'
Fits-add f f' g g' i p w m got fresh given room keeps v = record { held = held; apart = apart }
  where
    new : (j : ℕ) → (i == j) ≡ true → f' j ≡ some (p, w)
    new j y = got j ∙ rw y refl

    old : (j : ℕ) → (i == j) ≡ false → f' j ≡ f j
    old j n = got j ∙ rw n refl

    -- The new stack is none of those that were there.
    apart_new :
        (k q x y : ℕ) → ◌≡◌ {A = Option (ℕ × ℕ)} (some (p, w)) (some (q, x)) → f k ≢ some (q, y)
    apart_new k q x y same b =
        let pq : p ≡ q = ap pointer same in let (n, out, le) = v.held k q y b in absurd cc

    held : (j q x : ℕ) → f' j ≡ some (q, x) → (n : ℕ) × (g' q ≡ some n) × (x * 4 ≤ n)
    held j q x e = elim (Bool-cases (i == j)) [
      | inl y ↦
          let same = sym (new j y) ∙ e in
          let pq : p ≡ q = ap pointer same in
          let wx : w ≡ x = ap words same in
          (m, subst (λ r. g' r ≡ some m) pq given, omega (arith, room, wx))
      | inr n ↦ let (l, out, le) = v.held j q x (sym (old j n) ∙ e) in (l, keeps q l out, le)
    ]

    apart : (j k q x y : ℕ) → j ≢ k → f' j ≡ some (q, x) → f' k ≢ some (q, y)
    apart j k q x y ne a b = elim (Bool-cases (i == j)) [
      | inl ij ↦ elim (Bool-cases (i == k)) [
        | inl ik ↦ absurd (ground arith)
        | inr nk ↦ apart_new k q x y (sym (new j ij) ∙ a) (sym (old k nk) ∙ b)
      ]
      | inr nj ↦ elim (Bool-cases (i == k)) [
        | inl ik ↦ apart_new j q y x (sym (new k ik) ∙ b) (sym (old j nj) ∙ a)
        | inr nk ↦ v.apart j k q x y ne (sym (old j nj) ∙ a) (sym (old k nk) ∙ b)
      ]
    ]
