-- ===== src/Sched/Switch/Memory.antt =====
-- Words that are written to memory and read back.
use mm_halow_driver.Base.{
  ℕ, zero, suc, ◌+◌, ◌*◌, ◌≤◌, ◌<◌, ◌≡◌, ◌⊎◌, refl, ap, ap₂, subst, ◌∙◌, List, [], ◌∷◌, ◌++◌, arith,
  inl, inr, length, drop, get_or, ◌==◌, if◌then◌else◌,
}
use mm_halow_driver.Sched.Switch.{write, read}

-- An address outside of `n` words from the address `a`.
abbrev pub Outside : ℕ → ℕ → ℕ → Type 0
Outside a n x = (x < a) ⊎ (a + 4 * n ≤ x)

-- Two areas of `n` and `k` words that do not meet.
abbrev pub Apart : ℕ → ℕ → ℕ → ℕ → Type 0
Apart a n b k = (a + 4 * n ≤ b) ⊎ (b + 4 * k ≤ a)

pub write-outside :
    (a : ℕ) (ws : List ℕ) (m : ℕ → ℕ) (x : ℕ) → Outside a (length ws) x → write a ws m x ≡ m x
unfolding write
write-outside a [] m x o = refl
write-outside a (w ∷ ws) m x o =
    write-outside (a + 4) ws (λ y. if y == a then w else m y) x (beyond o) ∙ ground (arith, o)
  where
    beyond : Outside a (length (w ∷ ws)) x → Outside (a + 4) (length ws) x
    beyond (inl h) = inl (omega arith)
    beyond (inr h) = inr (omega arith)

pub read-write : (a : ℕ) (ws : List ℕ) (m : ℕ → ℕ) → read (write a ws m) a (length ws) ≡ ws
unfolding read write
read-write a [] m = refl
read-write a (w ∷ ws) m =
    ap₂ (λ x xs. x ∷ xs)
      (write-outside (a + 4) ws (λ y. if y == a then w else m y) a (inl (omega arith))
        ∙ ground arith)
      (read-write (a + 4) ws (λ y. if y == a then w else m y))

pub read-write_prefix :
    (a : ℕ) (ws vs : List ℕ) (m : ℕ → ℕ) → read (write a (ws ++ vs) m) a (length ws) ≡ ws
unfolding read write
read-write_prefix a [] vs m = refl
read-write_prefix a (w ∷ ws) vs m =
    ap₂ (λ x xs. x ∷ xs)
      (write-outside (a + 4) (ws ++ vs) (λ y. if y == a then w else m y) a (inl (omega arith))
        ∙ ground arith)
      (read-write_prefix (a + 4) ws vs (λ y. if y == a then w else m y))

pub write-last :
    (a : ℕ) (ws : List ℕ) (w : ℕ) (m : ℕ → ℕ) → write a (ws ++ w ∷ []) m (a + 4 * length ws) ≡ w
unfolding write
write-last a [] w m = ground arith
write-last a (v ∷ ws) w m =
    ap (write (a + 4) (ws ++ w ∷ []) (λ y. if y == a then v else m y)) (omega arith)
    ∙ write-last (a + 4) ws w (λ y. if y == a then v else m y)

pub read-same :
    (m m' : ℕ → ℕ) (a n : ℕ)
    → ((x : ℕ) → a ≤ x → x < a + 4 * n → m' x ≡ m x)
    → read m' a n ≡ read m a n
unfolding read
read-same m m' a zero h = refl
read-same m m' a (suc n) h =
    ap₂ (λ x xs. x ∷ xs) (h a (omega arith) (omega arith))
      (read-same m m' (a + 4) n (λ x l u. h x (omega arith) (omega arith)))

-- Outside of an area that does not meet another is the other.
pub off : (a n b k x : ℕ) → b ≤ x → x < b + 4 * k → Apart a n b k → Outside a n x
off a n b k x l u (inl h) = inr (omega arith)
off a n b k x l u (inr h) = inl (omega arith)

pub read-split :
    (m : ℕ → ℕ) (a : ℕ) (xs ys : List ℕ)
    → read m a (length (xs ++ ys)) ≡ xs ++ ys
    → (read m a (length xs) ≡ xs) × (read m (a + 4 * length xs) (length ys) ≡ ys)
unfolding read
read-split m a [] ys e = (refl, subst (λ b. read m b (length ys) ≡ ys) (omega arith) e)
read-split m a (x ∷ xs) ys e =
    let (front, back) = read-split m (a + 4) xs ys (ap (drop 1) e) in
    (
      ap₂ (λ y zs. y ∷ zs) (ap (λ l. get_or l 0 0) e) front,
      subst (λ b. read m b (length ys) ≡ ys) (omega arith) back,
    )
