-- ===== src/Pin/Segment.antt =====
-- Doubly linked segments through the link arrays of a node.
use babo_matching_engine.Prelude.{
  ℕ, ◌≡◌, ◌≢◌, refl, true, false, List, [], ◌∷◌, ◌++◌, arith, upd, upd-same, upd-other, has,
  Distinct,
}
use babo_matching_engine.Pin.{npos}

-- From slot `c`, entered from `b`, the links lead through the slots `xs` to `e`; `z` is the last
-- slot passed, or `b`.
abbrev pub Seg : (ℕ → ℕ) → (ℕ → ℕ) → ℕ → ℕ → List ℕ → ℕ → ℕ → Type 0
Seg next prev b c [] z e = (c ≡ e) × (b ≡ z)
Seg next prev b c (x ∷ xs) z e =
    (c ≡ x) × (x ≢ npos) × (prev x ≡ b) × Seg next prev x (next x) xs z e

module _ (next prev : ℕ → ℕ) where
  pub Seg-append :
      (b c : ℕ) (xs : List ℕ) (m d : ℕ) (ys : List ℕ) (z e : ℕ)
      → Seg next prev b c xs m d
      → Seg next prev m d ys z e
      → Seg next prev b c (xs ++ ys) z e
  Seg-append b c [] m d ys z e s t = rw (s.0, s.1) t
  Seg-append b c (x ∷ xs) m d ys z e s t =
      (s.0, s.1, s.2, Seg-append x (next x) xs m d ys z e s.3 t)

  -- The slot last passed and the next one, at a cut of the segment.
  pub Seg-cut :
      (b c : ℕ) (xs ys : List ℕ) (z e : ℕ)
      → Seg next prev b c (xs ++ ys) z e
      → (m : ℕ) × (d : ℕ) × Seg next prev b c xs m d × Seg next prev m d ys z e
  Seg-cut b c [] ys z e s = (b, c, (refl, refl), s)
  Seg-cut b c (x ∷ xs) ys z e s =
      let (m, d, l, r) = Seg-cut x (next x) xs ys z e s.3 in (m, d, (s.0, s.1, s.2, l), r)

  pub Seg-upd_next :
      (k v b c : ℕ) (xs : List ℕ) (z e : ℕ)
      → Seg next prev b c xs z e
      → has k xs ≡ false
      → Seg (upd next k v) prev b c xs z e
  Seg-upd_next k v b c [] z e s out = s
  Seg-upd_next k v b c (x ∷ xs) z e s out =
      let same : upd next k v x ≡ next x = upd-other next k v x (ground arith) in
      (s.0, s.1, s.2, rw same (Seg-upd_next k v x (next x) xs z e s.3 (ground arith)))

  pub Seg-upd_prev :
      (k v b c : ℕ) (xs : List ℕ) (z e : ℕ)
      → Seg next prev b c xs z e
      → has k xs ≡ false
      → Seg next (upd prev k v) b c xs z e
  Seg-upd_prev k v b c [] z e s out = s
  Seg-upd_prev k v b c (x ∷ xs) z e s out =
      let same : upd prev k v x ≡ prev x = upd-other prev k v x (ground arith) in
      (s.0, s.1, rw same s.2, Seg-upd_prev k v x (next x) xs z e s.3 (ground arith))

  -- The last slot of a nonempty segment is one of its slots.
  pub Seg-last :
      (b c x : ℕ) (xs : List ℕ) (z e : ℕ) → Seg next prev b c (x ∷ xs) z e → has z (x ∷ xs) ≡ true
  Seg-last b c x [] z e s = ground (arith, s.3.1)
  Seg-last b c x (y ∷ xs) z e s = ground (arith, Seg-last x (next x) y xs z e s.3)

  -- The end of a nonempty segment is redirected by a write at its last slot.
  pub Seg-set_end :
      (b c x : ℕ) (xs : List ℕ) (z e e' : ℕ)
      → Seg next prev b c (x ∷ xs) z e
      → Distinct (x ∷ xs)
      → Seg (upd next z e') prev b c (x ∷ xs) z e'
  Seg-set_end b c x [] z e e' s d = (s.0, s.1, s.2, (rw s.3.1 (upd-same next z e'), s.3.1))
  Seg-set_end b c x (y ∷ xs) z e e' s d =
      let there : has z (y ∷ xs) ≡ true = Seg-last x (next x) y xs z e s.3 in
      let same : upd next z e' x ≡ next x = upd-other next z e' x (ground arith) in
      (s.0, s.1, s.2, rw same (Seg-set_end x (next x) y xs z e e' s.3 d.1))

  -- The entry of a nonempty segment is redirected by a write at its first slot.
  pub Seg-set_start :
      (b b' c x : ℕ) (xs : List ℕ) (z e : ℕ)
      → Seg next prev b c (x ∷ xs) z e
      → Distinct (x ∷ xs)
      → Seg next (upd prev x b') b' c (x ∷ xs) z e
  Seg-set_start b b' c x xs z e s d =
      (s.0, s.1, upd-same prev x b', Seg-upd_prev x b' x (next x) xs z e s.3 d.0)

  -- A segment cut behind one of its slots.
  pub Seg-cut_at :
      (b c : ℕ) (xs : List ℕ) (r : ℕ) (ys : List ℕ) (z e : ℕ)
      → Seg next prev b c (xs ++ r ∷ ys) z e
      → Seg next prev b c (xs ++ r ∷ []) r (next r) × Seg next prev r (next r) ys z e
  Seg-cut_at b c [] r ys z e s = ((s.0, s.1, s.2, (refl, refl)), s.3)
  Seg-cut_at b c (x ∷ xs) r ys z e s =
      let (l, t) = Seg-cut_at x (next x) xs r ys z e s.3 in ((s.0, s.1, s.2, l), t)

  -- No slot of a segment is `npos`.
  pub Seg-ne_npos :
      (b c : ℕ) (xs : List ℕ) (z e a : ℕ) → Seg next prev b c xs z e → has a xs ≡ true → a ≢ npos
  Seg-ne_npos b c [] z e a s m = cc
  Seg-ne_npos b c (x ∷ xs) z e a s m = ground (arith, s.1, Seg-ne_npos x (next x) xs z e a s.3)
