-- ===== src/Pin/Links.antt =====
-- The three ways to link a loose slot into the list of a node, and the way to unlink one.
use babo_matching_engine.Prelude.{
  ℕ, ◌≡◌, ◌≢◌, refl, sym, subst, ◌∙◌, true, false, List, [], ◌∷◌, ◌++◌, arith, upd, upd-same,
  upd-other, has, Distinct,
}
use babo_matching_engine.Pin.{npos}
use babo_matching_engine.Pin.Segment.{
  Seg, Seg-append, Seg-upd_next, Seg-upd_prev, Seg-last, Seg-set_end, Seg-set_start,
}

module _ (next prev : ℕ → ℕ) (s : ℕ) (valid : s ≢ npos) where
  -- A slot in front of a nonempty list.
  pub Seg-front :
      (h x : ℕ) (xs : List ℕ) (t : ℕ)
      → Seg next prev npos h (x ∷ xs) t npos
      → has s (x ∷ xs) ≡ false
      → Distinct (x ∷ xs)
      → Seg (upd next s h) (upd (upd prev s npos) h s) npos s (s ∷ x ∷ xs) t npos
  Seg-front h x xs t g out d =
      let apart : s ≢ h = ground arith in
      let entry : upd (upd prev s npos) h s s ≡ npos =
        upd-other (upd prev s npos) h s s apart ∙ upd-same prev s npos in
      let moved : Seg (upd next s h) (upd prev s npos) npos h (x ∷ xs) t npos =
        Seg-upd_prev (upd next s h) prev s npos npos h (x ∷ xs) t npos
          (Seg-upd_next next prev s h npos h (x ∷ xs) t npos g out) out in
      let after : Seg (upd next s h) (upd (upd prev s npos) x s) s h (x ∷ xs) t npos =
        Seg-set_start (upd next s h) (upd prev s npos) npos s h x xs t npos moved d in
      let same : x ≡ h = sym g.0 in
      (
        refl,
        valid,
        entry,
        subst (λ n. Seg (upd next s h) (upd (upd prev s npos) h s) s n (x ∷ xs) t npos)
            (sym (upd-same next s h))
            (subst (λ k. Seg (upd next s h) (upd (upd prev s npos) k s) s h (x ∷ xs) t npos) same
              after),
      )

  -- The part to the left of a spliced slot, ready to be followed by it.
  left_part :
      (h x : ℕ) (xs : List ℕ) (m n : ℕ)
      → Seg next prev npos h (x ∷ xs) m n
      → has s (x ∷ xs) ≡ false
      → Distinct (x ∷ xs)
      → Seg (upd (upd next s n) m s) (upd prev s m) npos h (x ∷ xs) m s
  left_part h x xs m n l out d =
      Seg-upd_prev (upd (upd next s n) m s) prev s m npos h (x ∷ xs) m s
        (Seg-set_end (upd next s n) prev npos h x xs m n s
          (Seg-upd_next next prev s n npos h (x ∷ xs) m n l out) d)
        out

  -- The links of the spliced slot itself.
  forward : (m n : ℕ) → s ≢ m → upd (upd next s n) m s s ≡ n
  forward m n h = upd-other (upd next s n) m s s h ∙ upd-same next s n

  backward : (m n : ℕ) → s ≢ n → upd (upd prev s m) n s s ≡ m
  backward m n h = upd-other (upd prev s m) n s s h ∙ upd-same prev s m

  -- A slot spliced behind a nonempty list.
  pub Seg-splice_end :
      (h x : ℕ) (xs : List ℕ) (m : ℕ)
      → Seg next prev npos h (x ∷ xs) m npos
      → has s (x ∷ xs) ≡ false
      → Distinct (x ∷ xs)
      → Seg (upd (upd next s npos) m s) (upd prev s m) npos h ((x ∷ xs) ++ s ∷ []) s npos
  Seg-splice_end h x xs m l out d =
      let there : has m (x ∷ xs) ≡ true = Seg-last next prev npos h x xs m npos l in
      Seg-append (upd (upd next s npos) m s) (upd prev s m) npos h (x ∷ xs) m s (s ∷ []) s npos
        (left_part h x xs m npos l out d)
        (refl, valid, upd-same prev s m, (forward m npos (ground arith), refl))

  -- A slot spliced between two nonempty parts.
  pub Seg-splice :
      (h x : ℕ) (xs : List ℕ) (m n y : ℕ) (ys : List ℕ) (t : ℕ)
      → Seg next prev npos h (x ∷ xs) m n
      → Seg next prev m n (y ∷ ys) t npos
      → has s (x ∷ xs) ≡ false
      → has s (y ∷ ys) ≡ false
      → has m (y ∷ ys) ≡ false
      → has n (x ∷ xs) ≡ false
      → Distinct (x ∷ xs)
      → Distinct (y ∷ ys)
      → Seg (upd (upd next s n) m s) (upd (upd prev s m) n s) npos h ((x ∷ xs) ++ s ∷ y ∷ ys) t npos
  Seg-splice h x xs m n y ys t l r outx outy am an dx dy =
      let there : has m (x ∷ xs) ≡ true = Seg-last next prev npos h x xs m n l in
      let next' : ℕ → ℕ = upd (upd next s n) m s in
      let right : Seg next' (upd prev s m) m n (y ∷ ys) t npos =
        Seg-upd_prev next' prev s m m n (y ∷ ys) t npos
          (Seg-upd_next (upd next s n) prev m s m n (y ∷ ys) t npos
            (Seg-upd_next next prev s n m n (y ∷ ys) t npos r outy) am)
          outy in
      let right' : Seg next' (upd (upd prev s m) y s) s n (y ∷ ys) t npos =
        Seg-set_start next' (upd prev s m) m s n y ys t npos right dy in
      let right'' : Seg next' (upd (upd prev s m) n s) s n (y ∷ ys) t npos =
        subst (λ k. Seg next' (upd (upd prev s m) k s) s n (y ∷ ys) t npos) (sym r.0) right' in
      Seg-append next' (upd (upd prev s m) n s) npos h (x ∷ xs) m s (s ∷ y ∷ ys) t npos
        (Seg-upd_prev next' (upd prev s m) n s npos h (x ∷ xs) m s (left_part h x xs m n l outx dx)
          an)
        (
          refl,
          valid,
          backward m n (ground arith),
          subst (λ k. Seg next' (upd (upd prev s m) n s) s k (y ∷ ys) t npos)
              (sym (forward m n (ground arith))) right'',
        )
