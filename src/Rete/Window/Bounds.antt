-- ===== src/Rete/Window/Bounds.antt =====
-- About the size and the age of what a WindowNode holds (rulesforge/src/rete/rete_node.cpp).
use rules_forge.Prelude.{
  ℕ, ◌≤◌, ◌≡◌, refl, false, some, List, [], ◌∷◌, length, All, arith, Bool-cases, inl, inr, All-map,
  ap, sym, ◌∙◌,
}
use rules_forge.Prelude.Int.{ℤ, ◌≤ℤ◌, ◌-ℤ◌, ltb_ℤ, -ℤ_parts, IsInt64, wrap_int64, wrap_int64_lem}
use rules_forge.Rete.Window.{
  length_window, time_window, Times, time_or, int64_max, insert_by_time, place, expire_length,
  is_expired, expire_time, expire, evaluate_expiration, enter, refresh,
}

expire_length-le : (size : ℕ) (facts : List ℕ) → length (expire_length size facts).0 ≤ size
unfolding expire_length
expire_length-le size [] = omega arith
expire_length-le size (x ∷ xs) = ground (arith, expire_length-le size xs)

-- After a fact enters or is updated, a length window holds no more facts than its length.
pub length_window_bounded :
    (size : ℕ) (t : Times) (fact : ℕ) (facts : List ℕ)
    → (length (enter (length_window size) t fact facts).0 ≤ size)
      × (length (refresh (length_window size) t fact facts).0 ≤ size)
unfolding enter refresh evaluate_expiration expire
length_window_bounded size t fact facts =
    (expire_length-le size (place (length_window size) t fact facts), expire_length-le size facts)

module _ (t : Times) (time : ℕ → ℤ) (timed : (f : ℕ) → t.event_time f ≡ some (time f)) where
  -- From the oldest on.
  abbrev pub IsByTime : List ℕ → Type 0
  IsByTime [] = Unit
  IsByTime (x ∷ xs) = All (λ y. time x ≤ℤ time y) xs × IsByTime xs

  time_or_lem : (absent : ℤ) (f : ℕ) → time_or absent t f ≡ time f
  unfolding time_or
  time_or_lem absent f = rw (timed f, time_or) refl

  All-insert_by_time :
      (x fact : ℕ) (facts : List ℕ)
      → time x ≤ℤ time fact
      → All (λ y. time x ≤ℤ time y) facts
      → All (λ y. time x ≤ℤ time y) (insert_by_time t fact facts)
  unfolding insert_by_time
  All-insert_by_time x fact [] h a = (h, tt)
  All-insert_by_time x fact (y ∷ ys) h a = ground (arith, All-insert_by_time x fact ys h a.1)

  insert-IsByTime :
      (fact : ℕ) (facts : List ℕ) → IsByTime facts → IsByTime (insert_by_time t fact facts)
  unfolding insert_by_time
  insert-IsByTime fact [] s = (tt, tt)
  insert-IsByTime fact (x ∷ xs) s = elim (Bool-cases (ltb_ℤ (time fact) (time x))) [
    | inl q ↦
        let first : time fact ≤ℤ time x = ground (arith, q) in
        rw (time_or_lem int64_max fact, time_or_lem int64_max x, q, insert_by_time)
          ((first, All-map _ _ (λ y h. omega (arith, first, h)) xs s.0), s)
    | inr q ↦
        let first : time x ≤ℤ time fact = ground (arith, q) in
        rw (time_or_lem int64_max fact, time_or_lem int64_max x, q, insert_by_time)
          (All-insert_by_time x fact xs first s.0, insert-IsByTime fact xs s.1)
  ]

  -- Not older than the window.
  abbrev pub IsRecent : ℤ → ℤ → ℕ → Type 0
  IsRecent size now x = (now -ℤ time x) ≤ℤ size

  -- The age of each fact is an int64_t.
  abbrev pub HasAges : ℤ → List ℕ → Type 0
  HasAges now facts = All (λ x. IsInt64 (now -ℤ time x)) facts

  recent :
      (size now : ℤ) (x : ℕ)
      → IsInt64 (now -ℤ time x)
      → is_expired size now t x ≡ false
      → IsRecent size now x
  unfolding is_expired
  recent size now x i q =
      let h : ltb_ℤ size (now -ℤ time x) ≡ false =
        ap (λ y. ltb_ℤ size y) (sym (wrap_int64_lem (now -ℤ time x) i))
        ∙ ap (λ y. ltb_ℤ size (wrap_int64 (now -ℤ y))) (sym (time_or_lem now x))
        ∙ q in
      ground (arith, h)

  HasAges-insert_by_time :
      (now : ℤ) (fact : ℕ) (facts : List ℕ)
      → HasAges now (fact ∷ facts)
      → HasAges now (insert_by_time t fact facts)
  unfolding insert_by_time
  HasAges-insert_by_time now fact [] h = h
  HasAges-insert_by_time now fact (x ∷ xs) h =
      let later = HasAges-insert_by_time now fact xs (h.0, h.1.1) in
      elim (Bool-cases (ltb_ℤ (time_or int64_max t fact) (time_or int64_max t x))) [
        | inl q ↦ rw (q, insert_by_time) h
        | inr q ↦ rw (q, insert_by_time) (h.1.0, later)
      ]

  later : (size now : ℤ) (x y : ℕ) → IsRecent size now x → time x ≤ℤ time y → IsRecent size now y
  later size now x y r h = omega (arith, r, h, -ℤ_parts now (time x), -ℤ_parts now (time y))

  expire_time_lem :
      (size now : ℤ) (facts : List ℕ)
      → HasAges now facts
      → IsByTime facts
      → IsByTime (expire_time size now t facts).0
        × All (IsRecent size now) (expire_time size now t facts).0
  unfolding expire_time is_expired
  expire_time_lem size now [] i s = (tt, tt)
  expire_time_lem size now (x ∷ xs) i s = elim (Bool-cases (is_expired size now t x)) [
    | inl q ↦ rw (q, expire_time) (expire_time_lem size now xs i.1 s.1)
    | inr q ↦
        rw (q, expire_time)
          (
            s,
            (
              recent size now x i.0 q,
              All-map _ _ (λ y h. later size now x y (recent size now x i.0 q) h) xs s.0,
            ),
          )
  ]

  -- Where every fact has an event time, the time is known, and each age is an int64_t, then after a fact enters a time window
  -- whose facts stand by time, they do still, and none is older than the window.
  pub time_window_recent :
      (size now : ℤ) (fact : ℕ) (facts : List ℕ)
      → t.current_time ≡ some now
      → HasAges now (fact ∷ facts)
      → IsByTime facts
      → IsByTime (enter (time_window size) t fact facts).0
        × All (IsRecent size now) (enter (time_window size) t fact facts).0
  unfolding enter evaluate_expiration expire place
  time_window_recent size now fact facts q i s =
      rw (q, expire)
        (expire_time_lem size now (insert_by_time t fact facts)
          (HasAges-insert_by_time now fact facts i) (insert-IsByTime fact facts s))
