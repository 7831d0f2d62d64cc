-- ===== src/Context/Eviction.antt =====
-- How the loop evicts: one message at a time, the oldest that may go first.
use maids_claw.Common.{
  ℕ, zero, suc, ◌≤◌, ◌<◌, ◌≡◌, refl, ap, ◌∙◌, Bool, true, false, List, [], ◌∷◌, none, some, ltb,
  if◌then◌else◌, select, length, any_of, arith, ◌⊎◌, inl, inr, Bool-cases, Option-cases, String,
  ltb→lt, ltb→le,
}
use maids_claw.Common.Ints.{ℤ}
use maids_claw.Common.Maps.{some_of}
use maids_claw.Context.{
  find_index, splice_one, evict_loop, estimate_budget, is_evictable, IndexedMessage,
}

module _ {ℓ} {A : Type ℓ} (p : A → Bool) where
  -- without the first `k` items that pass the test
  abbrev pub drop_matching : ℕ → List A → List A
  drop_matching zero xs = xs
  drop_matching (suc k) [] = []
  drop_matching (suc k) (x ∷ xs) = elim (p x) [
    | true ↦ drop_matching k xs
    | false ↦ x ∷ drop_matching (suc k) xs
  ]

  find_index-none : (xs : List A) → find_index p xs ≡ none → any_of p xs ≡ false
  find_index-none [] h = refl
  find_index-none (x ∷ xs) h = ground (arith, find_index-none xs)

  find_index-splice_one :
      (xs : List A) (i : ℕ)
      → find_index p xs ≡ some i
      → (splice_one i xs ≡ drop_matching 1 xs) × (length xs ≡ suc (length (splice_one i xs)))
  find_index-splice_one [] i h = absurd (cc h)
  find_index-splice_one (x ∷ xs) i h = elim (Bool-cases (p x)) [
    | inl here ↦
        let at : 0 ≡ i = some_of (rw here at h) in rw (← at) (rw (here, drop_matching) (refl, refl))
    | inr away ↦ elim (Option-cases (find_index p xs)) [
      | inl missing ↦ absurd (cc (rw missing at (rw away at h)))
      | inr (j, there) ↦
          let at : suc j ≡ i = some_of (rw there at (rw away at h)) in
          let (same, size) = find_index-splice_one xs j there in
          rw (← at) (rw (away, drop_matching) (ap (◌∷◌ x) same, ap suc size))
    ]
  ]

  pub drop_matching-drop_matching :
      (k : ℕ) (xs : List A) → drop_matching k (drop_matching 1 xs) ≡ drop_matching (suc k) xs
  drop_matching-drop_matching zero [] = refl
  drop_matching-drop_matching (suc k) [] = refl
  drop_matching-drop_matching zero (x ∷ xs) = refl
  drop_matching-drop_matching (suc k) (x ∷ xs) = elim (Bool-cases (p x)) [
    | inl here ↦ rw (here, drop_matching)
    | inr away ↦
        rw (away, drop_matching)
          (rw (away, drop_matching) (ap (◌∷◌ x) (drop_matching-drop_matching (suc k) xs)))
  ]

  -- what no item that goes passes, all keep that pass it
  pub select-drop_matching :
      (q : A → Bool)
      → ((x : A) → p x ≡ true → q x ≡ false)
      → (k : ℕ) (xs : List A) → select q (drop_matching k xs) ≡ select q xs
  select-drop_matching q apart zero xs = refl
  select-drop_matching q apart (suc k) [] = refl
  select-drop_matching q apart (suc k) (x ∷ xs) = elim (Bool-cases (p x)) [
    | inl here ↦ rw (here, drop_matching) (rw (apart x here) (select-drop_matching q apart k xs))
    | inr away ↦
        rw (away, drop_matching)
          (ap (λ ys. if q x then x ∷ ys else ys) (select-drop_matching q apart (suc k) xs))
  ]

module _ {Input : Type 0} (stringify : Input → String) (flush_boundary : ℤ) (budget : ℕ) where
  -- the oldest evictable messages go, as few as are enough
  pub record EvictsOldest (retained kept : List (IndexedMessage Input)) : Type 0 where
    pub count : ℕ
    pub kept_eq : kept ≡ drop_matching (is_evictable flush_boundary) count retained
    pub needed :
        (j : ℕ)
        → j < count
        → budget
          < estimate_budget stringify (drop_matching (is_evictable flush_boundary) j retained)
    pub enough :
        (estimate_budget stringify kept ≤ budget)
        ⊎ (any_of (is_evictable flush_boundary) kept ≡ false)

  -- one message more goes first
  one_more :
      (retained rest kept : List (IndexedMessage Input))
      → rest ≡ drop_matching (is_evictable flush_boundary) 1 retained
      → budget < estimate_budget stringify retained
      → EvictsOldest rest kept
      → EvictsOldest retained kept
  one_more retained rest kept same over e = record {
    count = suc e.count;
    kept_eq =
        e.kept_eq
        ∙ ap (drop_matching (is_evictable flush_boundary) e.count) same
        ∙ drop_matching-drop_matching (is_evictable flush_boundary) e.count retained;
    needed = before;
    enough = e.enough;
  }
    where
      before :
          (j : ℕ)
          → j < suc e.count
          → budget
            < estimate_budget stringify (drop_matching (is_evictable flush_boundary) j retained)
      before zero less = over
      before (suc j) less =
          let again : budget
              < estimate_budget stringify (drop_matching (is_evictable flush_boundary) j rest) =
            e.needed j (omega arith) in
          rw (← drop_matching-drop_matching (is_evictable flush_boundary) j retained)
            (rw (← same) again)

  pub evict_loop-EvictsOldest :
      (rounds : ℕ) (retained : List (IndexedMessage Input))
      → length retained < rounds
      → (kept : List (IndexedMessage Input)) × (evict_loop stringify flush_boundary budget rounds
            retained
          ≡ some kept)
        × EvictsOldest retained kept
  unfolding evict_loop
  evict_loop-EvictsOldest zero retained h = absurd (omega arith)
  evict_loop-EvictsOldest (suc rounds) retained h =
      elim (Bool-cases (ltb budget (estimate_budget stringify retained))) [
        | inr fits ↦ (
          retained,
          rw (fits, evict_loop),
          record {
            count = 0;
            kept_eq = refl;
            needed = λ j k. absurd (omega arith);
            enough = inl (ltb→le budget _ fits);
          },
        )
        | inl over ↦ elim (Option-cases (find_index (is_evictable flush_boundary) retained)) [
          | inl missing ↦ (
            retained,
            rw (over, evict_loop) (rw missing),
            record {
              count = 0;
              kept_eq = refl;
              needed = λ j k. absurd (omega arith);
              enough = inr (find_index-none (is_evictable flush_boundary) retained missing);
            },
          )
          | inr (i, there) ↦
              let (same, size) =
                find_index-splice_one (is_evictable flush_boundary) retained i there in
              let (kept, runs, e) =
                evict_loop-EvictsOldest rounds (splice_one i retained) (omega arith) in
              (
                kept,
                rw (over, evict_loop) (rw there runs),
                one_more retained (splice_one i retained) kept same (ltb→lt budget _ over) e,
              )
        ]
      ]
