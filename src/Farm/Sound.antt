-- ===== src/Farm/Sound.antt =====
-- The constraints of a table hold through every statement of its repository.
use portfolio_cv_project.Common.{
  ℕ, ◌+◌, ◌<◌, ◌==◌, Bool, true, false, not, ◌||◌, List, [], ◌∷◌, ◌++◌, some, ◌≡◌, refl, inl, inr,
  find, any, All, All-append, Bool-cases, arith,
}
use portfolio_cv_project.Farm.Table.{
  Model, Table, Flushed, stored, refused, has_key, get, create, save, is_taken, update, without,
  delete,
}

module _ {A : Type 0} (m : Model A) where
  -- Two rows that may not stand in one table.
  abbrev pub conflicts : A → A → Bool
  conflicts a b = m.key b == m.key a || m.clashes a b

  abbrev pub Apart : List A → Type 0
  Apart [] = Unit
  Apart (a ∷ rows) = (any (conflicts a) rows ≡ false) × Apart rows

  abbrev pub IsBelow : ℕ → A → Type 0
  IsBelow n a = m.key a < n

  abbrev pub IsAllowed : A → Type 0
  IsAllowed a = m.is_allowed a ≡ true

  -- No two rows share a key or a unique column, every row meets the checks, and no key is still to be
  -- given.
  pub record IsSound (t : Table A) : Type 0 where
    pub apart : Apart t.rows
    pub below : All (IsBelow t.next_id) t.rows
    pub allowed : All IsAllowed t.rows

  any-save :
      (p : A → Bool) (a : A) (rows : List A)
      → any p rows ≡ false
      → p a ≡ false
      → any p (save m a rows) ≡ false
  any-save p a [] h k = refl
  any-save p a (b ∷ rows) h k = ground (arith, any-save p a rows)

  any-without :
      (p : A → Bool) (i : ℕ) (rows : List A) → any p rows ≡ false → any p (without m i rows) ≡ false
  any-without p i [] h = refl
  any-without p i (b ∷ rows) h = ground (arith, any-without p i rows)

  Apart-without : (i : ℕ) (rows : List A) → Apart rows → Apart (without m i rows)
  Apart-without i [] h = tt
  Apart-without i (b ∷ rows) h = elim (Bool-cases (m.key b == i)) [
    | inl e ↦ rw e h.1
    | inr e ↦ rw e (any-without (conflicts b) i rows h.0, Apart-without i rows h.1)
  ]

  All-save : (P : A → Type 0) (a : A) (rows : List A) → P a → All P rows → All P (save m a rows)
  All-save P a [] p h = tt
  All-save P a (b ∷ rows) p h = elim (Bool-cases (m.key b == m.key a)) [
    | inl e ↦ rw e (p, h.1)
    | inr e ↦ rw e (h.0, All-save P a rows p h.1)
  ]

  All-without : (P : A → Type 0) (i : ℕ) (rows : List A) → All P rows → All P (without m i rows)
  All-without P i [] h = tt
  All-without P i (b ∷ rows) h = elim (Bool-cases (m.key b == i)) [
    | inl e ↦ rw e h.1
    | inr e ↦ rw e (h.0, All-without P i rows h.1)
  ]

  All-IsBelow-suc : (n : ℕ) (rows : List A) → All (IsBelow n) rows → All (IsBelow (n + 1)) rows
  All-IsBelow-suc n [] h = tt
  All-IsBelow-suc n (b ∷ rows) h = (omega arith, All-IsBelow-suc n rows h.1)

  -- A row that replaces the one of its key, where nothing else stands in its way.
  no_conflict :
      (a b : A) (rows : List A)
      → m.key b ≡ m.key a
      → any (conflicts b) rows ≡ false
      → is_taken m a rows ≡ false
      → any (conflicts a) rows ≡ false
  no_conflict a b [] e h k = refl
  no_conflict a b (c ∷ rows) e h k = ground (arith, no_conflict a b rows)

-- What a flush leaves, refused or not.
abbrev pub table_of : {A : Type 0} → Flushed A → Table A
table_of (stored a t) = t
table_of (refused t) = t

module _ {A : Type 0} (m : Model A) (clash_sym : (a b : A) → m.clashes a b ≡ m.clashes b a) where
  Apart-save :
      (a : A) (rows : List A) → Apart m rows → is_taken m a rows ≡ false → Apart m (save m a rows)
  Apart-save a [] h k = tt
  Apart-save a (b ∷ rows) h k = elim (Bool-cases (m.key b == m.key a)) [
    | inl e ↦ rw e (no_conflict m a b rows (ground arith) h.0 (ground arith), h.1)
    | inr e ↦
        let apart : conflicts m b a ≡ false = ground (arith, clash_sym a b) in
        rw e (any-save m (conflicts m b) a rows h.0 apart, Apart-save a rows h.1 (ground arith))
  ]

  Apart-append :
      (a : A) (rows : List A)
      → Apart m rows
      → any (m.clashes a) rows ≡ false
      → All (IsBelow m (m.key a)) rows
      → Apart m (rows ++ (a ∷ []))
  Apart-append a [] h k below = (refl, tt)
  Apart-append a (b ∷ rows) h k below =
      (last rows h.0, Apart-append a rows h.1 (ground arith) below.1)
    where
      new : conflicts m b a ≡ false
      new = ground (arith, clash_sym a b, below.0)

      last :
          (rows : List A)
          → any (conflicts m b) rows ≡ false
          → any (conflicts m b) (rows ++ (a ∷ [])) ≡ false
      last [] f = rw new
      last (c ∷ rows) f = ground (arith, last rows)

  pub create-IsSound :
      (a : A) (t : Table A)
      → m.key (m.with_key t.next_id a) ≡ t.next_id
      → IsSound m t
      → IsSound m (table_of (create m a t))
  unfolding create
  create-IsSound a t keyed h =
      elim (Bool-cases (any (m.clashes new) t.rows || not (m.is_allowed new))) [
        | inl bad ↦ rw bad (record { apart = h.apart; below = later; allowed = h.allowed })
        | inr good ↦ rw good (record {
          apart = Apart-append new t.rows h.apart (ground arith) (rw keyed h.below);
          below =
              All-append (IsBelow m (t.next_id + 1)) t.rows (new ∷ []) later
                (omega (arith, keyed), tt);
          allowed = All-append (IsAllowed m) t.rows (new ∷ []) h.allowed (ground arith, tt);
        })
      ]
    where
      new : A
      new = m.with_key t.next_id a

      later : All (IsBelow m (t.next_id + 1)) t.rows
      later = All-IsBelow-suc m t.next_id t.rows h.below

  pub update-IsSound :
      (a : A) (t : Table A)
      → m.key a < t.next_id
      → IsSound m t
      → IsSound m (table_of (update m a t))
  unfolding update
  update-IsSound a t below h = elim (Bool-cases (is_taken m a t.rows || not (m.is_allowed a))) [
    | inl bad ↦ rw bad h
    | inr good ↦ rw good (record {
      apart = Apart-save a t.rows h.apart (ground arith);
      below = All-save m (IsBelow m t.next_id) a t.rows below h.below;
      allowed = All-save m (IsAllowed m) a t.rows (ground arith) h.allowed;
    })
  ]

  pub delete-IsSound : (i : ℕ) (t : Table A) → IsSound m t → IsSound m (delete m i t)
  unfolding delete
  delete-IsSound i t h = record {
    apart = Apart-without m i t.rows h.apart;
    below = All-without m (IsBelow m t.next_id) i t.rows h.below;
    allowed = All-without m (IsAllowed m) i t.rows h.allowed;
  }

-- The row that a key finds is below the next key.
pub get-below :
    {A : Type 0} (m : Model A) (i : ℕ) (t : Table A) (a : A)
    → get m i t ≡ some a
    → All (IsBelow m t.next_id) t.rows
    → m.key a < t.next_id
unfolding get
get-below m i t a e h = go t.rows e h
  where
    go :
        (rows : List _)
        → find (has_key m i) rows ≡ some a
        → All (IsBelow m t.next_id) rows
        → m.key a < t.next_id
    go [] e h = cc
    go (b ∷ rows) e h = ground (arith, go rows)
