-- ===== src/Store/Upsert.antt =====
-- Laws of the upsert of a table, for the statements with ON CONFLICT.
use ct_cve.Base.{
  neither, ◌≡◌, refl, arith, Bool, true, false, ◌||◌, any, if◌then◌else◌, List, [], ◌∷◌, ◌++◌, map,
  All, All-append, Bool-cases, inl, inr,
}
use ct_cve.Store.Tables.{upsert}

module _ {ℓ} {A : Type ℓ} (p : A → Bool) where
  pub any-end : (rows : List A) (new : A) → any p (rows ++ new ∷ []) ≡ (any p rows || p new)
  any-end [] new = ground arith
  any-end (row ∷ rows) new = ground (arith, any-end rows new)

module _ {ℓ} {A : Type ℓ} (same : A → Bool) (update : A → A) where
  abbrev updated : A → A
  updated row = if same row then update row else row

  module _ (p : A → Bool) (kept : (row : A) → p row ≡ true → p (update row) ≡ true) where
    updated_keeps : (row : A) (b : Bool) → same row ≡ b → p row ≡ true → p (updated row) ≡ true
    updated_keeps row true e h = rw e (kept row h)
    updated_keeps row false e h = rw e h

    any-updated : (rows : List A) → any p rows ≡ true → any p (map updated rows) ≡ true
    any-updated [] h = h
    any-updated (row ∷ rows) h =
        let head = updated_keeps row (same row) refl in let tail = any-updated rows in ground arith

    -- What some row has, some row has after the upsert, if the update keeps it.
    pub any-upsert :
        (new : A) (rows : List A) → any p rows ≡ true → any p (upsert same update new rows) ≡ true
    unfolding upsert
    any-upsert new rows h = elim (Bool-cases (any same rows)) [
      | inl e ↦ rw e (any-updated rows h)
      | inr e ↦ rw e (rw (any-end p rows new, h))
    ]

  -- The key is there after the upsert.
  pub upsert_has_key :
      (new : A) (rows : List A)
      → same new ≡ true
      → ((row : A) → same row ≡ true → same (update row) ≡ true)
      → any same (upsert same update new rows) ≡ true
  unfolding upsert
  upsert_has_key new rows s k = elim (Bool-cases (any same rows)) [
    | inl e ↦ rw e (any-updated same k rows e)
    | inr e ↦ rw e (rw (any-end same rows new, e, s))
  ]

  module _ (twice : (row : A) → update (update row) ≡ update row) where
    updated_twice_at :
        (row : A) (b : Bool)
        → same row ≡ b
        → same (update row) ≡ same row
        → updated (updated row) ≡ updated row
    updated_twice_at row true e k = rw (e, k, e) (twice row)
    updated_twice_at row false e k = rw (e, e)

    map-updated_twice :
        ((row : A) → same (update row) ≡ same row)
        → (rows : List A) → map updated (map updated rows) ≡ map updated rows
    map-updated_twice k [] = refl
    map-updated_twice k (row ∷ rows) =
        rw (updated_twice_at row (same row) refl (k row), map-updated_twice k rows)

  map-updated_end :
      (new : A) (rows : List A)
      → update new ≡ new
      → same new ≡ true
      → any same rows ≡ false
      → map updated (rows ++ new ∷ []) ≡ rows ++ new ∷ []
  map-updated_end new [] u s h = rw (s, u)
  map-updated_end new (row ∷ rows) u s h =
      let (a, b) = neither (same row) (any same rows) h in rw (a, map-updated_end new rows u s b)

  -- The same upsert a second time changes nothing.
  pub upsert_twice :
      (new : A) (rows : List A)
      → same new ≡ true
      → update new ≡ new
      → ((row : A) → same (update row) ≡ same row)
      → ((row : A) → update (update row) ≡ update row)
      → upsert same update new (upsert same update new rows) ≡ upsert same update new rows
  unfolding upsert
  upsert_twice new rows s u k t = elim (Bool-cases (any same rows)) [
    | inl e ↦
        rw (e, any-updated same (λ row. rw (k row) (λ h. h)) rows e) (map-updated_twice t k rows)
    | inr e ↦ rw (e, any-end same rows new, s, e) (map-updated_end new rows u s e)
  ]

module _ {ℓ} {A : Type ℓ} (P : A → Type 0) (same : A → Bool) (update : A → A) where
  updated_at : (row : A) (b : Bool) → P row → P (update row) → P (if b then update row else row)
  updated_at row true p q = q
  updated_at row false p q = p

  All-updated :
      (rows : List A)
      → ((row : A) → P row → P (update row))
      → All P rows
      → All P (map (λ row. if same row then update row else row) rows)
  All-updated [] k h = tt
  All-updated (row ∷ rows) k (p, h) = (updated_at row (same row) p (k row p), All-updated rows k h)

  pub All-upsert :
      (new : A) (rows : List A)
      → P new
      → ((row : A) → P row → P (update row))
      → All P rows
      → All P (upsert same update new rows)
  unfolding upsert
  All-upsert new rows p k h = elim (Bool-cases (any same rows)) [
    | inl e ↦ rw e (All-updated rows k h)
    | inr e ↦ rw e (All-append P rows (new ∷ []) h (p, tt))
  ]
