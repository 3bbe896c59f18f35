-- ===== src/CtOps/Nonces/Until.antt =====
-- Until when a nonce is remembered.
use ct_cve.Base.{
  ◌≤◌, ◌<◌, ltb, leb, leb→le, Text, ◌==◌, ◌≡◌, refl, arith, Bool, true, false, ◌&&◌, All, inl, inr,
  Bool-cases, some, List, [], ◌∷◌,
}
use ct_cve.CtOps.Time.{Time, timestamptz, timestamptz_mono, timestamptz_twice}
use ct_cve.CtOps.Nonces.{NonceRow, nonce_row, delete_expired, has_row, remember_in_table}
use ct_cve.CtOps.Nonces.Replay.{Call, run_calls, AllBefore, remembered-refused}

module _ (t n : Text) where
  abbrev is_key : Text → Text → Bool
  is_key token_id nonce = token_id == t && nonce == n

  -- The nonce is in the table until `e`, if at all.
  abbrev Only : Time → List NonceRow → Type 0
  Only e = All (λ (row : NonceRow). is_key row.token_id row.nonce ≡ true → row.expires_at ≡ e)

  -- A call for another nonce, at a time up to the given one.
  abbrev pub IsOtherBy : Time → Call → Type 0
  IsOtherBy now c = (is_key c.token_id c.nonce ≡ false) × (c.now ≤ now)

  Only-fresh : (e : Time) (rows : List NonceRow) → has_row t n rows ≡ false → Only e rows
  unfolding has_row
  Only-fresh e [] h = tt
  Only-fresh e (row ∷ rows) h =
      let later = Only-fresh e rows in ((λ k. ground arith), later (ground arith))

  delete_expired-Only :
      (e now : Time) (rows : List NonceRow) → Only e rows → Only e (delete_expired now rows)
  unfolding delete_expired
  delete_expired-Only e now [] h = tt
  delete_expired-Only e now (row ∷ rows) (k, h) =
      elim (Bool-cases (ltb (timestamptz now) row.expires_at)) [
        | inl f ↦ rw f (k, delete_expired-Only e now rows h)
        | inr f ↦ rw f (delete_expired-Only e now rows h)
      ]

  remember_in_table-Only :
      (e now : Time) (c : Call) (rows : List NonceRow)
      → IsOtherBy now c
      → Only e rows
      → Only e (remember_in_table c.token_id c.nonce c.expires_at c.now rows).1
  unfolding remember_in_table nonce_row
  remember_in_table-Only e now c rows (other, _) h =
      let kept = delete_expired c.now rows in
      elim (Bool-cases (has_row c.token_id c.nonce kept)) [
        | inl f ↦ rw f (delete_expired-Only e c.now rows h)
        | inr f ↦ rw f ((λ k. ground arith), delete_expired-Only e c.now rows h)
      ]

  run_calls-Only :
      (e now : Time) (rows : List NonceRow) (calls : List Call)
      → All (IsOtherBy now) calls
      → Only e rows
      → Only e (run_calls rows calls)
  unfolding run_calls
  run_calls-Only e now rows [] others h = h
  run_calls-Only e now rows (c ∷ calls) (other, others) h =
      run_calls-Only e now (remember_in_table c.token_id c.nonce c.expires_at c.now rows).1 calls
        others (remember_in_table-Only e now c rows other h)

  expired :
      (e now : Time) (rows : List NonceRow)
      → e ≤ timestamptz now
      → Only e rows
      → has_row t n (delete_expired now rows) ≡ false
  unfolding has_row delete_expired
  expired e now [] late h = refl
  expired e now (row ∷ rows) late (k, h) = let later = expired e now rows late h in ground arith

  first_call :
      (e now : Time) (rows : List NonceRow)
      → (remember_in_table t n e now rows).0 ≡ some true
      → Only (timestamptz e) (remember_in_table t n e now rows).1
  unfolding remember_in_table nonce_row
  first_call e now rows = elim (Bool-cases (has_row t n (delete_expired now rows))) [
    | inl f ↦ rw f (λ h. ground arith)
    | inr f ↦ rw f (λ _. ((λ _. refl), Only-fresh (timestamptz e) (delete_expired now rows) f))
  ]

  accepts :
      (e' now : Time) (rows : List NonceRow)
      → has_row t n (delete_expired now rows) ≡ false
      → (remember_in_table t n e' now rows).0 ≡ some true
  unfolding remember_in_table
  accepts e' now rows h = rw h

  all_before :
      (e now : Time) (calls : List Call) → now < e → All (IsOtherBy now) calls → AllBefore e calls
  all_before e now [] h all = tt
  all_before e now (c ∷ calls) h ((_, k), all) = (omega arith, all_before e now calls h all)

  -- A nonce that was remembered until `e` is new again exactly from the whole microsecond on to which
  -- the table cuts `e`, whatever calls for other nonces came in between, at times up to the last.
  pub remember_in_table-until :
      (e e' now now' : Time) (rows : List NonceRow) (calls : List Call)
      → (remember_in_table t n e now rows).0 ≡ some true
      → All (IsOtherBy now') calls
      → (remember_in_table t n e' now' (run_calls (remember_in_table t n e now rows).1 calls)).0
        ≡ some (leb (timestamptz e) now')
  remember_in_table-until e e' now now' rows calls first others =
      elim (Bool-cases (leb (timestamptz e) now')) [
        | inl late ↦
            let cut = timestamptz_mono (timestamptz e) now' (leb→le (timestamptz e) now' late) in
            let same = timestamptz_twice e in
            rw late (
              accepts e' now' _ (
                expired (timestamptz e) now' _ (omega (arith, cut, same)) (
                  run_calls-Only (timestamptz e) now' _ calls others
                    (first_call e now rows first))))
        | inr early ↦
            let soon : now' < timestamptz e = ground arith in
            rw early (
              remembered-refused t n e e' now now' rows calls first
                (all_before (timestamptz e) now' calls soon others) soon)
      ]
