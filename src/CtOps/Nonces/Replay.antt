-- ===== src/CtOps/Nonces/Replay.antt =====
-- How long a nonce is remembered.
use ct_cve.Base.{
  ◌<◌, Text, eq_iff, ◌≡◌, arith, true, false, All, inl, inr, some, List, [], ◌∷◌, ◌⊎◌,
}
use ct_cve.CtOps.Time.{Time, timestamptz, timestamptz-le}
use ct_cve.CtOps.Nonces.{NonceRow, nonce_row, delete_expired, has_row, remember_in_table}

-- The nonce is in the table, until `e`.
abbrev pub IsRemembered : Text → Text → Time → List NonceRow → Type 0
IsRemembered t n e [] = ⊥
IsRemembered t n e (row ∷ rows) =
    ((row.token_id ≡ t) × (row.nonce ≡ n) × (row.expires_at ≡ e)) ⊎ IsRemembered t n e rows

module _ (t n : Text) (e : Time) where
  delete_expired-IsRemembered :
      (now : Time) (rows : List NonceRow)
      → now < e
      → IsRemembered t n e rows
      → IsRemembered t n e (delete_expired now rows)
  unfolding delete_expired
  delete_expired-IsRemembered now [] h m = m
  delete_expired-IsRemembered now (row ∷ rows) h (inl m) =
      let le = timestamptz-le now in ground arith
  delete_expired-IsRemembered now (row ∷ rows) h (inr m) =
      ground (arith, delete_expired-IsRemembered now rows h m)

  has_row_of_IsRemembered :
      (rows : List NonceRow) → IsRemembered t n e rows → has_row t n rows ≡ true
  unfolding has_row
  has_row_of_IsRemembered [] m = elim m [ ]
  has_row_of_IsRemembered (row ∷ rows) m =
      ground (arith, has_row_of_IsRemembered rows, eq_iff row.token_id t, eq_iff row.nonce n)

  keeps :
      (t' n' : Text) (e' now : Time) (rows : List NonceRow)
      → now < e
      → IsRemembered t n e rows
      → IsRemembered t n e (remember_in_table t' n' e' now rows).1
  keeps t' n' e' now rows h m =
      unfold remember_in_table in ground (arith, delete_expired-IsRemembered now rows h m)

  refuses :
      (e' now : Time) (rows : List NonceRow)
      → now < e
      → IsRemembered t n e rows
      → (remember_in_table t n e' now rows).0 ≡ some false
  refuses e' now rows h m =
      let found =
        has_row_of_IsRemembered (delete_expired now rows)
          (delete_expired-IsRemembered now rows h m) in
      unfold remember_in_table in rw found

remembers :
    (t n : Text) (e now : Time) (rows : List NonceRow)
    → (remember_in_table t n e now rows).0 ≡ some true
    → IsRemembered t n (timestamptz e) (remember_in_table t n e now rows).1
unfolding remember_in_table nonce_row
remembers t n e now rows h = ground arith

-- One call of `RememberNonce`.
pub record Call : Type 0 where
  pub token_id : Text
  pub nonce : Text
  pub expires_at : Time
  pub now : Time

unfoldable pub run_calls : List NonceRow → List Call → List NonceRow
run_calls rows [] = rows
run_calls rows (c ∷ calls) =
    run_calls (remember_in_table c.token_id c.nonce c.expires_at c.now rows).1 calls

abbrev pub AllBefore : Time → List Call → Type 0
AllBefore e = All (λ (c : Call). c.now < e)

run_calls-IsRemembered :
    (t n : Text) (e : Time) (rows : List NonceRow) (calls : List Call)
    → AllBefore e calls
    → IsRemembered t n e rows
    → IsRemembered t n e (run_calls rows calls)
unfolding run_calls
run_calls-IsRemembered t n e rows [] h m = m
run_calls-IsRemembered t n e rows (c ∷ calls) (before, h) m =
    run_calls-IsRemembered t n e (remember_in_table c.token_id c.nonce c.expires_at c.now rows).1
      calls h (keeps t n e c.token_id c.nonce c.expires_at c.now rows before m)

-- Once a nonce is remembered until `e`, it is refused at every time before the whole microsecond to
-- which the table cuts `e`, whatever calls for any tokens and nonces came in between, as long as
-- these too came before that microsecond.
pub remembered-refused :
    (t n : Text) (e e' now now' : Time) (rows : List NonceRow) (calls : List Call)
    → (remember_in_table t n e now rows).0 ≡ some true
    → AllBefore (timestamptz e) calls
    → now' < timestamptz e
    → (remember_in_table t n e' now' (run_calls (remember_in_table t n e now rows).1 calls)).0
      ≡ some false
remembered-refused t n e e' now now' rows calls first h before =
    refuses t n (timestamptz e) e' now' (run_calls (remember_in_table t n e now rows).1 calls)
      before
      (run_calls-IsRemembered t n (timestamptz e) (remember_in_table t n e now rows).1 calls h
        (remembers t n e now rows first))
