-- ===== src/CtOps/Delivery/Laws.antt =====
-- The batches are the findings.
use ct_cve.Base.{
  ℕ, suc, zero, ◌≤◌, ◌≡◌, refl, sym, ap, arith, Bool, true, false, ◌||◌, is_empty, Option, some,
  none, List, [], ◌∷◌, ◌++◌, length, drop, Bool-cases, inl, inr, take-append-drop, length-drop, ◌∙◌,
  append_assoc, append-nil,
}
use ct_cve.CtOps.Time.{Time}
use ct_cve.CtOps.Types.{Connection}
use ct_cve.CtOps.Snapshot.{Finding}
use ct_cve.CtOps.Auth.{Library}
use ct_cve.CtOps.Delivery.{
  FindingBatch, Callback, Delivery, max_findings_per_batch, next_batch, after_send, deliver_from,
  deliver_findings,
}

-- The findings of the batches, one after the other.
unfoldable pub contents : List FindingBatch → List Finding
contents [] = []
contents (b ∷ bs) = b.findings ++ contents bs

-- What was posted is a beginning of the findings, and is all of them if the delivery succeeded.
abbrev pub IsPrefixDelivery : {S : Type 0} → List Finding → Delivery S → Type 0
IsPrefixDelivery findings d =
    ((rest : List Finding) × (findings ≡ contents d.posted ++ rest))
    × (d.delivered ≡ true → contents d.posted ≡ findings)

shorter :
    (n : ℕ) (f : Finding) (fs : List Finding)
    → length (f ∷ fs) ≤ suc n
    → length (drop max_findings_per_batch (f ∷ fs)) ≤ n
unfolding max_findings_per_batch
shorter n f fs h = omega (arith, length-drop 4999 fs)

module _ {S : Type 0} (lib : Library) (callback : Callback S) (connection : Connection)
    (now : Time) where
  after_send-IsPrefixDelivery :
      (batch : FindingBatch) (findings later : List Finding) (r : Option (Bool × S)) (s : S)
      (next : S → Delivery S)
      → findings ≡ batch.findings ++ later
      → ((s' : S) → IsPrefixDelivery later (next s'))
      → IsPrefixDelivery findings (after_send lib callback connection now batch r s next)
  unfolding after_send contents
  after_send-IsPrefixDelivery batch findings later none s next e h =
      ((findings, refl), λ x. ground arith)
  after_send-IsPrefixDelivery batch findings later (some (false, s')) s next e h =
      ((later, e ∙ ap (λ x. x ++ later) (sym (append-nil batch.findings))), λ x. ground arith)
  after_send-IsPrefixDelivery batch findings later (some (true, s')) s next e h =
      let ((rest, p), q) = h s' in
      (
        (
          rest,
          e
              ∙ (ap (λ x. batch.findings ++ x) p
                  ∙ sym (append_assoc batch.findings (contents (next s').posted) rest)),
        ),
        λ x. ap (λ x. batch.findings ++ x) (q x) ∙ sym e,
      )

  deliver_from-IsPrefixDelivery :
      (n page : ℕ) (findings : List Finding) (s : S)
      → length findings ≤ n
      → IsPrefixDelivery findings (deliver_from lib callback connection now n page findings s)
  unfolding deliver_from contents
  deliver_from-IsPrefixDelivery zero page [] s h = (([], refl), λ _. refl)
  deliver_from-IsPrefixDelivery zero page (f ∷ fs) s h = ground arith
  deliver_from-IsPrefixDelivery (suc n) page [] s h = (([], refl), λ _. refl)
  deliver_from-IsPrefixDelivery (suc n) page (f ∷ fs) s h =
      after_send-IsPrefixDelivery (next_batch lib callback connection now page (f ∷ fs)) (f ∷ fs)
        (drop max_findings_per_batch (f ∷ fs)) _ s _
        (unfold next_batch in sym (take-append-drop max_findings_per_batch (f ∷ fs)))
        (λ s'.
          deliver_from-IsPrefixDelivery n (suc page) (drop max_findings_per_batch (f ∷ fs)) s'
            (shorter n f fs h))

  -- Whether the delivery succeeds or fails, what was posted is a beginning of the findings, in their
  -- order and each once; and it is all of them if the delivery succeeds.
  pub deliver_findings-IsPrefixDelivery :
      (findings : List Finding) (s : S)
      → IsPrefixDelivery findings (deliver_findings lib callback connection now findings s)
  unfolding deliver_findings contents
  deliver_findings-IsPrefixDelivery findings s =
      elim (Bool-cases
        (is_empty connection.ct_ops_base_url || is_empty connection.ct_ops_token.id)) [
          | inl e ↦ rw e ((findings, refl), λ x. ground arith)
          | inr e ↦
              rw e (deliver_from-IsPrefixDelivery (length findings) 0 findings s (omega arith))
        ]
