-- ===== src/CtOps/Delivery.antt =====
-- The delivery of findings in batches: `deliverFindings` of internal/ctops/handler.go. The calls
-- of the clock within a request return one time.
pub mod Laws
use ct_cve.Base.{
  ℕ, suc, zero, ◌+◌, ltb, leb, Text, codes, is_empty, Bool, true, false, ◌&&◌, ◌||◌, if◌then◌else◌,
  Option, some, none, List, [], ◌∷◌, ◌++◌, length, take, drop,
}
use ct_cve.CtOps.Time.{Time}
use ct_cve.CtOps.Types.{Connection, ServiceToken, contract_version}
use ct_cve.CtOps.Snapshot.{Finding}
use ct_cve.CtOps.Auth.{Headers, Library, sign_service_request}

pub record FindingBatch : Type 0 where
  pub contract_version : Text
  pub org_id : Text
  pub batch_id : Text
  pub generated_at : Time
  pub findings : List Finding

-- What the delivery calls. `endpoint` is callbackURL, on url.Parse; `batch_id` is batchID, on
-- time.Format; `encode` is json.Marshal; `post` is the request and the status that comes back, or
-- `none` where there is no response; `record_delivery` is RecordFindingDelivery, which says whether
-- there is an error.
pub record Callback (S : Type 0) : Type 0 where
  pub endpoint : Text → Option Text
  pub batch_id : (org_id : Text) (now : Time) (page : ℕ) → Text
  pub encode : FindingBatch → Option Text
  pub post : (endpoint body : Text) → Headers → S → Option ℕ × S
  pub record_delivery : (org_id batch_id : Text) (count : ℕ) → S → Bool × S
  pub random_nonce : ℕ → Text

abbrev pub finding_batch_path : Text
finding_batch_path = codes "/api/integrations/ct-cve/v1/finding-batches"

unfoldable pub max_findings_per_batch : ℕ
max_findings_per_batch = 5000

-- Whether the delivery succeeded, the batches that were posted, and the state.
pub record Delivery (S : Type 0) : Type 0 where
  pub delivered : Bool
  pub posted : List FindingBatch
  pub state : S

module _ {S : Type 0} (lib : Library) (callback : Callback S) (connection : Connection)
    (now : Time) where
  unfoldable pub next_batch : ℕ → List Finding → FindingBatch
  next_batch page findings = record {
    contract_version = contract_version;
    org_id = connection.org_id;
    batch_id = callback.batch_id connection.org_id now page;
    generated_at = now;
    findings = take max_findings_per_batch findings;
  }

  unfoldable pub headers_for : ℕ → Text → Headers
  headers_for page body = sign_service_request lib (record {
    method = codes "POST";
    path = finding_batch_path;
    body = body;
    token = connection.ct_ops_token;
    nonce = [];
    timestamp = now;
    clock = now;
    random_nonce = callback.random_nonce page;
  })

  -- The status of the response decides, then the store.
  unfoldable pub after_post : FindingBatch → Option ℕ × S → Bool × S
  after_post batch (none, s) = (false, s)
  after_post batch (some status, s) =
      let recorded =
        callback.record_delivery connection.org_id batch.batch_id (length batch.findings) s in
      if ltb status 200 || leb 300 status then (false, s) else recorded

  unfoldable pub send_batch : ℕ → FindingBatch → Option Text → Option Text → S → Option (Bool × S)
  send_batch page batch none endpoint s = none
  send_batch page batch (some body) none s = none
  send_batch page batch (some body) (some endpoint) s =
      some (after_post batch (callback.post endpoint body (headers_for page body) s))

  -- The first error ends the loop; `none` is an error before the batch is posted.
  unfoldable pub after_send : FindingBatch → Option (Bool × S) → S → (S → Delivery S) → Delivery S
  after_send batch none s next = record { delivered = false; posted = []; state = s }
  after_send batch (some (false, s')) s next = record {
    delivered = false;
    posted = batch ∷ [];
    state = s';
  }
  after_send batch (some (true, s')) s next =
      let later = next s' in
      record { delivered = later.delivered; posted = batch ∷ later.posted; state = later.state }

  -- The fuel is the number of findings.
  unfoldable pub deliver_from : ℕ → ℕ → List Finding → S → Delivery S
  deliver_from zero page findings s = record {
    delivered = is_empty findings;
    posted = [];
    state = s;
  }
  deliver_from (suc n) page [] s = record { delivered = true; posted = []; state = s }
  deliver_from (suc n) page (f ∷ fs) s =
      let batch = next_batch page (f ∷ fs) in
      after_send batch
        (send_batch page batch (callback.encode batch)
          (callback.endpoint connection.ct_ops_base_url) s)
        s (λ s'. deliver_from n (suc page) (drop max_findings_per_batch (f ∷ fs)) s')

  unfoldable pub deliver_findings : List Finding → S → Delivery S
  deliver_findings findings s =
      let delivery = deliver_from (length findings) 0 findings s in
      if is_empty connection.ct_ops_base_url || is_empty connection.ct_ops_token.id
      then record { delivered = false; posted = []; state = s }
      else delivery
