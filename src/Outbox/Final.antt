-- ===== src/Outbox/Final.antt =====
-- adapters/moodle/state.py: leases are exclusive, deliveries are final, and retries wait.
use moodle_autotask.Base.{
  ℕ, ◌+◌, ◌-◌, ◌≤◌, ◌<◌, min, String, ◌≡◌, refl, sym, ◌∙◌, ◌≢◌, false, List, [], ◌∷◌, arith,
  String-discrete, All,
}
use native.Mathlib.Nat.{pow-le-pow_right, mul-le-mul_left}
use moodle_autotask.Outbox.{DeliveryState, pending, leased, delivered, MoodleState}
use moodle_autotask.Outbox.Leases.{is_due, is_leased_to, retry_delay}
use moodle_autotask.Outbox.Keeps.{Keeps}
use moodle_autotask.Outbox.Operations.{
  Operation, call_enqueue, call_acknowledge, call_claim, call_renew, call_complete, call_fail, run,
  Harmless, Unclaimed, run-Unclaimed,
}

abbrev pub IsDelivered : DeliveryState → Type 0
IsDelivered (delivered _) = Unit
IsDelivered _ = ⊥

delivered_not_due :
    (moment available_at : ℕ) (d : DeliveryState)
    → IsDelivered d
    → is_due moment available_at d ≡ false
delivered_not_due moment available_at pending q = absurd q
delivered_not_due moment available_at (leased _ _ _) q = absurd q
delivered_not_due moment available_at (delivered _) q = refl

delivered_unowned :
    (token : String) (moment : ℕ) (d : DeliveryState)
    → IsDelivered d
    → is_leased_to token moment d ≡ false
delivered_unowned token moment pending q = refl
delivered_unowned token moment (leased _ _ _) q = absurd q
delivered_unowned token moment (delivered _) q = refl

Harmless-to_delivered : (e : String) (op : Operation) → Harmless e IsDelivered op
Harmless-to_delivered e (call_enqueue _ _) = tt
Harmless-to_delivered e (call_acknowledge _ _ _) = tt
Harmless-to_delivered e (call_complete _ _) = tt
Harmless-to_delivered e (call_claim _ _ _ _ moment) = delivered_not_due moment
Harmless-to_delivered e (call_renew c _ moment) = delivered_unowned c.lease_token moment
Harmless-to_delivered e (call_fail c _ _ _ moment) = delivered_unowned c.lease_token moment

Harmless-All : (e : String) (ops : List Operation) → All (Harmless e IsDelivered) ops
Harmless-All e [] = tt
Harmless-All e (op ∷ ops) = (Harmless-to_delivered e op, Harmless-All e ops)

-- Once an event has been delivered, no sequence of calls hands it out again, and at the end it is
-- still delivered.
pub IsDelivered-final :
    (event_id_of : String → String → String) (e : String) (ops : List Operation) (s : MoodleState)
    → Keeps e IsDelivered s.outbox
    → Unclaimed e IsDelivered (run event_id_of ops s)
IsDelivered-final event_id_of e ops s k =
    run-Unclaimed e IsDelivered event_id_of ops s (λ n. tt) (Harmless-All e ops) k

-- Delivered, or leased under `token` until `until` at least.
abbrev pub HeldUntil : String → ℕ → DeliveryState → Type 0
HeldUntil token until pending = ⊥
HeldUntil token until (leased _ t expires_at) = (t ≡ token) × (until ≤ expires_at)
HeldUntil token until (delivered _) = Unit

-- A call that claims does so before `until`, and one that renews or fails a lease is made with
-- another token. Enqueueing, acknowledging and completing are open to anyone.
abbrev pub ByOthers : String → ℕ → Operation → Type 0
ByOthers token until (call_claim _ _ _ _ moment) = moment < until
ByOthers token until (call_renew c _ _) = c.lease_token ≢ token
ByOthers token until (call_fail c _ _ _ _) = c.lease_token ≢ token
ByOthers token until _ = Unit

held_not_due :
    (token : String) (until moment : ℕ)
    → moment < until
    → (available_at : ℕ) (d : DeliveryState) → HeldUntil token until d
    → is_due moment available_at d ≡ false
held_not_due token until moment o available_at pending q = absurd q
held_not_due token until moment o available_at (leased _ t x) (same, u) = ground arith
held_not_due token until moment o available_at (delivered _) q = refl

held_by_another :
    (token : String) (until : ℕ) (other : String) (moment : ℕ)
    → other ≢ token
    → (d : DeliveryState) → HeldUntil token until d
    → is_leased_to other moment d ≡ false
held_by_another token until other moment n pending q = absurd q
held_by_another token until other moment n (leased _ t x) (same, u) =
    elim (String-discrete t other) [ yes p ↦ absurd (n (sym p ∙ same)) | no np ↦ ground arith ]
held_by_another token until other moment n (delivered _) q = refl

Harmless-to_held :
    (e token : String) (until : ℕ) (op : Operation)
    → ByOthers token until op
    → Harmless e (HeldUntil token until) op
Harmless-to_held e token until (call_enqueue _ _) o = tt
Harmless-to_held e token until (call_acknowledge _ _ _) o = tt
Harmless-to_held e token until (call_complete _ _) o = tt
Harmless-to_held e token until (call_claim _ _ _ _ moment) o = held_not_due token until moment o
Harmless-to_held e token until (call_renew c _ moment) o =
    held_by_another token until c.lease_token moment o
Harmless-to_held e token until (call_fail c _ _ _ moment) o =
    held_by_another token until c.lease_token moment o

held-All :
    (e token : String) (until : ℕ) (ops : List Operation)
    → All (ByOthers token until) ops
    → All (Harmless e (HeldUntil token until)) ops
held-All e token until [] o = tt
held-All e token until (op ∷ ops) (o, os) =
    (Harmless-to_held e token until op o, held-All e token until ops os)

-- Say that an event is delivered, or leased under a token until `until` at least. Then in every
-- sequence of calls whose claims are made before `until`, and whose renewals and failures are made
-- with other tokens, nobody is handed the event, and at the end the same can be said of it.
pub lease_exclusive :
    (event_id_of : String → String → String) (e token : String) (until : ℕ) (ops : List Operation)
    (s : MoodleState)
    → All (ByOthers token until) ops
    → Keeps e (HeldUntil token until) s.outbox
    → Unclaimed e (HeldUntil token until) (run event_id_of ops s)
lease_exclusive event_id_of e token until ops s o k =
    run-Unclaimed e (HeldUntil token until) event_id_of ops s (λ n. tt)
      (held-All e token until ops o) k

-- For a permitted configuration, a retry waits at least `retry_base_seconds` and at most
-- `retry_max_seconds`, and it never waits less after more attempts.
pub retry_delay_bounds :
    (base top attempts more : ℕ)
    → 1 ≤ base
    → base ≤ top
    → (base ≤ retry_delay base top attempts)
      × (retry_delay base top attempts ≤ top)
      × (retry_delay base top attempts ≤ retry_delay base top (attempts + more))
unfolding retry_delay
retry_delay_bounds base top attempts more h k =
    let small = min (attempts - 1) 20 in
    let large = min (attempts + more - 1) 20 in
    let le : small ≤ large = omega arith in
    let power = pow-le-pow_right {n = 2} (omega arith) le in
    let one = pow-le-pow_right {n = 2} (omega arith) {i = 0} {j = small} (omega arith) in
    let first = mul-le-mul_left base one in
    let grows = mul-le-mul_left base power in
    (omega (arith, first), omega arith, omega (arith, grows))
