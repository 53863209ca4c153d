-- ===== src/TenantState/Operations/Stopped.antt =====
-- Outside of a leadership term the operations do nothing.
use nstance.Base.{
  ℕ, zero, suc, String, ◌≡◌, refl, ap, ◌∙◌, Bool, true, false, Option, err, List, [], ◌∷◌,
  if◌then◌else◌, arith, Bool-cases, inl, inr,
}
use nstance.Storage.{Digest}
use nstance.TenantState.{TenantError, inactive, cancelled, World, Codec, Env}
use nstance.TenantState.Document.{Action, check_context}
use nstance.TenantState.Cutover.{Calls}
use nstance.TenantState.Operations.{
  run_for_tenant, sleep, wake, wake_and_wait, create_on_demand, resume_rounds, is_over, wake_if_due,
  Request, start_term, stop_term, refresh_state, sleep_tenant, wake_tenant, wake_and_wait_tenant,
  create_for_tenant, resume_for_tenant, timer_expires, perform, perform_all,
}

-- Is the request one of the operations on a tenant?
unfoldable pub is_operation : Request → Bool
is_operation start_term = false
is_operation stop_term = false
is_operation refresh_state = false
is_operation _ = true

unfoldable pub are_operations : List Request → Bool
unfolding is_operation
are_operations [] = true
are_operations (r ∷ rs) = let rest = are_operations rs in if is_operation r then rest else false

operations_after :
    (r : Request) (rs : List Request) → are_operations (r ∷ rs) ≡ true → are_operations rs ≡ true
unfolding are_operations
operations_after r rs h = ground arith

module _ {Data : Type 0} ⦃md5 : Digest Data⦄ (env : Env Data) (codec : Codec Data) where
  -- The action fails and leaves the world as it is.
  Refused : {A : Type 0} → Action Data A → World Data → Type 0
  Refused m w = (e : TenantError) × (m w ≡ (err e, w))

  run_for_tenant-Refused :
      {A : Type 0} (m : Action Data A) (w : World Data)
      → w.active ≡ false
      → Refused (run_for_tenant env codec m) w
  unfolding run_for_tenant check_context Refused
  run_for_tenant-Refused m w h = elim (Bool-cases (env.is_cancelled w.clock)) [
    | inl c ↦ (cancelled, rw (c))
    | inr c ↦ (inactive, rw (c, h))
  ]

  sleep-stopped :
      (tenant : String) (wake_at : Option ℕ) (guarded checked : Bool) (w : World Data)
      → w.active ≡ false
      → (sleep env codec tenant wake_at guarded checked w).1 ≡ w
  unfolding sleep run_for_tenant check_context
  sleep-stopped tenant wake_at guarded checked w h = elim (Bool-cases (env.is_cancelled w.clock)) [
    | inl c ↦ rw (c)
    | inr c ↦ rw (c, h)
  ]

  resume_rounds-stopped :
      (rounds : ℕ) (cutover : Calls) (tenant : String) (w : World Data)
      → w.active ≡ false
      → (resume_rounds env codec rounds cutover tenant w).1 ≡ w
  unfolding resume_rounds
  resume_rounds-stopped zero cutover tenant w h = refl
  resume_rounds-stopped (suc rounds) cutover tenant w h = rw (h)

  perform-stopped :
      (r : Request) (w : World Data)
      → is_operation r ≡ true
      → w.active ≡ false
      → perform env codec r w ≡ w
  unfolding perform is_operation sleep wake wake_and_wait create_on_demand Refused wake_if_due
      is_over
  perform-stopped start_term w o h = cc o
  perform-stopped stop_term w o h = cc o
  perform-stopped refresh_state w o h = cc o
  perform-stopped (sleep_tenant tenant wake_at guarded checked) w o h =
      sleep-stopped tenant wake_at guarded checked w h
  perform-stopped (wake_tenant tenant) w o h =
      let (e, r) = run_for_tenant-Refused _ w h in ap (λ x. x.1) r
  perform-stopped (wake_and_wait_tenant tenant) w o h =
      let (e, r) = run_for_tenant-Refused _ w h in ap (λ x. x.1) r
  perform-stopped (create_for_tenant tenant) w o h =
      let (e, r) = run_for_tenant-Refused _ w h in ap (λ x. x.1) r
  perform-stopped (resume_for_tenant rounds cutover tenant) w o h =
      resume_rounds-stopped rounds cutover tenant w h
  perform-stopped (timer_expires t) w o h = rw (h)

  -- Once the manager has no leadership term, no sequence of operations on tenants, of retries of
  -- interrupted transitions and of expiring timers changes anything: neither the storage nor the manager's
  -- copy nor the timers, and nothing is called outside.
  pub perform_all-stopped :
      (rs : List Request) (w : World Data)
      → are_operations rs ≡ true
      → w.active ≡ false
      → perform_all env codec rs w ≡ w
  unfolding perform_all are_operations
  perform_all-stopped [] w o h = refl
  perform_all-stopped (r ∷ rs) w o h = elim (Bool-cases (is_operation r)) [
    | inl i ↦
        ap (perform_all env codec rs) (perform-stopped r w i h)
        ∙ perform_all-stopped rs w (operations_after r rs o) h
    | inr i ↦ ground (arith)
  ]
