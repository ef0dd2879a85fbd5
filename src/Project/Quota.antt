-- ===== src/Project/Quota.antt =====
-- src/state.rs: whom the quota lets in, by the data of the project.
use blockchain_api.Prelude.{◌≡◌, ◌↔◌, refl, ap, ◌∙◌, sym, ◌⊎◌, inl, inr, true, false, Bool-cases}
use blockchain_api.Errors.{RpcError, ProjectDataError, RpcResult, ok, err}
use blockchain_api.Registry.{World, ProjectDataWithLimits, unavailable}
use blockchain_api.Project.{State, admit_quota, validate_project_quota}

-- A project whose quota is not used up, or whose data could not be had since the registry is
-- temporarily unavailable.
abbrev pub Within : RpcResult ProjectDataWithLimits → Type 0
Within got =
    ((project : ProjectDataWithLimits) × (got ≡ ok project)
      × (project.limits.is_above_rpc_limit ≡ false))
    ⊎ (got ≡ err unavailable)

pub ok-err : {A : Type 0} (a : A) (e : RpcError) {P : Type 0} → (RpcResult.ok a ≡ err e) → P
ok-err a e h = cc

module _ (W : World) where
  admit_quota-err :
      (e : RpcError) (app : State W)
      → (e ≡ unavailable) ⊎ (admit_quota W (err e) app ≡ (err e, app))
  unfolding admit_quota
  admit_quota-err (RpcError.project_data_error ProjectDataError.registry_temporarily_unavailable)
        app =
      inl refl
  admit_quota-err _ app = inr refl

  unavailable-admitted : (app : State W) → (admit_quota W (err unavailable) app).0 ≡ ok tt
  unfolding admit_quota
  unavailable-admitted app = refl

  quota-within :
      (project : ProjectDataWithLimits)
      → project.limits.is_above_rpc_limit ≡ false
      → validate_project_quota W project ≡ ok tt
  unfolding validate_project_quota
  quota-within project h = rw h refl

  quota-above :
      (project : ProjectDataWithLimits)
      → project.limits.is_above_rpc_limit ≡ true
      → validate_project_quota W project ≡ err RpcError.quota_limit_reached
  unfolding validate_project_quota
  quota-above project h = rw h refl

  quota-refused :
      (project : ProjectDataWithLimits) (app : State W)
      → project.limits.is_above_rpc_limit ≡ true
      → (admit_quota W (ok project) app).0 ≡ err RpcError.quota_limit_reached
  unfolding admit_quota
  quota-refused project app h = rw (quota-above project h, admit_quota) refl

  quota-allowed :
      (project : ProjectDataWithLimits) (app : State W)
      → project.limits.is_above_rpc_limit ≡ false
      → (admit_quota W (ok project) app).0 ≡ ok tt
  unfolding admit_quota
  quota-allowed project app h = rw (quota-within project h, admit_quota) refl

  quota_iff :
      (got : RpcResult ProjectDataWithLimits) (project : ProjectDataWithLimits) (app : State W)
      → got ≡ ok project
      → ((admit_quota W got app).0 ≡ ok tt)
      → Within got
  quota_iff got project app e h = elim (Bool-cases project.limits.is_above_rpc_limit) [
    | inl above ↦
        ok-err tt RpcError.quota_limit_reached
          (sym h ∙ ap (λ x. (admit_quota W x app).0) e ∙ quota-refused project app above)
    | inr within ↦ inl (project, e, within)
  ]

  pub admit_quota_iff :
      (got : RpcResult ProjectDataWithLimits) (app : State W)
      → ((admit_quota W got app).0 ≡ ok tt) ↔ Within got
  admit_quota_iff (ok project) app = (
    quota_iff (ok project) project app refl,
    λ h. elim h [
      | inl (p, e, within) ↦ ap (λ x. (admit_quota W x app).0) e ∙ quota-allowed p app within
      | inr e ↦ ok-err project unavailable e
    ],
  )
  admit_quota_iff (err e) app = elim (admit_quota-err e app) [
    | inl same ↦ (
      λ _. inr (ap err same),
      λ _. ap (λ x. (admit_quota W (err x) app).0) same ∙ unavailable-admitted app,
    )
    | inr kept ↦ (
      λ h. ok-err tt e (sym h ∙ ap (λ x. x.0) kept),
      λ h. elim h [
        | inl (project, k, _) ↦ ok-err project e (sym k)
        | inr k ↦ ap (λ x. (admit_quota W x app).0) k ∙ unavailable-admitted app
      ],
    )
  ]
