-- ===== src/Project/Access.antt =====
-- src/state.rs: whom the checks of a project let in.
use blockchain_api.Prelude.{
  ◌≡◌, ◌↔◌, refl, ap, ◌∙◌, sym, ◌⊎◌, inl, inr, true, false, String, Option, none, some,
  Option-cases, inr_inj, subst,
}
use blockchain_api.Errors.{Foreign, RpcError, ProjectDataError, RpcResult, ok, err}
use blockchain_api.Registry.{
  World, PlanLimits, or_no_limits, Sourced, ResponseSource, ProjectDataResponse, with_limits,
  project_data_internal, project_data, ProjectDataWithLimits, unavailable,
}
use blockchain_api.Project.{
  State, validated, get_project_data_validated, validate_project_access_and_quota,
}
use blockchain_api.Project.Quota.{Within, ok-err, admit_quota_iff}

-- Limits that are missing do not limit.
abbrev pub IsUnder : Option PlanLimits → Type 0
IsUnder none = Unit
IsUnder (some limits) = limits.is_above_rpc_limit ≡ false

err_inj : {A : Type 0} {d e : RpcError} → ◌≡◌ {A = RpcResult A} (err d) (err e) → d ≡ e
err_inj k = cc

data_error_inj :
    {d e : ProjectDataError} → RpcError.project_data_error d ≡ RpcError.project_data_error e → d ≡ e
data_error_inj k = cc

inl_inj : {A B : Type 0} {x y : A} → ◌≡◌ {A = A ⊎ B} (inl x) (inl y) → x ≡ y
inl_inj k = cc

some-none : {e : Foreign} {P : Type 0} → some e ≡ none → P
some-none k = cc

ok_inj : {A : Type 0} {x y : A} → RpcResult.ok x ≡ ok y → x ≡ y
ok_inj e = cc

cerberus-unavailable :
    (e : Foreign) {P : Type 0}
    → ◌≡◌ {A = RpcResult ProjectDataWithLimits} (err (RpcError.cerberus e)) (err unavailable)
    → P
cerberus-unavailable e k = cc

module _ (W : World) where
  -- The same before the data were validated.
  abbrev Valid : String → RpcResult ProjectDataWithLimits → Type 0
  Valid id got =
      ((project : ProjectDataWithLimits) × (got ≡ ok project)
        × (W.validate_access project.data' id ≡ none)
        × (project.limits.is_above_rpc_limit ≡ false))
      ⊎ (got ≡ err unavailable)

  validated_iff :
      (id : String) (got : RpcResult ProjectDataWithLimits) (app : State W)
      → Within (validated W id got app).0 ↔ Valid id got
  unfolding validated
  validated_iff id (err e) app = (
    λ h. elim h [ inl (p, k, u) ↦ inl (p, k, cc, u) | inr k ↦ inr k ],
    λ h. elim h [ inl (p, k, v, u) ↦ inl (p, k, u) | inr k ↦ inr k ],
  )
  validated_iff id (ok project) app = elim (Option-cases (W.validate_access project.data' id)) [
    | inl valid ↦
        rw (valid, validated)
          (
            λ h. elim h [
              | inl (p, k, u) ↦
                  inl (p, k, subst (λ q. W.validate_access q.data' id ≡ none) (ok_inj k) valid, u)
              | inr k ↦ inr k
            ],
            λ h. elim h [ inl (p, k, v, u) ↦ inl (p, k, u) | inr k ↦ inr k ],
          )
    | inr (e, invalid) ↦
        rw (invalid, validated)
          (
            λ h. elim h [ inl (p, k, u) ↦ ok-err p _ (sym k) | inr k ↦ cerberus-unavailable e k ],
            λ h. elim h [
              | inl (p, k, v, u) ↦
                  some-none (
                    sym (subst (λ q. W.validate_access q.data' id ≡ some e) (ok_inj k) invalid) ∙ v)
              | inr k ↦ ok-err project _ k
            ],
          )
  ]

  -- Who is let in, by the answer about the project's data: data that are valid for the project,
  -- whose quota is not used up, or an answer, given now or remembered, that the registry is
  -- temporarily unavailable.
  abbrev pub IsLetIn : String → Sourced W → Type 0
  IsLetIn id answer =
      ((source : ResponseSource) × (d : ProjectDataResponse W.Features) × (answer
          ≡ ok (source, inr d))
        × (W.validate_access d.data' id ≡ none)
        × IsUnder d.limits)
      ⊎ ((answer ≡ err unavailable)
          ⊎ ((source : ResponseSource) × (answer
                ≡ ok (source, inl ProjectDataError.registry_temporarily_unavailable))))

  IsUnder-or_no_limits :
      (limits : Option PlanLimits)
      → ((or_no_limits limits).is_above_rpc_limit ≡ false) ↔ IsUnder limits
  IsUnder-or_no_limits none = (λ _. tt, λ _. refl)
  IsUnder-or_no_limits (some l) = (λ u. u, λ u. u)

  unanswered :
      {source other : ResponseSource} {e : ProjectDataError} {d : ProjectDataResponse W.Features}
      {P : Type 0}
      → ◌≡◌ {A = Sourced W} (ok (source, inl e)) (ok (other, inr d))
      → P
  unanswered k = clash (ap (λ x. x.1) (ok_inj k))
    where
      clash :
          {e : ProjectDataError} {d : ProjectDataResponse W.Features} {P : Type 0}
          → ◌≡◌ {A = ProjectDataError ⊎ ProjectDataResponse W.Features} (inl e) (inr d)
          → P
      clash k = cc

  data_inj :
      {source other : ResponseSource} {d d' : ProjectDataResponse W.Features}
      → ◌≡◌ {A = Sourced W} (ok (source, inr d)) (ok (other, inr d'))
      → d ≡ d'
  data_inj k = inr_inj (ap (λ x. x.1) (ok_inj k))

  answered_iff :
      (id : String) (answer : Sourced W) → Valid id (with_limits W answer) ↔ IsLetIn id answer
  unfolding with_limits
  answered_iff id (err e) = (
    λ h. elim h [ inl (p, k, v, u) ↦ ok-err p e (sym k) | inr k ↦ inr (inl (ap err (err_inj k))) ],
    λ h. elim h [
      | inl (source, d, k, v, u) ↦ ok-err (source, inr d) e (sym k)
      | inr (inl k) ↦ inr (ap err (err_inj k))
      | inr (inr (source, k)) ↦ ok-err (source, inl _) e (sym k)
    ],
  )
  answered_iff id (ok (source, inl e)) = (
    λ h. elim h [
      | inl (p, k, v, u) ↦ ok-err p _ (sym k)
      | inr k ↦ inr (inr (source, ap (λ x. ok (source, inl x)) (data_error_inj (err_inj k))))
    ],
    λ h. elim h [
      | inl (other, d, k, v, u) ↦ unanswered k
      | inr (inl k) ↦ ok-err (source, inl e) unavailable k
      | inr (inr (other, k)) ↦
          inr (ap (λ x. err (RpcError.project_data_error x)) (inl_inj (ap (λ x. x.1) (ok_inj k))))
    ],
  )
  answered_iff id (ok (source, inr d)) = (
    λ h. elim h [
      | inl (p, k, v, u) ↦ inl (
        source,
        d,
        refl,
        subst (λ q. W.validate_access q.data' id ≡ none) (sym (ok_inj k)) v,
        (IsUnder-or_no_limits d.limits).0
            (subst (λ q. q.limits.is_above_rpc_limit ≡ false) (sym (ok_inj k)) u),
      )
      | inr k ↦ ok-err _ unavailable k
    ],
    λ h. elim h [
      | inl (other, d', k, v, u) ↦ inl (
        _,
        refl,
        subst (λ q. W.validate_access q.data' id ≡ none) (sym (data_inj k)) v,
        (IsUnder-or_no_limits d.limits).1 (subst (λ q. IsUnder q.limits) (sym (data_inj k)) u),
      )
      | inr (inl k) ↦ ok-err (source, inr d) unavailable k
      | inr (inr (other, k)) ↦ unanswered (sym k)
    ],
  )

  -- With validation on, a project passes the check of access and quota exactly when the cache or the
  -- registry answers with data that `validate_access` accepts for it and whose limits, if there are
  -- any, are not used up, or the answer, given now or remembered, is that the registry is
  -- temporarily unavailable.
  pub validate_project_access_and_quota_iff :
      (id : String) (app : State W)
      → ((validate_project_access_and_quota W true id app).0 ≡ ok tt)
        ↔ IsLetIn id
            (project_data_internal W app.registry'
              (record { id = id; include_limits = true; include_features = false })
              app.net).0
  unfolding validate_project_access_and_quota get_project_data_validated project_data
  validate_project_access_and_quota_iff id app =
      let answer =
        project_data_internal W app.registry'
          (record { id = id; include_limits = true; include_features = false }) app.net in
      let asked : State W = record app { registry' = answer.1; net = answer.2 } in
      let checked = validated W id (with_limits W answer.0) asked in
      let quota = admit_quota_iff W checked.0 checked.1 in
      let valid = validated_iff id (with_limits W answer.0) asked in
      let let_in = answered_iff id answer.0 in
      (λ h. let_in.0 (valid.0 (quota.0 h)), λ h. quota.1 (valid.1 (let_in.1 h)))
