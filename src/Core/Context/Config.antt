-- ===== src/Core/Context/Config.antt =====
-- context.rs, `resolve_config`: which prepared layers reach a Service contract, and in what order.
use mathlib.Core.List.{reverse-append}
use cordis_rs.Base.{
  ◌≡◌, refl, ap, ◌∙◌, not, Option, List, [], ◌∷◌, ◌++◌, reverse, map, append-nil, String, String_eq,
  ◌==◌, arith, nat_eq, if◌then◌else◌, Bool-cases, any, ok, err, inl, inr,
}
use cordis_rs.Core.Context.{
  Context, ConfiguredLayer, InterceptLayer, ConfigurableService, ConfigResolutionError,
  compose_matching, matching, resolve_config,
}
use cordis_rs.Core.Context.Axes.{
  Derivation, fiber, isolate, child, intercept, derive_all, intercepts, derive_all-axes,
}

module _ {Layer : Type 0} where
  -- The layers for `name` among a row of derivations, in the order in which they were derived.
  abbrev pub layers_for : String → List (Derivation Layer) → List (ConfiguredLayer Layer)
  layers_for name [] = []
  layers_for name (intercept n configured ∷ ds) =
      if n == name then configured ∷ layers_for name ds else layers_for name ds
  layers_for name (fiber f ∷ ds) = layers_for name ds
  layers_for name (isolate layer ∷ ds) = layers_for name ds
  layers_for name (child address ∷ ds) = layers_for name ds

  matching-append :
      (name : String) (xs ys : List (InterceptLayer Layer))
      → matching name (xs ++ ys) ≡ matching name xs ++ matching name ys
  unfolding matching
  matching-append name [] ys = refl
  matching-append name (x ∷ xs) ys = ground (arith, matching-append name xs ys)

  matching-layers_for :
      (name : String) (ds : List (Derivation Layer))
      → reverse (matching name (intercepts ds)) ≡ layers_for name ds
  unfolding matching
  matching-layers_for name [] = refl
  matching-layers_for name (intercept n configured ∷ ds) = elim (Bool-cases (n == name)) [
    | inl b ↦
        rw
          (
            matching-append name (intercepts ds)
                (record { name = n; configured = configured } ∷ []),
            b,
          )
          (reverse-append (matching name (intercepts ds)) (configured ∷ [])
            ∙ ap (◌∷◌ configured) (matching-layers_for name ds))
    | inr b ↦
        rw
          (
            matching-append name (intercepts ds)
                (record { name = n; configured = configured } ∷ []),
            b,
          )
          (rw (append-nil (matching name (intercepts ds))) (matching-layers_for name ds))
  ]
  matching-layers_for name (fiber f ∷ ds) = matching-layers_for name ds
  matching-layers_for name (isolate layer ∷ ds) = matching-layers_for name ds
  matching-layers_for name (child address ∷ ds) = matching-layers_for name ds

module _ {Layer Resolved E : Type 0} where
  -- A view without intercepts, derived further, resolves a contract from the layers derived for
  -- its name, the outermost first. If one of them belongs to another contract, the composition is
  -- not run.
  pub resolve_config-layers :
      (c : Context Layer) (ds : List (Derivation Layer)) (s : ConfigurableService Layer Resolved E)
      (base head : Option Layer)
      → c.intercept ≡ []
      → resolve_config (derive_all c ds) s base head ≡ (
          if any (λ l. not (nat_eq l.service_type s.type_id)) (layers_for s.name ds)
          then err (ConfigResolutionError.contract_mismatch s.name)
          else elim (s.compose_config base (map (λ l. l.value) (layers_for s.name ds)) head) [
            | ok resolved ↦ ok resolved
            | err e ↦ err (ConfigResolutionError.compose e)
          ])
  unfolding resolve_config
  resolve_config-layers c ds s base head h =
      ap (λ (l : List (ConfiguredLayer Layer)). compose_matching s l base head) collected
    where
      collected : reverse (matching s.name (derive_all c ds).intercept) ≡ layers_for s.name ds
      collected =
          ap (λ x. reverse (matching s.name x.intercept)) (derive_all-axes c ds)
          ∙ ap (λ x. reverse (matching s.name x))
              (ap (◌++◌ (intercepts ds)) h ∙ append-nil (intercepts ds))
          ∙ matching-layers_for s.name ds
