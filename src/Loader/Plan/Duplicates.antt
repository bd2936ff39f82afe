-- ===== src/Loader/Plan/Duplicates.antt =====
-- plan.rs, `validate_plugin`: which declarations pass, and which error the others give.
use cordis_rs.Base.{
  ◌≡◌, ◌↔◌, ◌⊎◌, ◌≢◌, none, List, map, arith, String, String_eq, first_duplicate-none_iff, Distinct,
  ok,
}
use cordis_rs.Loader.Plan.{EntryId, PluginEntry, service, validate_plugin}

-- What a declaration has to satisfy.
pub record IsDeclarable {Value : Type 0} (entry : PluginEntry Value) : Type 0 where
  pub identified : (entry.key ≢ none) ⊎ (entry.name ≢ none)
  pub inject_once : Distinct (map service entry.inject)
  pub isolate_once : Distinct (map (λ d. d.service) entry.isolate)

module _ {Value : Type 0} (id : EntryId) (entry : PluginEntry Value) where
  abbrev injects : List String
  injects = map service entry.inject

  abbrev isolates : List String
  isolates = map (λ d. d.service) entry.isolate

  validate_plugin-ok : IsDeclarable entry → validate_plugin id entry ≡ ok tt
  unfolding validate_plugin
  validate_plugin-ok v = ground (
    arith,
    v.identified,
    (first_duplicate-none_iff injects).1 v.inject_once,
    (first_duplicate-none_iff isolates).1 v.isolate_once,
  )

  ok-IsDeclarable : validate_plugin id entry ≡ ok tt → IsDeclarable entry
  unfolding validate_plugin
  ok-IsDeclarable h = record {
    identified = ground arith;
    inject_once = (first_duplicate-none_iff injects).0 (ground arith);
    isolate_once = (first_duplicate-none_iff isolates).0 (ground arith);
  }

  -- A declaration passes exactly when it has a resolve identity and names no injected and no
  -- isolated service twice.
  pub validate_plugin-ok_iff : (validate_plugin id entry ≡ ok tt) ↔ IsDeclarable entry
  validate_plugin-ok_iff = (ok-IsDeclarable, validate_plugin-ok)
