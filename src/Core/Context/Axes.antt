-- ===== src/Core/Context/Axes.antt =====
-- context.rs, the three axes: each derivation moves along one of them and leaves the others.
use cordis_rs.Base.{ℕ, ◌≡◌, refl, ap, ◌∙◌, ◌||◌, List, [], ◌∷◌, ◌++◌, append_assoc, String, arith}
use cordis_rs.Core.Context.{
  Context, ConfiguredLayer, InterceptLayer, reaches, with_fiber, derive_isolate, with_child_scope,
  with_configured_intercept,
}

-- One derivation of a view from another; a child scope takes a fresh address.
pub data Derivation (Layer : Type 0) : Type 0 where
  fiber : ℕ → Derivation Layer
  isolate : List (String × ℕ) → Derivation Layer
  child : (address : ℕ) → Derivation Layer
  intercept : (name : String) → ConfiguredLayer Layer → Derivation Layer

module _ {Layer : Type 0} where
  pub derive : Context Layer → Derivation Layer → Context Layer
  derive c (fiber f) = with_fiber c f
  derive c (isolate layer) = derive_isolate c layer
  derive c (child address) = with_child_scope c address
  derive c (intercept name configured) = with_configured_intercept c name configured

  pub derive_all : Context Layer → List (Derivation Layer) → Context Layer
  derive_all c [] = c
  derive_all c (d ∷ ds) = derive_all (derive c d) ds

  -- The layers that a row of derivations adds to each axis, the last one first.
  abbrev pub isolates : List (Derivation Layer) → List (List (String × ℕ))
  isolates [] = []
  isolates (isolate layer ∷ ds) = isolates ds ++ (layer ∷ [])
  isolates (_ ∷ ds) = isolates ds

  abbrev pub scopes : List (Derivation Layer) → List ℕ
  scopes [] = []
  scopes (child address ∷ ds) = scopes ds ++ (address ∷ [])
  scopes (_ ∷ ds) = scopes ds

  abbrev pub intercepts : List (Derivation Layer) → List (InterceptLayer Layer)
  intercepts [] = []
  intercepts (intercept name configured ∷ ds) =
      intercepts ds ++ (record { name = name; configured = configured } ∷ [])
  intercepts (_ ∷ ds) = intercepts ds

  abbrev pub last_fiber : ℕ → List (Derivation Layer) → ℕ
  last_fiber f [] = f
  last_fiber f (fiber g ∷ ds) = last_fiber g ds
  last_fiber f (_ ∷ ds) = last_fiber f ds

  -- Each axis of a derived view holds the layers added to it, in front of those of the source,
  -- whatever is derived along the other axes in between; the current Fiber is the last selected.
  pub derive_all-axes :
      (c : Context Layer) (ds : List (Derivation Layer))
      → derive_all c ds ≡ record {
        root = c.root;
        fiber = last_fiber c.fiber ds;
        isolate = isolates ds ++ c.isolate;
        scope = scopes ds ++ c.scope;
        intercept = intercepts ds ++ c.intercept;
      }
  unfolding derive_all derive with_fiber derive_isolate with_child_scope with_configured_intercept
  derive_all-axes c [] = refl
  derive_all-axes c (fiber f ∷ ds) = derive_all-axes (with_fiber c f) ds
  derive_all-axes c (isolate layer ∷ ds) =
      derive_all-axes (derive_isolate c layer) ds
      ∙ rw (append_assoc (isolates ds) (layer ∷ []) c.isolate)
  derive_all-axes c (child address ∷ ds) =
      derive_all-axes (with_child_scope c address) ds
      ∙ rw (append_assoc (scopes ds) (address ∷ []) c.scope)
  derive_all-axes c (intercept name configured ∷ ds) =
      derive_all-axes (with_configured_intercept c name configured) ds
      ∙ rw (
          append_assoc (intercepts ds) (record { name = name; configured = configured } ∷ [])
            c.intercept)

reaches-append : (xs ys : List ℕ) (h : ℕ) → reaches (xs ++ ys) h ≡ (reaches xs h || reaches ys h)
reaches-append [] ys h = refl
reaches-append (x ∷ xs) ys h = ground (arith, reaches-append xs ys h)

module _ {Layer : Type 0} where
  -- A view derived from `c` reaches what `c` reaches, and beyond it only the scopes derived on
  -- the way: no sibling and no descendant of its own.
  derive_all-reaches :
      (c : Context Layer) (ds : List (Derivation Layer)) (h : ℕ)
      → reaches (derive_all c ds).scope h ≡ (reaches (scopes ds) h || reaches c.scope h)
  derive_all-reaches c ds h =
      ap (λ x. reaches x.scope h) (derive_all-axes c ds) ∙ reaches-append (scopes ds) c.scope h
