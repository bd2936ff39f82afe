-- ===== src/Loader/Load/Cover.antt =====
-- plan.rs, `LoadPlan::load`: the disabled plugin that covers a node, found from the nodes alone.
use cordis_rs.Base.{
  ◌≡◌, refl, ap, ◌∙◌, inl, inr, true, false, Option, none, some, List, [], ◌∷◌, if◌then◌else◌,
  contains, ◌==◌, beq_refl, zero, suc, ℕ, sym, subst, Bool-cases,
}
use mathlib.Core.Option.{some-injective, none-ne-some}
use cordis_rs.Loader.Plan.{EntryId, EntryId_eq, PlanNode}
use cordis_rs.Loader.Plan.Build.{IsOrdered, ParentIn}
use cordis_rs.Loader.Load.{from_parent}
use cordis_rs.Loader.Load.Rows.{first_of_two, own, Covers}

module _ {Value : Type 0} where
  -- What the nodes after a table add to it.
  abbrev noted : (EntryId → Option EntryId) → PlanNode Value → EntryId → Option EntryId
  noted table n id =
      if n.id == id then first_of_two (from_parent table n.parent) (own n.id n.entry) else table id

  abbrev cover_from : (EntryId → Option EntryId) → List (PlanNode Value) → EntryId → Option EntryId
  cover_from table [] = table
  cover_from table (n ∷ ns) = cover_from (noted table n) ns

  -- The outermost disabled plugin at or above a node, in one pass over the admission order.
  abbrev pub cover : List (PlanNode Value) → EntryId → Option EntryId
  cover nodes = cover_from (λ id. none) nodes

  -- Later nodes change nothing that the table says of an earlier one.
  cover_from-seen :
      (lineage : ℕ) (seen : List EntryId) (table : EntryId → Option EntryId)
      (ns : List (PlanNode Value)) (id : EntryId)
      → IsOrdered lineage seen ns
      → contains seen id ≡ true
      → cover_from table ns id ≡ table id
  cover_from-seen lineage seen table [] id v h = refl
  cover_from-seen lineage seen table (n ∷ ns) id v h = elim (Bool-cases (n.id == id)) [
    | inl b ↦
        let p : contains seen id ≡ false =
          subst (λ i. contains seen i ≡ false) ((EntryId_eq.beq_iff n.id id).0 b) v.1 in
        cc
    | inr b ↦
        cover_from-seen lineage (n.id ∷ seen) (noted table n) ns id v.4 (rw (b, h) refl) ∙ rw b refl
  ]

  from_parent-seen :
      (lineage : ℕ) (seen : List EntryId) (table : EntryId → Option EntryId)
      (ns : List (PlanNode Value)) (parent : Option EntryId)
      → IsOrdered lineage seen ns
      → ParentIn lineage seen parent
      → from_parent (cover_from table ns) parent ≡ from_parent table parent
  from_parent-seen lineage seen table ns none v p = refl
  from_parent-seen lineage seen table ns (some q) v p =
      cover_from-seen lineage seen table ns q v p.1

  cover_from-Covers :
      (lineage : ℕ) (seen : List EntryId) (table : EntryId → Option EntryId)
      (ns : List (PlanNode Value))
      → IsOrdered lineage seen ns
      → Covers ns (cover_from table ns)
  cover_from-Covers lineage seen table [] v i n h = absurd (none-ne-some n h)
  cover_from-Covers lineage seen table (m ∷ ns) v (suc i) n h =
      cover_from-Covers lineage (m.id ∷ seen) (noted table m) ns v.4 i n h
  cover_from-Covers lineage seen table (m ∷ ns) v zero n h =
      subst
        (λ k.
          cover_from table (m ∷ ns) k.id
          ≡ first_of_two (from_parent (cover_from table (m ∷ ns)) k.parent) (own k.id k.entry))
        (some-injective m n h)
        (cover_from-seen lineage (m.id ∷ seen) (noted table m) ns m.id v.4 (rw (beq_refl m.id) refl)
          ∙ rw (beq_refl m.id) refl
          ∙ ap (λ o. first_of_two o (own m.id m.entry))
              (sym (from_parent-seen lineage seen table (m ∷ ns) m.parent v v.2)))

  pub cover-Covers :
      (lineage : ℕ) (nodes : List (PlanNode Value))
      → IsOrdered lineage [] nodes
      → Covers nodes (cover nodes)
  cover-Covers lineage nodes v = cover_from-Covers lineage [] (λ id. none) nodes v
