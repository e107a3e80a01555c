-- ===== src/Controllers/Effects/Quiet.antt =====
-- The actions that write nothing, and the journal after one call that writes.
use ocs_osd_deployer.Base.{◌∷◌, ◌≡◌, refl, List}
use ocs_osd_deployer.Kube.Exec.{◌>>=◌}
use ocs_osd_deployer.Kube.Object.{Kind, Object}
use ocs_osd_deployer.Kube.Env.{Env}
use ocs_osd_deployer.Controllers.State.{World, Slot, Write, updated, status_updated, deleted}
use ocs_osd_deployer.Controllers.Actions.{
  M, call, asks, assign, emit, update_slot, update_status_slot, update, delete,
}
use ocs_osd_deployer.Controllers.Effects.{Reads, Fields, Spares}
use ocs_osd_deployer.Controllers.Effects.Calls.{spares_rules}

module _ (E : Env) (journal : List Write) where
  -- The journal is still this one.
  abbrev pub Same : World E → Type 0
  Same s = s.journal ≡ journal

  abbrev pub Quiet : {A : Type 0} → M E A → Type 0
  Quiet m = Spares E Same m

  pub Quiet-Reads : Reads E Same
  Quiet-Reads = record { calls = λ w cluster same. same; assigns = λ f foreign w same. same }

  pub Quiet-Fields : Fields E Same
  Quiet-Fields = record { assigns_any = λ f w same. same }

module _ (E : Env) where
  -- One call is recorded, and what follows it records nothing.
  emit-then :
      {A : Type 0} (x : Write) (k : Unit {0} → M E A)
      → ((journal : List Write) → Quiet E journal (k tt))
      → (s : World E) → ((emit E x >>= k) s).1.journal ≡ x ∷ s.journal
  unfolding emit ◌>>=◌
  emit-then x k quiet s = (quiet (x ∷ s.journal)).at (record s { journal = x ∷ s.journal }) refl

  module _ {k : Kind} where
    pub delete-journal :
        (obj : Object k) (s : World E)
        → (delete E obj s).1.journal ≡ deleted k obj.metadata.name ∷ s.journal
    unfolding delete
    delete-journal obj s =
        emit-then _ _ (λ journal. search (spares_rules, Quiet-Reads, Quiet-Fields) depth 20) s

    pub update_slot-journal :
        (slot : Slot k) (s : World E)
        → (update_slot E slot s).1.journal
          ≡ updated k (slot.read s.reconciler).metadata.name ∷ s.journal
    unfolding update_slot update asks emit ◌>>=◌
    update_slot-journal slot s =
        let obj = slot.read s.reconciler in
        let now = updated k obj.metadata.name ∷ s.journal in
        let quiet : Quiet E now (call E (E.update k obj) >>= λ new. assign E (slot.write new)) =
          search (spares_rules, Quiet-Reads, Quiet-Fields) depth 20 in
        quiet.at (record s { journal = now }) refl

    pub update_status_slot-journal :
        (slot : Slot k) (s : World E)
        → (update_status_slot E slot s).1.journal
          ≡ status_updated k (slot.read s.reconciler).metadata.name ∷ s.journal
    unfolding update_status_slot asks ◌>>=◌
    update_status_slot-journal slot s =
        emit-then _
          (λ _. call E (E.update_status k (slot.read s.reconciler)) >>= λ new.
            assign E (slot.write new))
          (λ journal. search (spares_rules, Quiet-Reads, Quiet-Fields) depth 20) s
