-- ===== src/Controllers/Operators/Deletion.antt =====
-- What `deleteCSVByPrefix` may delete.
use ocs_osd_deployer.Base.{
  String, ◌≡◌, refl, ◌⊎◌, inl, inr, Bool-cases, true, Option, none, some, List, [], ◌∷◌, ap, ◌∙◌,
  starts_with, arith,
}
use ocs_osd_deployer.Kube.Exec
use ocs_osd_deployer.Kube.Exec.{
  Error, Exec, continue, attempted, is_not_found, Result, ok, err, panic, attempt, wrap, ◌>>=◌,
}
use ocs_osd_deployer.Kube.Keeps.{Keeps-if, Keeps-pure, Keeps-raise, Keeps-crash}
use ocs_osd_deployer.Kube.Object.{Kind, Object}
use ocs_osd_deployer.Kube.Env.{Env}
use ocs_osd_deployer.Controllers.State.{World, deleted}
use ocs_osd_deployer.Controllers.Actions.{or_raise}
use ocs_osd_deployer.Controllers.Effects.Quiet.{Same, Quiet-Reads, delete-journal}
use ocs_osd_deployer.Controllers.Effects.Monitoring.{Spares-get_csv_by_prefix}
use ocs_osd_deployer.Controllers.Operators.{
  find_csv, delete_found, get_csv_by_prefix, delete_csv_by_prefix,
}

find_csv-starts_with :
    (csvs : List (Object Kind.cluster_service_version)) (prefix : String)
    {csv : Object Kind.cluster_service_version}
    → find_csv csvs prefix ≡ some csv
    → starts_with csv.metadata.name prefix ≡ true
find_csv-starts_with [] prefix h = ground arith
find_csv-starts_with (c ∷ cs) prefix {csv} h =
    elim (Bool-cases (starts_with c.metadata.name prefix)) [
      | inl e ↦ ground arith
      | inr e ↦ find_csv-starts_with cs prefix {csv = csv} (ground arith)
    ]

continue-eq-ok :
    {S A B : Type 0} (r : Result A) (f : A → Exec S B) (s : S) {b : B}
    → (continue r f s).0 ≡ ok b
    → (a : A) × (r ≡ ok a) × ((f a s).0 ≡ ok b)
unfolding continue
continue-eq-ok (ok a) f s h = (a, refl, h)
continue-eq-ok (err e) f s h = cc
continue-eq-ok panic f s h = cc

or_raise-eq-ok :
    {S A : Type 0} (o : Option A) (e : Error) (s : S) {a : A}
    → (or_raise o e s).0 ≡ ok a
    → o ≡ some a
unfolding or_raise ◌>>=◌
or_raise-eq-ok (some a) e s h = ground arith
or_raise-eq-ok none e s {a} h = cc

module _ (E : Env) (prefix : String) (w : World E) where
  got_prefix :
      {csv : Object Kind.cluster_service_version}
      → (get_csv_by_prefix E prefix w).0 ≡ ok csv
      → starts_with csv.metadata.name prefix ≡ true
  unfolding get_csv_by_prefix ◌>>=◌
  got_prefix {csv} h =
      let (csvs, _, e) =
        continue-eq-ok _ (λ csvs. or_raise (find_csv csvs prefix) Exec.not_found) _ h in
      find_csv-starts_with csvs prefix {csv = csv} (or_raise-eq-ok _ _ _ e)

  -- Nothing is written, or one component of the prefix is deleted.
  unfoldable pub DeletesOnlyPrefix : World E → Type 0
  DeletesOnlyPrefix s =
      (s.journal ≡ w.journal)
      ⊎ ((name : String) × (starts_with name prefix ≡ true)
          × (s.journal ≡ deleted Kind.cluster_service_version name ∷ w.journal))

  delete_found-prefix :
      (r : Result (Object Kind.cluster_service_version)) (s : World E)
      → s.journal ≡ w.journal
      → ((csv : Object Kind.cluster_service_version)
          → r ≡ ok csv
          → starts_with csv.metadata.name prefix ≡ true)
      → DeletesOnlyPrefix (delete_found E r s).1
  unfolding delete_found DeletesOnlyPrefix
  delete_found-prefix (ok csv) s h k = inr (
    csv.metadata.name,
    k csv refl,
    delete-journal E csv s ∙ ap (λ j. deleted Kind.cluster_service_version csv.metadata.name ∷ j) h,
  )
  delete_found-prefix (err e) s h k = inl (
      (Keeps-if {P = Same E w.journal} (is_not_found e) _ _ (Keeps-pure tt) (Keeps-raise e)).at s h)
  delete_found-prefix panic s h k = inl ((Keeps-crash {P = Same E w.journal}).at s h)

  attempted_prefix :
      (r : Result (Object Kind.cluster_service_version)) (s : World E)
      → s.journal ≡ w.journal
      → ((csv : Object Kind.cluster_service_version)
          → r ≡ ok csv
          → starts_with csv.metadata.name prefix ≡ true)
      → DeletesOnlyPrefix (continue (attempted r s).0 (delete_found E) (attempted r s).1).1
  unfolding ◌>>=◌ DeletesOnlyPrefix
  attempted_prefix (ok csv) s h k = delete_found-prefix (ok csv) s h k
  attempted_prefix (err e) s h k = delete_found-prefix (err e) s h k
  attempted_prefix panic s h k = inl h

  -- Deleting by prefix writes nothing but the deletion of one cluster service version, whose name
  -- starts with the prefix.
  pub delete_csv_by_prefix-only_prefix : DeletesOnlyPrefix (delete_csv_by_prefix E prefix w).1
  unfolding delete_csv_by_prefix ◌>>=◌
  delete_csv_by_prefix-only_prefix =
      attempted_prefix _ _
        ((Spares-get_csv_by_prefix E (Same E w.journal) (Quiet-Reads E w.journal) prefix).at w refl)
        (λ csv e. got_prefix {csv = csv} e)
