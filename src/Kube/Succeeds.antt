-- ===== src/Kube/Succeeds.antt =====
-- What an action that succeeded has gone through.
use ocs_osd_deployer.Base.{◌≡◌, refl, sym, ap, ◌∙◌}
use ocs_osd_deployer.Kube.Exec.{Result, ok, err, panic, Exec, continue, ◌>>=◌}

module _ {S A B : Type 0} where
  continue-eq-ok :
      (r : Result A) (f : A → Exec S B) (s : S) (b : B)
      → (continue r f s).0 ≡ ok b
      → (a : A) × (r ≡ ok a) × (continue r f s ≡ f a s)
  unfolding continue
  continue-eq-ok (ok a) f s b h = (a, refl, refl)
  continue-eq-ok (err e) f s b h = absurd cc
  continue-eq-ok panic f s b h = absurd cc

  -- The first part succeeded, and the rest went on from there.
  pub bind-eq-ok :
      (m : Exec S A) (f : A → Exec S B) (s : S) (b : B)
      → ((m >>= f) s).0 ≡ ok b
      → (a : A) × ((m s).0 ≡ ok a) × ((m >>= f) s ≡ f a (m s).1)
  unfolding ◌>>=◌
  bind-eq-ok m f s b h = continue-eq-ok (m s).0 f (m s).1 b h

  -- So did the rest.
  pub bind_steps :
      (m : Exec S A) (f : A → Exec S B) (s : S) (b : B)
      → ((m >>= f) s).0 ≡ ok b
      → (a : A) × ((m s).0 ≡ ok a) × ((m >>= f) s ≡ f a (m s).1) × ((f a (m s).1).0 ≡ ok b)
  bind_steps m f s b h =
      let (a, e, p) = bind-eq-ok m f s b h in (a, e, p, ap (λ r. r.0) (sym p) ∙ h)
