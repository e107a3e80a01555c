-- ===== src/Kube/Keeps.antt =====
-- Invariants of actions, with a rule for each way to build an action.
use ocs_osd_deployer.Base.{
  String, Bool, true, false, List, [], ◌∷◌, ◌≡◌, refl, ◌⊎◌, inl, inr, if◌then◌else◌,
}
use ocs_osd_deployer.Kube.Exec.{
  Error, Result, ok, err, panic, Exec, pure, raise, crash, lift, wrap, attempt, attempted, continue,
  for_each, ◌>>=◌,
}

-- `m` keeps `P`, whether it returns, fails or panics.
pub record Keeps {S A : Type 0} (P : S → Type 0) (m : Exec S A) : Type 0 where
  pub at : (s : S) → P s → P (m s).1

pub attempted-keeps :
    {S A : Type 0} (P : S → Type 0) (r : Result A) (s : S) → P s → P (attempted r s).1
unfolding attempted
attempted-keeps P (ok a) s h = h
attempted-keeps P (err e) s h = h
attempted-keeps P panic s h = h

module _ {S A : Type 0} {P : S → Type 0} where
  pub Keeps-crash : Keeps P (crash {A = A})
  unfolding crash
  Keeps-crash = record { at = λ state held. held }

  pub Keeps-wrap : (text : String) (m : Exec S A) → Keeps P m → Keeps P (wrap text m)
  unfolding wrap
  Keeps-wrap text m k = record { at = λ s h. k.at s h }

  pub Keeps-raise : (e : Error) → Keeps P (raise {A = A} e)
  unfolding raise
  Keeps-raise e = record { at = λ state held. held }

  pub Keeps-attempt : (m : Exec S A) → Keeps P m → Keeps P (attempt m)
  unfolding attempt
  Keeps-attempt m k = record { at = λ s h. attempted-keeps P (m s).0 (m s).1 (k.at s h) }

  pub Keeps-pure : (result : A) → Keeps P (pure result)
  unfolding pure
  Keeps-pure result = record { at = λ state held. held }

  pub Keeps-if : (b : Bool) (m n : Exec S A) → Keeps P m → Keeps P n → Keeps P (if b then m else n)
  Keeps-if true m n km kn = km
  Keeps-if false m n km kn = kn

  pub Keeps-lift : (answer : Result A) → Keeps P (lift answer)
  unfolding lift
  Keeps-lift answer = record { at = λ state held. held }

module _ {S A B : Type 0} {P : S → Type 0} where
  continue-keeps :
      (r : Result A) (f : A → Exec S B) (s : S)
      → ((a : A) → Keeps P (f a))
      → P s
      → P (continue r f s).1
  unfolding continue
  continue-keeps (ok a) f s k h = (k a).at s h
  continue-keeps (err e) f s k h = h
  continue-keeps panic f s k h = h

  pub Keeps-bind :
      (first : Exec S A) (next : A → Exec S B)
      → Keeps P first
      → ((result : A) → Keeps P (next result))
      → Keeps P (first >>= next)
  unfolding ◌>>=◌
  Keeps-bind first next k l = record {
    at = λ s h. continue-keeps (first s).0 next (first s).1 l (k.at s h);
  }

module _ {S A : Type 0} {P : S → Type 0} where
  pub Keeps-for_each :
      (xs : List A) (f : A → Exec S (Unit {0}))
      → ((a : A) → Keeps P (f a))
      → Keeps P (for_each xs f)
  unfolding for_each
  Keeps-for_each [] f k = Keeps-pure tt
  Keeps-for_each (x ∷ xs) f k = Keeps-bind (f x) _ (k x) (λ _. Keeps-for_each xs f k)

module _ {S A B : Type 0} (P : S → Type 0) (Q : Type 0) (f : A → Exec S B) where
  continue-guarded :
      (r : Result A) (s : S)
      → P s
      → ((a : A) → r ≡ ok a → P (f a s).1 ⊎ Q)
      → P (continue r f s).1 ⊎ Q
  unfolding continue
  continue-guarded (ok a) s h k = k a refl
  continue-guarded (err e) s h k = inl h
  continue-guarded panic s h k = inl h

  -- After `m`, which keeps `P`, the invariant holds or there is a reason `Q` why it need not.
  pub bind-guarded :
      (m : Exec S A) (s : S)
      → Keeps P m
      → P s
      → ((a : A) → (m s).0 ≡ ok a → P (f a (m s).1).1 ⊎ Q)
      → P ((m >>= f) s).1 ⊎ Q
  unfolding ◌>>=◌
  bind-guarded m s km h k = continue-guarded (m s).0 (m s).1 (km.at s h) k

module _ {S A : Type 0} (P : S → Type 0) (Q : Type 0) where
  pub attempt-guarded : (m : Exec S A) (s : S) → P (m s).1 ⊎ Q → P (attempt m s).1 ⊎ Q
  unfolding attempt
  attempt-guarded m s (inl h) = inl (attempted-keeps P (m s).0 (m s).1 h)
  attempt-guarded m s (inr q) = inr q

  -- What follows the action that may break the invariant for a reason.
  pub guarded-bind :
      {B : Type 0} (m : Exec S A) (f : A → Exec S B) (s : S)
      → P (m s).1 ⊎ Q
      → ((a : A) → Keeps P (f a))
      → P ((m >>= f) s).1 ⊎ Q
  unfolding ◌>>=◌
  guarded-bind m f s (inl h) k = inl (continue-keeps (m s).0 f (m s).1 k h)
  guarded-bind m f s (inr q) k = inr q

module _ {S A B : Type 0} (P : S → Type 0) (f : A → Exec S B) where
  continue-ends :
      (r : Result A) (s : S) → P s → ((a : A) → r ≡ ok a → P (f a s).1) → P (continue r f s).1
  unfolding continue
  continue-ends (ok a) s h k = k a refl
  continue-ends (err e) s h k = h
  continue-ends panic s h k = h

  -- The state at the end is that after the first part, or that after both.
  pub bind_ends :
      (m : Exec S A) (s : S)
      → P (m s).1
      → ((a : A) → (m s).0 ≡ ok a → P (f a (m s).1).1)
      → P ((m >>= f) s).1
  unfolding ◌>>=◌
  bind_ends m s h k = continue-ends (m s).0 (m s).1 h k

  -- The first part has this result.
  pub bind_then :
      (m : Exec S A) (s : S) (a : A) (s' : S) → m s ≡ (ok a, s') → P (f a s').1 → P ((m >>= f) s).1
  unfolding ◌>>=◌
  bind_then m s a s' e h = rw (e, continue) h

  -- What follows keeps what holds after the first part.
  pub bind_from : (m : Exec S A) (s : S) → P (m s).1 → ((a : A) → Keeps P (f a)) → P ((m >>= f) s).1
  bind_from m s h k = bind_ends m s h (λ a _. (k a).at (m s).1 h)

pub ruleset keeps_rules = (
  Keeps-pure, Keeps-raise, Keeps-crash, Keeps-lift, Keeps-wrap, Keeps-attempt, Keeps-if, Keeps-bind,
  Keeps-for_each,
)
