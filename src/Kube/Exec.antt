-- ===== src/Kube/Exec.antt =====
-- Methods that change a state, may return an error, and may panic. What was written before an error
-- stays written, so the state comes back beside it.
use ocs_osd_deployer.Base.{String, Bool, true, false, List, [], ◌∷◌, if◌then◌else◌}

-- `wrapped` is `fmt.Errorf("...%v", err)`, which forgets what kind of error it wraps.
pub data Error : Type 0 where
  not_found already_exists : Error
  api_error : String → Error
  message : String → Error
  wrapped : String → Error → Error

-- `errors.IsNotFound`
abbrev pub is_not_found : Error → Bool
is_not_found not_found = true
is_not_found _ = false

-- `errors.IsAlreadyExists`
abbrev pub is_already_exists : Error → Bool
is_already_exists already_exists = true
is_already_exists _ = false

pub data Result {ℓ} (A : Type ℓ) : Type ℓ where
  ok : A → Result A
  err : Error → Result A
  panic : Result A

abbrev pub Exec {ℓ} : Type ℓ → Type ℓ → Type ℓ
Exec S A = S → Result A × S

unfoldable pub wrap_result {ℓ} : {A : Type ℓ} → String → Result A → Result A
wrap_result text (err e) = err (wrapped text e)
wrap_result text r = r

module _ {ℓ} {S A : Type ℓ} where
  unfoldable pub pure : A → Exec S A
  pure a s = (ok a, s)

  unfoldable pub raise : Error → Exec S A
  raise e s = (err e, s)

  unfoldable pub crash : Exec S A
  crash s = (panic, s)

  unfoldable pub lift : Result A → Exec S A
  lift r s = (r, s)

  unfoldable pub gets : (S → A) → Exec S A
  gets f s = (ok (f s), s)

  -- `if err != nil { return fmt.Errorf("text%v", err) }`
  unfoldable pub wrap : String → Exec S A → Exec S A
  unfolding wrap_result
  wrap text m s = let (r, s') = m s in (wrap_result text r, s')

  unfoldable pub attempted : Result A → S → Result (Result A) × S
  attempted (ok a) s = (ok (ok a), s)
  attempted (err e) s = (ok (err e), s)
  attempted panic s = (panic, s)

abbrev pub modify : {S : Type 0} → (S → S) → Exec S (Unit {0})
modify f s = (ok tt, f s)

-- The result with its error, for code that looks at the error; a panic is not caught.
unfoldable pub attempt {ℓ} : {S A : Type ℓ} → Exec S A → Exec S (Result A)
unfolding attempted
attempt m s = let (r, s') = m s in attempted r s'

module _ {ℓ} {S A B : Type ℓ} where
  unfoldable pub continue : Result A → (A → Exec S B) → Exec S B
  continue (ok a) f s = f a s
  continue (err e) f s = (err e, s)
  continue panic f s = (panic, s)

  infixl 5 ◌>>=◌ ◌>>◌
  -- Opening this opens the other actions of this file too.
  unfoldable pub ◌>>=◌ : Exec S A → (A → Exec S B) → Exec S B
  unfolding continue pure raise crash lift gets wrap attempt
  ◌>>=◌ m f s = let (r, s') = m s in continue r f s'

  abbrev pub ◌>>◌ : Exec S A → Exec S B → Exec S B
  m >> n = m >>= λ _. n

-- The action, if the test holds.
abbrev pub when : {S : Type 0} → Bool → Exec S (Unit {0}) → Exec S (Unit {0})
when b m = if b then m else pure tt

-- A loop that ends at the first error.
unfoldable pub for_each : {S A : Type 0} → List A → (A → Exec S (Unit {0})) → Exec S (Unit {0})
for_each [] f = pure tt
for_each (x ∷ xs) f = f x >> for_each xs f
