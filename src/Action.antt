-- ===== src/Action.antt =====
-- Methods that change an object and may fail. What was written before an error stays written, so
-- the state comes back beside the error too.
use atree.Prelude.{◌≡◌, ap}
use atree.Errors.{Error, Result, ok, err, panic}

abbrev pub Action : Type 0 → Type 0 → Type 0
Action S A = S → Result A × S

module _ {S A : Type 0} where
  abbrev pub pure : A → Action S A
  pure a s = (ok a, s)

  abbrev pub raise : Error → Action S A
  raise e s = (err e, s)

  -- A computation that neither reads nor writes the state.
  abbrev pub lift : Result A → Action S A
  lift r s = (r, s)

module _ {S A B : Type 0} where
  abbrev pub continue : Result A → (A → Action S B) → Action S B
  continue (ok a) f s = f a s
  continue (err e) f s = (err e, s)
  continue panic f s = (panic, s)

  infixl 5 ◌>>=◌ ◌>>◌
  abbrev pub ◌>>=◌ : Action S A → (A → Action S B) → Action S B
  ◌>>=◌ m f s = continue (m s).0 f (m s).1

  abbrev pub ◌>>◌ : Action S A → Action S B → Action S B
  m >> n = m >>= λ _. n

  pub bind-ok :
      (m : Action S A) (f : A → Action S B) (a : A) (s s' : S)
      → m s ≡ (ok a, s')
      → ◌>>=◌ m f s ≡ f a s'
  bind-ok m f a s s' h = ap (λ r. continue r.0 f r.1) h
