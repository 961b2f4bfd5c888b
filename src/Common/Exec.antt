-- ===== src/Common/Exec.antt =====
-- Methods that act on a state `S`: `&mut self`, a store behind a reference, or a remote node. What
-- was written before an error or a panic stays written, so the state comes back beside both.
use mathlib.Core.Path.{◌≡◌, refl}
use cw_orchestrator.Common.Results.{Outcome, ok, err, panic, map_err}

abbrev pub Exec {ℓ} : Type ℓ → Type ℓ → Type ℓ → Type ℓ
Exec S E A = S → Outcome E A × S

module _ {ℓ} {S E A : Type ℓ} where
  abbrev pub pure : A → Exec S E A
  pure a s = (ok a, s)

  -- A result that no longer depends on the state, as behind `?`.
  abbrev pub lift : Outcome E A → Exec S E A
  lift r s = (r, s)

  -- A method that only reads, `&self`.
  abbrev pub gets : (S → Outcome E A) → Exec S E A
  gets f s = (f s, s)

  abbrev pub throw : E → Exec S E A
  throw e s = (err e, s)

abbrev pub written {ℓ} : {S E : Type ℓ} → Outcome E S → S → Outcome E (Unit {ℓ}) × S
written (ok s') s = (ok tt, s')
written (err e) s = (err e, s)
written panic s = (panic, s)

-- A method that writes and returns nothing. Where it panics the state is as before.
abbrev pub puts {ℓ} : {S E : Type ℓ} → (S → Outcome E S) → Exec S E (Unit {ℓ})
puts f s = written (f s) s

module _ {ℓ} {S E A B : Type ℓ} where
  abbrev pub follow : Outcome E A → (A → Exec S E B) → Exec S E B
  follow (ok a) f s = f a s
  follow (err e) f s = (err e, s)
  follow panic f s = (panic, s)

  infixl 5 ◌>>=◌ ◌>>◌
  abbrev pub ◌>>=◌ : Exec S E A → (A → Exec S E B) → Exec S E B
  ◌>>=◌ m f s = let (r, s') = m s in follow r f s'

  abbrev pub ◌>>◌ : Exec S E A → Exec S E B → Exec S E B
  m >> n = m >>= λ _. n

-- `m.map_err(f)`
abbrev pub map_error {ℓ} : {S E F A : Type ℓ} → (E → F) → Exec S E A → Exec S F A
map_error f m s = let (r, s') = m s in (map_err f r, s')

module _ {ℓ} {S E A B : Type ℓ} where
  -- A chain that succeeds succeeded at its first step, and went on from there.
  pub >>=-eq-ok :
      (m : Exec S E A) (f : A → Exec S E B) (s : S) {b : B}
      → ((m >>= f) s).0 ≡ ok b
      → (a : A) × ((m s).0 ≡ ok a) × ((m >>= f) s ≡ f a (m s).1)
  >>=-eq-ok m f s h = split (m s).0 (m s).1 h
    where
      split :
          (r : Outcome E A) (t : S) {b : B}
          → (follow r f t).0 ≡ ok b
          → (a : A) × (r ≡ ok a) × (follow r f t ≡ f a t)
      split (ok a) t e = (a, refl, refl)
      split (err x) t e = cc
      split panic t e = cc

  -- A chain does not panic if neither of its steps does.
  pub >>=-not-panic :
      (m : Exec S E A) (f : A → Exec S E B) (s : S)
      → ((m s).0 ≡ panic → ⊥)
      → ((a : A) → (f a (m s).1).0 ≡ panic → ⊥)
      → ((m >>= f) s).0 ≡ panic
      → ⊥
  >>=-not-panic m f s first then = split (m s).0 (m s).1 first then
    where
      split :
          (r : Outcome E A) (t : S)
          → (r ≡ panic → ⊥)
          → ((a : A) → (f a t).0 ≡ panic → ⊥)
          → (follow r f t).0 ≡ panic
          → ⊥
      split (ok a) t first then = then a
      split (err x) t first then = λ h. cc
      split panic t first then = λ h. first refl

  -- A chain does not fail with an error that neither of its steps fails with.
  pub >>=-not-err :
      (m : Exec S E A) (f : A → Exec S E B) (s : S) (x : E)
      → ((m s).0 ≡ err x → ⊥)
      → ((a : A) → (m s).0 ≡ ok a → (f a (m s).1).0 ≡ err x → ⊥)
      → ((m >>= f) s).0 ≡ err x
      → ⊥
  >>=-not-err m f s x first then h = split (m s).0 (m s).1 first then h
    where
      split :
          (r : Outcome E A) (t : S)
          → (r ≡ err x → ⊥)
          → ((a : A) → r ≡ ok a → (f a t).0 ≡ err x → ⊥)
          → (follow r f t).0 ≡ err x
          → ⊥
      split (ok a) t p q e = q a refl e
      split (err y) t p q e = p (errs e)
        where
          errs : Path (Outcome E B) (err y) (err x) → Path (Outcome E A) (err y) (err x)
          errs e = cc
      split panic t p q e = cc
