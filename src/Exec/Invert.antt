-- ===== src/Exec/Invert.antt =====
-- What a call that succeeded went through.
use learn_go_project.Prelude.{◌≡◌, refl, ap, Option, none, some, arith}
use learn_go_project.Errors.{Error, Result, ok, err}
use learn_go_project.Exec.{Exec, continue, ◌>>=◌, lift, call, map_result, map_error}

module _ {S A B : Type 0} where
  continue-ok :
      (r : Result A) (s₁ : S) (f : A → Exec S B) {b : B} {s₂ : S}
      → continue r f s₁ ≡ (ok b, s₂)
      → (a : A) × (r ≡ ok a) × (f a s₁ ≡ (ok b, s₂))
  continue-ok (ok a) s₁ f h = (a, refl, h)
  continue-ok (err e) s₁ f h = ground (arith, ap (λ (p : Result B × S). p.0) h)

  pub >>=-ok :
      (m : Exec S A) (f : A → Exec S B) (s : S) {b : B} {s₂ : S}
      → (m >>= f) s ≡ (ok b, s₂)
      → (a : A) × (s₁ : S) × (m s ≡ (ok a, s₁)) × (f a s₁ ≡ (ok b, s₂))
  >>=-ok m f s h =
      let (a, done, rest) = continue-ok (m s).0 (m s).1 f h in
      (a, (m s).1, λ i. (done i, (m s).1), rest)

map_result-ok :
    {A : Type 0} (g : Error → Error) (r : Result A) {a : A} → map_result g r ≡ ok a → r ≡ ok a
map_result-ok g (ok x) h = h
map_result-ok g (err e) h = ground arith

module _ {S A : Type 0} where
  pub map_error-ok :
      (g : Error → Error) (m : Exec S A) (s : S) {a : A} {s₁ : S}
      → map_error g m s ≡ (ok a, s₁)
      → m s ≡ (ok a, s₁)
  map_error-ok g m s h =
      let done = map_result-ok g (m s).0 (ap (λ (p : Result A × S). p.0) h) in
      λ i. (done i, (h i).1)

  pub call-ok :
      (o : Option Error) (m : Exec S A) (s : S) {a : A} {s₁ : S}
      → call o m s ≡ (ok a, s₁)
      → m s ≡ (ok a, s₁)
  call-ok none m s h = h
  call-ok (some e) m s h = ground (arith, ap (λ (p : Result A × S). p.0) h)

  pub lift-ok :
      (r : Result A) (s : S) {a : A} {s₁ : S} → lift r s ≡ (ok a, s₁) → (r ≡ ok a) × (s ≡ s₁)
  lift-ok r s h = (ap (λ (p : Result A × S). p.0) h, ap (λ (p : Result A × S). p.1) h)
