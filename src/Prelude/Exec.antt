-- ===== src/Prelude/Exec.antt =====
-- Fallible steps that change a state: what was done before an error stays done, so the state comes
-- back beside the error too. `?` is the bind.
use mathlib.Core.Path.{◌≡◌}
use aperip_nomos.Prelude.Result.{Result, ok, err, map_err}

abbrev pub Exec {ℓ κ μ} : Type ℓ → Type κ → Type μ → Type (ℓ ⊔ κ ⊔ μ)
Exec S E A = S → Result E A × S

abbrev pub pure {ℓ κ μ} : {S : Type ℓ} {E : Type κ} {A : Type μ} → A → Exec S E A
pure a s = (ok a, s)

abbrev pub fail {ℓ κ μ} : {S : Type ℓ} {E : Type κ} {A : Type μ} → E → Exec S E A
fail e s = (err e, s)

abbrev pub proceed {ℓ κ μ ν} :
    {S : Type ℓ} {E : Type κ} {A : Type μ} {B : Type ν}
    → Result E A × S
    → (A → Exec S E B)
    → Result E B × S
proceed (ok a, s) f = f a s
proceed (err e, s) f = (err e, s)

infixl 5 ◌>>=◌ ◌>>◌
abbrev pub ◌>>=◌ {ℓ κ μ ν} :
    {S : Type ℓ} {E : Type κ} {A : Type μ} {B : Type ν} → Exec S E A → (A → Exec S E B) → Exec S E B
◌>>=◌ m f s = proceed (m s) f

abbrev pub ◌>>◌ {ℓ κ μ ν} :
    {S : Type ℓ} {E : Type κ} {A : Type μ} {B : Type ν} → Exec S E A → Exec S E B → Exec S E B
m >> n = m >>= λ _. n

-- `.map_err(f)` on a step
abbrev pub map_error {ℓ κ μ ν} :
    {S : Type ℓ} {E : Type κ} {F : Type μ} {A : Type ν} → (E → F) → Exec S E A → Exec S F A
map_error f m s = (map_err f (m s).0, (m s).1)

module _ {ℓ κ μ ν} {S : Type ℓ} {E : Type κ} {A : Type μ} {B : Type ν} where
  -- a step that succeeded hands its value and its state on
  pub proceed-ok :
      (p : Result E A × S) (f : A → Exec S E B) {a : A} → p.0 ≡ ok a → proceed p f ≡ f a p.1
  proceed-ok (ok b, s) f h = cc
  proceed-ok (err e, s) f h = cc

  -- a step that failed ends the rest, and keeps its state
  pub proceed-err :
      (p : Result E A × S) (f : A → Exec S E B) {e : E} → p.0 ≡ err e → proceed p f ≡ (err e, p.1)
  proceed-err (ok b, s) f h = cc
  proceed-err (err e, s) f h = cc
