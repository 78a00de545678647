-- ===== src/Registry/Attempts.antt =====
-- src/dudamel/registry.py: what follows from an attempt that is not refused.
use dudamel.Prelude.{◌≡◌, refl, Bool, true, false, ◌||◌, none, some, Option, if◌then◌else◌}
use dudamel.Registry.{RegistryError, Attempt, done, refused, and_then, unless}

abbrev pub is_refused {ℓ} : {A : Type ℓ} → Attempt A → Bool
is_refused (done a) = false
is_refused (refused e) = true

module _ {ℓ κ} {A : Type ℓ} {B : Type κ} where
  pub and_then-done :
      (m : Attempt A) (f : A → Attempt B) {b : B}
      → and_then m f ≡ done b
      → (a : A) × (m ≡ done a) × (f a ≡ done b)
  and_then-done (done a) f h = (a, refl, h)
  and_then-done (refused e) f h = absurd (cc)

  -- Two attempts in a row are refused where one of them is.
  pub and_then-is_refused :
      (m : Attempt A) (f : A → Attempt B) (c : Bool)
      → ((a : A) → m ≡ done a → is_refused (f a) ≡ c)
      → is_refused (and_then m f) ≡ (is_refused m || c)
  and_then-is_refused (done a) f c h = h a refl
  and_then-is_refused (refused e) f c h = refl

module _ {ℓ} {A : Type ℓ} where
  pub done-injective : {a b : A} → done a ≡ done b → a ≡ b
  done-injective h = cc

  pub refused-done : {e : RegistryError} {a : A} → ¬ (refused e ≡ done a)
  refused-done h = cc

  pub guard-done :
      (c : Bool) (e : RegistryError) (m : Attempt A) {b : A}
      → (if c then refused e else m) ≡ done b
      → (c ≡ false) × (m ≡ done b)
  guard-done true e m h = absurd (cc)
  guard-done false e m h = (refl, h)

  pub unless-done :
      (o : Option RegistryError) (a : A) {b : A} → unless o a ≡ done b → (o ≡ none) × (a ≡ b)
  unless-done none a h = (refl, cc)
  unless-done (some e) a h = absurd (cc)
