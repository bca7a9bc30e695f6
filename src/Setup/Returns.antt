-- ===== src/Setup/Returns.antt =====
-- What a run of the parser ends in, and the rules to show it.
use coredns_updater_plugin.Base.{Bool, true, false, ◌≡◌, refl, Option, none, some, if◌then◌else◌}
use coredns_updater_plugin.Setup.{ConfigError}
use coredns_updater_plugin.Setup.Parse.{Parsed, done, rejected, bind}

-- The run ended within its fuel, and `P` holds of its value if it has one.
pub data Returns {A : Type 0} (P : A → Type 0) : Parsed A → Type 0 where
  accepted : {a : A} → P a → Returns P (done a)
  refused : {e : ConfigError} → Returns P (rejected e)

module _ {A : Type 0} {P : A → Type 0} where
  pub Returns-if :
      (b : Bool) {x y : Parsed A} → Returns P x → Returns P y → Returns P (if b then x else y)
  Returns-if true hx hy = hx
  Returns-if false hx hy = hy

  pub Returns-guard :
      (b : Bool) (e : ConfigError) {y : Parsed A}
      → (b ≡ false → Returns P y)
      → Returns P (if b then rejected e else y)
  Returns-guard true e h = refused
  Returns-guard false e h = h refl

  pub Returns-more :
      (b : Bool) {x y : Parsed A}
      → (b ≡ true → Returns P x)
      → Returns P y
      → Returns P (elim b [ false ↦ y | true ↦ x ])
  Returns-more true hx hy = hx refl
  Returns-more false hx hy = hy

  pub Returns-option :
      {T : Type 0} (o : Option T) {x : Parsed A} {f : T → Parsed A}
      → Returns P x
      → ((t : T) → o ≡ some t → Returns P (f t))
      → Returns P (elim o [ none ↦ x | some t ↦ f t ])
  Returns-option none hx hf = hx
  Returns-option (some t) hx hf = hf t refl

  pub Returns-bind :
      {B : Type 0} {Q : B → Type 0} {x : Parsed A} {f : A → Parsed B}
      → Returns P x
      → ((a : A) → P a → Returns Q (f a))
      → Returns Q (bind x f)
  Returns-bind (accepted {a} h) k = k a h
  Returns-bind refused k = refused
