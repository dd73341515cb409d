-- ===== src/Control/Rules.antt =====
-- Rules for `Evolves`: one for each way to put actions together.
use nomercy_github_runner.Prelude.{
  ◌≡◌, refl, Bool, true, false, Option, none, some, List, [], ◌∷◌, ◌++◌, All, if◌then◌else◌,
}
use nomercy_github_runner.Specs.{Spec}
use nomercy_github_runner.Control.World.{
  World, Action, Done, Result, ok, raised, Error, pure, raise, ◌>>=◌, try_else, when,
}
use nomercy_github_runner.Control.Evolves.{
  Evolves, IsKnown, IsKnown-later, Evolves-self, Evolves-trans,
}

abbrev pub Knows : World → List Spec → Type 0
Knows w = All (IsKnown w)

-- What a result comes with: specs that are known after it, and a fact.
abbrev pub After : {A : Type 0} → (A → List Spec) → (A → Type 0) → World → Result A → Type 0
After Q F w (ok a) = Knows w (Q a) × F a
After Q F w (raised e) = Unit

-- From any world where the specs of `Γ` are known.
pub record Sound {A : Type 0} (Γ : List Spec) (m : Action A) (Q : A → List Spec) (F : A → Type 0)
    : Type 0 where
  pub runs : (w : World) → Knows w Γ → Evolves w (m w).1 × After Q F (m w).1 (m w).0

abbrev pub nothing : {A : Type 0} → A → List Spec
nothing a = []

abbrev pub AnyResult : {A : Type 0} → A → Type 0
AnyResult a = Unit

-- An action with nothing to say of its result.
abbrev pub Keeps : {A : Type 0} → List Spec → Action A → Type 0
Keeps Γ m = Sound Γ m nothing AnyResult

pub Knows-later : {w w' : World} (Γ : List Spec) → Knows w Γ → Evolves w w' → Knows w' Γ
Knows-later [] k e = tt
Knows-later (s ∷ Γ) k e = (IsKnown-later k.0 e, Knows-later Γ k.1 e)

Knows-append : (w : World) (Γ Δ : List Spec) → Knows w Γ → Knows w Δ → Knows w (Γ ++ Δ)
Knows-append w [] Δ k l = l
Knows-append w (s ∷ Γ) Δ k l = (k.0, Knows-append w Γ Δ k.1 l)

module _ {A : Type 0} {Γ : List Spec} {Q : A → List Spec} {F : A → Type 0} where
  pub Sound-pure : (a : A) → ((w : World) → Knows w Γ → Knows w (Q a)) → F a → Sound Γ (pure a) Q F
  Sound-pure a k f = record { runs = λ w g. (Evolves-self w, (k w g, f)) }

  pub Sound-raise : (e : Error) → Sound Γ (raise {A = A} e) Q F
  Sound-raise e = record { runs = λ w g. (Evolves-self w, tt) }

  pub Sound-if :
      (b : Bool) {m n : Action A}
      → (b ≡ true → Sound Γ m Q F)
      → (b ≡ false → Sound Γ n Q F)
      → Sound Γ (if b then m else n) Q F
  Sound-if true h g = h refl
  Sound-if false h g = g refl

  pub Sound-option :
      {B : Type 0} (o : Option B) {n : Action A} {f : B → Action A}
      → (o ≡ none → Sound Γ n Q F)
      → ((b : B) → o ≡ some b → Sound Γ (f b) Q F)
      → Sound Γ (elim o [ none ↦ n | some b ↦ f b ]) Q F
  Sound-option none h g = h refl
  Sound-option (some b) h g = g b refl

  -- Nothing need be said of a result.
  pub Sound-forget : {m : Action A} → Sound Γ m Q F → Keeps Γ m
  Sound-forget {m} h = record {
    runs = λ w g. let (e, a) = h.runs w g in (e, forget_result (m w).0 (m w).1 a);
  }
    where
      forget_result : (r : Result A) (w : World) → After Q F w r → After nothing AnyResult w r
      forget_result (ok a) w k = (tt, tt)
      forget_result (raised e) w k = tt

module _ {A : Type 0} {Γ : List Spec} {Q : A → List Spec} {F : A → Type 0} where
  -- The fact need not be told.
  pub Sound-untold : {m : Action A} → Sound Γ m Q F → Sound Γ m Q AnyResult
  Sound-untold {m} h = record {
    runs = λ w g. let (e, a) = h.runs w g in (e, untold (m w).0 (m w).1 a);
  }
    where
      untold : (r : Result A) (w : World) → After Q F w r → After Q AnyResult w r
      untold (ok a) w k = (k.0, tt)
      untold (raised e) w k = tt

module _ {A B : Type 0} (Γ : List Spec) (Q : A → List Spec) (F : A → Type 0) (R : B → List Spec)
    (G : B → Type 0) where
  first-After :
      (f : A → Action B) (g : Error → Action B) (u v : World) (r : Result A)
      → Knows u Γ
      → Evolves u v
      → After Q F v r
      → ((a : A) → F a → Sound (Q a ++ Γ) (f a) R G)
      → ((e : Error) → Sound Γ (g e) R G)
      → (let o : Result B × World = elim r [ ok a ↦ f a v | raised e ↦ g e v ] in
          Evolves u o.1 × After R G o.1 o.0)
  first-After f g u v (ok a) k e (known, fact) h i =
      let (e', after) = (h a fact).runs v (Knows-append v (Q a) Γ known (Knows-later Γ k e)) in
      (Evolves-trans e e', after)
  first-After f g u v (raised x) k e known h i =
      let (e', after) = (i x).runs v (Knows-later Γ k e) in (Evolves-trans e e', after)

module _ {A B : Type 0} {Γ : List Spec} {Q : A → List Spec} {F : A → Type 0} {R : B → List Spec}
    {G : B → Type 0} where
  pub Sound-try :
      {m : Action A} {f : A → Action B} {g : Error → Action B}
      → Sound Γ m Q F
      → ((a : A) → F a → Sound (Q a ++ Γ) (f a) R G)
      → ((e : Error) → Sound Γ (g e) R G)
      → Sound Γ (try_else m f g) R G
  Sound-try {m} {f} {g} s h i = record {
    runs = λ w k.
        let (e, after) = s.runs w k in first-After Γ Q F R G f g w (m w).1 (m w).0 k e after h i;
  }

  pub Sound-bind :
      {m : Action A} {f : A → Action B}
      → Sound Γ m Q F
      → ((a : A) → F a → Sound (Q a ++ Γ) (f a) R G)
      → Sound Γ (m >>= f) R G
  Sound-bind {m} {f} s h = record {
    runs = λ w k.
        let (e, after) = s.runs w k in
        first-After Γ Q F R G f (λ x. raise x) w (m w).1 (m w).0 k e after h (λ x. Sound-raise x);
  }

-- A known spec more is no harm.
pub Sound-weaken :
    {A : Type 0} {Γ : List Spec} {m : Action A} {Q : A → List Spec} {F : A → Type 0}
    → Sound [] m Q F
    → Sound Γ m Q F
Sound-weaken h = record { runs = λ w k. h.runs w tt }

-- The specs that a context holds, the latest first.
abbrev pub Holds : List Spec → Spec → Type 0
Holds Γ s = (w : World) → Knows w Γ → IsKnown w s

module _ {A B : Type 0} {Γ : List Spec} {R : B → List Spec} {G : B → Type 0} where
  -- After an action with nothing to say of its result.
  pub Sound-next :
      {m : Action A} {f : A → Action B}
      → Keeps Γ m
      → ((a : A) → Sound Γ (f a) R G)
      → Sound Γ (m >>= f) R G
  Sound-next h k = Sound-bind h (λ a u. k a)

module _ {Γ : List Spec} where
  pub Keeps-pure : {A : Type 0} (a : A) → Keeps Γ (pure a)
  Keeps-pure a = Sound-pure a (λ w k. tt) tt

  pub Keeps-when : (b : Bool) {m : Action Done} → (b ≡ true → Keeps Γ m) → Keeps Γ (when b m)
  Keeps-when b h = Sound-if b h (λ e. Keeps-pure tt)
