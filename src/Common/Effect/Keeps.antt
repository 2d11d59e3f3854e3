-- ===== src/Common/Effect/Keeps.antt =====
-- Methods that leave a part of the state as it was, always or when they raise.
use mathlib.Core.Path.{◌≡◌, refl, ◌∙◌}
use mathlib.Core.Logic.{◌⊎◌, inl, inr}
use mathlib.Core.Bool.{Bool, true, false, false≢true}
use s3_storage_node.Common.Tests.{if◌then◌else◌}
use s3_storage_node.Common.Result.{Result, ok, err}
use s3_storage_node.Common.Effect.{Effect, then_do, ◌>>=◌, return, raise, get_state}

pub record Keeps {E S V A : Type 0} (view : S → V) (m : Effect E S A) : Type 0 where
  pub same : (s : S) → view (m s).1 ≡ view s

abbrev pub is_ok : {E A : Type 0} → Result E A → Bool
is_ok (ok a) = true
is_ok (err e) = false

-- It returns, or the part is as it was.
abbrev pub Spared : {E S V A : Type 0} → (S → V) → S → Result E A × S → Type 0
Spared view s out = (is_ok out.0 ≡ true) ⊎ (view out.1 ≡ view s)

pub record Spares {E S V A : Type 0} (view : S → V) (m : Effect E S A) : Type 0 where
  pub same : (s : S) → Spared view s (m s)

pub Spared-trans :
    {E S V B : Type 0} (look : S → V) {s t : S} (out : Result E B × S)
    → look t ≡ look s
    → Spared look t out
    → Spared look s out
Spared-trans look out h (inl r) = inl r
Spared-trans look out h (inr r) = inr (r ∙ h)

spared-return :
    {E S V A B : Type 0} (look : S → V) (s : S) (out : Result E A × S) (b : B)
    → Spared look s out
    → Spared look s (then_do out (λ _. return b))
spared-return look s (ok a, t) b h = inl refl
spared-return look s (err e, t) b (inl r) = absurd (false≢true r)
spared-return look s (err e, t) b (inr r) = inr r

module _ {E S V : Type 0} {view : S → V} where
  pub Keeps-Spares : {A : Type 0} {m : Effect E S A} → Keeps view m → Spares view m
  Keeps-Spares k = record { same = λ s. inr (k.same s) }

  then-same :
      {A B : Type 0} (s : S) (out : Result E A × S) (f : A → Effect E S B)
      → view out.1 ≡ view s
      → ((a : A) → Keeps view (f a))
      → view (then_do out f).1 ≡ view s
  then-same s (ok a, t) f h k = (k a).same t ∙ h
  then-same s (err e, t) f h k = h

  then-spared :
      {A B : Type 0} (s : S) (out : Result E A × S) (f : A → Effect E S B)
      → view out.1 ≡ view s
      → ((a : A) → Spares view (f a))
      → Spared view s (then_do out f)
  then-spared s (ok a, t) f h k = Spared-trans view (f a t) h ((k a).same t)
  then-spared s (err e, t) f h k = inr h

  pub bind-Keeps :
      {A B : Type 0} {m : Effect E S A} {f : A → Effect E S B}
      → Keeps view m
      → ((a : A) → Keeps view (f a))
      → Keeps view (m >>= f)
  bind-Keeps {m = m} {f = f} h k = record { same = λ s. then-same s (m s) f (h.same s) k }

  pub bind-Spares :
      {A B : Type 0} {m : Effect E S A} {f : A → Effect E S B}
      → Keeps view m
      → ((a : A) → Spares view (f a))
      → Spares view (m >>= f)
  bind-Spares {m = m} {f = f} h k = record { same = λ s. then-spared s (m s) f (h.same s) k }

  -- A last call that only hands a result on.
  pub return-Spares :
      {A B : Type 0} {m : Effect E S A} (b : B) → Spares view m → Spares view (m >>= λ _. return b)
  return-Spares {m = m} b h = record { same = λ s. spared-return view s (m s) b (h.same s) }

  pub return-Keeps : {A : Type 0} {a : A} → Keeps {E = E} view (return a)
  return-Keeps = record { same = λ s. refl }

  pub raise-Keeps : {A : Type 0} {e : E} → Keeps view (raise {A = A} e)
  raise-Keeps = record { same = λ s. refl }

  pub get_state-Keeps : Keeps {E = E} view get_state
  get_state-Keeps = record { same = λ s. refl }

  pub if-Keeps :
      {A : Type 0} (b : Bool) {m n : Effect E S A}
      → Keeps view m
      → Keeps view n
      → Keeps view (if b then m else n)
  if-Keeps true h k = h
  if-Keeps false h k = k

  pub if-Spares :
      {A : Type 0} (b : Bool) {m n : Effect E S A}
      → Spares view m
      → Spares view n
      → Spares view (if b then m else n)
  if-Spares true h k = h
  if-Spares false h k = k
