-- ===== src/Base/Plans.antt =====
-- What code does in order, by a view of its calls: a plan, and how far a run got along it.
use mathlib.Core.Path.{◌≡◌, refl, sym, ap, ◌∙◌}
use mathlib.Core.Option.{Option, none, some}
use mathlib.Core.List.{List, [], ◌∷◌, ◌++◌, append_assoc}
use edgehog_device_runtime.Base.Trace.{Result, ok, err, Exec, continue, ◌>>=◌}

-- the first list in reverse, before the second: a history holds its latest call first
abbrev pub onto : {A : Type 0} → List A → List A → List A
onto [] ys = ys
onto (x ∷ xs) ys = onto xs (x ∷ ys)

onto-append : {A : Type 0} (xs ys zs : List A) → onto (xs ++ ys) zs ≡ onto ys (onto xs zs)
onto-append [] ys zs = refl
onto-append (x ∷ xs) ys zs = onto-append xs ys (x ∷ zs)

abbrev pub keep : {A : Type 0} → Option A → List A → List A
keep none xs = xs
keep (some x) xs = x ∷ xs

-- the calls of the view
abbrev pub seen : {C X : Type 0} → (C → Option X) → List C → List X
seen view [] = []
seen view (c ∷ h) = keep (view c) (seen view h)

-- After these steps the view is `after`: all of the plan with a result, a part of it with an error.
abbrev pub Progress : {E A X : Type 0} → List X → Result E A → List X → List X → Type 0
Progress plan (ok _) before after = after ≡ onto plan before
Progress {X = X} plan (err _) before after =
    (done left : List X) × (plan ≡ done ++ left) × (after ≡ onto done before)

module _ {E B X : Type 0} (xs ys : List X) where
  Progress-after :
      (r : Result E B) (before after : List X)
      → Progress ys r (onto xs before) after
      → Progress (xs ++ ys) r before after
  Progress-after (ok b) before after p = p ∙ sym (onto-append xs ys before)
  Progress-after (err e) before after (done, left, split, same) = (
    xs ++ done,
    left,
    ap (λ l. xs ++ l) split ∙ sym (append_assoc xs done left),
    same ∙ sym (onto-append xs done before),
  )

module _ {C X : Type 0} (view : C → Option X) where
  abbrev pub Emits : {E A : Type 0} → List X → Exec C E A → Type 0
  Emits plan m = (h : List C) → Progress plan (m h).0 (seen view h) (seen view (m h).1)

  pub Emits-pure : (E : Type 0) {A : Type 0} (a : A) → Emits {E = E} {A = A} [] (λ h. (ok a, h))
  Emits-pure E a h = refl

  pub Emits-raise :
      {E : Type 0} (A : Type 0) (plan : List X) (e : E)
      → Emits {E = E} {A = A} plan (λ h. (err e, h))
  Emits-raise A plan e h = ([], plan, refl, refl)

  module _ {E A B : Type 0} (xs ys : List X) where
    Emits-continue :
        (r : Result E A) (f : A → Exec C E B) (before : List X) (h : List C)
        → Progress xs r before (seen view h)
        → ((a : A) → Emits ys (f a))
        → Progress (xs ++ ys) (continue r f h).0 before (seen view (continue r f h).1)
    Emits-continue (ok a) f before h p all =
        Progress-after xs ys (f a h).0 before (seen view (f a h).1) (rw (sym p) (all a h))
    Emits-continue (err e) f before h (done, left, split, same) all =
        (done, left ++ ys, ap (λ l. l ++ ys) split ∙ append_assoc done left ys, same)

    pub Emits-bind :
        (m : Exec C E A) (f : A → Exec C E B)
        → Emits xs m
        → ((a : A) → Emits ys (f a))
        → Emits (xs ++ ys) (m >>= f)
    Emits-bind m f p all h = let (r, h') = m h in Emits-continue r f (seen view h) h' (p h) all
