-- ===== src/Containers/Plan.antt =====
-- Plans of the calls that the service makes.
use mathlib.Core.List.{flat_map}
use edgehog_device_runtime.Base.{
  ℕ, continue, ◌∙◌, ◌>>=◌, ◌≡◌, refl, Option, none, some, List, [], ◌∷◌, ◌++◌, Result, ok, err,
  Emits, Emits-pure, Emits-bind, Progress, keep, call, ◌>>◌, seen,
}
use edgehog_device_runtime.Containers.Resource.{
  Answer, Call, History, Run, ServiceError, ask, attempt, each,
}

Progress-keep :
    {E A X : Type 0} (r : Result E A) (o : Option X) (before : List X)
    → Progress (keep o []) r before (keep o before)
Progress-keep (ok a) none before = refl
Progress-keep (ok a) (some x) before = refl
Progress-keep (err e) none before = ([], [], refl, refl)
Progress-keep (err e) (some x) before = (x ∷ [], [], refl, refl)

-- plans one after the other
abbrev pub joined : {X : Type 0} → List (List X) → List X
joined [] = []
joined (xs ∷ []) = xs
joined (xs ∷ ys ∷ rest) = xs ++ joined (ys ∷ rest)

module _ {X : Type 0} (view : Call → Option X) where
  -- one call, with or without an error
  pub Emits-ask :
      {A : Type 0} (c : Call) (answer : Answer A) (o : Option X)
      → view c ≡ o
      → Emits view (keep o []) (ask c answer)
  Emits-ask c answer o e h = rw e (Progress-keep (answer (c ∷ h)) o (seen view h))

  pub Emits-call :
      {A : Type 0} (c : Call) (a : A) (o : Option X)
      → view c ≡ o
      → Emits view {E = ServiceError} (keep o []) (call c (λ _. a))
  Emits-call c a o e h = rw e (Progress-keep {E = ServiceError} (ok a) o (seen view h))

  pub Emits-each :
      (f : ℕ → Run (Unit {0})) (plan : ℕ → List X) (ids : List ℕ)
      → ((id : ℕ) → Emits view (plan id) (f id))
      → Emits view (flat_map plan ids) (each f ids)
  unfolding each flat_map
  Emits-each f plan [] all = Emits-pure view ServiceError tt
  Emits-each f plan (id ∷ ids) all =
      Emits-bind view (plan id) (flat_map plan ids) (f id) (λ _. each f ids) (all id)
        (λ _. Emits-each f plan ids all)

  -- parts of the code that run one after the other, each with what it does
  abbrev pub Stage : Type 0
  Stage = (plan : List X) × (run : Run (Unit {0})) × Emits view plan run

  abbrev pub run_of : Stage → List Stage → Run (Unit {0})
  run_of s [] = s.1
  run_of s (s' ∷ rest) = s.1 >> run_of s' rest

  abbrev pub plan_of : Stage → List Stage → List X
  plan_of s [] = s.0
  plan_of s (s' ∷ rest) = s.0 ++ plan_of s' rest

  pub run_of-Emits : (s : Stage) (rest : List Stage) → Emits view (plan_of s rest) (run_of s rest)
  run_of-Emits s [] = s.2
  run_of-Emits s (s' ∷ rest) =
      Emits-bind view s.0 (plan_of s' rest) s.1 (λ _. run_of s' rest) s.2
        (λ _. run_of-Emits s' rest)

  -- code that the view does not see
  abbrev pub Silent : {A : Type 0} → Run A → Type 0
  Silent m = (h : History) → seen view (m h).1 ≡ seen view h

  pub Silent-ask :
      {A : Type 0} (c : Call) (answer : Answer A) → view c ≡ none → Silent (ask c answer)
  Silent-ask c answer e h = simp e

  pub Silent-call : {A : Type 0} (c : Call) (a : A) → view c ≡ none → Silent (call c (λ _. a))
  Silent-call c a e h = simp e

  Silent-continue :
      {A B : Type 0} (r : Result ServiceError A) (f : A → Run B) (h : History)
      → ((a : A) → Silent (f a))
      → seen view (continue r f h).1 ≡ seen view h
  Silent-continue (ok a) f h q = q a h
  Silent-continue (err e) f h q = refl

  pub Silent-bind :
      {A B : Type 0} (m : Run A) (f : A → Run B)
      → Silent m
      → ((a : A) → Silent (f a))
      → Silent (m >>= f)
  Silent-bind m f p q h = let (r, h') = m h in Silent-continue r f h' q ∙ p h

  pub attempt-Silent : {A : Type 0} (m : Run A) → Silent m → Silent (attempt m)
  attempt-Silent m p h = p h

  pub Silent-each :
      (f : ℕ → Run (Unit {0})) (ids : List ℕ) → ((id : ℕ) → Silent (f id)) → Silent (each f ids)
  unfolding each
  Silent-each f [] q = λ h. refl
  Silent-each f (id ∷ ids) q =
      Silent-bind (f id) (λ _. each f ids) (q id) (λ _. Silent-each f ids q)

  -- parts of the code that run one after the other, none of which the view sees
  abbrev pub Quiet : Type 0
  Quiet = (run : Run (Unit {0})) × Silent run

  abbrev pub quiet_run : Quiet → List Quiet → Run (Unit {0})
  quiet_run s [] = s.0
  quiet_run s (s' ∷ rest) = s.0 >> quiet_run s' rest

  pub quiet_run-Silent : (s : Quiet) (rest : List Quiet) → Silent (quiet_run s rest)
  quiet_run-Silent s [] = s.1
  quiet_run-Silent s (s' ∷ rest) =
      Silent-bind s.0 (λ _. quiet_run s' rest) s.1 (λ _. quiet_run-Silent s' rest)
