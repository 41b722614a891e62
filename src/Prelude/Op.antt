-- ===== src/Prelude/Op.antt =====
-- Fallible operations on a state: a method that takes `&mut self` and returns a `Result`.
use mathlib.Core.Path.{◌≡◌, refl}
use mathlib.Core.Bool.{Bool, true, false}
use oxen_db.Prelude.Tests.{if◌then◌else◌}
use oxen_db.Prelude.Results.{Error, Result, ok, err}
use native.Mathlib.Omega.{arith}

abbrev pub Op : Type 0 → Type 0 → Type 0
Op S A = S → Result A × S

-- An error ends the method; the state keeps what was done before.
abbrev pub and_then : {S A B : Type 0} → Result A × S → (A → Op S B) → Result B × S
and_then (ok a, s) f = f a s
and_then (err e, s) f = (err e, s)

infixl 5 ◌>>=◌ ◌>>◌
abbrev pub ◌>>=◌ : {S A B : Type 0} → Op S A → (A → Op S B) → Op S B
◌>>=◌ m f s = and_then (m s) f

abbrev pub ◌>>◌ : {S B : Type 0} → Op S (Unit {0}) → Op S B → Op S B
◌>>◌ m k s = and_then (m s) (λ _. k)

abbrev pub pure : {S A : Type 0} → A → Op S A
pure a s = (ok a, s)

abbrev pub raise : {S A : Type 0} → Error → Op S A
raise e s = (err e, s)

-- A pure `Result`, and the state itself.
abbrev pub lift : {S A : Type 0} → Result A → Op S A
lift r s = (r, s)

abbrev pub get : {S : Type 0} → Op S S
get s = (ok s, s)

abbrev pub modify : {S : Type 0} → (S → S) → Op S (Unit {0})
modify f s = (ok tt, f s)

-- What holds when a method returns: `P` of its value and the state, or `Q` of the state on an error.
abbrev pub After : {S A : Type 0} → Result A × S → (A → S → Type 0) → (S → Type 0) → Type 0
After (ok a, s) P Q = P a s
After (err e, s) P Q = Q s

pub After-and_then :
    {S A B : Type 0} (m : Result A × S) (f : A → Op S B) (P : A → S → Type 0) (R : B → S → Type 0)
    (Q : S → Type 0)
    → After m P Q
    → ((a : A) (s : S) → P a s → After (f a s) R Q)
    → After (and_then m f) R Q
After-and_then (ok a, s) f P R Q h k = k a s h
After-and_then (err e, s) f P R Q h k = h

pub After-map :
    {S A : Type 0} (m : Result A × S) (P R : A → S → Type 0) (Q U : S → Type 0)
    → After m P Q
    → ((a : A) (s : S) → P a s → R a s)
    → ((s : S) → Q s → U s)
    → After m R U
After-map (ok a, s) P R Q U h f g = f a s h
After-map (err e, s) P R Q U h f g = g s h

pub After-both :
    {S A : Type 0} (m : Result A × S) (P R : A → S → Type 0) (Q U : S → Type 0)
    → After m P Q
    → After m R U
    → After m (λ a s. P a s × R a s) (λ s. Q s × U s)
After-both (ok a, s) P R Q U h k = (h, k)
After-both (err e, s) P R Q U h k = (h, k)

pub After-if :
    {S A : Type 0} (b : Bool) (m n : Result A × S) (P : A → S → Type 0) (Q : S → Type 0)
    → (b ≡ true → After m P Q)
    → (b ≡ false → After n P Q)
    → After (if b then m else n) P Q
After-if true m n P Q f g = f refl
After-if false m n P Q f g = g refl

-- What holds of the state on every outcome.
pub After-state : {S A : Type 0} (m : Result A × S) (Q : S → Type 0) → After m (λ _. Q) Q → Q m.1
After-state (ok a, s) Q h = h
After-state (err e, s) Q h = h

-- What holds after a success, for a call that succeeded.
pub After-ok :
    {S A : Type 0} (m : Result A × S) (a : A) (P Q : S → Type 0)
    → m.0 ≡ ok a
    → After m (λ _. P) Q
    → P m.1
After-ok (ok b, s) a P Q e h = h
After-ok (err k, s) a P Q e h = absurd (ground arith)
