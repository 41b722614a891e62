-- ===== src/BTreeMap/Laws.antt =====
-- Lookups after insertions, and the order of the keys.
use oxen_db.Prelude.{
  ℕ, ◌≤◌, ◌<◌, ◌≡◌, refl, ◌||◌, none, some, List, [], ◌∷◌, ◌==◌, if◌then◌else◌, arith, Bool-cases,
  inl, inr, ==_refl, All,
}
use native.Mathlib.Decide.{ℕ_discrete}
use oxen_db.BTreeMap.{get, insert, contains, add}

-- Every key of the map is above `k`.
abbrev pub Above {ℓ} : {V : Type ℓ} → ℕ → List (ℕ × V) → Type 0
Above k [] = Unit {0}
Above k ((j, v) ∷ m) = (k < j) × Above k m

abbrev pub IsSorted {ℓ} : {V : Type ℓ} → List (ℕ × V) → Type 0
IsSorted [] = Unit {0}
IsSorted ((j, v) ∷ m) = Above j m × IsSorted m

module _ {ℓ} {V : Type ℓ} where
  pub get-insert :
      (k j : ℕ) (v : V) (m : List (ℕ × V))
      → get j (insert k v m) ≡ (if k == j then some v else get j m)
  unfolding get insert
  get-insert k j v [] = refl
  get-insert k j v ((i, w) ∷ m) = ground (arith, get-insert k j v m)

  insert-Above : (k j : ℕ) (v : V) (m : List (ℕ × V)) → j < k → Above j m → Above j (insert k v m)
  unfolding insert
  insert-Above k j v [] h a = (h, tt)
  insert-Above k j v ((i, w) ∷ m) h a = ground (arith, insert-Above k j v m h a.1)

  Above-trans : (k j : ℕ) (m : List (ℕ × V)) → k < j → Above j m → Above k m
  Above-trans k j [] h a = tt
  Above-trans k j ((i, w) ∷ m) h a = (omega arith, Above-trans k j m h a.1)

  pub insert-IsSorted : (k : ℕ) (v : V) (m : List (ℕ × V)) → IsSorted m → IsSorted (insert k v m)
  unfolding insert
  insert-IsSorted k v [] s = (tt, tt)
  insert-IsSorted k v ((i, w) ∷ m) s =
      ground (arith, insert-IsSorted k v m s.1, insert-Above k i v m, Above-trans k i m)

  pub All-insert {κ} :
      (P : ℕ × V → Type κ) (k : ℕ) (v : V) (m : List (ℕ × V))
      → P (k, v)
      → All P m
      → All P (insert k v m)
  unfolding insert
  All-insert P k v [] p a = (p, tt)
  All-insert P k v ((i, w) ∷ m) p a = ground (arith, All-insert P k v m p)

  pub get-Above : (k j : ℕ) (m : List (ℕ × V)) → k ≤ j → Above j m → get k m ≡ none
  unfolding get
  get-Above k j [] h a = refl
  get-Above k j ((i, w) ∷ m) h a = ground (arith, get-Above k j m h a.1)

pub contains-add : (a b : ℕ) (xs : List ℕ) → contains b (add a xs) ≡ (a == b || contains b xs)
unfolding add contains
contains-add a b xs = elim (Bool-cases (contains a xs)) [
  | inl old ↦
      rw old (elim (ℕ_discrete a b) [ yes e ↦ rw (← e, old, ==_refl) refl | no ne ↦ ground arith ])
  | inr new ↦ rw (new, contains) refl
]
