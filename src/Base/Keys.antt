-- ===== src/Base/Keys.antt =====
-- Equality tests on bytes, and maps as association lists: Go's `map`, whose order no code here sees.
use Prim.Native.Nat.{ℕ, suc}
use mathlib.Core.Path.{◌≡◌, refl}
use mathlib.Core.Logic.{◌↔◌}
use mathlib.Core.Bool.{Bool, true, false, ◌&&◌}
use mathlib.Core.Option.{Option, none, some}
use mathlib.Core.List.{List, [], ◌∷◌}
use native.Mathlib.Omega.{arith}
use tallerp_telemetry.Base.Tests.{◌==◌, if◌then◌else◌}
use tallerp_telemetry.Base.Lists.{length}

unfoldable pub bytes_eq : List ℕ → List ℕ → Bool
bytes_eq [] [] = true
bytes_eq (x ∷ xs) (y ∷ ys) = x == y && bytes_eq xs ys
bytes_eq _ _ = false

pub bytes_eq_iff : (a b : List ℕ) → (bytes_eq a b ≡ true) ↔ (a ≡ b)
unfolding bytes_eq
bytes_eq_iff (x ∷ a) (y ∷ b) = ground (arith, bytes_eq_iff a b)
bytes_eq_iff _ _ = ground arith

-- A type of keys: a test that decides equality.
pub record Key {ℓ} (K : Type ℓ) : Type ℓ where
  pub beq : K → K → Bool
  pub beq_iff : (a b : K) → (beq a b ≡ true) ↔ (a ≡ b)

pub nat_beq_iff : (a b : ℕ) → ((a == b) ≡ true) ↔ (a ≡ b)
nat_beq_iff a b = ground arith

instance abbrev pub nat_key : Key ℕ
nat_key = record { beq = λ a b. a == b; beq_iff = nat_beq_iff }

instance abbrev pub bytes_key : Key (List ℕ)
bytes_key = record { beq = bytes_eq; beq_iff = bytes_eq_iff }

module _ {ℓ κ} {K : Type ℓ} {V : Type κ} ⦃k : Key K⦄ where
  -- `m[key]`
  unfoldable pub lookup : K → List (K × V) → Option V
  lookup key [] = none
  lookup key ((j, v) ∷ m) = if k.beq j key then some v else lookup key m

  -- `m[key] = v`
  unfoldable pub insert : K → V → List (K × V) → List (K × V)
  insert key v [] = (key, v) ∷ []
  insert key v ((j, w) ∷ m) = if k.beq j key then (key, v) ∷ m else (j, w) ∷ insert key v m

  -- `delete(m, key)`
  unfoldable pub delete : K → List (K × V) → List (K × V)
  delete key [] = []
  delete key ((j, w) ∷ m) = if k.beq j key then delete key m else (j, w) ∷ delete key m

  -- `for key, v := range m { if p(v) { delete(m, key) } }`
  unfoldable pub delete_if : (V → Bool) → List (K × V) → List (K × V)
  delete_if p [] = []
  delete_if p ((j, w) ∷ m) = if p w then delete_if p m else (j, w) ∷ delete_if p m

  pub lookup-insert :
      (key j : K) (v : V) (m : List (K × V))
      → lookup j (insert key v m) ≡ (if k.beq key j then some v else lookup j m)
  unfolding lookup insert
  lookup-insert key j v [] = refl
  lookup-insert key j v ((i, w) ∷ m) =
      ground (arith, k.beq_iff key j, k.beq_iff i key, k.beq_iff i j, lookup-insert key j v m)

  pub lookup-insert_self :
      (key : K) (v : V) (m : List (K × V)) → lookup key (insert key v m) ≡ some v
  lookup-insert_self key v m = ground (arith, lookup-insert key key v m, k.beq_iff key key)

  pub lookup-delete_self : (key : K) (m : List (K × V)) → lookup key (delete key m) ≡ none
  unfolding lookup delete
  lookup-delete_self key [] = refl
  lookup-delete_self key ((i, w) ∷ m) = ground (arith, lookup-delete_self key m)

  pub lookup-delete :
      (key j : K) (m : List (K × V))
      → lookup j (delete key m) ≡ (if k.beq key j then none else lookup j m)
  unfolding lookup delete
  lookup-delete key j [] = ground arith
  lookup-delete key j ((i, w) ∷ m) =
      ground (arith, k.beq_iff key j, k.beq_iff i key, k.beq_iff i j, lookup-delete key j m)

  -- A new key makes the map longer by one.
  pub length-insert_new :
      (key : K) (v : V) (m : List (K × V))
      → lookup key m ≡ none
      → length (insert key v m) ≡ suc (length m)
  unfolding lookup insert
  length-insert_new key v [] h = refl
  length-insert_new key v ((i, w) ∷ m) h = ground (arith, length-insert_new key v m)

  -- Deleting by value keeps a key whose first value stays.
  pub lookup-delete_if-none :
      (p : V → Bool) (key : K) (m : List (K × V))
      → lookup key m ≡ none
      → lookup key (delete_if p m) ≡ none
  unfolding lookup delete_if
  lookup-delete_if-none p key [] h = refl
  lookup-delete_if-none p key ((i, w) ∷ m) h = ground (arith, lookup-delete_if-none p key m)

  pub lookup-delete_if-some :
      (p : V → Bool) (key : K) (m : List (K × V)) (v : V)
      → lookup key m ≡ some v
      → p v ≡ false
      → lookup key (delete_if p m) ≡ some v
  unfolding lookup delete_if
  lookup-delete_if-some p key [] v h q = cc
  lookup-delete_if-some p key ((i, w) ∷ m) v h q = ground (arith, lookup-delete_if-some p key m v)
