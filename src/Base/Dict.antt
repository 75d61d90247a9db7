-- ===== src/Base/Dict.antt =====
-- Go's maps with texts for keys, as lists of pairs.
use mathlib.Core.Path.{◌≡◌, refl, sym, ap, ◌∙◌}
use mathlib.Core.Logic.{inl, inr}
use mathlib.Core.Bool.{Bool, true, false, ◌&&◌}
use mathlib.Core.List.{List, [], ◌∷◌}
use mathlib.Core.Option.{Option, none, some}
use native.Mathlib.Omega.{arith}
use chrome.Base.Tests.{if◌then◌else◌, Bool-cases}
use chrome.Base.Text.{Text, same_text, same_text→eq, same_text_comm, has_text}

abbrev pub is_some {ℓ} : {A : Type ℓ} → Option A → Bool
is_some none = false
is_some (some a) = true

-- A text is equal to one of two different texts at most.
keys_apart : (i k j : Text) → same_text i k ≡ false → (same_text i j && same_text k j) ≡ false
keys_apart i k j e = elim (Bool-cases (same_text i j)) [
  | inr f ↦ rw f refl
  | inl f ↦ elim (Bool-cases (same_text k j)) [
    | inr g ↦ rw (f, g) refl
    | inl g ↦ absurd (cc (e, ap (same_text i) (same_text→eq k j g), f))
  ]
]

module _ {ℓ} {V : Type ℓ} where
  unfoldable pub lookup : Text → List (Text × V) → Option V
  lookup k [] = none
  lookup k ((j, v) ∷ m) = if same_text j k then some v else lookup k m

  unfoldable pub insert : Text → V → List (Text × V) → List (Text × V)
  insert k v [] = (k, v) ∷ []
  insert k v ((j, w) ∷ m) = if same_text j k then (k, v) ∷ m else (j, w) ∷ insert k v m

  unfoldable pub erase : Text → List (Text × V) → List (Text × V)
  erase k [] = []
  erase k ((j, w) ∷ m) = if same_text j k then erase k m else (j, w) ∷ erase k m

  abbrev pub keys : List (Text × V) → List Text
  keys [] = []
  keys ((k, v) ∷ m) = k ∷ keys m

  -- No key twice.
  abbrev pub IsMap : List (Text × V) → Type ℓ
  IsMap [] = Unit
  IsMap ((k, v) ∷ m) = (lookup k m ≡ none) × IsMap m

  pub lookup-insert :
      (k j : Text) (v : V) (m : List (Text × V))
      → lookup j (insert k v m) ≡ (if same_text k j then some v else lookup j m)
  unfolding lookup insert
  lookup-insert k j v [] = refl
  lookup-insert k j v ((i, w) ∷ m) = elim (Bool-cases (same_text i k)) [
    | inl e ↦ rw (e, same_text→eq i k e) (both (same_text k j))
    | inr e ↦ rw (e, lookup-insert k j v m) (swapped (same_text i j) (same_text k j) (apart e))
  ]
    where
      both :
          (b : Bool)
          → (if b then some v else lookup j m)
            ≡ (if b then some v else if b then some w else lookup j m)
      both true = refl
      both false = refl

      swapped :
          (a b : Bool)
          → (a && b) ≡ false
          → (if a then some w else if b then some v else lookup j m)
            ≡ (if b then some v else if a then some w else lookup j m)
      swapped a b h = ground arith

      apart : same_text i k ≡ false → (same_text i j && same_text k j) ≡ false
      apart e = keys_apart i k j e

  pub lookup-erase :
      (k j : Text) (m : List (Text × V))
      → lookup j (erase k m) ≡ (if same_text k j then none else lookup j m)
  unfolding lookup erase
  lookup-erase k j [] = elim (Bool-cases (same_text k j)) [ inl e ↦ rw e refl | inr e ↦ rw e refl ]
  lookup-erase k j ((i, w) ∷ m) = elim (Bool-cases (same_text i k)) [
    | inl e ↦ rw (e, lookup-erase k j m, same_text→eq i k e) (both (same_text k j))
    | inr e ↦
        rw (e, lookup-erase k j m) (swapped (same_text i j) (same_text k j) (keys_apart i k j e))
  ]
    where
      both :
          (b : Bool)
          → (if b then none else lookup j m)
            ≡ (if b then none else if b then some w else lookup j m)
      both true = refl
      both false = refl

      swapped :
          (a b : Bool)
          → (a && b) ≡ false
          → (if a then some w else if b then none else lookup j m)
            ≡ (if b then none else if a then some w else lookup j m)
      swapped a b h = ground arith

  pub lookup_same :
      (j k : Text) (m : List (Text × V)) → same_text j k ≡ true → lookup j m ≡ lookup k m
  lookup_same j k m e = ap (λ t. lookup t m) (same_text→eq j k e)

  pub insert-IsMap : (k : Text) (v : V) (m : List (Text × V)) → IsMap m → IsMap (insert k v m)
  unfolding insert lookup
  insert-IsMap k v [] h = (refl, tt)
  insert-IsMap k v ((j, w) ∷ m) h = elim (Bool-cases (same_text j k)) [
    | inl e ↦ rw e (sym (lookup_same j k m e) ∙ h.0, h.1)
    | inr e ↦ rw e (other e, insert-IsMap k v m h.1)
  ]
    where
      other : same_text j k ≡ false → lookup j (insert k v m) ≡ none
      other e = rw (lookup-insert k j v m, same_text_comm k j, e) h.0

  pub erase-IsMap : (k : Text) (m : List (Text × V)) → IsMap m → IsMap (erase k m)
  unfolding erase
  erase-IsMap k [] h = tt
  erase-IsMap k ((j, w) ∷ m) h = elim (Bool-cases (same_text j k)) [
    | inl e ↦ rw e (erase-IsMap k m h.1)
    | inr e ↦ rw e (other e, erase-IsMap k m h.1)
  ]
    where
      other : same_text j k ≡ false → lookup j (erase k m) ≡ none
      other e = rw (lookup-erase k j m, same_text_comm k j, e) h.0

  -- The keys of a map are those that it has.
  pub has_text-keys : (k : Text) (m : List (Text × V)) → has_text (keys m) k ≡ is_some (lookup k m)
  unfolding lookup has_text
  has_text-keys k [] = refl
  has_text-keys k ((j, w) ∷ m) = elim (Bool-cases (same_text j k)) [
    | inl e ↦ rw e refl
    | inr e ↦ rw e (has_text-keys k m)
  ]
