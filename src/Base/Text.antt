-- ===== src/Base/Text.antt =====
-- Text as a list of bytes or of runes, and what Go's `strings` and `slices` ask of it.
use Prim.Native.Nat.{ℕ}
use mathlib.Core.Path.{◌≡◌, refl}
use mathlib.Core.Bool.{Bool, true, false, ◌&&◌, ◌||◌}
use mathlib.Core.List.{List, [], ◌∷◌}
use native.Mathlib.Omega.{arith}
use chrome.Base.Tests.{◌==◌, ==_iff}

pub and_left : (a b : Bool) → (a && b) ≡ true → a ≡ true
and_left a b h = ground arith

pub and_right : (a b : Bool) → (a && b) ≡ true → b ≡ true
and_right a b h = ground arith

abbrev pub Text : Type 0
Text = List ℕ

unfoldable pub same_text : Text → Text → Bool
same_text [] [] = true
same_text (a ∷ s) (b ∷ t) = a == b && same_text s t
same_text _ _ = false

pub same_text→eq : (s t : Text) → same_text s t ≡ true → s ≡ t
unfolding same_text
same_text→eq [] [] h = refl
same_text→eq [] (b ∷ t) h = absurd (cc)
same_text→eq (a ∷ s) [] h = absurd (cc)
same_text→eq (a ∷ s) (b ∷ t) h =
    rw
      (
        (==_iff a b).0 (and_left (a == b) (same_text s t) h),
        same_text→eq s t (and_right (a == b) (same_text s t) h),
      )
      refl

pub same_text_refl : (s : Text) → same_text s s ≡ true
unfolding same_text
same_text_refl [] = refl
same_text_refl (a ∷ s) = rw ((==_iff a a).1 refl, same_text_refl s) refl

pub same_text_comm : (s t : Text) → same_text s t ≡ same_text t s
unfolding same_text
same_text_comm [] [] = refl
same_text_comm [] (b ∷ t) = refl
same_text_comm (a ∷ s) [] = refl
same_text_comm (a ∷ s) (b ∷ t) = ground (arith, same_text_comm s t)

unfoldable pub has_byte : ℕ → Text → Bool
has_byte c [] = false
has_byte c (a ∷ s) = a == c || has_byte c s

unfoldable pub has_prefix : Text → Text → Bool
has_prefix s [] = true
has_prefix [] (_ ∷ _) = false
has_prefix (a ∷ s) (b ∷ t) = a == b && has_prefix s t

-- `slices.Contains`
unfoldable pub has_text : List Text → Text → Bool
has_text [] s = false
has_text (t ∷ texts) s = same_text t s || has_text texts s
