-- ===== src/Base/Reverse.antt =====
-- Laws of the library's `reverse` by its accumulator.
use mathlib.Core.Path.{◌≡◌, refl, sym, ap, ◌∙◌}
use mathlib.Core.List.{List, [], ◌∷◌, ◌++◌, reverse, reverse_aux, append-nil, append_assoc}
use chrome.Base.{All}

module _ {ℓ} {A : Type ℓ} where
  pub reverse_twice :
      (xs ys zs : List A) → reverse_aux (reverse_aux xs ys) zs ≡ reverse_aux ys (xs ++ zs)
  reverse_twice [] ys zs = refl
  reverse_twice (x ∷ xs) ys zs = reverse_twice xs (x ∷ ys) zs

  pub reverse-reverse : (xs : List A) → reverse (reverse xs) ≡ xs
  reverse-reverse xs = reverse_twice xs [] [] ∙ append-nil xs

  pub reverse_onto : (xs ys zs : List A) → reverse_aux xs (ys ++ zs) ≡ reverse_aux xs ys ++ zs
  reverse_onto [] ys zs = refl
  reverse_onto (x ∷ xs) ys zs = reverse_onto xs (x ∷ ys) zs

  pub reverse-append : (xs ys : List A) → reverse (xs ++ ys) ≡ reverse ys ++ reverse xs
  reverse-append xs ys = onto xs ys [] ∙ reverse_onto ys [] (reverse xs)
    where
      onto : (xs ys zs : List A) → reverse_aux (xs ++ ys) zs ≡ reverse_aux ys (reverse_aux xs zs)
      onto [] ys zs = refl
      onto (x ∷ xs) ys zs = onto xs ys (x ∷ zs)

  pub reverse_middle :
      (xs : List A) (c : A) (ys : List A)
      → reverse (xs ++ (c ∷ ys)) ≡ reverse ys ++ (c ∷ reverse xs)
  reverse_middle xs c ys =
      reverse-append xs (c ∷ ys)
      ∙ ap (λ zs. zs ++ reverse xs) (reverse_onto ys [] (c ∷ []))
      ∙ append_assoc (reverse ys) (c ∷ []) (reverse xs)

  pub reverse_swap : (xs ys : List A) → reverse xs ≡ ys → xs ≡ reverse ys
  reverse_swap xs ys h = sym (reverse-reverse xs) ∙ ap reverse h

  pub All-reverse_aux {κ} :
      (P : A → Type κ) (xs ys : List A) → All P xs → All P ys → All P (reverse_aux xs ys)
  All-reverse_aux P [] ys h k = k
  All-reverse_aux P (x ∷ xs) ys h k = All-reverse_aux P xs (x ∷ ys) h.1 (h.0, k)
