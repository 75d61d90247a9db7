-- ===== src/Manager/Names.antt =====
-- service.go: the name of the service in the name of a job. What Unicode says of a rune is
-- `unicode.IsLetter` and `unicode.IsDigit` of the standard library.
use mathlib.Core.Option
use chrome.Base.{
  ℕ, zero, suc, ◌≡◌, refl, ap, Bool, true, not, ◌&&◌, ◌||◌, ◌==◌, [], ◌∷◌, ◌++◌, Option, none, some,
  length, take, take-append, ◌≢◌, codes, inl, inr, Bool-cases, if◌then◌else◌, Option-cases,
}
use chrome.Base.Text.{Text, same_text}

-- `strings.IndexFunc`
unfoldable pub index_func : (ℕ → Bool) → Text → Option ℕ
index_func f [] = none
index_func f (c ∷ s) = let rest = index_func f s in if f c then some 0 else Option.map suc rest

unfoldable pub is_dummy_service : Text → Bool
is_dummy_service name =
    same_text name [] || same_text name (codes "alias") || same_text name (codes "dummy")

module _ (is_letter is_digit : ℕ → Bool) where
  unfoldable pub ends_name : ℕ → Bool
  ends_name r = not (r == b'-') && not (is_letter r) && not (is_digit r)

  abbrev name_to : Text → Option ℕ → Text
  name_to s none = s
  name_to s (some zero) = s
  name_to s (some (suc i)) = take (suc i) s

  unfoldable pub find_service_name : Text → Text
  find_service_name s = name_to s (index_func ends_name s)

module _ (f : ℕ → Bool) where
  index_func-append :
      (n rest : Text) (c : ℕ)
      → index_func f n ≡ none
      → f c ≡ true
      → index_func f (n ++ (c ∷ rest)) ≡ some (length n)
  unfolding index_func
  index_func-append [] rest c h k = rw k refl
  index_func-append (a ∷ n) rest c h k = elim (Bool-cases (f a)) [
    | inl e ↦ absurd (cc (rw e at h))
    | inr e ↦ rw e (ap (Option.map suc) (index_func-append n rest c (none_of (rw e at h)) k))
  ]
    where
      none_of : Option.map suc (index_func f n) ≡ none → index_func f n ≡ none
      none_of q = elim (Option-cases (index_func f n)) [
        | inl m ↦ m
        | inr (i, m) ↦ absurd (cc (rw m at q))
      ]

-- For a nonempty name without a rune that ends names, followed by such a rune and anything
-- else, findServiceName gives the name; for the name alone it gives the name too.
pub find_service_name_parts :
    (is_letter is_digit : ℕ → Bool) (n rest : Text) (c : ℕ)
    → n ≢ []
    → index_func (ends_name is_letter is_digit) n ≡ none
    → ends_name is_letter is_digit c ≡ true
    → (find_service_name is_letter is_digit (n ++ (c ∷ rest)) ≡ n)
      × (find_service_name is_letter is_digit n ≡ n)
unfolding find_service_name
find_service_name_parts is_letter is_digit [] rest c ne h k = absurd (ne refl)
find_service_name_parts is_letter is_digit (a ∷ n) rest c ne h k = (
  rw (index_func-append (ends_name is_letter is_digit) (a ∷ n) rest c h k)
      (take-append (a ∷ n) (c ∷ rest)),
  rw h refl,
)
