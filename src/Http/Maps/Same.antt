-- ===== src/Http/Maps/Same.antt =====
-- Maps without empty values that `mapEqual` takes for equal answer alike for every key.
use chrome.Base.{
  suc, ◌≡◌, ◌≢◌, inl, inr, refl, sym, ap, ◌∙◌, Bool, true, false, ◌==◌, ==_iff, Bool-cases, [], ◌∷◌,
  length, if◌then◌else◌, arith,
}
use chrome.Base.Text.{Text, same_text, same_text→eq, same_text_refl}
use chrome.Http.Maps.{StringMap, value_at, agree_on, map_equal, rewrite_host}

unfoldable pub has_key : StringMap → Text → Bool
has_key [] k = false
has_key ((j, v) ∷ m) k = if same_text j k then true else has_key m k

-- No key twice, and no empty value.
abbrev pub IsMap : StringMap → Type 0
IsMap [] = Unit
IsMap ((k, v) ∷ m) = (has_key m k ≡ false) × (v ≢ []) × IsMap m

-- A map without a key.
unfoldable pub remove : Text → StringMap → StringMap
remove k [] = []
remove k ((j, v) ∷ m) = if same_text j k then m else (j, v) ∷ remove k m

length-remove :
    (k : Text) (m : StringMap) → has_key m k ≡ true → length m ≡ suc (length (remove k m))
unfolding has_key remove
length-remove k [] h = absurd (cc)
length-remove k ((j, v) ∷ m) h = elim (Bool-cases (same_text j k)) [
  | inl e ↦ rw e refl
  | inr e ↦ rw e (ap suc (length-remove k m (rw e at h)))
]

-- Another key is there before and after.
remove-other :
    (k i : Text) (m : StringMap) → same_text k i ≡ false → has_key (remove k m) i ≡ has_key m i
unfolding has_key remove
remove-other k i [] n = refl
remove-other k i ((j, v) ∷ m) n = elim (Bool-cases (same_text j k)) [
  | inl e ↦ rw (e, same_text→eq j k e, n) refl
  | inr e ↦ rw e (ap (λ x. if same_text j i then true else x) (remove-other k i m n))
]

keyless : (m : StringMap) (k : Text) → has_key m k ≡ false → value_at m k ≡ []
unfolding has_key value_at
keyless [] k h = refl
keyless ((j, v) ∷ m) k h = elim (Bool-cases (same_text j k)) [
  | inl e ↦ absurd (cc (rw e at h))
  | inr e ↦ rw e (keyless m k (rw e at h))
]

-- Every key of `a` is one of `b`.
abbrev Within : StringMap → StringMap → Type 0
Within a b = (k : Text) → has_key a k ≡ true → has_key b k ≡ true

apart :
    (j i : Text) (a : StringMap) → has_key a j ≡ false → has_key a i ≡ true → same_text j i ≡ false
apart j i a h k = elim (Bool-cases (same_text j i)) [
  | inl e ↦ absurd (cc (h, k, ap (has_key a) (same_text→eq j i e)))
  | inr e ↦ e
]

no_more_keys : (a b : StringMap) → IsMap a → length a ≡ length b → Within a b → Within b a
unfolding has_key
no_more_keys [] [] p n w k h = h
no_more_keys [] (y ∷ b) p n w k h = absurd (omega arith)
no_more_keys ((j, v) ∷ a) b p n w k h = elim (Bool-cases (same_text j k)) [
  | inl e ↦ rw e refl
  | inr e ↦ rw e (
      no_more_keys a (remove j b) p.2 (omega (arith, length-remove j b j_in_b)) smaller k
        (remove-other j k b e ∙ h))
]
  where
    j_in_b : has_key b j ≡ true
    j_in_b = w j (rw (same_text_refl j) refl)

    smaller : Within a (remove j b)
    smaller i q = let n = apart j i a p.0 q in remove-other j i b n ∙ w i (rw n q)

has_value : (m : StringMap) (k : Text) → value_at m k ≢ [] → has_key m k ≡ true
has_value m k h = elim (Bool-cases (has_key m k)) [ inl e ↦ e | inr e ↦ absurd (h (keyless m k e)) ]

agree_both : (x y : Bool) → (if x then y else false) ≡ true → (x ≡ true) × (y ≡ true)
agree_both true y h = (refl, h)
agree_both false y h = absurd (cc)

agree_on-value_at :
    (a b : StringMap) (k : Text)
    → IsMap a
    → agree_on a b ≡ true
    → has_key a k ≡ true
    → (value_at b k ≡ value_at a k) × (value_at a k ≢ [])
unfolding agree_on has_key value_at
agree_on-value_at [] b k p h q = absurd (cc)
agree_on-value_at ((j, v) ∷ a) b k p h q =
    let (x, y) = agree_both (same_text (value_at b j) v) (agree_on a b) h in
    elim (Bool-cases (same_text j k)) [
      | inl e ↦ rw (e, sym (same_text→eq j k e)) (same_text→eq (value_at b j) v x, p.1)
      | inr e ↦ rw e (agree_on-value_at a b k p.2 y (rw e at q))
    ]

-- If the first of two maps has no key twice and no empty value, and mapEqual takes the two for
-- equal, then both give the same value for every key, where a key that is not there reads as
-- the empty text.
pub map_equal-value_at :
    (a b : StringMap) (k : Text) → IsMap a → map_equal a b ≡ true → value_at a k ≡ value_at b k
unfolding map_equal
map_equal-value_at a b k p h =
    let (n, agree) = agree_both (length a == length b) (agree_on a b) h in
    let inside = λ (i : Text) (q : has_key a i ≡ true).
      let (e, ne) = agree_on-value_at a b i p agree q in has_value b i (λ z. ne (sym e ∙ z)) in
    elim (Bool-cases (has_key a k)) [
      | inl e ↦ sym (agree_on-value_at a b k p agree e).0
      | inr e ↦
          keyless a k e
          ∙ sym (
              keyless b k
                (absent k e (no_more_keys a b p ((==_iff (length a) (length b)).0 n) inside)))
    ]
  where
    absent : (k : Text) → has_key a k ≡ false → Within b a → has_key b k ≡ false
    absent k e w = elim (Bool-cases (has_key b k)) [ inl f ↦ absurd (cc (e, w k f)) | inr f ↦ f ]

pub map_equal-rewrite_host :
    (a b : StringMap) (host : Text)
    → IsMap a
    → map_equal a b ≡ true
    → rewrite_host a host ≡ rewrite_host b host
unfolding rewrite_host
map_equal-rewrite_host a b host p h = rw (map_equal-value_at a b host p h) refl
