-- ===== src/Proxies/Tests.antt =====
-- Chains of proxies on concrete texts, and the theorem at a concrete input.
use chrome.Base.{
  ◌≡◌, ◌++◌, refl, take, replicate, true, false, List, [], ◌∷◌, Option, none, some, codes, leb,
  if◌then◌else◌,
}
use chrome.Base.Text.{Text}
use chrome.Proxies.Chain.{
  Dialer, direct, other, Proxy, texts, make_from, make_proxy, special, unmarshal_yaml, is_skipped,
  is_block, is_reset, equal_fold,
}

-- The first twenty runes of a text stand for its digest here.
abbrev cut : Text → Text
cut x = take 20 (x ++ replicate 20 0)

-- A dialer is the list of texts it was made from; only one letter in lower case is a proxy.
abbrev known : Text → Dialer (List Text) → Option (Dialer (List Text))
known (c ∷ []) direct = if leb b'a' c then some (other ((c ∷ []) ∷ [])) else none
known (c ∷ []) (other l) = if leb b'a' c then some (other ((c ∷ []) ∷ l)) else none
known _ _ = none

over :
    unmarshal_yaml cut known (texts (codes "a" ∷ codes "DIRECT" ∷ codes "b" ∷ [])) (special true)
    ≡ (record { d = some (other (codes "a" ∷ codes "b" ∷ [])); sum = cut (codes "b\na\n") }, false)
unfolding unmarshal_yaml make_proxy make_from is_skipped is_block is_reset equal_fold
over = refl

abbrev made : Proxy (List Text)
made = record { d = some (other (codes "b" ∷ codes "a" ∷ [])); sum = cut (codes "a\nb\n") }

abbrev with_direct : List Text
with_direct = codes "a" ∷ codes "direct" ∷ codes "b" ∷ []

abbrev without_direct : List Text
without_direct = codes "a" ∷ codes "b" ∷ []

abbrev made_again : Proxy (List Text)
made_again = record { d = made.d; sum = made.sum }
