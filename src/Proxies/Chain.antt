-- ===== src/Proxies/Chain.antt =====
-- proxy.go: `MakeProxy`, `Equal` and the reading of a proxy from YAML. Texts are lists of runes.
-- `sha1` gives the bytes of the digest of what was written, and `from_url` is `url.Parse` with
-- `proxy.FromURL`, where `none` is an error.
use chrome.Base.{
  ℕ, ◌+◌, Bool, true, false, ◌&&◌, ◌==◌, leb, List, [], ◌∷◌, ◌++◌, Option, none, some,
  if◌then◌else◌, codes, ◌>>=◌,
}
use mathlib.Core.List.{reverse}
use chrome.Base.Text.{Text, same_text}

-- `direct` is `proxy.Direct`, and `other` a dialer of some proxy.
pub data Dialer (D : Type 0) : Type 0 where
  direct : Dialer D
  block_or_reset : Bool → Dialer D
  other : D → Dialer D

-- The nil dialer of a zero value is `none`, and the nil sum has no bytes.
pub record Proxy (D : Type 0) : Type 0 where
  pub d : Option (Dialer D)
  pub sum : Text

-- The letters that fold together beyond ASCII are U+212A with `k` and U+017F with `s`.
abbrev pub fold_rune : ℕ → ℕ
fold_rune c =
    if leb b'A' c && leb c b'Z'
    then c + 32
    else if c == 8490
    then b'k'
    else if c == 383
    then b's'
    else c

-- `strings.EqualFold` against a name of ASCII letters in lower case.
unfoldable pub equal_fold : Text → Text → Bool
equal_fold [] [] = true
equal_fold (c ∷ s) (d ∷ name) = fold_rune c == d && equal_fold s name
equal_fold _ _ = false

unfoldable pub is_skipped : Text → Bool
unfolding equal_fold
is_skipped [] = true
is_skipped (c ∷ s) = equal_fold (c ∷ s) (codes "direct")

unfoldable pub is_block : Text → Bool
unfolding equal_fold
is_block s = equal_fold s (codes "block")

unfoldable pub is_reset : Text → Bool
unfolding equal_fold
is_reset s = equal_fold s (codes "reset")

abbrev pub name_of : Bool → Text
name_of true = codes "Block"
name_of false = codes "Reset"

-- What `Decode` finds: a list of texts, one text, or neither.
pub data Node : Type 0 where
  texts : List Text → Node
  text : Text → Node
  neither : Node

abbrev pub urls_of : Node → Option (List Text)
urls_of (texts urls) = some urls
urls_of (text s) = some (s ∷ [])
urls_of neither = none

module _ {D : Type 0} where
  abbrev pub is_direct : Dialer D → Bool
  is_direct direct = true
  is_direct (block_or_reset b) = false
  is_direct (other d) = false

  abbrev pub special : Bool → Proxy D
  special b = record { d = some (block_or_reset b); sum = name_of b }

  -- `Proxy.Equal`, by `bytes.Equal`
  abbrev pub equal_proxy : Proxy D → Proxy D → Bool
  equal_proxy p q = same_text p.sum q.sum

  -- `Proxy.Dialer`
  abbrev pub or_direct : Option (Dialer D) → Dialer D
  or_direct none = direct
  or_direct (some d) = d

  abbrev pub dialer_of : Proxy D → Dialer D
  dialer_of p = or_direct p.d

  -- `Proxy.IsZero`
  abbrev pub is_zero : Proxy D → Bool
  is_zero p = is_direct (dialer_of p)

  module _ (sha1 : Text → Text) where
    abbrev pub finish_proxy : Dialer D → Text → Proxy D
    finish_proxy fwd h = record { d = some fwd; sum = if is_direct fwd then [] else sha1 h }

  module _ (sha1 : Text → Text) (from_url : Text → Dialer D → Option (Dialer D)) where
    -- The loop, with what was written for the proxies before.
    unfoldable pub make_from : Dialer D → Text → List Text → Option (Proxy D)
    make_from fwd h [] = some (finish_proxy sha1 fwd h)
    make_from fwd h (s ∷ urls) =
        if is_skipped s
        then make_from fwd h urls
        else if is_block s
        then some (special true)
        else if is_reset s
        then some (special false)
        else from_url s fwd >>= (λ d. make_from d (h ++ (s ++ (b'\n' ∷ []))) urls)

    -- `MakeProxy`; the forwarder nil is `none`.
    unfoldable pub make_proxy : Option (Dialer D) → List Text → Option (Proxy D)
    unfolding make_from
    make_proxy fwd urls = make_from (or_direct fwd) [] urls

    -- The proxy, and whether there is an error; the loop reverses the texts.
    abbrev pub set_proxy : Proxy D → Option (Proxy D) → Proxy D × Bool
    set_proxy p none = (p, true)
    set_proxy p (some q) = (q, false)

    unfoldable pub unmarshal_yaml : Node → Proxy D → Proxy D × Bool
    unfolding make_proxy
    unmarshal_yaml node p = set_proxy p (urls_of node >>= (λ urls. make_proxy none (reverse urls)))
