-- ===== src/Proxies/Same.antt =====
-- proxy.go: proxies made from the same forwarder that are equal have the same dialer.
use chrome.Base.{
  ◌≡◌, ◌≢◌, ◌⊎◌, Bool, if◌then◌else◌, length, List, [], ◌∷◌, ◌++◌, Option, none, some, All, ◌>>=◌,
}
use chrome.Base.Text.{Text}
use chrome.Http.Lines.Walk.{IsLine, join_lines}
use chrome.Proxies.Chain.{Dialer, Proxy, is_skipped, is_block, is_reset, finish_proxy, special}

-- Different texts with the same digest.
abbrev pub Collide : (Text → Text) → Text → Text → Type 0
Collide sha1 x y = (x ≢ y) × (sha1 x ≡ sha1 y)

-- The texts that MakeProxy makes proxies of: those before the first `Block` or `Reset` that are not
-- skipped.
unfoldable pub kept : List Text → List Text
kept [] = []
kept (s ∷ urls) =
    let rest = kept urls in
    if is_skipped s then rest else if is_block s then [] else if is_reset s then [] else s ∷ rest

-- What it writes to the digest for them.
abbrev pub written : List Text → Text
written urls = join_lines (kept urls)

module _ {D : Type 0} where
  module _ (from_url : Text → Dialer D → Option (Dialer D)) where
    -- The dialers of a list of texts, one over the other.
    abbrev chain : List Text → Dialer D → Option (Dialer D)
    chain [] d = some d
    chain (s ∷ urls) d = from_url s d >>= chain urls

  module _ (sha1 : Text → Text) (sha1_size : (x : Text) → length (sha1 x) ≡ 20)
      (from_url : Text → Dialer D → Option (Dialer D))
      (url_lines : (s : Text) (d d' : Dialer D) → from_url s d ≡ some d' → IsLine s) where
    abbrev Made : Dialer D → Text → List Text → Proxy D → Type 0
    Made fwd h ks p =
        ((b : Bool) × (p ≡ special b))
        ⊎ ((d : Dialer D) × All IsLine ks
            × (chain from_url ks fwd ≡ some d)
            × (p ≡ finish_proxy sha1 d (h ++ join_lines ks)))

    abbrev MadeIf : Dialer D → Text → List Text → Option (Proxy D) → Type 0
    MadeIf fwd h ks none = Unit
    MadeIf fwd h ks (some p) = Made fwd h ks p

    abbrev add_line : Text → Text → Text
    add_line h s = h ++ (s ++ (b'\n' ∷ []))
