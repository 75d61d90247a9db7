-- ===== src/Http/Digest.antt =====
-- What a checksum of http.go stands for: two lists with equal checksums say the same.
use chrome.Base.{
  ℕ, zero, suc, ◌≡◌, sym, ap, ◌∙◌, inl, inr, Bool, true, false, ◌==◌, List, [], ◌∷◌, ◌++◌, All,
  Option, none, some, Option-cases, if◌then◌else◌, ◌>>=◌,
}
use chrome.Netip.Addr.{Addr}
use chrome.Netip.RangeSet.{AddrRange}
use chrome.Base.Text.{Text}
use chrome.Http.Rules.{Parser}
use chrome.Http.Lines.{scan_lines, include_path, parse_lines, checksum_lines}
use chrome.Http.Lines.Walk.{IsLine, join_lines, join_lines-injective, scan_lines-IsLine}
use chrome.Http.Lines.Expand.{expand, put_all, checksum_lines-expand, parse_lines-expand}

module _ (parse_prefix : Text → Option (AddrRange × Bool)) (addr_string : Addr → Text)
    (files : Text → Option Text) (join_dir : Text → Text → Text) where
  AreLines : Option (List Text) → Type 0
  AreLines none = Unit
  AreLines (some lines) = All IsLine lines

  append-IsLine : (xs ys : List Text) → All IsLine xs → All IsLine ys → All IsLine (xs ++ ys)
  append-IsLine [] ys h k = k
  append-IsLine (x ∷ xs) ys h k = (h.0, append-IsLine xs ys h.1 k)

  both-AreLines :
      (first rest : Option (List Text))
      → AreLines first
      → AreLines rest
      → AreLines (first >>= (λ a. rest >>= (λ b. some (a ++ b))))
  unfolding AreLines
  both-AreLines none rest h k = tt
  both-AreLines (some a) none h k = tt
  both-AreLines (some a) (some b) h k = append-IsLine a b h k

  if-AreLines :
      (b : Bool) (x y : Option (List Text))
      → AreLines x
      → AreLines y
      → AreLines (if b then x else y)
  if-AreLines true x y h k = h
  if-AreLines false x y h k = k

  bind-AreLines :
      (o : Option Text) (g : Text → Option (List Text))
      → ((s : Text) → AreLines (g s))
      → AreLines (o >>= g)
  unfolding AreLines
  bind-AreLines none g h = tt
  bind-AreLines (some s) g h = h s

  one-AreLines : (line : Text) → IsLine line → AreLines (some (line ∷ []))
  unfolding AreLines
  one-AreLines line h = (h, tt)

  none-AreLines : AreLines none
  unfolding AreLines
  none-AreLines = tt

  nil-AreLines : AreLines (some [])
  unfolding AreLines
  nil-AreLines = tt

  expand-AreLines :
      (k : ℕ) (name : Text) (lines : List Text)
      → All IsLine lines
      → AreLines (expand parse_prefix addr_string files join_dir k name lines)
  unfolding expand
  expand-AreLines k name [] h = nil-AreLines
  expand-AreLines k name ([] ∷ lines) h = none-AreLines
  expand-AreLines zero name ((c ∷ line) ∷ lines) h =
      both-AreLines (if c == b'@' then none else some ((c ∷ line) ∷ []))
        (expand parse_prefix addr_string files join_dir zero name lines)
        (if-AreLines (c == b'@') none (some ((c ∷ line) ∷ [])) none-AreLines
          (one-AreLines (c ∷ line) h.0))
        (expand-AreLines zero name lines h.1)
  expand-AreLines (suc k) name ((c ∷ line) ∷ lines) h =
      let path = include_path parse_prefix addr_string files join_dir name line in
      both-AreLines
        (if c == b'@'
          then files path
            >>= (λ s. expand parse_prefix addr_string files join_dir k path (scan_lines s))
          else some ((c ∷ line) ∷ []))
        (expand parse_prefix addr_string files join_dir (suc k) name lines)
        (if-AreLines (c == b'@')
          (files path
            >>= (λ s. expand parse_prefix addr_string files join_dir k path (scan_lines s)))
          (some ((c ∷ line) ∷ []))
          (bind-AreLines (files path)
            (λ s. expand parse_prefix addr_string files join_dir k path (scan_lines s))
            (λ s. expand-AreLines k path (scan_lines s) (scan_lines-IsLine s)))
          (one-AreLines (c ∷ line) h.0))
        (expand-AreLines (suc k) name lines h.1)

  -- The lines behind a digest.
  record Digested (k : ℕ) (name : Text) (lines : List Text) (d : Text) : Type 0 where
    pub all : List Text
    pub expands : expand parse_prefix addr_string files join_dir k name lines ≡ some all
    pub are_lines : All IsLine all
    pub joins : join_lines all ≡ d

  digested :
      (k : ℕ) (name : Text) (lines : List Text) (d : Text)
      → All IsLine lines
      → checksum_lines parse_prefix addr_string files join_dir k name lines ≡ some d
      → Digested k name lines d
  unfolding AreLines
  digested k name lines d h e =
      elim (Option-cases (expand parse_prefix addr_string files join_dir k name lines)) [
        | inl q ↦ absurd (
            cc (
              rw (checksum_lines-expand parse_prefix addr_string files join_dir k name lines, q) at
                e))
        | inr (all, q) ↦ record {
          all = all;
          expands = q;
          are_lines = rw q at (expand-AreLines k name lines h);
          joins = cc (
              rw (checksum_lines-expand parse_prefix addr_string files join_dir k name lines, q) at
                e);
        }
      ]

module _ (parse_prefix : Text → Option (AddrRange × Bool)) (addr_string : Addr → Text)
    (join_dir : Text → Text → Text) where
  -- If the walk for the checksum over one list writes the bytes d, with the files as they are
  -- then, and the walk over another list, with other files, also writes d, then parsing the two
  -- lists from the same parser gives the same result, whatever the parsing of prefixes does.
  pub same_digest :
      (files files' : Text → Option Text) (k k' : ℕ) (name name' what what' d : Text) (p : Parser)
      → checksum_lines parse_prefix addr_string files join_dir k name (scan_lines what) ≡ some d
      → checksum_lines parse_prefix addr_string files' join_dir k' name' (scan_lines what') ≡ some d
      → parse_lines parse_prefix addr_string files join_dir k name (scan_lines what) p
        ≡ parse_lines parse_prefix addr_string files' join_dir k' name' (scan_lines what') p
  same_digest files files' k k' name name' what what' d p e e' =
      let x =
        digested parse_prefix addr_string files join_dir k name (scan_lines what) d
          (scan_lines-IsLine what) e in
      let y =
        digested parse_prefix addr_string files' join_dir k' name' (scan_lines what') d
          (scan_lines-IsLine what') e' in
      let same = join_lines-injective x.all y.all x.are_lines y.are_lines (x.joins ∙ sym y.joins) in
      parse_lines-expand parse_prefix addr_string files join_dir k name (scan_lines what) p
      ∙ ap (put_all parse_prefix addr_string p) (x.expands ∙ ap some same ∙ sym y.expands)
      ∙ sym (
          parse_lines-expand parse_prefix addr_string files' join_dir k' name' (scan_lines what') p)
