-- ===== src/Http/Lines.antt =====
-- The lines of a list of hosts, and the walk through the files that it includes: `scanLines`,
-- `allowListParser.parseLine` and `parseFile` of http.go. `files` is the file system, by the
-- contents of a file, and `join_dir` is the standard library's `path.Join(path.Dir(name), file)`.
-- White space is that of ASCII, and a line may be longer than the 64 KiB at which a Scanner ends.
pub mod Walk
pub mod Expand
pub mod Ends
use chrome.Base.{
  ℕ, zero, suc, Bool, true, false, ◌&&◌, ◌||◌, ◌==◌, List, [], ◌∷◌, ◌++◌, map, Option, none, some,
  leb, if◌then◌else◌, ◌>>=◌, codes,
}
use mathlib.Core.List.{reverse}
use chrome.Netip.Addr.{Addr}
use chrome.Netip.RangeSet.{AddrRange}
use chrome.Base.Text.{Text, has_prefix}
use chrome.Http.Rules.{Parser, put_line}

-- `bytes.TrimSpace` on ASCII.
unfoldable pub is_space : ℕ → Bool
is_space c = leb 9 c && leb c 13 || c == b' '

unfoldable pub trim_left : Text → Text
trim_left [] = []
trim_left (c ∷ s) = if is_space c then trim_left s else c ∷ s

unfoldable pub trim_space : Text → Text
trim_space s = reverse (trim_left (reverse (trim_left s)))

-- The pieces between line feeds.
abbrev add_head : ℕ → List Text → List Text
add_head c [] = (c ∷ []) ∷ []
add_head c (line ∷ lines) = (c ∷ line) ∷ lines

unfoldable pub split_lines : Text → List Text
split_lines [] = [] ∷ []
split_lines (c ∷ s) = let rest = split_lines s in if c == b'\n' then [] ∷ rest else add_head c rest

abbrev keep_line : Text → List Text → List Text
keep_line [] lines = lines
keep_line (c ∷ line) lines = if c == b'#' then lines else (c ∷ line) ∷ lines

-- The tokens of `scanLines`: no empty lines and no comments.
unfoldable pub lines_of : List Text → List Text
lines_of [] = []
lines_of (line ∷ lines) = keep_line (trim_space line) (lines_of lines)

unfoldable pub scan_lines : Text → List Text
scan_lines s = lines_of (split_lines s)

module _ (parse_prefix : Text → Option (AddrRange × Bool)) (addr_string : Addr → Text)
    (files : Text → Option Text) (join_dir : Text → Text → Text) where
  unfoldable pub include_path : Text → Text → Text
  include_path name file =
      if has_prefix file (codes "./") || has_prefix file (codes "../")
      then join_dir name file
      else file

  -- The fuel is the depth of files that include each other; without it a cycle does not end.
  unfoldable pub parse_lines : ℕ → Text → List Text → Parser → Option Parser
  parse_lines k name [] p = some p
  parse_lines k name ([] ∷ lines) p = none
  parse_lines zero name ((c ∷ line) ∷ lines) p =
      (if c == b'@' then none else put_line parse_prefix addr_string (c ∷ line) p)
      >>= parse_lines zero name lines
  parse_lines (suc k) name ((c ∷ line) ∷ lines) p =
      let path = include_path name line in
      (if c == b'@'
        then files path >>= (λ s. parse_lines k path (scan_lines s) p)
        else put_line parse_prefix addr_string (c ∷ line) p)
      >>= parse_lines (suc k) name lines

  -- `checksumLine` and `checksumFile`: what is written to the digest.
  unfoldable pub checksum_lines : ℕ → Text → List Text → Option Text
  checksum_lines k name [] = some []
  checksum_lines k name ([] ∷ lines) = none
  checksum_lines zero name ((c ∷ line) ∷ lines) = do
    first ← if c == b'@' then none else some ((c ∷ line) ++ (b'\n' ∷ []))
    rest ← checksum_lines zero name lines
    some (first ++ rest)
  checksum_lines (suc k) name ((c ∷ line) ∷ lines) = do
    first ←
        if c == b'@'
        then files (include_path name line)
          >>= (λ s. checksum_lines k (include_path name line) (scan_lines s))
        else some ((c ∷ line) ++ (b'\n' ∷ []))
    rest ← checksum_lines (suc k) name lines
    some (first ++ rest)
