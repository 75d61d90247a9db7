-- ===== src/Http/Lines/Ends.antt =====
-- The walk through the files ends where no file includes itself, directly or through others.
use chrome.Base.{ℕ, ◌<◌, ◌≡◌, Bool, [], ◌∷◌, All, Option, some}
use chrome.Netip.Addr.{Addr}
use chrome.Netip.RangeSet.{AddrRange}
use chrome.Base.Text.{Text}
use chrome.Http.Lines.{scan_lines, include_path}

module _ (parse_prefix : Text → Option (AddrRange × Bool)) (addr_string : Addr → Text)
    (files : Text → Option Text) (join_dir : Text → Text → Text) where
  abbrev Bytes : Option Text → Type 0
  Bytes o = (d : Text) × (o ≡ some d)

  -- A line is not empty, and a file that it includes is there and has a rank below `k`.
  abbrev pub IsRanked : (Text → ℕ) → ℕ → Text → Text → Type 0
  IsRanked rank k name [] = ⊥
  IsRanked rank k name (c ∷ line) =
      c ≡ b'@'
      → (s : Text) × (files (include_path parse_prefix addr_string files join_dir name line)
          ≡ some s)
        × (rank (include_path parse_prefix addr_string files join_dir name line) < k)

  -- So are the lines of every file, below its own rank.
  abbrev pub AreRanked : (Text → ℕ) → Type 0
  AreRanked rank =
      (name s : Text) → files name ≡ some s → All (IsRanked rank (rank name) name) (scan_lines s)
