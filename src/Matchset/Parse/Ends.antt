-- ===== src/Matchset/Parse/Ends.antt =====
-- `Add` returns on every pattern of bytes below the last one.
use chrome.Base.{
  ℕ, ◌+◌, ◌≤◌, zero, suc, ◌≡◌, refl, inl, inr, Bool, true, false, ◌==◌, List, [], ◌∷◌, Option, none,
  some, length, if◌then◌else◌, Bool-cases, arith,
}
use native.Mathlib.Nat.{le_refl}
use chrome.Matchset.Charset.{Charset, same, all}
use chrome.Matchset.Group.{start, finish, charset_from_group}
use chrome.Matchset.Parse.{
  Atoms, push_atom, magic_underscore, magic_dot, MatchSet, known_atom, read_group, skip_asterisk,
  read_atom, plain_atom, parse_loop, parse, add_pattern, charset_to_atom,
}
use chrome.Matchset.Group.Ends.{AreLow, read_bytes-ReadAll}

-- What `Add` and its parts return: there is a result.
abbrev pub Returns {ℓ} : {A : Type ℓ} → Option A → Type ℓ
Returns {A = A} o = (x : A) × (o ≡ some x)

-- An atom is read, and no more bytes are left than there were behind its first one.
record ReadsAtom {A : Type 0} (bytes : List ℕ) (o : Option (MatchSet A × ℕ × List ℕ)) : Type 0 where
  pub set : MatchSet A
  pub atom : ℕ
  pub rest : List ℕ
  pub returns : o ≡ some (set, atom, rest)
  pub shorter : length rest ≤ length bytes
  pub low : AreLow rest

Shorter : List ℕ → ℕ × List ℕ → Type 0
Shorter bytes p = length p.1 ≤ length bytes × AreLow p.1

Shorter-if :
    (b : Bool) (bytes : List ℕ) (p q : ℕ × List ℕ)
    → Shorter bytes p
    → Shorter bytes q
    → Shorter bytes (if b then p else q)
Shorter-if true bytes p q h k = h
Shorter-if false bytes p q h k = k

skip-Shorter : (bytes : List ℕ) → AreLow bytes → Shorter bytes (skip_asterisk bytes)
unfolding Shorter
skip-Shorter [] h = (omega arith, tt)
skip-Shorter (c ∷ bytes) h =
    Shorter-if (c == b'*') (c ∷ bytes) _ _ (omega arith, h.1) (omega arith, h)

plain-Shorter : (c : ℕ) (bytes : List ℕ) → AreLow bytes → Shorter bytes (plain_atom c bytes)
unfolding plain_atom Shorter
plain-Shorter c bytes h = Shorter-if (c == b'*') bytes _ _ (skip-Shorter bytes h) (
    Shorter-if (c == b'?') bytes _ _ (le_refl _, h)
      (Shorter-if (c == b'_') bytes _ _ (le_refl _, h) (le_refl _, h)))

module _ {A : Type 0} where
  known-ReadsAtom :
      (set : MatchSet A) (s : Charset) (rest bytes : List ℕ) (o : Option ℕ)
      → length rest ≤ length bytes
      → AreLow rest
      → ReadsAtom bytes (some (known_atom set s rest o))
  known-ReadsAtom set s rest bytes (some a) h k = record {
    set = set;
    atom = a;
    rest = rest;
    returns = refl;
    shorter = h;
    low = k;
  }
  known-ReadsAtom set s rest bytes none h k = elim (Bool-cases (same s all)) [
    | inl e ↦ rw e record {
      set = set;
      atom = magic_underscore;
      rest = rest;
      returns = refl;
      shorter = h;
      low = k;
    }
    | inr e ↦
        let atom = if set.next_atom == 0 then 256 else set.next_atom in
        rw e record {
          set = record set { next_atom = atom + 1; charsets = (s, atom) ∷ set.charsets };
          atom = atom;
          rest = rest;
          returns = refl;
          shorter = h;
          low = k;
        }
  ]

  group-ReadsAtom :
      (set : MatchSet A) (bytes : List ℕ)
      → AreLow bytes
      → ReadsAtom bytes (read_group set (charset_from_group bytes))
  unfolding charset_from_group start
  group-ReadsAtom set bytes h =
      let r = read_bytes-ReadAll 0 bytes start h (omega arith) in
      rw r.returns (
        known-ReadsAtom set (finish r.st) r.rest bytes (charset_to_atom (finish r.st) set.charsets)
          r.shorter r.low)

  ReadsAtom-if :
      (b : Bool) {bytes : List ℕ} {x y : Option (MatchSet A × ℕ × List ℕ)}
      → ReadsAtom bytes x
      → ReadsAtom bytes y
      → ReadsAtom bytes (if b then x else y)
  ReadsAtom-if true p q = p
  ReadsAtom-if false p q = q

  read_atom-ReadsAtom :
      (set : MatchSet A) (c : ℕ) (bytes : List ℕ)
      → AreLow bytes
      → ReadsAtom bytes (read_atom set c bytes)
  unfolding read_atom Shorter
  read_atom-ReadsAtom set c bytes h =
      ReadsAtom-if (c == b'[') (group-ReadsAtom set bytes h) record {
        set = set;
        atom = (plain_atom c bytes).0;
        rest = (plain_atom c bytes).1;
        returns = refl;
        shorter = (plain-Shorter c bytes h).0;
        low = (plain-Shorter c bytes h).1;
      }

  parse_loop-Returns :
      (fuel : ℕ) (set : MatchSet A) (bytes : List ℕ) (atoms : Atoms)
      → AreLow bytes
      → length bytes ≤ fuel
      → Returns (parse_loop fuel set bytes atoms)
  unfolding parse_loop
  parse_loop-Returns fuel set [] atoms h k = ((set, atoms), refl)
  parse_loop-Returns zero set (c ∷ bytes) atoms h k = absurd (omega arith)
  parse_loop-Returns (suc fuel) set (c ∷ bytes) atoms h k =
      let r = read_atom-ReadsAtom set c bytes h.1 in
      rw r.returns (
        parse_loop-Returns fuel r.set r.rest (push_atom r.atom atoms) r.low
          (omega (arith, r.shorter)))

  -- Adding a pattern whose bytes are all below 255 returns, whatever the set holds: the loop of
  -- parse ends within as many rounds as there are bytes, and every range of a class within its
  -- fuel.
  pub add_pattern-Returns :
      (set : MatchSet A) (patt : List ℕ) (x : A) → AreLow patt → Returns (add_pattern set patt x)
  unfolding add_pattern parse
  add_pattern-Returns set patt x h =
      let r = parse_loop-Returns (length patt) set patt ([], magic_dot) h (le_refl _) in
      rw r.1 (_, refl)
