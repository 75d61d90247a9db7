-- ===== src/Manager/Files.antt =====
-- service.go: `LoadFS`: which configuration a file has, a document or an archive with one.
use chrome.Base.{
  ◌≡◌, refl, ℕ, ◌⊎◌, Bool, true, false, not, ◌||◌, List, [], ◌∷◌, Option, none, some, codes, inl,
  inr, Option-cases, if◌then◌else◌,
}
use chrome.Base.Text.{Text}
use chrome.Base.Dict.{lookup}
use chrome.Manager.State.{Event, Manager}
use chrome.Manager.Load.{Config, load_config, load_jobs}

-- An archive: the files that open, and the names that match `*.yaml`.
pub record Archive (F : Type 0) : Type 0 where
  pub files : List (Text × F)
  pub yaml_names : List Text

-- A file that opened: whether it is an `io.ReaderAt`, whether `Stat` works, and the archive that
-- it is if it is one.
pub record File (F : Type 0) : Type 0 where
  pub content : F
  pub reader_at : Bool
  pub has_stat : Bool
  pub archive : Option (Archive F)

-- The document of an archive: `chrome.yaml`, or else the only name that matches `*.yaml`.
pub data IsExpected {F : Type 0} (z : Archive F) (c : F) : Type 0 where
  by_name : lookup (codes "chrome.yaml") z.files ≡ some c → IsExpected z c
  by_match :
      (name : Text)
      → lookup (codes "chrome.yaml") z.files ≡ none
      → z.yaml_names ≡ name ∷ []
      → lookup name z.files ≡ some c
      → IsExpected z c

-- An archive without: `chrome.yaml` does not open, and no name, several names or one that does not
-- open match.
pub data IsEmpty {F : Type 0} (z : Archive F) : Type 0 where
  no_match : lookup (codes "chrome.yaml") z.files ≡ none → z.yaml_names ≡ [] → IsEmpty z
  two_match :
      (name name' : Text) (names : List Text)
      → lookup (codes "chrome.yaml") z.files ≡ none
      → z.yaml_names ≡ name ∷ name' ∷ names
      → IsEmpty z
  not_there :
      (name : Text)
      → lookup (codes "chrome.yaml") z.files ≡ none
      → z.yaml_names ≡ name ∷ []
      → lookup name z.files ≡ none
      → IsEmpty z

-- The document of a file: the file, unless it can be read at and measured as an archive.
pub data IsDocument {F : Type 0} (f : File F) (c : F) : Type 0 where
  not_reader : f.reader_at ≡ false → c ≡ f.content → IsDocument f c
  not_measured : f.has_stat ≡ false → c ≡ f.content → IsDocument f c
  no_archive : f.archive ≡ none → c ≡ f.content → IsDocument f c
  in_archive :
      (z : Archive F)
      → f.reader_at ≡ true
      → f.has_stat ≡ true
      → f.archive ≡ some z
      → IsExpected z c
      → IsDocument f c

abbrev pub HasNone : {F : Type 0} → File F → Type 0
HasNone {F = F} f =
    (f.reader_at ≡ true)
    × (f.has_stat ≡ true)
    × ((z : Archive F) × (f.archive ≡ some z) × IsEmpty z)

module _ {F : Type 0} where
  -- What an optional result means.
  abbrev Choice : (F → Type 0) → Type 0 → Option F → Type 0
  Choice P Q none = Q
  Choice P Q (some c) = P c

  abbrev or_else : Option F → Option F → Option F
  or_else none b = b
  or_else (some a) b = some a

  -- The one match of `*.yaml`, if there is one.
  abbrev only_match : List (Text × F) → List Text → Option F
  only_match files (name ∷ []) = lookup name files
  only_match files _ = none

  unfoldable pub config_in : Archive F → Option F
  config_in z = or_else (lookup (codes "chrome.yaml") z.files) (only_match z.files z.yaml_names)

  abbrev archived : F → Option (Archive F) → Option F
  archived content none = some content
  archived content (some z) = config_in z

  unfoldable pub config_file : File F → Option F
  unfolding config_in
  config_file f =
      if not f.reader_at || not f.has_stat then some f.content else archived f.content f.archive

  or_single :
      (z : Archive F) (o : Option F)
      → lookup (codes "chrome.yaml") z.files ≡ o
      → Choice (IsExpected z) (IsEmpty z) (or_else o (only_match z.files z.yaml_names))
  or_single z (some c) e = by_name e
  or_single z none e = by_names z.yaml_names refl
    where
      by_names :
          (names : List Text)
          → z.yaml_names ≡ names
          → Choice (IsExpected z) (IsEmpty z) (only_match z.files names)
      by_names [] n = no_match e n
      by_names (name ∷ name' ∷ names) n = two_match name name' names e n
      by_names (name ∷ []) n = elim (Option-cases (lookup name z.files)) [
        | inl x ↦ rw x (not_there name e n x)
        | inr (c, x) ↦ rw x (by_match name e n x)
      ]

  config_in-Choice : (z : Archive F) → Choice (IsExpected z) (IsEmpty z) (config_in z)
  unfolding config_in
  config_in-Choice z = or_single z (lookup (codes "chrome.yaml") z.files) refl

  in_file :
      (f : File F) (z : Archive F) (o : Option F)
      → f.reader_at ≡ true
      → f.has_stat ≡ true
      → f.archive ≡ some z
      → Choice (IsExpected z) (IsEmpty z) o
      → Choice (IsDocument f) (HasNone f) o
  in_file f z none r t a h = (r, t, (z, a, h))
  in_file f z (some c) r t a h = in_archive z r t a h

  by_parts :
      (f : File F) (reader measured : Bool) (a : Option (Archive F))
      → f.reader_at ≡ reader
      → f.has_stat ≡ measured
      → f.archive ≡ a
      → Choice
          (IsDocument f)
          (HasNone f)
          (if not reader || not measured then some f.content else archived f.content a)
  by_parts f false measured a r t e = not_reader r refl
  by_parts f true false a r t e = not_measured t refl
  by_parts f true true none r t e = no_archive e refl
  by_parts f true true (some z) r t e = in_file f z (config_in z) r t e (config_in-Choice z)

  config_file-Choice : (f : File F) → Choice (IsDocument f) (HasNone f) (config_file f)
  unfolding config_file
  config_file-Choice f = by_parts f f.reader_at f.has_stat f.archive refl refl refl

module _ {R F : Type 0} (parse : F → Option (Config R)) where
  -- Why a file is not loaded.
  abbrev pub IsRefused : Option (File F) → Type 0
  IsRefused file =
      (file ≡ none)
      ⊎ (((f : File F) × (file ≡ some f) × HasNone f)
          ⊎ ((f : File F) × (c : F) × (file ≡ some f) × IsDocument f c × (parse c ≡ none)))

module _ {D R F : Type 0} (is_letter is_digit : ℕ → Bool) (decode : Text → R → Option D)
    (quits : Text → Event D → Bool) (parse : F → Option (Config R)) where
  abbrev load_found : Option F → Manager D → Manager D × Bool
  load_found none m = (m, false)
  load_found (some content) m = load_config is_letter is_digit decode quits (parse content) m

  abbrev load_opened : Option (File F) → Manager D → Manager D × Bool
  load_opened none m = (m, false)
  load_opened (some f) m = load_found (config_file f) m

  -- `file` is what `Open` gives, and `parse` the YAML library.
  unfoldable pub load_fs : Option (File F) → Manager D → Manager D × Bool
  unfolding config_file
  load_fs file m = load_opened file m

  -- A file whose document is parsed, and what loading it comes to.
  abbrev pub IsLoaded : Option (File F) → Manager D → Manager D × Bool → Type 0
  IsLoaded file m o =
      (f : File F) × (c : F) × (config : Config R) × (file ≡ some f)
      × IsDocument f c
      × (parse c ≡ some config)
      × (o ≡ (
        load_jobs is_letter is_digit decode quits config.jobs
            (record m { conn_opts = config.conn; relay_opts = config.relay }),
        true,
      ))

  abbrev pub IsHandled : Option (File F) → Manager D → Manager D × Bool → Type 0
  IsHandled file m o = IsLoaded file m o ⊎ (IsRefused parse file × (o ≡ (m, false)))

  handle_file :
      (f : File F) (m : Manager D) (o : Option F)
      → Choice (IsDocument f) (HasNone f) o
      → IsHandled (some f) m (load_found o m)
  unfolding load_config
  handle_file f m none h = inr (inr (inl (f, refl, h)), refl)
  handle_file f m (some c) h = elim (Option-cases (parse c)) [
    | inl bad ↦ rw bad (inr (inr (inr (f, c, refl, h, bad)), refl))
    | inr (config, good) ↦ rw good (inl (f, c, config, refl, h, good, refl))
  ]

  -- For whatever file and manager, LoadFS does one of two things. It loads the jobs and options
  -- of a configuration and succeeds: then the file opens, and the configuration is parsed from
  -- the file itself, if it is no io.ReaderAt, has no Stat or is no archive, or from a document
  -- of the archive, which is chrome.yaml if that opens, and else the only name that matches
  -- *.yaml. Or it fails and leaves the manager as it was: then the file does not open, or an
  -- archive has neither of these documents, or the document does not parse.
  pub load_fs-IsHandled :
      (file : Option (File F)) (m : Manager D) → IsHandled file m (load_fs file m)
  unfolding load_fs
  load_fs-IsHandled none m = inr (inl refl, refl)
  load_fs-IsHandled (some f) m = handle_file f m (config_file f) (config_file-Choice f)
