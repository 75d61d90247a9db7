-- ===== src/Dnstun/Servers.antt =====
-- dnstun.go: `DNServer` with its port and its URL, and the check of a list of servers. A text is its
-- bytes, and `strings.ToUpper` and `ToLower` are taken on ASCII letters.
use chrome.Base.{
  ℕ, ◌+◌, ◌-◌, ◌/◌, ◌%◌, ◌≡◌, ◌≢◌, refl, Bool, true, false, not, ◌&&◌, ◌||◌, ◌==◌, leb, List, [],
  ◌∷◌, ◌++◌, codes, if◌then◌else◌,
}
use chrome.Base.Text.{Text, same_text, has_text}

pub record DnServer : Type 0 where
  pub name : Text
  pub ip : List Text
  pub over : Text
  pub port : ℕ
  pub path : Text
  pub method : Text

unfoldable pub to_upper : Text → Text
to_upper [] = []
to_upper (c ∷ s) = (if leb b'a' c && leb c b'z' then c - 32 else c) ∷ to_upper s

unfoldable pub to_lower : Text → Text
to_lower [] = []
to_lower (c ∷ s) = (if leb b'A' c && leb c b'Z' then c + 32 else c) ∷ to_lower s

unfoldable pub method_of : DnServer → Text
method_of s = if same_text s.method (codes "GET") then codes "GET" else codes "POST"

unfoldable pub default_port : Text → ℕ
default_port over =
    if same_text over (codes "TLS")
    then 853
    else if same_text over (codes "HTTPS")
    then 443
    else if same_text over (codes "HTTP")
    then 80
    else 53

unfoldable pub port_of : DnServer → ℕ
unfolding default_port
port_of s = if not (s.port == 0) then s.port else default_port s.over

-- `strconv.Itoa` on a number below 65536.
abbrev pub digit_char : ℕ → ℕ
digit_char n = b'0' + n % 10

unfoldable pub itoa : ℕ → Text
itoa n =
    if leb 10000 n
    then digit_char (n / 10000)
      ∷ digit_char (n / 1000)
      ∷ digit_char (n / 100)
      ∷ digit_char (n / 10)
      ∷ digit_char n
      ∷ []
    else if leb 1000 n
    then digit_char (n / 1000) ∷ digit_char (n / 100) ∷ digit_char (n / 10) ∷ digit_char n ∷ []
    else if leb 100 n
    then digit_char (n / 100) ∷ digit_char (n / 10) ∷ digit_char n ∷ []
    else if leb 10 n
    then digit_char (n / 10) ∷ digit_char n ∷ []
    else digit_char n ∷ []

-- `cmp.Or(s.Over, "TCP")`
abbrev pub or_tcp : Text → Text
or_tcp [] = codes "TCP"
or_tcp (c ∷ s) = c ∷ s

unfoldable pub url_of : DnServer → Text
unfolding to_lower default_port itoa
url_of s =
    to_lower (or_tcp s.over)
    ++ (codes "://"
        ++ (s.name
            ++ (if not (s.port == 0) && not (s.port == default_port s.over)
                then b':' ∷ itoa s.port
                else [])))

pub data ServerError : Type 0 where
  missing_name invalid_over invalid_method name_required : ServerError

pub data Checked (A : Type 0) : Type 0 where
  valid : A → Checked A
  invalid : ServerError → Checked A

abbrev pub is_nil {ℓ} : {A : Type ℓ} → List A → Bool
is_nil [] = true
is_nil (x ∷ xs) = false

abbrev pub overs : List Text
overs = [] ∷ codes "TCP" ∷ codes "TLS" ∷ codes "HTTPS" ∷ codes "HTTP" ∷ []

abbrev pub methods : List Text
methods = [] ∷ codes "GET" ∷ codes "POST" ∷ []

abbrev pub needs_name : Text → Bool
needs_name over = same_text over (codes "TLS") || same_text over (codes "HTTPS")

-- The body of the loop, for a server whose texts are in upper case.
abbrev pub check_upper : DnServer → Checked DnServer
check_upper s =
    if is_nil s.name && is_nil s.ip
    then invalid missing_name
    else if not (has_text overs s.over)
    then invalid invalid_over
    else if not (has_text methods s.method)
    then invalid invalid_method
    else if needs_name s.over && is_nil s.name
    then invalid name_required
    else valid s

unfoldable pub check_server : DnServer → Checked DnServer
unfolding to_upper
check_server s = check_upper (record s { over = to_upper s.over; method = to_upper s.method })

abbrev pub cons_checked : DnServer → Checked (List DnServer) → Checked (List DnServer)
cons_checked s (valid ss) = valid (s ∷ ss)
cons_checked s (invalid e) = invalid e

abbrev pub check_then : Checked DnServer → Checked (List DnServer) → Checked (List DnServer)
check_then (valid s) rest = cons_checked s rest
check_then (invalid e) rest = invalid e

-- The loop ends at the first server that is not valid.
unfoldable pub check_servers : List DnServer → Checked (List DnServer)
unfolding check_server
check_servers [] = valid []
check_servers (s ∷ ss) = check_then (check_server s) (check_servers ss)

is_nil-false {ℓ} : {A : Type ℓ} (xs : List A) → xs ≢ [] → is_nil xs ≡ false
is_nil-false [] h = absurd (h refl)
is_nil-false (x ∷ xs) h = refl

-- A server over HTTP with an address, without a name and without a port, whose method is
-- allowed, passes the check, and its URL is "http://" without a host.
pub url_without_host :
    (s : DnServer)
    → s.name ≡ []
    → s.ip ≢ []
    → to_upper s.over ≡ codes "HTTP"
    → s.port ≡ 0
    → has_text methods (to_upper s.method) ≡ true
    → (s' : DnServer) × (check_server s ≡ valid s') × (url_of s' ≡ codes "http://")
unfolding check_server url_of same_text has_text
url_without_host s n i o p m = (
  record s { over = codes "HTTP"; method = to_upper s.method },
  rw (o, n, is_nil-false s.ip i) (rw m refl),
  rw (n, p) refl,
)
