-- ===== src/Dnstun/Answers.antt =====
-- dnstun.go: what an exchange makes of an answer: names, times to live, addresses, and the deadline
-- until which the cache may give it out. A time is in nanoseconds, a time to live in seconds. That
-- `RRs` goes over the three sections is the dns library's. Seconds
-- beyond what 32 bits can count wrap around.
use chrome.Base.{
  ℕ, ◌+◌, ◌-◌, ◌*◌, ◌%◌, ◌^◌, Bool, true, false, ◌&&◌, ◌||◌, ◌==◌, ltb, List, [], ◌∷◌, ◌++◌, map,
  Option, none, some, if◌then◌else◌, min,
}
use chrome.Base.Int.{ℤ, pos, pos_part, ltb_ℤ}
use chrome.Base.Text.{Text, same_text}
use chrome.Conn.Options.{second}
use chrome.Dnstun.Seconds.{ceil_seconds}

-- An A or AAAA record has an address, or an invalid one; other records are not looked into.
pub data Rdata : Type 0 where
  a aaaa : Option ℕ → Rdata
  other : Rdata

pub record Rr : Type 0 where
  pub name : Text
  pub ttl : ℕ
  pub rdata : Rdata

pub record Message : Type 0 where
  pub question : Text
  pub answer : List Rr
  pub ns : List Rr
  pub extra : List Rr

abbrev pub all_rrs : Message → List Rr
all_rrs m = m.answer ++ (m.ns ++ m.extra)

pub record TtlOptions : Type 0 where
  pub ttl_min : ℤ
  pub ttl_max : ℤ
  pub ipv4_only : Bool

abbrev pub max_uint32 : ℕ
max_uint32 = 2 ^ 32 - 1

abbrev pub raise_to : ℤ → ℕ → ℕ
raise_to lo t = if ltb_ℤ (pos 0) lo && ltb t (pos_part lo) then pos_part lo else t

abbrev pub lower_to : ℤ → ℕ → ℕ
lower_to hi t = if ltb_ℤ (pos 0) hi && ltb (pos_part hi) t then pos_part hi else t

unfoldable pub clamp_ttl : TtlOptions → ℕ → ℕ
clamp_ttl opts ttl =
    let t = lower_to opts.ttl_max (raise_to opts.ttl_min (ttl * second)) in
    if t == ttl * second then ttl else ceil_seconds t % 2 ^ 32

-- The name that was asked for takes the place of the one that it was redirected to.
unfoldable pub rewrite_rr : TtlOptions → Text → Text → Rr → Rr
unfolding clamp_ttl
rewrite_rr opts z fqdn rr = record rr {
  name = if same_text rr.name z then fqdn else rr.name;
  ttl = clamp_ttl opts rr.ttl;
}

unfoldable pub min_ttl : List Rr → ℕ
min_ttl [] = max_uint32
min_ttl (rr ∷ rrs) = min rr.ttl (min_ttl rrs)

abbrev pub add_ip : Option ℕ → List ℕ → List ℕ
add_ip none ips = ips
add_ip (some ip) ips = ip ∷ ips

abbrev pub ip_of : Bool → Rdata → Option ℕ
ip_of ipv4_only (a ip) = ip
ip_of ipv4_only (aaaa ip) = if ipv4_only then none else ip
ip_of ipv4_only other = none

unfoldable pub ip_list : Bool → List Rr → List ℕ
ip_list ipv4_only [] = []
ip_list ipv4_only (rr ∷ rrs) = add_ip (ip_of ipv4_only rr.rdata) (ip_list ipv4_only rrs)

abbrev pub is_aaaa : Rdata → Bool
is_aaaa (a ip) = false
is_aaaa (aaaa ip) = true
is_aaaa other = false

unfoldable pub has_aaaa : List Rr → Bool
has_aaaa [] = false
has_aaaa (rr ∷ rrs) = is_aaaa rr.rdata || has_aaaa rrs

-- `slices.DeleteFunc`
unfoldable pub delete_aaaa : List Rr → List Rr
delete_aaaa [] = []
delete_aaaa (rr ∷ rrs) = let rest = delete_aaaa rrs in if is_aaaa rr.rdata then rest else rr ∷ rest

-- `deadline` is `none` for the zero time.
pub record Result : Type 0 where
  pub message : Message
  pub ips : List ℕ
  pub time : ℕ
  pub deadline : Option ℕ

abbrev pub rewritten : TtlOptions → Text → Text → Message → Message
rewritten opts z fqdn m = record {
  question = fqdn;
  answer = map (rewrite_rr opts z fqdn) m.answer;
  ns = map (rewrite_rr opts z fqdn) m.ns;
  extra = map (rewrite_rr opts z fqdn) m.extra;
}

abbrev pub without_aaaa : Bool → Message → Message
without_aaaa ipv4_only m =
    if ipv4_only && has_aaaa (all_rrs m) then record m { answer = delete_aaaa m.answer } else m

-- The name `z` is the one that was sent to the server, and `fqdn` the one that was asked for.
unfoldable pub read_answer : TtlOptions → Text → Text → ℕ → Message → Result
unfolding rewrite_rr min_ttl ip_list has_aaaa delete_aaaa
read_answer opts z fqdn now m =
    let m' = rewritten opts z fqdn m in
    let least = min_ttl (all_rrs m') in
    record {
      message = without_aaaa opts.ipv4_only m';
      ips = ip_list opts.ipv4_only (all_rrs m');
      time = now;
      deadline = if ltb least max_uint32 then some (now + least * second) else none;
    }
