-- ===== src/Dnstun/Rounding.antt =====
-- dnstun.go: the two roundings of `math.Ceil(ttl.Seconds())` do not show below 2 ^ 24 seconds.
use native.Mathlib.Nat.{
  le-div_iff_mul-le, div-le_of_le-mul, div-add-mod, div-eq_of_lt-le, div-eq_of_lt, mul_comm,
  mul_assoc, mul-le-mul_right, one-le-pow, pow-le-pow_right, pow-suc, add-mul,
}
use chrome.Base.{
  ℕ, zero, suc, ◌+◌, ◌-◌, ◌*◌, ◌/◌, ◌%◌, ◌^◌, ◌<◌, ◌≤◌, ◌≡◌, sym, ap, ◌∙◌, ◌⊎◌, inl, inr,
  Bool-cases, ◌==◌, ==_iff, arith,
}
use chrome.Base.Bits.{pow_split}
use chrome.Conn.Options.{second}
use chrome.Dnstun.Seconds.{
  round_even, doublings, log_two, divide, add_whole, ceil_float, ceil_seconds,
}

le_of_lt : (n : ℕ) → n < second → n ≤ second
le_of_lt n h = omega arith

le_cases : (a b : ℕ) → a ≤ b → (a < b) ⊎ (a ≡ b)
le_cases a b h = ground arith

round_even-le : (n d b : ℕ) → 0 < d → n ≤ b * d → round_even n d ≤ b
unfolding round_even
round_even-le n d b p h =
    let below : n / d ≤ b = div-le_of_le-mul d (omega (arith, h, mul_comm b d)) in
    let whole = div-add-mod n d in
    elim (le_cases (n / d) b below) [
      | inl less ↦ ground (arith, less)
      | inr same ↦
          let none_left : n % d ≡ 0 = omega (arith, whole, h, mul_comm b d, ap (λ q. d * q) same) in
          ground (arith, none_left, same, p)
    ]

lt-round_even : (n d a : ℕ) → 0 < d → (2 * a + 1) * d < 2 * n → a < round_even n d
unfolding round_even
lt-round_even n d a p h =
    let twice : (2 * a + 1) * d ≡ 2 * (a * d) + d =
      omega (arith, add-mul (2 * a) 1 d, mul_assoc 2 a d) in
    let above : a ≤ n / d = (le-div_iff_mul-le p).1 (omega (arith, h, twice)) in
    let whole = div-add-mod n d in
    elim (le_cases a (n / d) above) [
      | inl less ↦ ground (arith, less)
      | inr same ↦
          let left : d < 2 * (n % d) =
            omega (arith, whole, h, twice, mul_comm a d, ap (λ q. d * q) same) in
          ground (arith, left, same)
    ]

-- The sum of `sec` and a number above half of the last digit, up to 1, in units `E` of a second,
-- is above `sec` and at most one more.
between :
    (sec m E F Y : ℕ)
    → E * F ≡ Y
    → 0 < F
    → F < 2 * m
    → m ≤ Y
    → (sec * E < round_even (sec * Y + m) F) × (round_even (sec * Y + m) F ≤ sec * E + E)
between sec m E F Y e p small big =
    let w : sec * E * F ≡ sec * Y = mul_assoc sec E F ∙ ap (λ y. sec * y) e in
    (
      lt-round_even (sec * Y + m) F (sec * E) p
          (omega (arith, add-mul (2 * (sec * E)) 1 F, mul_assoc 2 (sec * E) F, w, small)),
      round_even-le (sec * Y + m) F (sec * E + E) p
          (omega (arith, add-mul (sec * E) E F, w, e, big)),
    )

ceil_between : (sec r E : ℕ) → 0 < E → sec * E < r → r ≤ sec * E + E → (r + (E - 1)) / E ≡ suc sec
ceil_between sec r E p h k =
    div-eq_of_lt-le E (omega (arith, add-mul sec 1 E, h))
      (omega (arith, add-mul sec 1 E, add-mul (sec + 1) 1 E, k, p))

le-round_even : (n d a : ℕ) → 0 < d → a * d ≤ n → a ≤ round_even n d
unfolding round_even
le-round_even n d a p h = let above : a ≤ n / d = (le-div_iff_mul-le p).1 h in ground (arith, above)

log_two-le : (fuel n b : ℕ) → n < 2 ^ suc b → log_two fuel n ≤ b
unfolding log_two
log_two-le zero n b h = omega arith
log_two-le (suc fuel) n zero h = ground (arith, h)
log_two-le (suc fuel) n (suc b) h =
    let rest = log_two-le fuel (n / 2) b (omega (arith, h, pow-suc 2 (suc b))) in
    ground (arith, rest)

nothing_left : (nsec k : ℕ) → nsec ≡ 0 → round_even (nsec * 2 ^ (52 + k)) second ≡ 0
nothing_left nsec k z =
    let le =
      round_even-le (nsec * 2 ^ (52 + k)) second 0 (omega arith)
        (omega (arith, ap (λ q. q * 2 ^ (52 + k)) z)) in
    omega (arith, le)

-- The rounded quotient of some nanoseconds.
module _ (nsec : ℕ) (some_left : 0 < nsec) (k : ℕ) where
  quotient-le : nsec < second → round_even (nsec * 2 ^ (52 + k)) second ≤ 2 ^ (52 + k)
  quotient-le h = round_even-le (nsec * 2 ^ (52 + k)) second (2 ^ (52 + k)) (omega arith) (
      omega
        (arith, mul-le-mul_right (2 ^ (52 + k)) (le_of_lt nsec h), mul_comm second (2 ^ (52 + k))))

  lt-quotient : 2 ^ (22 + k) < round_even (nsec * 2 ^ (52 + k)) second
  lt-quotient =
      let y : 2 ^ (52 + k) ≡ 2 ^ 30 * 2 ^ (22 + k) =
        ap (λ i. 2 ^ i) (split k) ∙ pow_split 30 (22 + k) in
      let x : 2 ^ 22 ≤ 2 ^ (22 + k) =
        pow-le-pow_right {n = 2} (omega arith) {i = 22} (omega arith) in
      let n : 1 * 2 ^ (52 + k) ≤ nsec * 2 ^ (52 + k) = mul-le-mul_right (2 ^ (52 + k)) some_left in
      lt-round_even (nsec * 2 ^ (52 + k)) second (2 ^ (22 + k)) (omega arith)
        (omega (arith, x, y, n))
    where
      split : (k : ℕ) → 52 + k ≡ 30 + (22 + k)
      split k = omega arith

-- The units that the sum of `sec` seconds and a quotient with the scale `52 + k` is counted in.
module _ (sec : ℕ) (small : sec < 2 ^ 24) (k : ℕ) where
  l_of : log_two 34 sec ≤ 23
  l_of = log_two-le 34 sec 23 small

  units : 2 ^ (52 - log_two 34 sec) * 2 ^ (52 + k - (52 - log_two 34 sec)) ≡ 2 ^ (52 + k)
  units =
      let l = log_two 34 sec in
      let e : 52 - l + (52 + k - (52 - l)) ≡ 52 + k = omega (arith, l_of) in
      sym (pow_split (52 - l) (52 + k - (52 - l))) ∙ ap (λ i. 2 ^ i) e

  unit-le : 2 ^ (52 + k - (52 - log_two 34 sec)) ≤ 2 * 2 ^ (22 + k)
  unit-le =
      let l = log_two 34 sec in
      let e : 52 + k - (52 - l) ≤ suc (22 + k) = omega (arith, l_of) in
      omega (
        arith,
        pow-suc 2 (22 + k),
        pow-le-pow_right {n = 2} (omega arith) {i = 52 + k - (52 - l)} e,
      )

  ceil_some :
      (m : ℕ)
      → 2 ^ (22 + k) < m
      → m ≤ 2 ^ (52 + k)
      → ceil_float (add_whole sec record { mantissa = m; scale = 52 + k }) ≡ suc sec
  unfolding add_whole
  ceil_some m h b = elim (Bool-cases (sec == 0)) [
    | inl zero_sec ↦
        let z : sec ≡ 0 = (==_iff sec 0).0 zero_sec in
        let p : 1 ≤ 2 ^ (52 + k) = one-le-pow (52 + k) 2 (omega arith) in
        rw zero_sec
          (ceil_between 0 m (2 ^ (52 + k)) p (omega (arith, h)) (omega (arith, b)) ∙ ap suc (sym z))
    | inr other ↦
        let E = 2 ^ (52 - log_two 34 sec) in
        let F = 2 ^ (52 + k - (52 - log_two 34 sec)) in
        let r =
          between sec m E F (2 ^ (52 + k)) units (one-le-pow _ 2 (omega arith))
            (omega (arith, unit-le, h)) b in
        rw other (
          ceil_between sec (round_even (sec * 2 ^ (52 + k) + m) F) E (one-le-pow _ 2 (omega arith))
            r.0 r.1)
  ]

  ceil_none : ceil_float (add_whole sec record { mantissa = 0; scale = 52 + k }) ≡ sec
  unfolding add_whole
  ceil_none = elim (Bool-cases (sec == 0)) [
    | inl zero_sec ↦
        let z : sec ≡ 0 = (==_iff sec 0).0 zero_sec in
        let p : 1 ≤ 2 ^ (52 + k) = one-le-pow (52 + k) 2 (omega arith) in
        rw zero_sec (div-eq_of_lt (omega (arith, p)) ∙ sym z)
    | inr other ↦
        let E = 2 ^ (52 - log_two 34 sec) in
        let F = 2 ^ (52 + k - (52 - log_two 34 sec)) in
        let Y = 2 ^ (52 + k) in
        let e : 1 ≤ E = one-le-pow _ 2 (omega arith) in
        let f : 1 ≤ F = one-le-pow _ 2 (omega arith) in
        let w : sec * E * F ≡ sec * Y = mul_assoc sec E F ∙ ap (λ y. sec * y) units in
        let low = le-round_even (sec * Y + 0) F (sec * E) f (omega (arith, w)) in
        let high = round_even-le (sec * Y + 0) F (sec * E) f (omega (arith, w)) in
        rw other (div-eq_of_lt-le E (omega (arith, low)) (omega (arith, add-mul sec 1 E, high, e)))
  ]

-- Below 2 ^ 24 seconds, the rounding does not show.
pub ceil_seconds-exact :
    (t : ℕ) → t < 2 ^ 24 * second → ceil_seconds t ≡ (t + (second - 1)) / second
unfolding ceil_seconds divide
ceil_seconds-exact t h =
    let sec = t / second in
    let nsec = t % second in
    let k = doublings 30 nsec in
    elim (Bool-cases (nsec == 0)) [
      | inl whole ↦
          let z : nsec ≡ 0 = (==_iff nsec 0).0 whole in
          let m : round_even (nsec * 2 ^ (52 + k)) second ≡ 0 = nothing_left nsec k z in
          rw m (ceil_none sec (omega (arith, h)) k ∙ omega (arith, z))
      | inr some_left ↦
          let p : 0 < nsec = ground (arith, some_left) in
          ceil_some sec (omega (arith, h)) k (round_even (nsec * 2 ^ (52 + k)) second)
            (lt-quotient nsec p k) (quotient-le nsec p k (omega arith))
          ∙ omega (arith, p)
    ]
