-- ===== src/WiringAdmin/Server/Retries.antt =====
-- Where the web server runs after its tries.
use native.Mathlib.Numerals.{unary_clauses}
use node_wiring_secure.Base.{
  ℕ, zero, suc, ◌+◌, ◌*◌, ◌/◌, ◌%◌, ◌^◌, ◌<◌, ◌≤◌, Bool, true, false, CString, codes, [], ◌∷◌, ◌++◌,
  Option, some, take, take-length, ltb, leb, ◌&&◌, length, digits_from, Bool-cases, ◌≡◌, ◌⊎◌, inl,
  inr, refl, ap, subst, sym, ◌∙◌, arith,
}
use node_wiring_secure.WiringAdmin.{secure_port}
use node_wiring_secure.WiringAdmin.Server.{
  number, current, next_port, start_from, start_webserver, address, max_number_of_restarts,
}

-- A port as it is written.
abbrev pub decimal : ℕ → CString
decimal n = digits_from 10 n []

number-digit :
    (m d : ℕ) (rest : CString) → d < 10 → number m ((48 + d) ∷ rest) ≡ number (m * 10 + d) rest
unfolding number
number-digit m d rest small =
    let is_digit : (leb 48 (48 + d) && leb (48 + d) 57) ≡ true = ground (arith, small) in
    rw is_digit (ap (λ k. number k rest) (omega arith))

below_power : (n p : ℕ) → n < p * 10 → n / 10 < p
below_power n p h = omega (arith, h)

power_suc : (k : ℕ) → 10 ^ suc k ≡ 10 ^ k * 10
power_suc k = simp unary_clauses refl

number-digits :
    (fuel n : ℕ) (rest : CString)
    → n < 10 ^ fuel
    → number 0 (digits_from fuel n rest) ≡ number n rest
unfolding number digits_from
number-digits zero n rest small = ap (λ m. number m rest) (omega (arith, small))
number-digits (suc fuel) n rest small = elim (Bool-cases (ltb n 10)) [
  | inl digit ↦
      rw digit
        (number-digit 0 n rest (ground (arith, digit)) ∙ ap (λ k. number k rest) (omega arith))
  | inr more ↦ rw more (
      number-digits fuel (n / 10) ((48 + n % 10) ∷ rest)
        (below_power n (10 ^ fuel) (subst (λ p. n < p) (power_suc fuel) small))
      ∙ number-digit (n / 10) (n % 10) rest (omega arith)
      ∙ ap (λ k. number k rest) (omega arith))
]

length-digits :
    (fuel k n : ℕ) (rest : CString)
    → n < 10 ^ suc k
    → length (digits_from fuel n rest) ≤ suc k + length rest
unfolding digits_from
length-digits zero k n rest small = omega arith
length-digits (suc fuel) zero n rest small =
    let digit : ltb n 10 ≡ true = ground (arith, small) in rw digit (omega arith)
length-digits (suc fuel) (suc k) n rest small = elim (Bool-cases (ltb n 10)) [
  | inl digit ↦ rw digit (omega arith)
  | inr more ↦ rw more (
      omega (
        arith,
        length-digits fuel k (n / 10) ((48 + n % 10) ∷ rest)
            (below_power n (10 ^ suc k) (subst (λ p. n < p) (power_suc (suc k)) small)),
      ))
]

number-end : (n : ℕ) → number n [] ≡ some n
unfolding number
number-end n = refl

-- The port after one below 99999.
next_port_lem : (n : ℕ) → n + 1 < 100000 → next_port (decimal n) ≡ decimal (n + 1)
unfolding next_port
next_port_lem n small =
    ap (λ m. take 5 (decimal (current m + 1)))
      (number-digits 10 n [] (omega (arith, small)) ∙ number-end n)
    ∙ take-length 5 (decimal (n + 1))
        (omega (arith, length-digits 10 4 (n + 1) [] (omega (arith, small))))

-- The server has refused so many ports from this one on.
abbrev pub Refused : (CString → Bool) → ℕ → ℕ → Type 0
Refused starts zero n = Unit
Refused starts (suc i) n = (starts (secure_port (decimal n)) ≡ false) × Refused starts i (n + 1)

-- The first try that succeeds, or none.
abbrev pub Started : (CString → Bool) → ℕ → ℕ → Bool × CString → Type 0
Started starts tries n r =
    ((i : ℕ) × (i < tries)
      × (r ≡ (true, decimal (n + i)))
      × (starts (secure_port (decimal (n + i))) ≡ true)
      × Refused starts i n)
    ⊎ ((r ≡ (false, decimal (n + tries))) × Refused starts tries n)

start_from-Started :
    (starts : CString → Bool) (tries n : ℕ)
    → n + tries < 100000
    → Started starts tries n (start_from starts tries (decimal n))
unfolding start_from
start_from-Started starts zero n small = inr (ap (λ m. (false, decimal m)) (omega arith), tt)
start_from-Started starts (suc tries) n small =
    let plus_zero : n ≡ n + 0 = omega arith in
    elim (Bool-cases (starts (secure_port (decimal n)))) [
      | inl good ↦ inl (
        0,
        omega arith,
        rw good (ap (λ m. (true, decimal m)) plus_zero),
        ap (λ m. starts (secure_port (decimal m))) (sym plus_zero) ∙ good,
        tt,
      )
      | inr bad ↦
          let step : start_from starts (suc tries) (decimal n)
              ≡ start_from starts tries (decimal (n + 1)) =
            rw bad (ap (start_from starts tries) (next_port_lem n (omega (arith, small)))) in
          subst (Started starts (suc tries) n) (sym step)
            (later (start_from-Started starts tries (n + 1) (omega (arith, small))) bad)
    ]
  where
    move : (i : ℕ) → n + 1 + i ≡ n + suc i
    move i = omega arith

    later :
        {r : Bool × CString}
        → Started starts tries (n + 1) r
        → starts (secure_port (decimal n)) ≡ false
        → Started starts (suc tries) n r
    later (inl (i, less, ran, good, before)) bad = inl (
      suc i,
      omega (arith, less),
      ran ∙ ap (λ m. (true, decimal m)) (move i),
      ap (λ m. starts (secure_port (decimal m))) (sym (move i)) ∙ good,
      (bad, before),
    )
    later (inr (ran, before)) bad =
        inr (ran ∙ ap (λ m. (false, decimal m)) (move tries), (bad, before))

abbrev pub url_of : Option CString → CString → CString
url_of ip port = take 127 (codes "https://" ++ (address ip ++ (58 ∷ port)))

-- Where the certificates are there and the port is a decimal number of which the next five have five
-- digits at most, the start returns. Either the server runs at the first of this port and the four
-- numbers after it that it accepts, and the url names this port; or it has refused all five, no server
-- runs, and the url names the next number, which has not been tried.
pub start_webserver-tries :
    (starts : CString → Bool) (ip : Option CString) (n : ℕ)
    → n + 5 < 100000
    → ((i : ℕ) × (i < 5)
        × Refused starts i n
        × (starts (secure_port (decimal (n + i))) ≡ true)
        × (start_webserver starts true ip (decimal n) ≡ some (true, url_of ip (decimal (n + i)))))
      ⊎ (Refused starts 5 n
          × (start_webserver starts true ip (decimal n)
              ≡ some (false, url_of ip (decimal (n + 5)))))
unfolding start_webserver
start_webserver-tries starts ip n small =
    let named : Bool × CString → Option (Bool × CString) =
      λ (runs, last). some (runs, url_of ip last) in
    elim (start_from-Started starts max_number_of_restarts n small) [
      | inl (i, less, ran, good, before) ↦ inl (i, less, before, good, ap named ran)
      | inr (ran, before) ↦ inr (before, ap named ran)
    ]
