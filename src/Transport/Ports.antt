-- ===== src/Transport/Ports.antt =====
-- The port that TcpTransport::start listens on (src/transport.cpp).
use rin_windows.Base.{
  ℕ, zero, suc, ◌+◌, ◌≤◌, ◌<◌, ◌≡◌, ◌⊎◌, inl, inr, refl, ap, ◌∙◌, Bool, true, false, Bool-cases,
  none, some, Exn, dec_lt, ok, err, arith,
}
use rin_windows.Device.{default_tcp_port, tcp_port_scan_attempts}
use rin_windows.Transport.{scan_ports, no_port, listening, start_tcp}

-- p is the first port from `port` on that is free, among so many.
abbrev IsFirstFree : (ℕ → Bool) → ℕ → ℕ → ℕ → Type 0
IsFirstFree bind port attempts p =
    (port ≤ p)
    × (p < port + attempts)
    × (bind p ≡ true)
    × ((q : ℕ) → port ≤ q → q < p → bind q ≡ false)

abbrev AllTaken : (ℕ → Bool) → ℕ → ℕ → Type 0
AllTaken bind port attempts = (q : ℕ) → port ≤ q → q < port + attempts → bind q ≡ false

taken_below :
    (bind : ℕ → Bool) (port p : ℕ)
    → bind port ≡ false
    → ((q : ℕ) → port + 1 ≤ q → q < p → bind q ≡ false)
    → (q : ℕ) → port ≤ q
    → q < p
    → bind q ≡ false
taken_below bind port p taken h q low high = elim (dec_lt port q) [
  | yes later ↦ h q (omega arith) high
  | no same ↦ ap bind (omega arith) ∙ taken
]

scan_ports_lem :
    (bind : ℕ → Bool) (attempts port : ℕ)
    → ((p : ℕ) × (scan_ports bind attempts port ≡ some p) × IsFirstFree bind port attempts p)
      ⊎ ((scan_ports bind attempts port ≡ none) × AllTaken bind port attempts)
unfolding scan_ports
scan_ports_lem bind zero port = inr (refl, λ q a b. absurd (omega arith))
scan_ports_lem bind (suc attempts) port = elim (Bool-cases (bind port)) [
  | inl free ↦ inl (port, rw free, (omega arith, omega arith, free, λ q a b. absurd (omega arith)))
  | inr taken ↦ elim (scan_ports_lem bind attempts (port + 1)) [
    | inl (p, found, (low, high, free, below)) ↦
        inl
          (p, rw taken found, (omega arith, omega arith, free, taken_below bind port p taken below))
    | inr (out, all) ↦ inr (
      rw taken out,
      taken_below bind port (port + suc attempts) taken (λ q a b. all q a (omega arith)),
    )
  ]
]

-- The TCP server listens on the first of the ports 45990 to 45994 that can be bound, and throws
-- only when none of the five can.
pub start_tcp_lem :
    (bind : ℕ → Bool)
    → ((p : ℕ) × (start_tcp bind ≡ ok p)
        × (45990 ≤ p)
        × (p < 45995)
        × (bind p ≡ true)
        × ((q : ℕ) → 45990 ≤ q → q < p → bind q ≡ false))
      ⊎ ((e : Exn) × (start_tcp bind ≡ err e) × ((q : ℕ) → 45990 ≤ q → q < 45995 → bind q ≡ false))
unfolding start_tcp listening
start_tcp_lem bind = elim (scan_ports_lem bind tcp_port_scan_attempts default_tcp_port) [
  | inl (p, found, (low, high, free, below)) ↦ inl (p, rw found, low, high, free, below)
  | inr (out, all) ↦ inr (no_port, rw out, all)
]
