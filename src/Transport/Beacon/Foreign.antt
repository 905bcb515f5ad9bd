-- ===== src/Transport/Beacon/Foreign.antt =====
-- Which datagrams UdpBeacon::listen_loop (src/transport.cpp) reports.
use rin_windows.Base.{
  Str, lit, str_eq, str_eq_iff, is_empty, pos, Bool-cases, false, ◌&&◌, not, Option, none, some, [],
  ◌≡◌, ◌⊎◌, inl, inr, ◌≢◌, refl, ok, err, Result, caught, or_throw, json_exception, ◌>>=◌, arith,
  if◌then◌else◌,
}
use rin_windows.Protocol.Json.{JsonLib, value_text, value_int}
use rin_windows.Device.{DiscoveredPeer, default_tcp_port}
use rin_windows.World.{World}
use rin_windows.Transport.Beacon.{peer_of_beacon, read_beacon, report, listen_step}

-- A peer with a key that is not ours, at the address.
abbrev pub IsForeign : Str → Str → DiscoveredPeer → Type 0
IsForeign own ip peer =
    (is_empty peer.public_key ≡ false) × (peer.public_key ≢ own) × (peer.ip ≡ ip)

abbrev Finds : Str → Str → Result (Option DiscoveredPeer) → Type 0
Finds own ip (ok (some peer)) = IsForeign own ip peer
Finds own ip (ok none) = Unit
Finds own ip (err e) = Unit

-- `Finds` as a record, whose parameters can be inferred.
record FindsForeign (own ip : Str) (r : Result (Option DiscoveredPeer)) : Type 0 where
  finds : Finds own ip r

module _ (own ip : Str) where
  bind-FindsForeign {ℓ} :
      {A : Type ℓ} (x : Result A) (f : A → Result (Option DiscoveredPeer))
      → ((a : A) → FindsForeign own ip (f a))
      → FindsForeign own ip (x >>= f)
  bind-FindsForeign (ok a) f h = h a
  bind-FindsForeign (err e) f h = record { finds = tt }

  guard-FindsForeign :
      (peer : DiscoveredPeer)
      → peer.ip ≡ ip
      → FindsForeign own ip (
          ok (
            if not (is_empty peer.public_key) && not (str_eq peer.public_key own)
            then some peer
            else none))
  guard-FindsForeign peer here = elim (Bool-cases (is_empty peer.public_key)) [
    | inl e ↦ rw e (record { finds = tt })
    | inr e ↦ elim (Bool-cases (str_eq peer.public_key own)) [
      | inl same ↦ rw (e, same) (record { finds = tt })
      | inr other ↦
          rw (e, other)
            (record { finds = (e, ground (arith, str_eq_iff peer.public_key own), here) })
    ]
  ]

  module _ (J : JsonLib) where
    peer_of_beacon-FindsForeign : (j : J.Json) → FindsForeign own ip (peer_of_beacon J own ip j)
    unfolding peer_of_beacon
    peer_of_beacon-FindsForeign j = bind-FindsForeign (value_text J j (lit "mesh") []) _ λ mesh.
        bind-FindsForeign (value_text J j (lit "key") []) _ λ key.
          bind-FindsForeign (value_text J j (lit "name") []) _ λ name.
            bind-FindsForeign (value_int J j (lit "port") (pos default_tcp_port)) _
              λ port. guard-FindsForeign _ refl

    read_beacon-FindsForeign : (message : Str) → FindsForeign own ip (read_beacon J own ip message)
    unfolding read_beacon
    read_beacon-FindsForeign message =
        bind-FindsForeign (or_throw (J.parse message) json_exception) _ λ j.
          bind-FindsForeign (value_text J j (lit "magic") []) _ λ magic.
            elim (Bool-cases (str_eq magic (lit "RIN_BEACON"))) [
              | inl e ↦ rw e (peer_of_beacon-FindsForeign j)
              | inr e ↦ rw e (record { finds = tt })
            ]

    -- One round of the listening loop either leaves the device as it is, or reports to the mesh one
    -- peer, at the address the datagram came from, whose key is neither empty nor the device's own.
    pub listen_step-Foreign :
        (on_peer : DiscoveredPeer → World → World) (message : Str) (w : World)
        → (listen_step J on_peer own (some (message, ip)) w ≡ w)
          ⊎ ((peer : DiscoveredPeer) × (listen_step J on_peer own (some (message, ip)) w
                ≡ on_peer peer w)
              × IsForeign own ip peer)
    unfolding listen_step report
    listen_step-Foreign on_peer message w = elim (Bool-cases (is_empty message)) [
      | inl e ↦ inl (rw e)
      | inr e ↦ rw e (reported _ (read_beacon-FindsForeign message).finds)
    ]
      where
        reported :
            (r : Result (Option DiscoveredPeer))
            → Finds own ip r
            → (report J on_peer (caught r) w ≡ w)
              ⊎ ((peer : DiscoveredPeer) × (report J on_peer (caught r) w ≡ on_peer peer w)
                  × IsForeign own ip peer)
        reported (ok (some peer)) h = inr (peer, refl, h)
        reported (ok none) h = inl refl
        reported (err e) h = inl refl
