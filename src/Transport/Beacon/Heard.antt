-- ===== src/Transport/Beacon/Heard.antt =====
-- Who the beacons of UdpBeacon (src/transport.cpp) make known.
use rin_windows.Base.{
  Str, lit, str_eq, str_eq_self, is_empty, ℤ, IsInt, Bool-cases, true, false, none, some, [], ◌∷◌,
  ◌≡◌, inl, inr, refl, ok, arith, if◌then◌else◌,
}
use rin_windows.Protocol.Json.{JsonLib, JsonLaws, assign}
use rin_windows.Protocol.Json.Laws.{
  find-assign, object-assign, AreClean, clean-assign, value_text_found, value_int_found,
}
use rin_windows.Device.{DiscoveredPeer}
use rin_windows.World.{World}
use rin_windows.Transport.Beacon.{
  UdpBeacon, beacon_fields, beacon_payload, peer_of_beacon, read_beacon, report, listen_step,
}

-- The peer that others should see.
abbrev pub announced : Str → UdpBeacon → DiscoveredPeer
announced ip b = record {
  mesh_name = b.mesh_name;
  public_key = b.public_key;
  device_name = b.device_name;
  ip = ip;
  port = b.tcp_port;
}

module _ (J : JsonLib) where
  open J use {is_utf8}

  pub record IsSendableBeacon (b : UdpBeacon) : Type 0 where
    pub mesh_name : is_utf8 b.mesh_name ≡ true
    pub public_key : is_utf8 b.public_key ≡ true
    pub device_name : is_utf8 b.device_name ≡ true
    pub port : IsInt b.tcp_port
    pub keyed : is_empty b.public_key ≡ false

module _ (J : JsonLib) (L : JsonLaws J) where
  open J use {Json, fresh, text, number, find}

  module _ (now : ℤ) (b : UdpBeacon) where
    abbrev beacon_written : Json
    beacon_written = assign J fresh (beacon_fields J now b)

    beacon_object : J.is_object beacon_written ≡ true
    unfolding beacon_fields
    beacon_object = object-assign J L _ _ _

    beacon-AreClean : IsSendableBeacon J b → AreClean J (beacon_fields J now b)
    unfolding beacon_fields lit
    beacon-AreClean s = (
      L.utf8-ascii _ (omega arith),
      L.clean-text _ (L.utf8-ascii _ (omega arith)),
      (
        L.utf8-ascii _ (omega arith),
        L.clean-text _ s.mesh_name,
        (
          L.utf8-ascii _ (omega arith),
          L.clean-text _ s.public_key,
          (
            L.utf8-ascii _ (omega arith),
            L.clean-text _ s.device_name,
            (
              L.utf8-ascii _ (omega arith),
              L.clean-number _,
              (L.utf8-ascii _ (omega arith), L.clean-number _, tt),
            ),
          ),
        ),
      ),
    )

    beacon_members :
        (find beacon_written (lit "magic") ≡ some (text (lit "RIN_BEACON")))
        × (find beacon_written (lit "mesh") ≡ some (text b.mesh_name))
        × (find beacon_written (lit "key") ≡ some (text b.public_key))
        × (find beacon_written (lit "name") ≡ some (text b.device_name))
        × (find beacon_written (lit "port") ≡ some (number b.tcp_port))
    unfolding beacon_fields str_eq lit
    beacon_members = (
      find-assign J L _ _,
      find-assign J L _ _,
      find-assign J L _ _,
      find-assign J L _ _,
      find-assign J L _ _,
    )

    peer_of_beacon_lem :
        (own ip : Str)
        → IsSendableBeacon J b
        → peer_of_beacon J own ip beacon_written
          ≡ ok (if str_eq b.public_key own then none else some (announced ip b))
    unfolding peer_of_beacon
    peer_of_beacon_lem own ip s =
        let (magic, mesh, key, name, port) = beacon_members in
        rw
          (
            value_text_found J L _ _ beacon_object _ _ mesh,
            value_text_found J L _ _ beacon_object _ _ key,
            value_text_found J L _ _ beacon_object _ _ name,
            value_int_found J L _ _ beacon_object _ _ s.port port,
            s.keyed,
          )
          (elim (Bool-cases (str_eq b.public_key own)) [ inl e ↦ rw e | inr e ↦ rw e ])

    read_beacon_lem :
        (own ip line : Str)
        → IsSendableBeacon J b
        → J.parse line ≡ some beacon_written
        → read_beacon J own ip line
          ≡ ok (if str_eq b.public_key own then none else some (announced ip b))
    unfolding read_beacon
    read_beacon_lem own ip line s parsed =
        rw
          (
            parsed,
            value_text_found J L _ _ beacon_object _ _ beacon_members.0,
            str_eq_self (lit "RIN_BEACON"),
          )
          (peer_of_beacon_lem own ip s)

  parsed-filled : (line : Str) (j : Json) → J.parse line ≡ some j → is_empty line ≡ false
  parsed-filled [] j h = absurd (cc (L.parse-empty, h))
  parsed-filled (c ∷ line) j h = refl

  -- A device whose texts are UTF-8, whose port fits an int and whose key is not empty sends a
  -- beacon, and another device that receives it whole reports that device, at the address it came
  -- from; a device with the same key ignores it.
  pub beacon_heard :
      (on_peer : DiscoveredPeer → World → World) (now : ℤ) (b : UdpBeacon) (own ip : Str)
      (w : World)
      → IsSendableBeacon J b
      → (line : Str) × (beacon_payload J now b ≡ some line)
        × (listen_step J on_peer own (some (line, ip)) w
            ≡ (if str_eq b.public_key own then w else on_peer (announced ip b) w))
  unfolding beacon_payload listen_step report
  beacon_heard on_peer now b own ip w s =
      let (line, dumped) = L.dump-clean _ (clean-assign J L _ (beacon-AreClean now b s)) in
      let parsed = L.parse-dump _ _ dumped in
      (
        line,
        dumped,
        rw (parsed-filled line _ parsed, read_beacon_lem now b own ip line s parsed)
            (elim (Bool-cases (str_eq b.public_key own)) [ inl e ↦ rw e | inr e ↦ rw e ]),
      )
