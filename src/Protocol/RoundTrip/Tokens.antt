-- ===== src/Protocol/RoundTrip/Tokens.antt =====
-- A join token that can be sent is read back as it was.
use rin_windows.Base.{
  Str, lit, str_eq, str_eq_self, ℤ, IsInt, IsInt64, true, false, Option, none, some, ◌≡◌, refl, ◌∙◌,
  arith,
}
use rin_windows.Protocol.{QrJoinToken}
use rin_windows.Protocol.Json.{JsonLib, JsonLaws, assign, when_some}
use rin_windows.Protocol.Json.Laws.{
  assigned, find-assign, object-assign, AreClean, clean-assign, IsOptionalUtf8, at_text_found,
  value_int64_found, value_int_found, optional_text_found, when_some-AreClean, assigned-when_some,
}
use rin_windows.Protocol.Payloads.{token_fields, token_to_json, token_from_json}

module _ (J : JsonLib) where
  open J use {is_utf8}

  pub record IsSendableToken (t : QrJoinToken) : Type 0 where
    pub mesh_name : is_utf8 t.mesh_name ≡ true
    pub host_public_key : is_utf8 t.host_public_key ≡ true
    pub host_device_name : is_utf8 t.host_device_name ≡ true
    pub ephemeral_token : is_utf8 t.ephemeral_token ≡ true
    pub mesh_secret : IsOptionalUtf8 J t.mesh_secret
    pub host_port : IsInt t.host_port
    pub host_ip : IsOptionalUtf8 J t.host_ip
    pub timestamp : IsInt64 t.timestamp_ms

module _ (J : JsonLib) (L : JsonLaws J) where
  open J use {Json, fresh, text, number, find}

  module _ (t : QrJoinToken) where
    abbrev token_written : Json
    token_written = assign J fresh (token_fields J t)

    token_object : J.is_object token_written ≡ true
    unfolding token_fields
    token_object = object-assign J L _ _ _

    token-AreClean : IsSendableToken J t → AreClean J (token_fields J t)
    unfolding token_fields lit
    token-AreClean s = (
      L.utf8-ascii _ (omega arith),
      L.clean-text _ s.mesh_name,
      (
        L.utf8-ascii _ (omega arith),
        L.clean-text _ s.host_public_key,
        (
          L.utf8-ascii _ (omega arith),
          L.clean-text _ s.host_device_name,
          (
            L.utf8-ascii _ (omega arith),
            L.clean-text _ s.ephemeral_token,
            when_some-AreClean J L _ t.mesh_secret _ (L.utf8-ascii _ (omega arith)) s.mesh_secret (
              L.utf8-ascii _ (omega arith),
              L.clean-number _,
              when_some-AreClean J L _ t.host_ip _ (L.utf8-ascii _ (omega arith)) s.host_ip
                  (L.utf8-ascii _ (omega arith), L.clean-number _, tt),
            ),
          ),
        ),
      ),
    )

    find-token :
        (k : Str) (v : Json)
        → str_eq (lit "meshSecret") k ≡ false
        → str_eq (lit "hostIp") k ≡ false
        → assigned J none (token_fields J (record t { mesh_secret = none; host_ip = none })) k
          ≡ some v
        → find token_written k ≡ some v
    unfolding token_fields when_some
    find-token k v g h e =
        find-assign J L _ k
        ∙ assigned-when_some J L _ _ k t.mesh_secret _ g
        ∙ assigned-when_some J L _ _ k t.host_ip _ h
        ∙ e

    find-mesh_secret :
        find token_written (lit "meshSecret")
        ≡ assigned J none (when_some J (lit "meshSecret") t.mesh_secret) (lit "meshSecret")
    unfolding token_fields when_some str_eq lit
    find-mesh_secret = find-assign J L _ _ ∙ both t.mesh_secret t.host_ip
      where
        both :
            (o i : Option Str)
            → assigned J none
                (token_fields J (record t { mesh_secret = o; host_ip = i }))
                (lit "meshSecret")
              ≡ assigned J none (when_some J (lit "meshSecret") o) (lit "meshSecret")
        both none none = refl
        both none (some i) = refl
        both (some o) none = refl
        both (some o) (some i) = refl

    find-host_ip :
        find token_written (lit "hostIp")
        ≡ assigned J none (when_some J (lit "hostIp") t.host_ip) (lit "hostIp")
    unfolding token_fields when_some str_eq lit
    find-host_ip = find-assign J L _ _ ∙ both t.mesh_secret t.host_ip
      where
        both :
            (o i : Option Str)
            → assigned J none
                (token_fields J (record t { mesh_secret = o; host_ip = i }))
                (lit "hostIp")
              ≡ assigned J none (when_some J (lit "hostIp") i) (lit "hostIp")
        both none none = refl
        both none (some i) = refl
        both (some o) none = refl
        both (some o) (some i) = refl

    token_members :
        (find token_written (lit "meshName") ≡ some (text t.mesh_name))
        × (find token_written (lit "hostPublicKey") ≡ some (text t.host_public_key))
        × (find token_written (lit "hostDeviceName") ≡ some (text t.host_device_name))
        × (find token_written (lit "ephemeralToken") ≡ some (text t.ephemeral_token))
        × (find token_written (lit "hostPort") ≡ some (number t.host_port))
        × (find token_written (lit "timestamp") ≡ some (number t.timestamp_ms))
    unfolding token_fields when_some str_eq lit
    token_members = (
      find-token _ _ refl refl refl,
      find-token _ _ refl refl refl,
      find-token _ _ refl refl refl,
      find-token _ _ refl refl refl,
      find-token _ _ refl refl refl,
      find-token _ _ refl refl refl,
    )

  -- A join token whose numbers fit their types and whose texts are UTF-8 is written, with or
  -- without its secret and its address, and is read back as the same token.
  pub token_round_trip :
      (t : QrJoinToken) (now : ℤ)
      → IsSendableToken J t
      → (s : Str) × (token_to_json J t ≡ some s) × (token_from_json J now s ≡ some t)
  unfolding token_to_json token_from_json
  token_round_trip t now s =
      let (line, dumped) = L.dump-clean _ (clean-assign J L _ (token-AreClean t s)) in
      (
        line,
        dumped,
        rw (
          L.parse-dump _ _ dumped,
          at_text_found J L (token_written t) _ (token_object t) _ (token_members t).0,
          at_text_found J L (token_written t) _ (token_object t) _ (token_members t).1,
          at_text_found J L (token_written t) _ (token_object t) _ (token_members t).2,
          at_text_found J L (token_written t) _ (token_object t) _ (token_members t).3,
          optional_text_found J L _ _ t.mesh_secret (find-mesh_secret t) (str_eq_self _),
          value_int_found J L _ _ (token_object t) _ _ s.host_port (token_members t).4,
          optional_text_found J L _ _ t.host_ip (find-host_ip t) (str_eq_self _),
          value_int64_found J L _ _ (token_object t) _ _ s.timestamp (token_members t).5,
        ),
      )
