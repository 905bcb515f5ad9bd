-- ===== src/Console/Sessions.antt =====
-- What the console of src/main.cpp calls for the lines that are typed.
use rin_windows.Base.{
  ℕ, suc, ◌≡◌, refl, ap, ◌∙◌, Str, lit, str_eq, is_empty, Bool, true, false, Option, none, some,
  List, [], ◌∷◌, ◌++◌, map, All, Result, ok, err, or_throw, json_exception, if◌then◌else◌,
}
use rin_windows.Base.Act.{Act, pure, lift, resume, ◌>>=◌, ◌>>◌}
use rin_windows.Base.Dict.{lookup}
use rin_windows.Protocol.{QrJoinToken}
use rin_windows.Protocol.Json.{JsonLib}
use rin_windows.Protocol.Payloads.{token_from_json}
use rin_windows.Crypto.OpenSsl.{OpenSsl}
use rin_windows.World.{World}
use rin_windows.Mesh.Outbox.{Outside, broadcast_clipboard, build_join_token_json}
use rin_windows.Mesh.SendFile.{send_file_to_device}
use rin_windows.Mesh.Identity.{Storage}
use rin_windows.Mesh.Identity.Handshake.{complete_join_handshake}
use rin_windows.Console.{
  Command, quit, token, devices, events, usage, help, unknown, join, clipboard, sendfile,
  parse_line, join_with, perform, is_quit, printed, session, launch, console_main,
}
use rin_windows.Console.Parsing.{typed, meant, IsRequest, parse_line-typed}

-- A result without what is printed.
abbrev pub unprinted : {A : Type 0} → Result A × World → Result (Unit {0}) × World
unprinted (ok a, w) = (ok tt, w)
unprinted (err e, w) = (err e, w)

unprinted-resume :
    {A B : Type 0} (r : Result A × World) (f : A → Act World B)
    → ((a : A) (w : World) → unprinted (f a w) ≡ (ok tt, w))
    → unprinted (resume r f) ≡ unprinted r
unprinted-resume (ok a, w) f h = h a w
unprinted-resume (err e, w) f h = refl

unprinted-unit : (r : Result (Unit {0}) × World) → unprinted r ≡ r
unprinted-unit (ok tt, w) = refl
unprinted-unit (err e, w) = refl

module _ (J : JsonLib) (O : OpenSsl) where
  -- A token whose host has no address is not used.
  abbrev pub joins : Outside → Option QrJoinToken → Act World (Unit {0})
  joins out none w = (ok tt, w)
  joins out (some t) w = elim t.host_ip [
    | none ↦ (ok tt, w)
    | some ip ↦ unprinted (complete_join_handshake J O out t w)
  ]

  -- The engine's method that a command stands for, with what it throws.
  abbrev pub calls : Outside → Command → Act World (Unit {0})
  calls out token = build_join_token_json J O out >>= λ json.
      λ w. unprinted (lift (or_throw json json_exception) w)
  calls out (join text) = joins out (token_from_json J out.now text)
  calls out (clipboard text) = broadcast_clipboard J O out text
  calls out (sendfile key []) = pure tt
  calls out (sendfile key (c ∷ path)) =
      λ w. send_file_to_device J O out (c ∷ path) (lookup key w.devices) w
  calls out other = pure tt

  -- The commands in turn, the k-th with the k-th answers of the outside.
  abbrev pub all_calls : (ℕ → Outside) → ℕ → List Command → Act World (Unit {0})
  all_calls outs k [] = pure tt
  all_calls outs k (c ∷ cs) = calls (outs k) c >> all_calls outs (suc k) cs

  unprinted-token :
      (r : Result (Option Str) × World)
      → unprinted
          (resume r (λ json. lift (or_throw json json_exception) >>= λ line. pure (line ∷ [])))
        ≡ resume r (λ json. λ w. unprinted (lift (or_throw json json_exception) w))
  unprinted-token (ok none, w) = refl
  unprinted-token (ok (some line), w) = refl
  unprinted-token (err e, w) = refl

  unprinted-joins :
      (out : Outside) (t : Option QrJoinToken) (w : World)
      → unprinted (join_with J O out t w) ≡ joins out t w
  unfolding join_with
  unprinted-joins out none w = refl
  unprinted-joins out (some t) w = addressed t.host_ip refl
    where
      addressed :
          (ip : Option Str)
          → t.host_ip ≡ ip
          → unprinted (join_with J O out (some t) w) ≡ joins out (some t) w
      addressed none e = rw e refl
      addressed (some ip) e =
          rw e (unprinted-resume (complete_join_handshake J O out t w) _ (λ a v. refl))

  perform-calls :
      (out : Outside) (c : Command) (w : World)
      → unprinted (perform J O out (meant c) w) ≡ calls out c w
  unfolding perform
  perform-calls out quit w = refl
  perform-calls out token w = unprinted-token (build_join_token_json J O out w)
  perform-calls out devices w = refl
  perform-calls out events w = refl
  perform-calls out usage w = refl
  perform-calls out help w = refl
  perform-calls out unknown w = refl
  perform-calls out (join text) w = unprinted-joins out (token_from_json J out.now text) w
  perform-calls out (clipboard text) w =
      unprinted-resume (broadcast_clipboard J O out text w) _ (λ a v. refl)
      ∙ unprinted-unit (broadcast_clipboard J O out text w)
  perform-calls out (sendfile key []) w = refl
  perform-calls out (sendfile key (c ∷ path)) w =
      let r = send_file_to_device J O out (c ∷ path) (lookup key w.devices) w in
      unprinted-resume r _ (λ a v. refl) ∙ unprinted-unit r

  unprinted-printed :
      (lines : List Str) (r : Result (List Str) × World)
      → unprinted (printed J O lines r) ≡ unprinted r
  unprinted-printed lines (ok more, w) = refl
  unprinted-printed lines (err e, w) = refl

  then_rest :
      (r : Result (List Str) × World) (f : Act World (List Str)) (g : Act World (Unit {0}))
      → ((v : World) → unprinted (f v) ≡ g v)
      → unprinted (resume r (λ (shown : List Str). λ (v : World). printed J O shown (f v)))
        ≡ resume (unprinted r) (λ _. g)
  then_rest (ok shown, w) f g h = unprinted-printed shown (f w) ∙ h w
  then_rest (err e, w) f g h = refl

  session_line :
      (outs : ℕ → Outside) (k : ℕ) (line : Str) (lines : List Str) (c : Command) (w : World)
      → is_empty line ≡ false
      → parse_line line ≡ c
      → is_quit J O c ≡ false
      → session J O outs k (line ∷ lines) w
        ≡ resume (perform J O (outs k) c w) (λ (shown : List Str).
          λ (v : World). printed J O shown (session J O outs (suc k) lines v))
  unfolding session
  session_line outs k [] lines c w full parsed goes = cc
  session_line outs k (b ∷ line) lines c w full parsed goes = rw (parsed, goes) refl

  typed-full : (c : Command) → is_empty (typed c) ≡ false
  unfolding lit
  typed-full quit = refl
  typed-full token = refl
  typed-full devices = refl
  typed-full events = refl
  typed-full usage = refl
  typed-full help = refl
  typed-full unknown = refl
  typed-full (join text) = refl
  typed-full (clipboard text) = refl
  typed-full (sendfile key path) = refl

  goes_on : (c : Command) → IsRequest c → is_quit J O (meant c) ≡ false
  goes_on quit p = absurd p
  goes_on token p = refl
  goes_on devices p = refl
  goes_on events p = refl
  goes_on usage p = refl
  goes_on help p = refl
  goes_on unknown p = refl
  goes_on (join text) p = refl
  goes_on (clipboard text) p = refl
  goes_on (sendfile key []) p = refl
  goes_on (sendfile key (c ∷ path)) p = refl

  ends :
      (outs : ℕ → Outside) (k : ℕ) (left : Bool) (more : List Str) (w : World)
      → session J O outs k ((if left then lit "quit" else lit "exit") ∷ more) w ≡ (ok [], w)
  unfolding session parse_line rin_windows.Console.command_of rin_windows.Console.next_word
      rin_windows.Console.skip_spaces rin_windows.Console.split_word lit str_eq
  ends outs k false more w = refl
  ends outs k true more w = refl

  session-calls :
      (outs : ℕ → Outside) (left : Bool) (more : List Str) (k : ℕ) (cs : List Command) (w : World)
      → All IsRequest cs
      → unprinted
          (session J O outs k (map typed cs ++ (if left then lit "quit" else lit "exit") ∷ more) w)
        ≡ all_calls outs k cs w
  session-calls outs left more k [] w p = ap unprinted (ends outs k left more w)
  session-calls outs left more k (c ∷ cs) w (p, ps) =
      ap unprinted (
        session_line outs k (typed c) _ (meant c) w (typed-full c) (parse_line-typed c p)
          (goes_on c p))
      ∙ then_rest (perform J O (outs k) (meant c) w) _ (all_calls outs (suc k) cs)
          (λ v. session-calls outs left more (suc k) cs v ps)
      ∙ ap (λ (r : Result (Unit {0}) × World). resume r (λ _. all_calls outs (suc k) cs))
          (perform-calls (outs k) c w)

  launched :
      (r : Result (Unit {0}) × World) (f : Act World (List Str)) (g : Act World (Unit {0}))
      → ((v : World) → unprinted (f v) ≡ g v)
      → unprinted (resume r (λ ready. f)) ≡ resume r (λ _. g)
  launched (ok tt, w) f g h = h w
  launched (err e, w) f g h = refl

  -- The console, given a line for each of some commands and then quit or exit, calls after its
  -- start the engine's method of each command, in the order in which they are typed, with the text,
  -- the key and the path as they are typed, until one throws, which ends the program. It calls
  -- nothing for the unknown command ?, for sendfile without a key or a path, or for the lines after
  -- quit. Keys are not empty and have no space.
  pub console_main-Calls :
      (s : Storage) (out : Outside) (bind : ℕ → Bool) (udp : Option Str)
      (mesh_name device_name : Str) (outs : ℕ → Outside) (cs : List Command) (left : Bool)
      (more : List Str) (w : World)
      → All IsRequest cs
      → unprinted (
          console_main J O s out bind udp mesh_name device_name outs
            (map typed cs ++ (if left then lit "quit" else lit "exit") ∷ more)
            w)
        ≡ (launch J O s out bind udp mesh_name device_name >> all_calls outs 0 cs) w
  unfolding console_main
  console_main-Calls s out bind udp mesh_name device_name outs cs left more w p =
      launched (launch J O s out bind udp mesh_name device_name w) _ (all_calls outs 0 cs)
        (λ v. session-calls outs left more 0 cs v p)
