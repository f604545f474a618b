-- ===== src/Session/Loop/Runs.antt =====
-- The loop of Peer::run_session of src/peer.rs, turn by turn, with the other sessions between.
use Prim.Native.String.{String}
use pathforge.Base.{
  Bool-cases, inl, inr, ◌&&◌, subst, sym, ℕ, zero, suc, ◌<◌, ◌≡◌, refl, ap, List, [], ◌∷◌, ◌++◌,
  length, length-append, All, All-back, All-append, IsU8, Option, none, some, Bool, ok, Build,
  arith,
}
use pathforge.Bytes.{BytesCrate, IsDocumented, listed, for_documented}
use pathforge.Attr.{AttrError}
use pathforge.Message.Header
use pathforge.Message.Header.{Header}
use pathforge.Message.Frame
use pathforge.Message.Frame.{BgpMessage}
use pathforge.Message.Frame.Split.{IsSplit, parse-IsSplit}
use pathforge.Rib.{Dampening}
use pathforge.Session.Timers
use pathforge.Session.Restart.{is_established}
use pathforge.Session.Timers.{keepalive_due, LocalConfig, reset_keepalive_timer}
use pathforge.Session.Peer.{Session, Call, message_error}
use pathforge.Session.Peer.Messages.{handle_message}
use pathforge.Message.Keepalive
use pathforge.Session.Loop.{
  for_found, Input, received, read_failed, timed_out, Turn, goes_on, returns, Answers, handle_all,
  expire, send_due, receive, turn,
}
use pathforge.Session.Loop.Steps.{
  Leaves, Leaves-bind, Leaves-mono, Leaves-Returns, Leaves-write, done, IsLater, IsLater-refl,
  IsLater-trans, IsGivenUp,
}
use pathforge.Session.Loop.Handlers.{handle_message-EndsLater, handle_disconnect-IsLater}

listed_header : (h : Header) → length (Header.serialize listed h []) ≡ 19
unfolding Header.serialize
listed_header h = refl

length-header :
    (o : BytesCrate) → IsDocumented o → (h : Header) → length (Header.serialize o h []) ≡ 19
length-header o doc h =
    for_documented (λ c. length (Header.serialize c h []) ≡ 19) o doc (listed_header h)

-- What is left behind a message is bytes again, and less.
abbrev IsRest : ℕ → List ℕ → Type 0
IsRest n rest = All IsU8 rest × (length rest < n)

split-IsRest :
    (o : BytesCrate)
    → IsDocumented o
    → (buf : List ℕ) (m : BgpMessage) (rest : List ℕ) → IsSplit o buf (some m, rest)
    → All IsU8 buf
    → IsRest (length buf) rest
split-IsRest o doc buf m rest (_, _, _, whole) bs =
    let head = Header.serialize o m.header [] in
    let e = whole bs in
    let parts : All IsU8 (head ++ (m.body ++ rest)) = subst (All IsU8) e bs in
    (
      All-back IsU8 m.body rest (All-back IsU8 head (m.body ++ rest) parts),
      omega (
        arith,
        ap length e,
        length-append head (m.body ++ rest),
        length-append m.body rest,
        length-header o doc m.header,
      ),
    )

module _ (o : BytesCrate) (doc : IsDocumented o) (d : Dampening) (build : Build)
    (describe : AttrError → String) where
  open d use {Table}

  -- A later session, and the bytes that are left.
  abbrev IsBehind : Session Table → Session Table × List ℕ → Type 0
  IsBehind s0 (s, rest) = IsLater d build s0 s × All IsU8 rest

  handled :
      (s0 s : Session Table) (clock : ℕ → ℕ) (answer : Bool) (m : BgpMessage)
      → IsLater d build s0 s
      → Leaves
          (IsLater d build s0)
          (IsLater d build s0)
          (handle_message o d build describe clock answer s m)
  handled s0 s clock answer m w =
      Leaves-mono (IsGivenUp d build s) (IsLater d build s0) (IsLater d build s)
        (IsLater d build s0) _ (λ after g. IsLater-trans d build s0 s after w g.later)
        (λ after v. IsLater-trans d build s0 s after w v)
        (handle_message-EndsLater o doc d build describe clock answer s m)

  for_found-IsBehind :
      (s0 s : Session Table) (buf : List ℕ) (found : Option BgpMessage) (rest : List ℕ)
      (body : BgpMessage → Call Table (Session Table × List ℕ))
      → IsSplit o buf (found, rest)
      → IsBehind s0 (s, buf)
      → ((m : BgpMessage)
          → IsSplit o buf (some m, rest)
          → Leaves (IsLater d build s0) (IsBehind s0) (body m))
      → Leaves (IsLater d build s0) (IsBehind s0) (for_found found (ok (s, rest)) body)
  for_found-IsBehind s0 s buf none rest body e (w, bs) f = (w, subst (All IsU8) (sym e) bs)
  for_found-IsBehind s0 s buf (some m) rest body e b f = f m e

  handle_all-IsBehind :
      (fuel : ℕ) (clocks : ℕ → ℕ → ℕ) (acknowledges : ℕ → Bool) (i : ℕ) (s0 s : Session Table)
      (buf : List ℕ)
      → IsLater d build s0 s
      → All IsU8 buf
      → length buf < fuel
      → Leaves
          (IsLater d build s0)
          (IsBehind s0)
          (handle_all o d build describe fuel clocks acknowledges i s buf)
  unfolding handle_all
  handle_all-IsBehind zero clocks acknowledges i s0 s buf w bs h = absurd (omega arith)
  handle_all-IsBehind (suc fuel) clocks acknowledges i s0 s buf w bs h =
      Leaves-Returns (IsSplit o buf) (IsLater d build s0) (IsBehind s0) (Frame.parse o buf)
        message_error s _ (parse-IsSplit o doc buf) w
        λ (found, rest) split.
          for_found-IsBehind s0 s buf found rest _ split (w, bs)
            λ m e.
              let (left, less) = split-IsRest o doc buf m rest e bs in
              Leaves-bind (IsLater d build s0) (IsLater d build s0) (IsBehind s0) _ _
                (handled s0 s (clocks i) (acknowledges i) m w)
                λ after v.
                  handle_all-IsBehind fuel clocks acknowledges (suc i) s0 after rest v left
                    (omega (arith, less))

  -- A read gives bytes.
  abbrev pub IsRead : Input → Type 0
  IsRead (received bytes) = All IsU8 bytes
  IsRead read_failed = Unit {0}
  IsRead timed_out = Unit {0}

  abbrev pub IsTurned : Session Table → Turn Table → Type 0
  IsTurned s0 (goes_on s rest) = IsLater d build s0 s × All IsU8 rest
  IsTurned s0 (returns s later) = IsLater d build s0 s

  receive-IsTurned :
      (clocks : ℕ → ℕ → ℕ) (acknowledges : ℕ → Bool) (s0 s : Session Table) (buf : List ℕ)
      (input : Input)
      → IsLater d build s0 s
      → All IsU8 buf
      → IsRead input
      → Leaves
          (IsLater d build s0)
          (IsTurned s0)
          (receive o d build describe clocks acknowledges s buf input)
  unfolding receive
  receive-IsTurned clocks acknowledges s0 s buf timed_out w bs h = (w, bs)
  receive-IsTurned clocks acknowledges s0 s buf read_failed w bs h = record {
    routes = w.routes;
    held = w.held;
    same = w.same;
  }
  receive-IsTurned clocks acknowledges s0 s buf (received []) w bs h =
      IsLater-trans d build s0 _ _ (record { routes = w.routes; held = w.held; same = w.same })
        (handle_disconnect-IsLater o doc d build _)
  receive-IsTurned clocks acknowledges s0 s buf (received (b ∷ bytes)) w bs h =
      let whole = buf ++ (b ∷ bytes) in
      Leaves-bind (IsLater d build s0) (IsBehind s0) (IsTurned s0) _ _
        (handle_all-IsBehind (suc (length whole)) clocks acknowledges 0 s0 s whole w
          (All-append IsU8 buf (b ∷ bytes) bs h) (omega arith))
        λ (after, rest) behind. behind

  send_due-IsLater :
      (now : ℕ → ℕ) (answer : Bool) (s : Session Table)
      → Leaves (IsLater d build s) (IsLater d build s) (send_due o d build describe now answer s)
  unfolding send_due reset_keepalive_timer
  send_due-IsLater now answer s =
      elim (Bool-cases (is_established s.peer.state && keepalive_due s.peer.timers (now 1))) [
        | inl due ↦ rw due (
            Leaves-write {B = Session Table} (IsLater d build s) (IsLater d build s) answer
              (Keepalive.serialize o) s _ (IsLater-refl d build s)
              (record { routes = done; held = λ x. x; same = refl }))
        | inr early ↦ rw early (IsLater-refl d build s)
      ]

  expire-IsTurned :
      (answer : Bool) (s : Session Table) → IsTurned s (expire o d build describe answer s)
  unfolding expire
  expire-IsTurned answer s =
      IsLater-trans d build s _ _ (record { routes = done; held = λ x. x; same = refl })
        (handle_disconnect-IsLater o doc d build _)

  -- A turn of the loop comes to its end, or panics, whatever the clock shows and the stream answers.
  -- Whether it goes on, returns or fails, the RIB that it leaves came of the one that it found by
  -- operations of the RIB, and the hold timer runs for no longer than configured if it did before.
  pub turn-IsTurned :
      (a : Answers) (s : Session Table) (buf : List ℕ)
      → All IsU8 buf
      → IsRead a.input
      → Leaves (IsLater d build s) (IsTurned s) (turn o d build describe a s buf)
  unfolding turn
  turn-IsTurned a s buf bs h =
      elim (Bool-cases (Timers.hold_timer_expired s.peer.timers (a.now 0))) [
        | inl over ↦ rw over (expire-IsTurned a.writes s)
        | inr runs ↦ rw runs (
            Leaves-bind (IsLater d build s) (IsLater d build s) (IsTurned s) _ _
              (send_due-IsLater a.now a.writes s)
              λ after w. receive-IsTurned a.clocks a.acknowledges s after buf a.input w bs h)
      ]
