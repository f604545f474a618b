-- ===== src/Session/Loop/Handlers.antt =====
-- What one message and one disconnect of src/peer.rs do to a session.
use pathforge.Message.Open.{OptionalParam}
use Prim.Native.String.{String}
use pathforge.Base.{
  ◌≡◌, refl, ℕ, List, Option, none, some, Bool, true, false, Bool-cases, inl, inr, and_then, Build,
  arith, if◌then◌else◌,
}
use pathforge.Bytes.{BytesCrate, IsDocumented}
use pathforge.Attr.{AttrError}
use pathforge.Capabilities.{raw_params, parse_from_open_params}
use pathforge.Capabilities.Walk.{parse_optional_params-IsParsed}
use pathforge.Message.{MessageType, open_type, update, notification, keepalive, route_refresh}
use pathforge.Message.Frame.{BgpMessage}
use pathforge.Message.Open
use pathforge.Message.Open.Exact.{parse-answers}
use pathforge.Message.Update
use pathforge.Message.Update.{UpdateMessage}
use pathforge.Message.Notification
use pathforge.Message.Keepalive
use pathforge.Rib.{Dampening, Rib, process_update, remove_stale_for_peer}
use pathforge.Rib.Reachable as Reachable
use pathforge.Rib.Reachable.{Steps, mark, leave}
use pathforge.Session.Timers.{reset_hold_timer, reset_keepalive_timer}
use pathforge.Session.Timers
use pathforge.Session.Restart.{restarts}
use pathforge.Session.Peer.{Peer, Session, Call, message_error, io_error}
use pathforge.Session.Peer.Messages.{
  is_open_confirm, is_end_of_rib, on_open, on_keepalive, update_rib, store_update, on_update,
  on_notification, dispatch, handle_message,
}
use pathforge.Session.Peer.Disconnect.{handle_disconnect}
use pathforge.Session.Loop.Steps.{
  IsGivenUp, Leaves-mono, Leaves-if, Leaves-call, Holds, Leaves-write, Ends-bind, call-Ends,
  bail_if-Ends, Ends, Leaves, Leaves-parse, ComesBack-Ends, update-Ends, Follows, Follows-append,
  done, next, IsLater, IsLater-refl,
}

notification-Ends : (o : BytesCrate) (body : List ℕ) → Ends (Notification.parse o body)
unfolding Notification.parse
notification-Ends o body = Ends-bind _ _ (bail_if-Ends _ _) λ _.
    Ends-bind _ _ (call-Ends _ (o.get_u8 body)) λ (_, body1).
      Ends-bind _ _ (call-Ends _ (o.get_u8 body1))
        λ (_, body2). Ends-bind _ _ (call-Ends _ (o.copy_to_slice body2 _)) λ _. tt

capabilities-Ends : (ps : List OptionalParam) → Ends (parse_from_open_params ps)
unfolding parse_from_open_params
capabilities-Ends ps = let (caps, e) = parse_optional_params-IsParsed (raw_params ps) in rw e tt

module _ (o : BytesCrate) (doc : IsDocumented o) (d : Dampening) (build : Build) where
  open d use {Table}

  abbrev pub EndsLater : Session Table → Call Table (Session Table) → Type 0
  EndsLater s0 r = Leaves (IsGivenUp d build s0) (IsLater d build s0) r

  on_open-EndsLater :
      (now : ℕ) (answer : Bool) (s0 : Session Table) (body : List ℕ)
      → EndsLater s0 (on_open o d now answer s0 body)
  unfolding on_open reset_hold_timer Timers.new
  on_open-EndsLater now answer s0 body =
      Leaves-parse (IsGivenUp d build s0) (IsLater d build s0) (Open.parse o body) message_error _ _
        (ComesBack-Ends _ _ (parse-answers o doc body))
        (record { later = record { routes = done; held = λ h. h; same = refl }; kept = refl })
        λ m.
          Leaves-parse (IsGivenUp d build s0) (IsLater d build s0)
            (parse_from_open_params m.optional_params) (λ _. io_error) _ _
            (capabilities-Ends m.optional_params)
            (record { later = record { routes = done; held = λ h. h; same = refl }; kept = refl })
            λ caps.
              Leaves-write {B = Session Table} (IsGivenUp d build s0) (IsLater d build s0) answer
                (Keepalive.serialize o) _ _
                (record {
                  later = record { routes = done; held = λ h. omega arith; same = refl };
                  kept = refl;
                })
                (record { routes = done; held = λ h. omega arith; same = refl })

  on_keepalive-IsLater :
      (clock : ℕ → ℕ) (s : Session Table) → IsLater d build s (on_keepalive o d clock s)
  unfolding on_keepalive reset_hold_timer reset_keepalive_timer
  on_keepalive-IsLater clock s = record {
    routes = done;
    held =
        λ h. elim (Bool-cases (is_open_confirm s.peer.state)) [ inl e ↦ rw e h | inr e ↦ rw e h ];
    same = elim (Bool-cases (is_open_confirm s.peer.state)) [
      | inl e ↦ rw e refl
      | inr e ↦ rw e refl
    ];
  }

  decided-Follows :
      (clock : ℕ → ℕ) (p : Peer) (m : UpdateMessage) (rib : Rib Table) (r : Option (Rib Table))
      → process_update d build clock rib p.addr p.remote_as m.nlri m.path_attributes
          m.withdrawn_routes
        ≡ r
      → Holds (Follows d build rib) (
          and_then r λ after.
            some (if is_end_of_rib m then (remove_stale_for_peer d after p.addr).0 else after))
  decided-Follows clock p m rib none e = tt
  decided-Follows clock p m rib (some decided) e =
      let updated =
        next done (
          Reachable.update clock p.addr p.remote_as m.nlri m.path_attributes m.withdrawn_routes
            e) in
      elim (Bool-cases (is_end_of_rib m)) [
        | inl marker ↦ rw marker (next updated (Reachable.drop_stale p.addr))
        | inr other ↦ rw other updated
      ]

  store_update-EndsLater :
      (clock : ℕ → ℕ) (m : UpdateMessage) (s0 s : Session Table)
      → IsLater d build s0 s
      → EndsLater s0 (store_update o d build clock m s)
  unfolding store_update update_rib
  store_update-EndsLater clock m s0 s w =
      Leaves-if (IsGivenUp d build s0) (IsLater d build s0) s.poisoned _ _ w (
        Leaves-call (IsGivenUp d build s0) (Follows d build s.rib) (IsLater d build s0) _ _
          (decided-Follows clock s.peer m s.rib _ refl)
          λ rib f. record {
            routes = Follows-append d build s0.rib s.rib rib w.routes f;
            held = w.held;
            same = w.same;
          })

  on_update-EndsLater :
      (describe : AttrError → String) (clock : ℕ → ℕ) (s0 : Session Table) (body : List ℕ)
      → EndsLater s0 (on_update o d build describe clock s0 body)
  unfolding on_update reset_hold_timer
  on_update-EndsLater describe clock s0 body =
      Leaves-parse (IsGivenUp d build s0) (IsLater d build s0) (Update.parse o describe body)
        message_error _ _ (update-Ends o doc describe body)
        (record { later = record { routes = done; held = λ h. h; same = refl }; kept = refl })
        λ m. store_update-EndsLater _ m s0 _ (record { routes = done; held = λ h. h; same = refl })

  unless_poisoned-Follows :
      (poisoned : Bool) (rib after : Rib Table)
      → Steps d build rib after
      → Follows d build rib (if poisoned then rib else after)
  unless_poisoned-Follows true rib after s = done
  unless_poisoned-Follows false rib after s = next done s

  on_notification-EndsLater :
      (s0 : Session Table) (body : List ℕ) → EndsLater s0 (on_notification o d s0 body)
  unfolding on_notification
  on_notification-EndsLater s0 body =
      Leaves-parse (IsGivenUp d build s0) (IsLater d build s0) (Notification.parse o body)
        message_error _ _ (notification-Ends o body)
        (record { later = record { routes = done; held = λ h. h; same = refl }; kept = refl })
        λ m. record {
          routes = unless_poisoned-Follows s0.poisoned s0.rib _ (leave s0.peer.addr);
          held = λ h. h;
          same = refl;
        }

  dispatch-EndsLater :
      (describe : AttrError → String) (clock : ℕ → ℕ) (answer : Bool) (s : Session Table)
      (t : MessageType) (body : List ℕ)
      → EndsLater s (dispatch o d build describe clock answer s t body)
  unfolding dispatch
  dispatch-EndsLater describe clock answer s open_type body =
      on_open-EndsLater (clock 0) answer s body
  dispatch-EndsLater describe clock answer s update body = on_update-EndsLater describe clock s body
  dispatch-EndsLater describe clock answer s notification body = on_notification-EndsLater s body
  dispatch-EndsLater describe clock answer s keepalive body = on_keepalive-IsLater clock s
  dispatch-EndsLater describe clock answer s route_refresh body = IsLater-refl d build s

  pub handle_message-EndsLater :
      (describe : AttrError → String) (clock : ℕ → ℕ) (answer : Bool) (s : Session Table)
      (msg : BgpMessage)
      → EndsLater s (handle_message o d build describe clock answer s msg)
  unfolding handle_message
  handle_message-EndsLater describe clock answer s msg =
      dispatch-EndsLater describe clock answer s msg.header.msg_type msg.body

  pub handle_disconnect-IsLater : (s : Session Table) → IsLater d build s (handle_disconnect d s).0
  unfolding handle_disconnect
  handle_disconnect-IsLater s = elim (Bool-cases (restarts s.peer.peer_capabilities s.peer.state)) [
    | inl stale ↦ rw stale (record {
      routes = unless_poisoned-Follows s.poisoned s.rib _ (mark s.peer.addr);
      held = λ h. h;
      same = refl;
    })
    | inr gone ↦ rw gone (record {
      routes = unless_poisoned-Follows s.poisoned s.rib _ (leave s.peer.addr);
      held = λ h. h;
      same = refl;
    })
  ]

  -- Whatever the message and the state of the session: an error, of a parser or of the stream, ends
  -- the session with the RIB as it was, so that the routes of the peer stay in it.
  pub handle_message_error :
      (describe : AttrError → String) (clock : ℕ → ℕ) (answer : Bool) (s : Session Table)
      (msg : BgpMessage)
      → Leaves
          (λ after. after.rib ≡ s.rib)
          (λ _. Unit {0})
          (handle_message o d build describe clock answer s msg)
  handle_message_error describe clock answer s msg =
      Leaves-mono (IsGivenUp d build s) (λ after. after.rib ≡ s.rib) (IsLater d build s)
        (λ _. Unit {0}) _ (λ after g. g.kept) (λ _ _. tt)
        (handle_message-EndsLater describe clock answer s msg)
