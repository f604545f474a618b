-- ===== src/Rib/Tests.antt =====
-- The theorems on the RIB at a concrete state.
use pathforge.Base.{
  arith, Option, suc, refl, ℕ, ◌≡◌, [], ◌∷◌, none, some, false, get, values, ◌==◌, checked,
}
use pathforge.Rpki.{disabled, not_found, validate, should_reject}
use pathforge.Rib.Routes.{key_of, Route, PrefixKey, same_key}
use pathforge.Rib.Query.{longest_match}
use pathforge.Rib.Query.Longest.{IsFound, longest_match-IsFound}
use pathforge.Attr.{no_attributes}
use pathforge.Rib.Reachable.{Reaches, start, step, update, mark}
use pathforge.Message.Prefix.{Prefix}
use pathforge.Rib.Routes
use pathforge.Rib
use pathforge.Rib.Decision.{insert_by, sort_routes}
use pathforge.Rib.{
  process_update, announce_all, decide_all, record_all, remove_all, mark_peer_stale, Dampening, Rib,
  run_decision_process, candidates, remove_peer, or_default,
}
use pathforge.Rib.Selection.{IsSelected, run_decision_process-IsSelected}

-- A table that suppresses nothing.
abbrev calm : Dampening
calm = record {
  Table = Unit {0};
  record_withdrawal = λ t _ _. t;
  check_advertisement = λ t _ _. (false, t);
  remove_peer = λ t _. t;
}

abbrev office : PrefixKey
office = record { address = 0x0A00_0000; prefix_len = 8 }

abbrev route : ℕ → ℕ → Route
route peer local_pref = record {
  prefix = record { prefix_len = 8; address = 0x0A00_0000 };
  attrs = record no_attributes { local_pref = some local_pref };
  peer_addr = peer;
  peer_as = 65001;
  received_at = peer;
  stale = false;
  rov_state = not_found;
}

-- Two peers with a route for one prefix, and nothing decided.
abbrev two_peers : Rib (Unit {0})
two_peers = record {
  adj_rib_in = (1, (office, route 1 100) ∷ []) ∷ (2, (office, route 2 200) ∷ []) ∷ [];
  loc_rib = [];
  dampening = tt;
  rpki = record { mode = disabled; roas = [] };
}

run_decision_process-IsSelected_example :
    IsSelected
      (get same_key office (run_decision_process calm two_peers office).loc_rib)
      (candidates office (values ◌==◌ two_peers.adj_rib_in))
    × ((other : PrefixKey)
        → same_key office other ≡ false
        → get same_key other (run_decision_process calm two_peers office).loc_rib
          ≡ get same_key other two_peers.loc_rib)
    × ((run_decision_process calm two_peers office).adj_rib_in ≡ two_peers.adj_rib_in)
run_decision_process-IsSelected_example = run_decision_process-IsSelected calm two_peers office

abbrev block : Prefix
block = record { prefix_len = 8; address = 0x0A00_0000 }

-- A peer announces the prefix to a new RIB, and another leaves.
abbrev announced : Rib (Unit {0})
announced = record {
  adj_rib_in = (1, (office, route 1 100) ∷ []) ∷ [];
  loc_rib = (office, route 1 100) ∷ [];
  dampening = tt;
  rpki = record { mode = disabled; roas = [] };
}

announced-Steps :
    process_update calm checked
      (λ i. 1)
      (Rib.new calm tt (record { mode = disabled; roas = [] }))
      1
      65001
      (block ∷ [])
      (record no_attributes { local_pref = some 100 })
      []
    ≡ some announced
unfolding process_update Rib.new announce_all decide_all run_decision_process validate should_reject
    sort_routes insert_by candidates record_all remove_all Routes.new
announced-Steps = refl

announced-Reaches :
    Reaches calm checked tt
      (record { mode = disabled; roas = [] })
      (mark_peer_stale calm announced 1)
announced-Reaches = step (step start (update (λ i. 1) 1 65001 _ _ _ announced-Steps)) (mark 1)

-- The default route and one for the office.
abbrev two_routes : Rib (Unit {0})
two_routes = record two_peers {
  loc_rib = (record { address = 0; prefix_len = 0 }, route 1 100) ∷ (office, route 2 200) ∷ [];
}

longest_match-IsFound_example :
    (c : Option (PrefixKey × Route)) × (longest_match checked two_routes 0x0A01_0203 ≡ some c)
    × IsFound 0x0A01_0203 none two_routes.loc_rib c
longest_match-IsFound_example =
    longest_match-IsFound checked two_routes 0x0A01_0203 (omega arith)
      ((omega arith, omega arith), ((omega arith, omega arith), tt))

-- A table that holds one prefix back, and counts what it is asked.
abbrev strict : Dampening
strict = record {
  Table = ℕ;
  record_withdrawal = λ t _ _. t;
  check_advertisement = λ t _ k. (k.address == 0x0B00_0000, suc t);
  remove_peer = λ t _. t;
}

abbrev held_block : Prefix
held_block = record { prefix_len = 8; address = 0x0B00_0000 }

-- The peer has a route for the prefix that is held back.
abbrev holding : Rib ℕ
holding = record {
  adj_rib_in = (1, (key_of held_block, route 1 100) ∷ []) ∷ [];
  loc_rib = [];
  dampening = 0;
  rpki = record { mode = disabled; roas = [] };
}
