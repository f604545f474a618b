-- ===== src/Reflector/Tests.antt =====
-- The theorem on loops at a concrete input.
use pathforge.Base.{[], ◌∷◌, ◌≡◌, ◌↔◌, true, some}
use pathforge.Attr.{PathAttributes, no_attributes}
use pathforge.Reflector.{RouteReflector, new, new_config, prepare_reflected_attrs, has_loop}
use pathforge.Reflector.Loops.{IsLoopFor, has_loop-prepare_iff}

abbrev one : RouteReflector
one = new (new_config 7) 1

abbrev two : RouteReflector
two = new (new_config 8) 2

-- Attributes that another reflector of cluster 9 has passed on, from the router 3.
abbrev passed : PathAttributes
passed = record no_attributes { originator_id = some 3; cluster_list = 9 ∷ [] }

has_loop-prepare_iff_example :
    (has_loop two (prepare_reflected_attrs one passed 2) ≡ true) ↔ IsLoopFor two one passed 2
has_loop-prepare_iff_example = has_loop-prepare_iff one two passed 2
