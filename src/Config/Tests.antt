-- ===== src/Config/Tests.antt =====
-- The theorem on src/config.rs at a concrete configuration.
use pathforge.Base.{◌≡◌, ◌↔◌, [], ◌∷◌, none, some, false, ok}
use pathforge.Mp.{v4}
use pathforge.Config.{Config, validate}
use pathforge.Config.Accept.{IsValid, validate_iff}

abbrev small : Config
small = record {
  router = record {
    local_as = 65001;
    router_id = 0x0A00_0001;
    listen = 179;
    hold_time = 90;
    keepalive_interval = some 30;
  };
  neighbors =
      record {
        addr = v4 (10 ∷ 0 ∷ 0 ∷ 2 ∷ []);
        remote_as = 65002;
        hold_time = none;
        description = none;
        route_reflector_client = false;
        import_policy = none;
        export_policy = none;
        md5_password = some (115 ∷ 51 ∷ []);
      }
      ∷ [];
  policy = record { prefix_lists = []; community_lists = [] };
}

validate_iff_example : (validate small ≡ ok tt) ↔ IsValid small
validate_iff_example = validate_iff small
