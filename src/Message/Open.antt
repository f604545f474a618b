-- ===== src/Message/Open.antt =====
-- src/message/open.rs; Capabilities.antt has new_with_capabilities. An Ipv4Addr is the u32 that it
-- converts to and from.
pub mod Params
pub mod Exact
use pathforge.Base.{
  ℕ, zero, suc, ◌-◌, List, [], ◌∷◌, ◌||◌, true, false, Outcome, ok, stuck, ◌>>=◌, ◌>>◌, call,
  bail_if, ltb, length, u8, if◌then◌else◌, Option, none, some,
}
use pathforge.Bytes.{BytesCrate}
use pathforge.Message.{MessageError, too_short, parse_error, open_type}
use pathforge.Message.Header

pub record OptionalParam : Type 0 where
  pub param_type : ℕ
  pub value : List ℕ

pub record OpenMessage : Type 0 where
  pub version : ℕ
  pub my_as : ℕ
  pub hold_time : ℕ
  pub bgp_id : ℕ
  pub optional_params : List OptionalParam

unfoldable pub new : ℕ → ℕ → ℕ → OpenMessage
new my_as hold_time bgp_id = record {
  version = 4;
  my_as = my_as;
  hold_time = hold_time;
  bgp_id = bgp_id;
  optional_params = [];
}

-- `-=` on a usize; `none` is the panic of an overflow.
unfoldable pub sub_len : ℕ → ℕ → Option ℕ
sub_len left n = if ltb left n then none else some (left - n)

module _ (o : BytesCrate) where
  open o use {
    remaining, get_u8, get_u16, get_u32, copy_to_slice, put, put_u8, put_u16, put_u32, put_slice,
  }

  -- One round of the loop over the parameters: the parameter, the body behind it, and the count of
  -- parameter bytes that are still to be read.
  unfoldable pub read_param : List ℕ → ℕ → Outcome MessageError (OptionalParam × List ℕ × ℕ)
  read_param body left = do
    (param_type, body1) ← call (get_u8 body)
    (param_len, body2) ← call (get_u8 body1)
    left1 ← call (sub_len left 2)
    bail_if (ltb (remaining body2) param_len || ltb left1 param_len)
        (parse_error "Truncated optional parameter")
    (value, body3) ← call (copy_to_slice body2 param_len)
    left2 ← call (sub_len left1 param_len)
    ok (record { param_type = param_type; value = value }, body3, left2)

  -- `while remaining >= 2`. A round takes 2 off the count at least.
  unfoldable pub parse_params : ℕ → List ℕ → ℕ → Outcome MessageError (List OptionalParam)
  parse_params zero body left = if ltb left 2 then ok [] else stuck
  parse_params (suc fuel) body left =
      let round = do
        (param, body1, left1) ← read_param body left
        more ← parse_params fuel body1 left1
        ok (param ∷ more)
      in if ltb left 2 then ok [] else round

  -- The body of an OPEN. What stands behind the parameters is not looked at.
  unfoldable pub parse : List ℕ → Outcome MessageError OpenMessage
  parse body = do
    bail_if (ltb (remaining body) 10) (too_short 10 (remaining body))
    (version, body1) ← call (get_u8 body)
    (my_as, body2) ← call (get_u16 body1)
    (hold_time, body3) ← call (get_u16 body2)
    (bgp_id, body4) ← call (get_u32 body3)
    (opt_param_len, body5) ← call (get_u8 body4)
    bail_if (ltb (remaining body5) opt_param_len) (too_short opt_param_len (remaining body5))
    optional_params ← parse_params opt_param_len body5 opt_param_len
    ok (record {
      version = version;
      my_as = my_as;
      hold_time = hold_time;
      bgp_id = bgp_id;
      optional_params = optional_params;
    })

  -- The loop that fills `opt_buf`.
  unfoldable pub put_params : List OptionalParam → List ℕ → List ℕ
  put_params [] opt_buf = opt_buf
  put_params (p ∷ ps) opt_buf =
      put_params ps (put_slice (put_u8 (put_u8 opt_buf p.param_type) (u8 (length p.value))) p.value)

  unfoldable pub serialize_body : OpenMessage → List ℕ
  unfolding put_params
  serialize_body m =
      let fixed = put_u32 (put_u16 (put_u16 (put_u8 [] m.version) m.my_as) m.hold_time) m.bgp_id in
      let opt_buf = put_params m.optional_params [] in
      put (put_u8 fixed (u8 (length opt_buf))) opt_buf

  -- Header and body. The lengths of a parameter and of all of them are cut to a byte.
  unfoldable pub serialize : OpenMessage → List ℕ
  unfolding serialize_body
  serialize m =
      let body = serialize_body m in
      put (Header.serialize o (Header.new open_type (length body)) []) body
