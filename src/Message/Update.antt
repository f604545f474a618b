-- ===== src/Message/Update.antt =====
-- struct UpdateMessage of src/message/update.rs.
pub mod Panic
pub mod RoundTrip
mod Tests
use Prim.Native.String.{String}
use pathforge.Base.{
  ℕ, ◌+◌, List, [], Option, none, some, Outcome, ok, ◌>>=◌, ◌>>◌, call, bail_if, map_err, length,
  ltb, u16,
}
use pathforge.Bytes.{BytesCrate}
use pathforge.Attr.{AttrError, PathAttributes, no_attributes}
use pathforge.Attr.Parse as AttrParse
use pathforge.Attr.Serialize as AttrSerialize
use pathforge.Message.{MessageError, too_short, parse_error, update}
use pathforge.Message.Header
use pathforge.Message.Prefix
use pathforge.Message.Prefix.{Prefix, parse_all, serialize_all}

pub record UpdateMessage : Type 0 where
  pub withdrawn_routes : List Prefix
  pub path_attributes : PathAttributes
  pub nlri : List Prefix

abbrev pub new : UpdateMessage
new = record { withdrawn_routes = []; path_attributes = no_attributes; nlri = [] }

module _ (o : BytesCrate) where
  open o use {remaining, get_u16, copy_to_bytes, put, put_u16}

  -- What follows the withdrawn routes: the attributes behind their length, and the NLRI. `describe`
  -- is the text that the crate thiserror derives for an AttrError.
  unfoldable pub parse_rest :
      (AttrError → String) → List Prefix → List ℕ → Outcome MessageError UpdateMessage
  parse_rest describe withdrawn_routes body = do
    (attr_len, body1) ← call (get_u16 body)
    bail_if (ltb (remaining body1) attr_len) (too_short attr_len (remaining body1))
    (attr_bytes, body2) ← call (copy_to_bytes body1 attr_len)
    path_attributes ← map_err (λ e. parse_error (describe e)) (AttrParse.parse o attr_bytes)
    nlri ← parse_all o (length body2) body2
    ok (record {
      withdrawn_routes = withdrawn_routes;
      path_attributes = path_attributes;
      nlri = nlri;
    })

  unfoldable pub parse : (AttrError → String) → List ℕ → Outcome MessageError UpdateMessage
  parse describe body = do
    bail_if (ltb (remaining body) 4) (too_short 4 (remaining body))
    (withdrawn_len, body1) ← call (get_u16 body)
    bail_if (ltb (remaining body1) withdrawn_len) (too_short withdrawn_len (remaining body1))
    (withdrawn_buf, body2) ← call (copy_to_bytes body1 withdrawn_len)
    withdrawn_routes ← parse_all o (length withdrawn_buf) withdrawn_buf
    parse_rest describe withdrawn_routes body2

  -- The whole message: the header and behind it the three sections, two with their lengths.
  unfoldable pub compose : List ℕ → List ℕ → List ℕ → List ℕ
  compose withdrawn_buf attr_buf nlri_buf =
      let body_len = 2 + length withdrawn_buf + 2 + length attr_buf + length nlri_buf in
      let out = Header.serialize o (Header.new update body_len) [] in
      let out1 = put (put_u16 out (u16 (length withdrawn_buf))) withdrawn_buf in
      put (put (put_u16 out1 (u16 (length attr_buf))) attr_buf) nlri_buf

  -- `none` is the panic of a prefix that is longer than 32.
  unfoldable pub serialize : UpdateMessage → Option (List ℕ)
  serialize m = elim (serialize_all o m.withdrawn_routes []) [
    | none ↦ none
    | some withdrawn_buf ↦ elim (serialize_all o m.nlri []) [
      | none ↦ none
      | some nlri_buf ↦
          some (compose withdrawn_buf (AttrSerialize.serialize o m.path_attributes) nlri_buf)
    ]
  ]
