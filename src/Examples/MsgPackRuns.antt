-- ===== src/Examples/MsgPackRuns.antt =====
-- Runs of internal/codec/msgpack.go.
use omni_schema.Prelude.{◌≡◌, refl, arith, true, [], ◌∷◌}
use omni_schema.Prelude.Int.{negsuc}
use omni_schema.Prelude.Bytes.{codes}
use omni_schema.Prelude.Result.{ok}
use omni_schema.Uir.Types.{UirType}
use omni_schema.Uir.Node.{Any, Node, Nodes, new_head, new_node}
use omni_schema.Codec.MsgPack.Encode.{
  generate_message_pack, encode_items, encode_fields, child_count,
}
use omni_schema.Codec.MsgPack.Encode.{
  encode_typed, encode_string, str_head, map_head, encode_integer,
}
use omni_schema.Codec.MsgPack.Encode.{encode_signed}
use omni_schema.Codec.MsgPack.Decode.{Builtins, parse_message_pack}
use omni_schema.Codec.MsgPack.Decoded.{decoded, Fits, FitsAll}
use omni_schema.Codec.MsgPack.RoundTrip.{parse_message_pack-generate_message_pack}

abbrev pub builtins : Builtins
builtins = record { widen = λ bits. bits; sprint = λ v. codes "<nil>" }

-- {"a": -3, "b": true}
abbrev pub pair : Node
pair = Node.node (new_head UirType.map [] Any.nil) (
    Nodes.more (new_node UirType.int64 (codes "a") (Any.int64 (negsuc 2)))
      (Nodes.more (new_node UirType.boolean (codes "b") (Any.bool true)) Nodes.none))

pub pair-Fits : Fits pair
unfolding Fits FitsAll child_count new_head new_node
pair-Fits = (
  tt,
  omega arith,
  ((omega arith, omega arith, tt), omega arith, ((tt, omega arith, tt), omega arith, tt)),
)

parse_message_pack-generate_message_pack_example :
    parse_message_pack builtins (0x82 ∷ 0xa1 ∷ 97 ∷ 0xfd ∷ 0xa1 ∷ 98 ∷ 0xc3 ∷ [])
    ≡ ok (decoded builtins [] pair)
unfolding generate_message_pack encode_items encode_fields child_count encode_typed encode_string
    str_head map_head encode_integer encode_signed new_head new_node
parse_message_pack-generate_message_pack_example =
    parse_message_pack-generate_message_pack builtins pair
      (0x82 ∷ 0xa1 ∷ 97 ∷ 0xfd ∷ 0xa1 ∷ 98 ∷ 0xc3 ∷ []) pair-Fits refl
