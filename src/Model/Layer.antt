-- ===== src/Model/Layer.antt =====
-- node_server/model/OnionLayer.go: the plaintext of one onion layer, its printer and its parser.
-- The proofs are in the modules below this one.
pub mod RoundTrip
pub mod Ids
use dor.Base.{
  ℕ, ◌+◌, ◌%◌, List, [], ◌∷◌, ◌++◌, if◌then◌else◌, ◌==◌, nat_eq, Bytes, bytes_eq, Result,
  split_error, ok, err,
}
use dor.Strings.{split_max, codes}

-- The field `Data` is called `payload` here.
pub record OnionLayer : Type 0 where
  pub type : Bytes
  pub msg_id : Bytes
  pub next : Bytes
  pub from : Bytes
  pub payload : Bytes
  pub frag : Bytes
  pub message : Bytes

abbrev pub relay_type : Bytes
relay_type = codes "RELAY"

abbrev pub final_type : Bytes
final_type = codes "FINAL"

abbrev pub ack_type : Bytes
ack_type = codes "ACK"

-- `fmt.Sprintf("%s|%s|%s|%s|%s|%s|%s", …)`
unfoldable pub onionlayer_to_string : OnionLayer → Bytes
onionlayer_to_string layer =
    layer.type
    ++ b'|'
      ∷ (layer.msg_id
          ++ b'|'
            ∷ (layer.next
                ++ b'|'
                  ∷ (layer.from
                      ++ b'|' ∷ (layer.payload ++ b'|' ∷ (layer.frag ++ b'|' ∷ layer.message)))))

-- The literal of `StringToOnionLayer` and its test of `len(parts)`: seven parts are the new
-- format, six the format without `Frag`.
layer_of_parts : List Bytes → Result OnionLayer
layer_of_parts (p0 ∷ p1 ∷ p2 ∷ p3 ∷ p4 ∷ p5 ∷ p6 ∷ []) =
    ok (record {
      type = p0;
      msg_id = p1;
      next = p2;
      from = p3;
      payload = p4;
      frag = p5;
      message = p6;
    })
layer_of_parts (p0 ∷ p1 ∷ p2 ∷ p3 ∷ p4 ∷ p5 ∷ []) =
    ok (record {
      type = p0;
      msg_id = p1;
      next = p2;
      from = p3;
      payload = p4;
      frag = [];
      message = p5;
    })
layer_of_parts _ = err split_error

unfoldable pub string_to_onion_layer : Bytes → Result OnionLayer
unfolding layer_of_parts
string_to_onion_layer str = layer_of_parts (split_max 6 str b'|')

-- `GenerateMsgID`: the digits that `rand.Int(rand.Reader, 10)` returned stand in a list of ten.
digits_text : List ℕ → Bytes
digits_text [] = []
digits_text (n ∷ ns) = (b'0' + n % 10) ∷ digits_text ns

unfoldable pub generate_msg_id : Bytes → List ℕ → Bytes
unfolding digits_text
generate_msg_id prefix ns =
    (if prefix == [] then codes "msg-" else prefix ++ codes "-") ++ digits_text ns
