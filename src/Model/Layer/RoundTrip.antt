-- ===== src/Model/Layer/RoundTrip.antt =====
-- `StringToOnionLayer` reads back what `OnionlayerToString` prints.
use dor.Base.{◌≡◌, refl, [], ◌∷◌, ◌++◌, Bytes, Lacks, ok}
use dor.Strings.{split_max, split_max-field, split_max-single}
use dor.Model.Layer.{OnionLayer, onionlayer_to_string, string_to_onion_layer}

-- No field but the last holds the separator of the fields.
pub record IsPrintable (layer : OnionLayer) : Type 0 where
  pub type : Lacks b'|' layer.type
  pub msg_id : Lacks b'|' layer.msg_id
  pub next : Lacks b'|' layer.next
  pub from : Lacks b'|' layer.from
  pub payload : Lacks b'|' layer.payload
  pub frag : Lacks b'|' layer.frag

pub split_max-onionlayer_to_string :
    (l : OnionLayer)
    → IsPrintable l
    → split_max 6 (onionlayer_to_string l) b'|'
      ≡ l.type ∷ l.msg_id ∷ l.next ∷ l.from ∷ l.payload ∷ l.frag ∷ l.message ∷ []
unfolding onionlayer_to_string
split_max-onionlayer_to_string l h = rw (split_max-field b'|' 5 l.type _ h.type) (
    rw (split_max-field b'|' 4 l.msg_id _ h.msg_id) (
      rw (split_max-field b'|' 3 l.next _ h.next) (
        rw (split_max-field b'|' 2 l.from _ h.from) (
          rw (split_max-field b'|' 1 l.payload _ h.payload)
            (rw (split_max-field b'|' 0 l.frag _ h.frag) (unfold split_max in refl))))))

-- A layer whose first six fields hold no `|` is read back whole, whatever bytes its message holds.
pub string_to_onion_layer-onionlayer_to_string :
    (l : OnionLayer) → IsPrintable l → string_to_onion_layer (onionlayer_to_string l) ≡ ok l
unfolding string_to_onion_layer
string_to_onion_layer-onionlayer_to_string l h = rw (split_max-onionlayer_to_string l h)

-- The text of a layer in the format before fragmentation.
abbrev pub old_format : OnionLayer → Bytes
old_format l =
    l.type
    ++ b'|'
      ∷ (l.msg_id ++ b'|' ∷ (l.next ++ b'|' ∷ (l.from ++ b'|' ∷ (l.payload ++ b'|' ∷ l.message))))

-- A layer in the six-field format, without `|` in its message, is read with an empty `Frag`.
pub string_to_onion_layer-old_format :
    (l : OnionLayer)
    → IsPrintable l
    → Lacks b'|' l.message
    → string_to_onion_layer (old_format l) ≡ ok (record l { frag = [] })
unfolding string_to_onion_layer
string_to_onion_layer-old_format l h hm = rw (split_max-field b'|' 5 l.type _ h.type) (
    rw (split_max-field b'|' 4 l.msg_id _ h.msg_id) (
      rw (split_max-field b'|' 3 l.next _ h.next) (
        rw (split_max-field b'|' 2 l.from _ h.from) (
          rw (split_max-field b'|' 1 l.payload _ h.payload)
            (rw (split_max-single b'|' 1 l.message hm))))))
