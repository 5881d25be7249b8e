-- ===== src/Node/Commands/Perform/Wire.antt =====
-- The line of an onion for one node is none of the other lines of a node's protocol.
use dor.Base.{
  ℕ, ◌≤◌, ◌≡◌, refl, sym, ap, ◌∙◌, subst, ◌≢◌, false, [], ◌∷◌, ◌++◌, arith, eq_iff, nat_eq, Bytes,
  bytes_eq, length, All, All-append, Lacks, IsBytes, int_eq,
}
use dor.Strings.{codes, has_prefix, is_space}
use dor.Strings.Trim.{IsInk, trim_space-ink}
use dor.Encoding.{encode}
use dor.Encoding.RoundTrip.{IsBase64, encode-IsBase64, encode_three, encode-IsInk}
use dor.Model.Crypto.{Crypto}
use dor.Model.Node.{Run, Env}
use dor.Model.Handler.{handlerroutine, handle_line, handle_onion}

-- The text of an encrypted key, a colon, and the text of a body.
abbrev pub onion_text : Bytes → Bytes → Bytes
onion_text enc_key body = encode enc_key ++ (codes ":" ++ encode body)

-- The fifth character is no colon.
behind_four :
    (a b e d : ℕ) (s rest : Bytes)
    → All IsBase64 s
    → s ≢ []
    → has_prefix (a ∷ b ∷ e ∷ d ∷ (s ++ rest)) (codes "NACK:") ≡ false
behind_four a b e d [] rest base ne = absurd (ne refl)
behind_four a b e d (x ∷ s) rest (base, more) ne = ground (arith, base)

encode_nonempty : (x : ℕ) (s : Bytes) → encode (x ∷ s) ≢ []
unfolding encode
encode_nonempty x [] e = ground (arith, e)
encode_nonempty x (y ∷ []) e = ground (arith, e)
encode_nonempty x (y ∷ z ∷ s) e = ground (arith, e)

onion_text-nack :
    (enc_key rest : Bytes)
    → IsBytes enc_key
    → 4 ≤ length enc_key
    → has_prefix (encode enc_key ++ rest) (codes "NACK:") ≡ false
onion_text-nack [] rest bytes long = absurd (omega arith)
onion_text-nack (a ∷ []) rest bytes long = absurd (omega arith)
onion_text-nack (a ∷ b ∷ []) rest bytes long = absurd (omega arith)
onion_text-nack (a ∷ b ∷ e ∷ []) rest bytes long = absurd (omega arith)
onion_text-nack (a ∷ b ∷ e ∷ d ∷ s) rest (ha, (hb, (he, bytes))) long =
    let (w, x, y, z, shape) = encode_three a b e (d ∷ s) in
    ap (λ t. has_prefix (t ++ rest) (codes "NACK:")) shape
    ∙ behind_four w x y z (encode (d ∷ s)) rest (encode-IsBase64 (d ∷ s) bytes)
        (encode_nonempty d s)

colon_inside : (s t : Bytes) → Lacks b':' (s ++ (b':' ∷ t)) → ⊥
colon_inside [] t h = h.0 refl
colon_inside (x ∷ s) t h = colon_inside s t h.1

onion_text-request : (enc_key body : Bytes) → onion_text enc_key body ≢ codes "GET_PUBKEY"
onion_text-request enc_key body e =
    colon_inside (encode enc_key) (encode body) (subst (Lacks b':') (sym e) (omega arith))

onion_text_nonempty : (s t : Bytes) → s ++ (b':' ∷ t) ≢ []
onion_text_nonempty [] t e = ground (arith, e)
onion_text_nonempty (x ∷ s) t e = ground (arith, e)

onion_text-IsInk :
    (enc_key body : Bytes) → IsBytes enc_key → IsBytes body → All IsInk (onion_text enc_key body)
unfolding is_space
onion_text-IsInk enc_key body key_bytes body_bytes =
    All-append IsInk (encode enc_key) (b':' ∷ encode body) (encode-IsInk enc_key key_bytes)
      (refl, encode-IsInk body body_bytes)

-- A node that reads the line of an onion goes on to decrypt it.
pub handlerroutine-onion_text :
    (c : Crypto) (private_key : c.PrivateKey) (env : Env) (enc_key body : Bytes) (r : Run)
    → IsBytes enc_key
    → IsBytes body
    → 4 ≤ length enc_key
    → handlerroutine c private_key env (onion_text enc_key body ++ codes "\n") r
      ≡ handle_onion c private_key env (onion_text enc_key body) r
unfolding handlerroutine
handlerroutine-onion_text c private_key env enc_key body r key_bytes body_bytes long =
    let text = onion_text enc_key body in
    ap (λ s. handle_line c private_key env s r)
      (trim_space-ink text (onion_text-IsInk enc_key body key_bytes body_bytes))
    ∙ (unfold handle_line in
        ground (
          arith,
          onion_text-nack enc_key (codes ":" ++ encode body) key_bytes long,
          onion_text-request enc_key body,
          onion_text_nonempty (encode enc_key) (encode body),
          eq_iff text (codes "GET_PUBKEY"),
          eq_iff text [],
        ))
