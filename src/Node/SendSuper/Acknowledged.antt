-- ===== src/Node/SendSuper/Acknowledged.antt =====
-- `SendWithRetrySuper` and the nodes of its route: the message arrives, and the ACK ends the send.
use dor.Base.{
  ℕ, suc, ◌≤◌, ◌≡◌, sym, ◌∙◌, subst, Bool, true, none, some, List, [], ◌∷◌, ◌++◌, reverse, arith,
  nat_eq, Bytes, bytes_eq, length, length-append, All, All-append, IsBytes, IsMember,
  length-reverse, All-reverse, lookup, int_eq,
}
use dor.Strings.{join, codes}
use dor.Model.Crypto.{Crypto, CryptoLaws, IsFresh}
use dor.Model.Layer.{generate_msg_id}
use dor.Model.Broadcast.{join_addresses}
use dor.Model.Node.{Run, finished}
use dor.Model.Node.Reached.{IsUp, Reached}
use dor.Model.Handler.{handle_onion}
use dor.Node.Send.{Sender, register}
use dor.Node.Race.Handlers.{register-Shows}
use dor.Node.Super.{LayerGroup, nack_ids}
use dor.Node.Super.Total.{CanRead}
use dor.Node.Super.Delivery.{Travels-last, HopNode, Travels}
use dor.Node.Super.Return.{msg_id-ne-nack_id}
use dor.Node.Super.Arrival.{IsEndpoint, IsReady, IsListed}
use dor.Node.Super.Answer.{Answers, IsTold, encapsulator_func_super-Answers}
use dor.Node.SendSuper.{
  SuperOutcome, acknowledged, SuperWorld, single, first_addrs, launch_super, route_super,
}
use dor.Node.SendSuper.Reaches.{waiting_sender, transmit-acknowledged}

single-IsListed :
    (c : Crypto) (a : Bytes) (key : c.PublicKey) → IsEndpoint a → IsListed c (single c a key)
unfolding join_addresses join
single-IsListed c a key (valid, port) = ((valid, tt), port)

single-CanRead :
    (c : Crypto) (a : Bytes) (key : c.PublicKey)
    → 98 ≤ c.modulus_size key
    → CanRead c (single c a key)
single-CanRead c a key fits = (omega arith, (fits, tt))

All-ends :
    {A : Type 0} (P : A → Type 0) (xs : List A) (x : A) → All P xs → P x → All P (xs ++ x ∷ [])
All-ends P xs x hs h = All-append P xs (x ∷ []) hs (h, tt)

length-ends : {A : Type 0} (xs : List A) (x : A) → length (xs ++ x ∷ []) ≡ suc (length xs)
length-ends xs x = omega (arith, length-append xs (x ∷ []))

module _ (c : Crypto) (laws : CryptoLaws c) (w : SuperWorld c.PublicKey) (k : ℕ)
    (good : (i : ℕ) → IsFresh (w.forward_fresh k i))
    (good_back : (i : ℕ) → IsFresh (w.return_fresh k i)) (node_addr dest_addr message : Bytes)
    (retry : List Bytes → Sender c.PublicKey → SuperOutcome × Sender c.PublicKey)
    (relay_groups : List (LayerGroup c.PublicKey)) (dest_key : c.PublicKey) where
  abbrev pub way_there : List (LayerGroup c.PublicKey)
  way_there = relay_groups ++ single c dest_addr dest_key ∷ []

  abbrev pub way_back : List (LayerGroup c.PublicKey)
  way_back = reverse relay_groups ++ single c node_addr (w.public_key k) ∷ []

  abbrev pub the_id : Bytes
  the_id = generate_msg_id [] (w.ids k 0)

  abbrev pub the_nack : Bytes
  the_nack = generate_msg_id (codes "nack") (w.ids k 1)

  module _ (hops back_hops : ℕ → HopNode c) (failed : List Bytes) (s : Sender c.PublicKey)
      (a : Bytes) (readable : All (CanRead c) relay_groups)
      (dest_fits : 98 ≤ c.modulus_size dest_key) (own_fits : 98 ≤ c.modulus_size (w.public_key k))
      (listed : All (IsListed c) relay_groups) (dest : IsEndpoint dest_addr)
      (own : IsEndpoint node_addr) (bytes : IsBytes message)
      (ready : IsReady c way_there (nack_ids (w.ids k) 1 (length way_there)) hops)
      (ready_back : IsReady c way_back
        (reverse (nack_ids (w.ids k) 1 (length way_there)))
        back_hops)
      (unseen : lookup the_id (hops (length relay_groups)).run.node.seen_msgs ≡ none)
      (returns : (b : Bytes) × IsMember b (first_addrs c way_back)
        × IsUp (hops (length relay_groups)).env b)
      (waits : (back_hops (length relay_groups)).run.node
        ≡ register the_id the_nack (w.channel k) s.node)
      (first_up : IsMember a (first_addrs c way_there) × IsUp (w.env k) a)
      (takes : (text : Bytes) (r : Run) (v : Bool)
        → let sender = back_hops (length relay_groups) in
          handle_onion c sender.key sender.env text sender.run ≡ (finished, r)
          → r.node.channels (w.channel k) ≡ v ∷ []
          → w.answer k ≡ some v) where
    measured_back : length way_there ≡ length way_back
    measured_back = omega (
      arith,
      length-ends relay_groups (single c dest_addr dest_key),
      length-ends (reverse relay_groups) (single c node_addr (w.public_key k)),
      length-reverse relay_groups,
    )

    at_end_there : (i : ℕ) → suc i ≡ length way_there → length relay_groups ≡ i
    at_end_there i e = omega (arith, e, length-ends relay_groups (single c dest_addr dest_key))

    at_end_back : (i : ℕ) → suc i ≡ length way_back → length relay_groups ≡ i
    at_end_back i e = at_end_there i (e ∙ sym measured_back)

    sender_waits :
        let n = (back_hops (length relay_groups)).run.node in
        (lookup the_id n.pending_acks ≡ some (w.channel k)) × (n.channels (w.channel k) ≡ [])
    sender_waits =
        let (own_entry, nack_entry, empty) =
          register-Shows the_id the_nack (w.channel k) (msg_id-ne-nack_id (w.ids k 0) (w.ids k 1))
            s.node in
        rw (waits) (own_entry, empty)

    -- From the routes on.
    pub route_super-Acknowledged :
        (text onion : Bytes) × (s' : Sender c.PublicKey) × (route_super c w node_addr dest_addr
            message k retry relay_groups dest_key failed s
          ≡ (acknowledged k, s'))
        × Reached text (first_addrs c way_there) s.sent s'.sent
        × Travels c way_there hops (Answers c hops message (first_addrs c way_back) onion) 0 text
        × Travels c way_back back_hops (IsTold the_id (w.channel k)) 0 onion
    unfolding route_super launch_super
    route_super-Acknowledged =
        let (text, onion, made, there, back) =
          encapsulator_func_super-Answers c laws (w.forward_fresh k) (w.return_fresh k) good
            good_back (w.ids k) message way_there way_back node_addr hops back_hops (w.channel k)
            (omega
              (arith, length-ends (reverse relay_groups) (single c node_addr (w.public_key k))))
            measured_back
            (All-ends (CanRead c) relay_groups _ readable
              (single-CanRead c dest_addr dest_key dest_fits))
            (All-ends (CanRead c) (reverse relay_groups) _
              (All-reverse (CanRead c) relay_groups readable)
              (single-CanRead c node_addr (w.public_key k) own_fits))
            (All-ends (IsListed c) relay_groups _ listed
              (single-IsListed c dest_addr dest_key dest))
            (All-ends (IsListed c) (reverse relay_groups) _
              (All-reverse (IsListed c) relay_groups listed)
              (single-IsListed c node_addr (w.public_key k) own))
            (own.0.no_bar, own.0.bytes) bytes ready ready_back
            (λ i e.
              subst
                (λ (j : ℕ).
                  (lookup the_id (hops j).run.node.seen_msgs ≡ none)
                  × ((b : Bytes) × IsMember b (first_addrs c way_back) × IsUp (hops j).env b))
                (at_end_there i e) (unseen, returns))
            (λ i e.
              subst
                (λ (j : ℕ).
                  (lookup the_id (back_hops j).run.node.pending_acks ≡ some (w.channel k))
                  × ((back_hops j).run.node.channels (w.channel k) ≡ []))
                (at_end_back i e) sender_waits) in
        let told : w.answer k ≡ some true =
          Travels-last c way_back back_hops (IsTold the_id (w.channel k)) (w.answer k ≡ some true)
            (λ i line r e done ends.
              let same = at_end_back i e in
              takes line r true
                (subst
                  (λ (j : ℕ).
                    handle_onion c (back_hops j).key (back_hops j).env line (back_hops j).run
                    ≡ (finished, r))
                  (sym same) done)
                ends.0)
            back in
        let (result, reached) =
          transmit-acknowledged c w node_addr dest_addr message k retry (first_addrs c way_there)
            text the_id the_nack a failed s first_up.0 first_up.1 told in
        (
          text,
          onion,
          waiting_sender c w k text the_id the_nack (first_addrs c way_there) failed s,
          rw (made) result,
          reached,
          there,
          back,
        )
