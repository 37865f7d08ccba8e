-- ===== src/PeerApi/Matching/Observed.antt =====
-- The addresses from which nodes opened connections, as `PeerNodeMatcher::build` of src/peer_api.rs collects them.
use Prim.Native.String.{String}
use text.Mathlib.Text.{◌==◌ as str_eq}
use text.Mathlib.TextEquality.{eq_iff}
use reorg_playground.Prelude.{
  ◌≡◌, ◌≢◌, refl, inl, inr, false, List, [], ◌∷◌, All, Any, TextMap, Bool-cases, not_both,
}
use reorg_playground.Node.{PeerInfo}
use reorg_playground.PeerApi.{ConfiguredNodeRef, ObservedNodePeers}
use reorg_playground.PeerApi.Matching.{add_bind_addrs, add_observed}
use reorg_playground.PeerApi.Matching.Entries.{TextEntries, TextEntries-insert}

-- Each element of a list shows that there is one like it.
pub All_among :
    {A : Type 0} (Q : A → Type 0) (xs ys : List A)
    → ((P : A → Type 0) → Any P xs → Any P ys)
    → ((x : A) → ((P : A → Type 0) → P x → Any P ys) → Q x)
    → All Q xs
All_among Q [] ys embed each = tt
All_among Q (x ∷ xs) ys embed each =
    (each x (λ P p. embed P (inl p)), All_among Q xs ys (λ P later. embed P (inr later)) each)

-- A connection that the node opened itself, from this address
abbrev pub OpenedFrom : ObservedNodePeers → String → Type 0
OpenedFrom observed address =
    Any (λ p. (p.inbound ≡ false) × (p.addrbind ≢ "") × (p.addrbind ≡ address)) observed.peers

add_bind_addrs-TextEntries :
    (P : String → ConfiguredNodeRef → Type 0) (node : ConfiguredNodeRef) (peers : List PeerInfo)
    (m : TextMap ConfiguredNodeRef)
    → All (λ p. p.inbound ≡ false → p.addrbind ≢ "" → P p.addrbind node) peers
    → TextEntries P m
    → TextEntries P (add_bind_addrs node peers m)
unfolding add_bind_addrs
add_bind_addrs-TextEntries P node [] m new all = all
add_bind_addrs-TextEntries P node (p ∷ peers) m (first, rest) all =
    add_bind_addrs-TextEntries P node peers _ rest (elim (Bool-cases p.inbound) [
      | inl inwards ↦ rw inwards all
      | inr outwards ↦ elim (Bool-cases (str_eq p.addrbind "")) [
        | inl nowhere ↦ rw (outwards, nowhere) all
        | inr bound ↦
            rw (outwards, bound)
              (TextEntries-insert P p.addrbind node m all
                (first outwards (λ e. not_both ((eq_iff p.addrbind "").1 e) bound)))
      ]
    ])

pub add_observed-TextEntries :
    (P : String → ConfiguredNodeRef → Type 0) (observed : List ObservedNodePeers)
    (m : TextMap ConfiguredNodeRef)
    → All (λ o. (a : String) → OpenedFrom o a → P a o.node) observed
    → TextEntries P m
    → TextEntries P (add_observed observed m)
unfolding add_observed
add_observed-TextEntries P [] m new all = all
add_observed-TextEntries P (o ∷ observed) m (first, rest) all =
    add_observed-TextEntries P observed _ rest (
      add_bind_addrs-TextEntries P o.node o.peers m
        (All_among _ o.peers o.peers (λ Q q. q)
          (λ p into out bound. first p.addrbind (into _ (out, bound, refl))))
        all)
