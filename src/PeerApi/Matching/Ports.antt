-- ===== src/PeerApi/Matching/Ports.antt =====
-- The owners of ports among the listen addresses, and those with one owner (src/peer_api.rs).
use reorg_playground.Prelude.{
  ℕ, ◌≡◌, refl, sym, ap, ◌∙◌, inl, inr, true, false, ◌==◌, ==_iff, none, some, some_eq, List, [],
  ◌∷◌, ◌++◌, arith, All, Any, Map, get, sort_by_key, All_of_sort_by_key, All-sort_by_key,
  Bool-cases, Option-cases, List-cases, if◌then◌else◌, subst,
}
use reorg_playground.PeerApi.{ConfiguredNodeRef}
use reorg_playground.PeerApi.Matching.Entries.{Entries}
use reorg_playground.PeerApi.Matching.{push_owner, dedup_after, unique_owner, unique_ports}

-- The owners of the ports, and what is known of a port's only owner.
abbrev pub Owned : ℕ → ConfiguredNodeRef → Map (List ConfiguredNodeRef) → Type 0
Owned port node m =
    (owners : List ConfiguredNodeRef) × (get port m ≡ some owners) × Any (λ o. o ≡ node) owners

get-push_owner :
    (port p : ℕ) (node : ConfiguredNodeRef) (m : Map (List ConfiguredNodeRef))
    → get p (push_owner port node m) ≡ (
        if port == p
        then some (elim (get port m) [ none ↦ node ∷ [] | some owners ↦ owners ++ node ∷ [] ])
        else get p m)
unfolding push_owner
get-push_owner port p node [] = refl
get-push_owner port p node ((other, owners) ∷ m) = ground (arith, get-push_owner port p node m)

Any-append_left :
    (P : ConfiguredNodeRef → Type 0) (xs ys : List ConfiguredNodeRef) → Any P xs → Any P (xs ++ ys)
Any-append_left P [] ys some_x = absurd some_x
Any-append_left P (x ∷ xs) ys (inl here) = inl here
Any-append_left P (x ∷ xs) ys (inr later) = inr (Any-append_left P xs ys later)

Any-append_right :
    (P : ConfiguredNodeRef → Type 0) (xs ys : List ConfiguredNodeRef) → Any P ys → Any P (xs ++ ys)
Any-append_right P [] ys some_y = some_y
Any-append_right P (x ∷ xs) ys some_y = inr (Any-append_right P xs ys some_y)

All-append :
    (P : ConfiguredNodeRef → Type 0) (xs ys : List ConfiguredNodeRef)
    → All P xs
    → All P ys
    → All P (xs ++ ys)
All-append P [] ys a b = b
All-append P (x ∷ xs) ys a b = (a.0, All-append P xs ys a.1 b)

abbrev pub AllOwners : (ℕ → ConfiguredNodeRef → Type 0) → Map (List ConfiguredNodeRef) → Type 0
AllOwners R = Entries (λ port owners. All (R port) owners)

pub AllOwners-push_owner :
    (R : ℕ → ConfiguredNodeRef → Type 0) (port : ℕ) (node : ConfiguredNodeRef)
    (m : Map (List ConfiguredNodeRef))
    → AllOwners R m
    → R port node
    → AllOwners R (push_owner port node m)
AllOwners-push_owner R port node m all new p owners e = elim (Bool-cases (port == p)) [
  | inr other ↦ all p owners (rw (get-push_owner port p node m, other) at e)
  | inl same ↦
      let at_p : port ≡ p = (==_iff port p).0 same in
      rw (← at_p) (elim (Option-cases (get port m)) [
        | inl fresh ↦
            let alone : node ∷ [] ≡ owners =
              some_eq (rw (get-push_owner port p node m, same, fresh) at e) in
            rw (← alone) (new, tt)
        | inr (before, known) ↦
            let more : before ++ node ∷ [] ≡ owners =
              some_eq (rw (get-push_owner port p node m, same, known) at e) in
            rw (← more) (All-append (R port) before (node ∷ []) (all port before known) (new, tt))
      ])
]

pub Owned-push_owner :
    (port : ℕ) (node : ConfiguredNodeRef) (m : Map (List ConfiguredNodeRef))
    → Owned port node (push_owner port node m)
Owned-push_owner port node m =
    let same : (port == port) ≡ true = (==_iff port port).1 refl in
    elim (Option-cases (get port m)) [
      | inl fresh ↦ (node ∷ [], rw (get-push_owner port port node m, same, fresh) refl, inl refl)
      | inr (before, known) ↦ (
        before ++ node ∷ [],
        rw (get-push_owner port port node m, same, known) refl,
        Any-append_right _ before (node ∷ []) (inl refl),
      )
    ]

pub Owned-kept :
    (p port : ℕ) (other node : ConfiguredNodeRef) (m : Map (List ConfiguredNodeRef))
    → Owned p other m
    → Owned p other (push_owner port node m)
Owned-kept p port other node m (owners, at, among) = elim (Bool-cases (port == p)) [
  | inr away ↦ (owners, rw (get-push_owner port p node m, away) at, among)
  | inl same ↦
      let at_p : port ≡ p = (==_iff port p).0 same in
      let known : get port m ≡ some owners = rw at_p at in
      (
        owners ++ node ∷ [],
        rw (get-push_owner port p node m, same, known) refl,
        Any-append_left _ owners (node ∷ []) among,
      )
]

-- The only owner of a port is an owner, and no other id is among the owners.
dedup_after-nil :
    (previous : ConfiguredNodeRef) (owners : List ConfiguredNodeRef)
    → dedup_after previous owners ≡ []
    → All (λ o. o.id ≡ previous.id) owners
dedup_after-nil previous [] e = tt
dedup_after-nil previous (owner ∷ owners) e = elim (Bool-cases (owner.id == previous.id)) [
  | inl same ↦ ((==_iff _ _).0 same, dedup_after-nil previous owners (rw (same, dedup_after) at e))
  | inr other ↦ absurd (cc (rw (other, dedup_after) at e))
]

pub unique_owner_lem :
    (P : ConfiguredNodeRef → Type 0) (owners : List ConfiguredNodeRef) (owner : ConfiguredNodeRef)
    → unique_owner owners ≡ some owner
    → All P owners
    → P owner × All (λ o. o.id ≡ owner.id) owners
unfolding unique_owner
unique_owner_lem P owners owner e all =
    let sorted = sort_by_key (λ o. o.id) owners in
    let at_sorted = All-sort_by_key (λ o. o.id) P owners all in
    elim (List-cases sorted) [
      | inl nobody ↦ absurd (cc (rw (nobody, unique_owner) at e))
      | inr (first, rest, some_first) ↦ elim (List-cases (dedup_after first rest)) [
        | inr (next, others, several) ↦ absurd (cc (rw (some_first, several, unique_owner) at e))
        | inl alone ↦
            let same : first ≡ owner = some_eq (rw (some_first, alone, unique_owner) at e) in
            let (at_first, _) = subst (λ l. All P l) some_first at_sorted in
            let ids : All (λ o. o.id ≡ first.id) (first ∷ rest) =
              (refl, dedup_after-nil first rest alone) in
            (
              subst P same at_first,
              subst (λ (o : ConfiguredNodeRef). All (λ (x : ConfiguredNodeRef). x.id ≡ o.id) owners)
                  same
                  (All_of_sort_by_key (λ o. o.id) (λ o. o.id ≡ first.id) owners
                    (subst (λ l. All (λ (o : ConfiguredNodeRef). o.id ≡ first.id) l)
                      (sym some_first) ids)),
            )
      ]
    ]

-- Each key has one entry.
abbrev pub IsKeyed : Map (List ConfiguredNodeRef) → Type 0
IsKeyed [] = Unit
IsKeyed ((port, owners) ∷ m) = (get port m ≡ none) × IsKeyed m

pub push_owner-IsKeyed :
    (port : ℕ) (node : ConfiguredNodeRef) (m : Map (List ConfiguredNodeRef))
    → IsKeyed m
    → IsKeyed (push_owner port node m)
unfolding push_owner
push_owner-IsKeyed port node [] keyed = (refl, tt)
push_owner-IsKeyed port node ((other, owners) ∷ m) (fresh, keyed) =
    elim (Bool-cases (other == port)) [
      | inl same ↦ rw (same, push_owner) (fresh, keyed)
      | inr differs ↦
          let apart : (port == other) ≡ false = ground arith in
          rw (differs, push_owner)
            (
              rw (get-push_owner port other node m, apart) fresh,
              push_owner-IsKeyed port node m keyed,
            )
    ]

pub get-unique_ports :
    (port : ℕ) (node : ConfiguredNodeRef) (m : Map (List ConfiguredNodeRef))
    → IsKeyed m
    → get port (unique_ports m) ≡ some node
    → (owners : List ConfiguredNodeRef) × (get port m ≡ some owners)
      × (unique_owner owners ≡ some node)
unfolding unique_ports
get-unique_ports port node [] keyed e = absurd (cc)
get-unique_ports port node ((p, owners) ∷ m) (fresh, keyed) e = elim (Bool-cases (p == port)) [
  | inl same ↦
      let at_port : p ≡ port = (==_iff p port).0 same in
      elim (Option-cases (unique_owner owners)) [
        | inl several ↦
            let (later, at, only) =
              get-unique_ports port node m keyed (rw (several, unique_ports) at e) in
            absurd (cc (fresh, at, at_port))
        | inr (owner, only) ↦
            let found : owner ≡ node = some_eq (rw (only, same, unique_ports) at e) in
            (owners, rw same refl, only ∙ ap some found)
      ]
  | inr differs ↦
      let (later, at, only) =
        get-unique_ports port node m keyed (elim (Option-cases (unique_owner owners)) [
          | inl several ↦ rw (several, unique_ports) at e
          | inr (owner, one) ↦ rw (one, differs, unique_ports) at e
        ]) in
      (later, rw differs at, only)
]
