-- ===== src/External/ListGraph.antt =====
-- A graph as a list of nodes with the indices of their predecessors. It shows that the laws of
-- `External.Petgraph` can hold, and the tests run on it; the program's graph is petgraph's.
use reorg_playground.Prelude.{
  ℕ, zero, suc, ◌+◌, ◌≤◌, ◌<◌, max, ◌≡◌, refl, ap, ◌&&◌, List, [], ◌∷◌, ◌++◌, length, count,
  is_empty, ltb, ◌==◌, if◌then◌else◌, arith, count-append, set_elem,
}
use reorg_playground.External.Petgraph.{DiGraph}

abbrev pub ListGraph : Type 0 → Type 0
ListGraph W = List (W × List ℕ)

abbrev add_source : ℕ → List ℕ → List ℕ
add_source a ps = if 0 == count a ps then a ∷ ps else ps

abbrev replicate : ℕ → ℕ → List ℕ
replicate zero a = []
replicate (suc n) a = a ∷ replicate n a

count-replicate : (n a b : ℕ) → count b (replicate n a) ≡ (if b == a then n else 0)
count-replicate zero a b = ground arith
count-replicate (suc n) a b = ground (arith, count-replicate n a b)

module _ {W : Type 0} where
  abbrev weights_of : ListGraph W → List W
  weights_of [] = []
  weights_of ((w, ps) ∷ g) = w ∷ weights_of g

  abbrev incoming_of : ListGraph W → ℕ → List ℕ
  incoming_of [] c = []
  incoming_of ((w, ps) ∷ g) zero = ps
  incoming_of ((w, ps) ∷ g) (suc c) = incoming_of g c

  abbrev add : ListGraph W → W → ListGraph W
  add g w = g ++ (w, []) ∷ []

  abbrev update : ListGraph W → ℕ → ℕ → ListGraph W
  update [] a b = []
  update ((w, ps) ∷ g) a zero = (w, add_source a ps) ∷ g
  update ((w, ps) ∷ g) a (suc b) = (w, ps) ∷ update g a b

  abbrev set_node : ListGraph W → ℕ → W → ListGraph W
  set_node [] i w = []
  set_node ((v, ps) ∷ g) zero w = (w, ps) ∷ g
  set_node ((v, ps) ∷ g) (suc i) w = (v, ps) ∷ set_node g i w

  abbrev outgoing_from : ℕ → ListGraph W → ℕ → List ℕ
  outgoing_from i [] p = []
  outgoing_from i ((w, ps) ∷ g) p = replicate (count p ps) i ++ outgoing_from (suc i) g p

  abbrev externals_from : ℕ → ListGraph W → List ℕ
  externals_from i [] = []
  externals_from i ((w, ps) ∷ g) =
      if is_empty ps then i ∷ externals_from (suc i) g else externals_from (suc i) g

  pub weights_of-add : (g : ListGraph W) (w : W) → weights_of (add g w) ≡ weights_of g ++ w ∷ []
  weights_of-add [] w = refl
  weights_of-add (x ∷ g) w = ap (λ l. x.0 ∷ l) (weights_of-add g w)

  pub weights_of-update : (g : ListGraph W) (a b : ℕ) → weights_of (update g a b) ≡ weights_of g
  weights_of-update [] a b = refl
  weights_of-update (x ∷ g) a zero = refl
  weights_of-update (x ∷ g) a (suc b) = ap (λ l. x.0 ∷ l) (weights_of-update g a b)

  pub weights_of-set_node :
      (g : ListGraph W) (i : ℕ) (w : W) → weights_of (set_node g i w) ≡ set_elem (weights_of g) i w
  weights_of-set_node [] i w = refl
  weights_of-set_node (x ∷ g) zero w = refl
  weights_of-set_node (x ∷ g) (suc i) w = ap (λ l. x.0 ∷ l) (weights_of-set_node g i w)

  pub incoming_of-set_node :
      (g : ListGraph W) (i : ℕ) (w : W) (c : ℕ) → incoming_of (set_node g i w) c ≡ incoming_of g c
  incoming_of-set_node [] i w c = refl
  incoming_of-set_node (x ∷ g) zero w zero = refl
  incoming_of-set_node (x ∷ g) zero w (suc c) = refl
  incoming_of-set_node (x ∷ g) (suc i) w zero = refl
  incoming_of-set_node (x ∷ g) (suc i) w (suc c) = incoming_of-set_node g i w c

  pub incoming_of_fresh :
      (g : ListGraph W) (c : ℕ) → length (weights_of g) ≤ c → incoming_of g c ≡ []
  incoming_of_fresh [] c h = refl
  incoming_of_fresh (x ∷ g) zero h = absurd (omega arith)
  incoming_of_fresh (x ∷ g) (suc c) h = incoming_of_fresh g c (omega arith)

  pub incoming_of-add :
      (g : ListGraph W) (w : W) (c : ℕ) → incoming_of (add g w) c ≡ incoming_of g c
  incoming_of-add [] w zero = refl
  incoming_of-add [] w (suc c) = refl
  incoming_of-add (x ∷ g) w zero = refl
  incoming_of-add (x ∷ g) w (suc c) = incoming_of-add g w c

  pub incoming_of-update :
      (g : ListGraph W) (a b p c : ℕ)
      → b < length (weights_of g)
      → count p (incoming_of (update g a b) c) ≡ (
          if (p == a) && (c == b)
          then max 1 (count p (incoming_of g c))
          else count p (incoming_of g c))
  incoming_of-update [] a b p c h = absurd (omega arith)
  incoming_of-update (x ∷ g) a zero p zero h = ground arith
  incoming_of-update (x ∷ g) a zero p (suc c) h = ground arith
  incoming_of-update (x ∷ g) a (suc b) p zero h = ground arith
  incoming_of-update (x ∷ g) a (suc b) p (suc c) h = ground (arith, incoming_of-update g a b p c)

  outgoing_below : (i : ℕ) (g : ListGraph W) (p c : ℕ) → c < i → count c (outgoing_from i g p) ≡ 0
  outgoing_below i [] p c h = refl
  outgoing_below i (x ∷ g) p c h = ground (
    arith,
    count-append c (replicate (count p x.1) i) (outgoing_from (suc i) g p),
    count-replicate (count p x.1) i c,
    outgoing_below (suc i) g p c,
  )

  outgoing_from_lem :
      (i : ℕ) (g : ListGraph W) (p c : ℕ)
      → count (i + c) (outgoing_from i g p) ≡ count p (incoming_of g c)
  outgoing_from_lem i [] p c = refl
  outgoing_from_lem i (x ∷ g) p zero = ground (
    arith,
    count-append (i + 0) (replicate (count p x.1) i) (outgoing_from (suc i) g p),
    count-replicate (count p x.1) i (i + 0),
    outgoing_below (suc i) g p (i + 0),
  )
  outgoing_from_lem i (x ∷ g) p (suc c) =
      let e : i + suc c ≡ suc i + c = omega arith in
      ground (
        arith,
        ap (λ k. count k (outgoing_from (suc i) g p)) e,
        outgoing_from_lem (suc i) g p c,
        count-append (i + suc c) (replicate (count p x.1) i) (outgoing_from (suc i) g p),
        count-replicate (count p x.1) i (i + suc c),
      )

  externals_below : (i : ℕ) (g : ListGraph W) (c : ℕ) → c < i → count c (externals_from i g) ≡ 0
  externals_below i [] c h = refl
  externals_below i (x ∷ g) c h = ground (arith, externals_below (suc i) g c)

  externals_from_lem :
      (i : ℕ) (g : ListGraph W) (c : ℕ)
      → count (i + c) (externals_from i g)
        ≡ (if ltb c (length (weights_of g)) && is_empty (incoming_of g c) then 1 else 0)
  externals_from_lem i [] c = ground arith
  externals_from_lem i (x ∷ g) zero = ground (arith, externals_below (suc i) g (i + 0))
  externals_from_lem i (x ∷ g) (suc c) =
      let e : i + suc c ≡ suc i + c = omega arith in
      ground (arith, ap (λ k. count k (externals_from (suc i) g)) e, externals_from_lem (suc i) g c)

  pub incoming_of_out :
      (g : ListGraph W) (p c : ℕ) → count c (outgoing_from 0 g p) ≡ count p (incoming_of g c)
  incoming_of_out g p c = let e : 0 + c ≡ c = omega arith in rw e at (outgoing_from_lem 0 g p c)

  pub externals_lem :
      (g : ListGraph W) (c : ℕ)
      → count c (externals_from 0 g)
        ≡ (if ltb c (length (weights_of g)) && is_empty (incoming_of g c) then 1 else 0)
  externals_lem g c = let e : 0 + c ≡ c = omega arith in rw e at (externals_from_lem 0 g c)

  instance abbrev pub list_graph : DiGraph W (ListGraph W)
  list_graph = record {
    empty = [];
    raw_nodes = weights_of;
    add_node = add;
    update_edge = update;
    incoming = incoming_of;
    outgoing = λ g p. outgoing_from 0 g p;
    externals = externals_from 0;
    set_weight = set_node;
    raw_nodes-empty = refl;
    raw_nodes-add_node = weights_of-add;
    raw_nodes-update_edge = λ g a b _ _. weights_of-update g a b;
    raw_nodes-set_weight = weights_of-set_node;
    incoming-set_weight = incoming_of-set_node;
    incoming_fresh = incoming_of_fresh;
    incoming-add_node = incoming_of-add;
    incoming-update_edge = λ g a b p c _ hb. incoming_of-update g a b p c hb;
    outgoing-incoming = λ g p c. incoming_of_out g p c;
    count-externals = externals_lem;
  }
