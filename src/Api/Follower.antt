-- ===== src/Api/Follower.antt =====
-- The middleware leaderRedirect of internal/api/server.go: which node a write reaches.
use selfcloud.Base.{
  ap, ◌∙◌, sym, subst, ◌≢◌, ◌<>◌, List, [], ◌∷◌, arith, str_eq_iff, none, Option, Option-cases,
  Result-cases, Any, String, ◌≡◌, refl, Bool, true, false, not, ◌&&◌, ◌||◌, ◌⊎◌, inl, inr, some,
  str_eq, ok, Bool-cases,
}
use selfcloud.Store.Deps.{Deps}
use selfcloud.Store.Core.{Store}
use selfcloud.Store.Types.{Node}
use selfcloud.Store.Typed.{list_nodes}
use selfcloud.Api.Reply.{failed, redirected, Handled}
use selfcloud.Api.Guard.{
  Request, LeaderView, is_read, exempt, redirect_to, follower_reply, leader_redirect,
  leader_api_addr, leader_node, found_address, api_address_of,
}

one_of : (a b c : Bool) → a || b || c ≡ true → (c ≡ true) ⊎ (a ≡ true) ⊎ (b ≡ true)
one_of true b c h = inr (inl refl)
one_of false true c h = inr (inr refl)
one_of false false c h = inl h

none_of : (a b c : Bool) → a || b || c ≡ false → (a ≡ false) × (b ≡ false) × (c ≡ false)
none_of a b c h = (ground (arith, h), ground (arith, h), ground (arith, h))

module _ {d : Deps} (A : Type 0) (s : Store d) (r : Request) where
  -- a stored node whose raft address is the leader's, and that has an address of its API
  abbrev pub LeaderNode : String → Node → Type 0
  LeaderNode raft_addr n =
      ((nodes : List Node) × (list_nodes s ≡ ok nodes) × Any (λ m. m ≡ n) nodes)
      × (n.raft_address ≡ raft_addr)
      × (n.api_address ≢ "")

  -- what a follower does: it waits for a leader, it does not know where that is, or it redirects
  abbrev pub Follows : String → Handled d A → Type 0
  Follows raft_addr h =
      ((raft_addr ≡ "") × (h ≡ (s, failed 503 "no raft leader yet")))
      ⊎ ((raft_addr ≢ "")
          × ((n : Node) → ¬ LeaderNode raft_addr n)
          × (h ≡ (s, failed 503 "leader api address unknown")))
      ⊎ ((raft_addr ≢ "")
          × ((n : Node) × LeaderNode raft_addr n
              × (h ≡ (s, redirected (("https://" <> n.api_address) <> r.uri)))))

  leader_node_ok :
      (raft_addr : String) (nodes : List Node) (n : Node)
      → leader_node raft_addr nodes ≡ some n
      → Any (λ m. m ≡ n) nodes × (n.raft_address ≡ raft_addr) × (n.api_address ≢ "")
  unfolding leader_node
  leader_node_ok raft_addr [] n h = absurd (ground arith)
  leader_node_ok raft_addr (m ∷ nodes) n h =
      elim (Bool-cases (str_eq m.raft_address raft_addr && not (str_eq m.api_address ""))) [
        | inl e ↦
            let same : m ≡ n = ground (arith, e, h) in
            (
              inl same,
              rw (← same) (ground (arith, e, str_eq_iff m.raft_address raft_addr)),
              rw (← same) (λ bare. absurd (ground (arith, e, str_eq_iff m.api_address "", bare))),
            )
        | inr e ↦
            let (found, led, addressed) = leader_node_ok raft_addr nodes n (rw e at h) in
            (inr found, led, addressed)
      ]

  leader_node-none :
      (raft_addr : String) (nodes : List Node) (n : Node)
      → leader_node raft_addr nodes ≡ none
      → Any (λ m. m ≡ n) nodes
      → n.raft_address ≡ raft_addr
      → ¬ (n.api_address ≢ "")
  unfolding leader_node
  leader_node-none raft_addr [] n h a led addressed = absurd a
  leader_node-none raft_addr (m ∷ nodes) n h a led addressed =
      elim (Bool-cases (str_eq m.raft_address raft_addr && not (str_eq m.api_address ""))) [
        | inl e ↦ absurd (ground (arith, e, h))
        | inr e ↦ elim a [
          | inl same ↦
              let led' : str_eq m.raft_address raft_addr ≡ true =
                (str_eq_iff m.raft_address raft_addr).1
                  (ap (λ (x : Node). x.raft_address) same ∙ led) in
              elim (Bool-cases (str_eq m.api_address "")) [
                | inl y ↦ addressed (
                    ap (λ (x : Node). x.api_address) (sym same) ∙ (str_eq_iff m.api_address "").0 y)
                | inr y ↦ absurd (ground (arith, e, led', y))
              ]
          | inr more ↦ leader_node-none raft_addr nodes n (rw e at h) more led addressed
        ]
      ]

  -- the address that is found is that of such a node, or empty when there is none
  leader_api_addr_cases :
      (raft_addr : String)
      → ((leader_api_addr s raft_addr ≡ "") × ((n : Node) → ¬ LeaderNode raft_addr n))
        ⊎ ((n : Node) × LeaderNode raft_addr n × (leader_api_addr s raft_addr ≡ n.api_address))
  unfolding leader_api_addr found_address api_address_of
  leader_api_addr_cases raft_addr = elim (Result-cases (list_nodes s)) [
    | inr (e, h) ↦ inl (rw h refl, λ n at. absurd (ground (arith, h, at.0.1)))
    | inl (nodes, h) ↦ elim (Option-cases (leader_node raft_addr nodes)) [
      | inl x ↦ inl (
        rw (h, x) refl,
        λ n ((others, listed, found), led, addressed).
            let same : others ≡ nodes = ground (arith, h, listed) in
            leader_node-none raft_addr nodes n x (rw same at found) led addressed,
      )
      | inr (n, x) ↦
          let (found, led, addressed) = leader_node_ok raft_addr nodes n x in
          inr (n, ((nodes, h, found), led, addressed), rw (h, x) refl)
    ]
  ]

  follower_reply-Follows : (raft_addr : String) → Follows raft_addr (follower_reply s r raft_addr)
  unfolding follower_reply redirect_to
  follower_reply-Follows raft_addr = elim (Bool-cases (str_eq raft_addr "")) [
    | inl e ↦ rw e (inl ((str_eq_iff raft_addr "").0 e, refl))
    | inr e ↦
        let named : raft_addr ≢ "" = λ x. absurd (ground (arith, e, str_eq_iff raft_addr "", x)) in
        elim (leader_api_addr_cases raft_addr) [
          | inl (x, nobody) ↦ rw (e, x) (inr (inl (named, nobody, refl)))
          | inr (n, at, x) ↦
              let addressed : str_eq n.api_address "" ≡ false =
                elim (Bool-cases (str_eq n.api_address "")) [
                  | inl y ↦ absurd (at.2 ((str_eq_iff n.api_address "").0 y))
                  | inr y ↦ y
                ] in
              rw (e, x, addressed) (inr (inr (named, (n, at, refl))))
        ]
  ]

  -- On a node that does not lead, a write to a path that is not exempt leaves the store as it is:
  -- the reply is 503 when no leader is known or no stored node has its raft address and an address
  -- of the API, and else a redirect to the address of the API of such a node. A read, a request to an exempt path, and every request on the leader or
  -- without raft go to the handler.
  pub leader_redirect_cases :
      (raft : Option LeaderView) (next : Store d → Handled d A)
      → ((view : LeaderView) × (raft ≡ some view)
          × (view.leads ≡ false)
          × (is_read r.verb ≡ false)
          × (exempt r.path ≡ false)
          × Follows view.leader_addr (leader_redirect s raft r next))
        ⊎ (((raft ≡ none)
              ⊎ ((view : LeaderView) × (raft ≡ some view)
                  × ((view.leads ≡ true) ⊎ (is_read r.verb ≡ true) ⊎ (exempt r.path ≡ true))))
            × (leader_redirect s raft r next ≡ next s))
  unfolding leader_redirect
  leader_redirect_cases none next = inr (inl refl, refl)
  leader_redirect_cases (some view) next =
      elim (Bool-cases (is_read r.verb || exempt r.path || view.leads)) [
        | inl e ↦
            inr (inr (view, refl, one_of (is_read r.verb) (exempt r.path) view.leads e), rw e refl)
        | inr e ↦
            let (x, y, z) = none_of (is_read r.verb) (exempt r.path) view.leads e in
            let same : leader_redirect s (some view) r next ≡ follower_reply s r view.leader_addr =
              rw e refl in
            inl (
              view,
              refl,
              z,
              x,
              y,
              subst (Follows view.leader_addr) (sym same) (follower_reply-Follows view.leader_addr),
            )
      ]
