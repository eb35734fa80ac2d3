-- ===== src/Rest/Preorder.antt =====
-- The contents of a book in the order in which a reader meets them (internal/api/rest.go).
use mercury_relay.Prelude.{
  ℕ, zero, suc, ◌+◌, ◌-◌, ◌≤◌, str_eq, ◌≡◌, refl, sym, ◌∙◌, ap, Bool, inl, inr, none, some, List,
  [], ◌∷◌, ◌++◌, append-nil, append_assoc, ℤ, pos, length, ltb, ltb_ℤ, arith, Option-cases,
  Bool-cases, if◌then◌else◌,
}
use mercury_relay.Prelude.Json.{Stdlib}
use mercury_relay.Models.Event.{Event}
use mercury_relay.Cache.Redis.{d_tag}
use mercury_relay.Rest.Structure.{
  ContentNode, Tree, node, Forest, leaf, grow, Spine, pop, pop_to, add_child, push_child, place,
  closed, count_dashes, content_node, decoded_object, place_all, content_less, build_book_structure,
}

abbrev mutual
  pub preorder_tree : {N : Type 0} → Tree N → List N
  preorder_tree (node n children) = n ∷ preorder children

  pub preorder : {N : Type 0} → Forest N → List N
  preorder leaf = []
  preorder (grow trees tree) = preorder trees ++ preorder_tree tree

module _ {N : Type 0} where
  -- The open nodes with what they have so far, the outermost first.
  abbrev pub preorder_open : List (N × Forest N) → List N
  preorder_open [] = []
  preorder_open ((n, children) ∷ rest) = preorder_open rest ++ n ∷ preorder children

  abbrev pub preorder_spine : Spine N → List N
  preorder_spine s = preorder s.root ++ preorder_open s.open_nodes

  popped :
      (root : Forest N) (open_nodes : List (N × Forest N))
      → let s : Spine N = record { root = root; open_nodes = open_nodes } in
        preorder_spine (pop s) ≡ preorder_spine s
  unfolding pop
  popped root [] = refl
  popped root ((n, children) ∷ []) = rw append-nil refl
  popped root ((n, children) ∷ (below, siblings) ∷ rest) =
      rw (append_assoc (preorder_open rest) (below ∷ preorder siblings) (n ∷ preorder children))
        refl

  preorder_spine-pop_to :
      (fuel depth : ℕ) (s : Spine N) → preorder_spine (pop_to fuel depth s) ≡ preorder_spine s
  unfolding pop_to
  preorder_spine-pop_to zero depth s = refl
  preorder_spine-pop_to (suc fuel) depth s =
      elim (Bool-cases (ltb (depth + 1) (length s.open_nodes + 1))) [
        | inl e ↦
            rw (pop_to, e) (preorder_spine-pop_to fuel depth (pop s) ∙ popped s.root s.open_nodes)
        | inr e ↦ rw (pop_to, e) refl
      ]

  length-pop : (s : Spine N) → length (pop s).open_nodes ≡ length s.open_nodes - 1
  unfolding pop
  length-pop s = ground arith

  -- The loop leaves as many nodes on the stack as the depth allows.
  length-pop_to :
      (fuel depth : ℕ) (s : Spine N)
      → length s.open_nodes ≤ fuel
      → length (pop_to fuel depth s).open_nodes ≤ depth
  unfolding pop_to
  length-pop_to zero depth s h = omega arith
  length-pop_to (suc fuel) depth s h =
      ground (arith, length-pop s, length-pop_to fuel depth (pop s))

  preorder_spine-add_child :
      (n : N) (root : Forest N) (open_nodes : List (N × Forest N))
      → let s : Spine N = record { root = root; open_nodes = open_nodes } in
        preorder_spine (add_child n s) ≡ preorder_spine s ++ n ∷ []
  unfolding add_child
  preorder_spine-add_child n root [] = simp append-nil
  preorder_spine-add_child n root ((top, children) ∷ rest) =
      rw
        (
          append_assoc (preorder root) (preorder_open rest ++ top ∷ preorder children) (n ∷ []),
          append_assoc (preorder_open rest) (top ∷ preorder children) (n ∷ []),
        )
        refl

  preorder_spine-push_child :
      (n : N) (s : Spine N) → preorder_spine (push_child n s) ≡ preorder_spine s ++ n ∷ []
  unfolding push_child
  preorder_spine-push_child n s =
      sym (append_assoc (preorder s.root) (preorder_open s.open_nodes) (n ∷ []))

  preorder_spine-place :
      (max_depth : ℤ) (depth : ℕ) (n : N) (s : Spine N)
      → preorder_spine (place max_depth depth n s) ≡ preorder_spine s ++ n ∷ []
  unfolding place
  preorder_spine-place max_depth depth n s =
      let s' = pop_to (length s.open_nodes) depth s in
      let same = preorder_spine-pop_to (length s.open_nodes) depth s in
      elim (Bool-cases (ltb_ℤ (pos depth) max_depth)) [
        | inl e ↦ rw (place, e) (preorder_spine-push_child n s' ∙ ap (λ l. l ++ n ∷ []) same)
        | inr e ↦
            rw (place, e)
              (preorder_spine-add_child n s'.root s'.open_nodes ∙ ap (λ l. l ++ n ∷ []) same)
      ]

  only_root :
      (root : Forest N) (open_nodes : List (N × Forest N))
      → length open_nodes ≤ 0
      → preorder root ≡ preorder root ++ preorder_open open_nodes
  only_root root [] h = sym (append-nil (preorder root))
  only_root root (n ∷ rest) h = absurd (omega arith)

  preorder-closed : (s : Spine N) → preorder (closed s) ≡ preorder_spine s
  unfolding closed
  preorder-closed s =
      let s' = pop_to (length s.open_nodes) 0 s in
      only_root s'.root s'.open_nodes (length-pop_to (length s.open_nodes) 0 s (omega arith))
      ∙ preorder_spine-pop_to (length s.open_nodes) 0 s

module _ {F : Type 0} (lib : Stdlib F) where
  -- The nodes of the events that have a "d" tag and an object as their content, in order.
  abbrev pub content_nodes : List (Event F) → List (ContentNode F)
  content_nodes [] = []
  content_nodes (e ∷ events) =
      let rest = content_nodes events in
      if str_eq (d_tag e.tags) "" then rest else elim (decoded_object lib e.content) [
        | none ↦ rest
        | some content ↦ content_node lib e content ∷ rest
      ]

  preorder_spine-place_all :
      (max_depth : ℤ) (events : List (Event F)) (s : Spine (ContentNode F))
      → preorder_spine (place_all lib max_depth events s) ≡ preorder_spine s ++ content_nodes events
  unfolding place_all
  preorder_spine-place_all max_depth [] s = sym (append-nil (preorder_spine s))
  preorder_spine-place_all max_depth (e ∷ events) s = elim (Bool-cases (str_eq (d_tag e.tags) "")) [
    | inl empty ↦ rw (place_all, empty) (preorder_spine-place_all max_depth events s)
    | inr tagged ↦ elim (Option-cases (decoded_object lib e.content)) [
      | inl failed ↦ rw (place_all, tagged, failed) (preorder_spine-place_all max_depth events s)
      | inr (content, read) ↦
          let depth = count_dashes (d_tag e.tags) in
          let n = content_node lib e content in
          rw (place_all, tagged, read)
            (preorder_spine-place_all max_depth events (place max_depth depth n s)
              ∙ ap (λ l. l ++ content_nodes events) (preorder_spine-place max_depth depth n s)
              ∙ append_assoc (preorder_spine s) (n ∷ []) (content_nodes events))
    ]
  ]

  -- Read in preorder, the structure of a book holds exactly the contents that have a "d" tag and
  -- decode, each once and in the order of the sort, whatever their depths and the depth asked for.
  pub preorder-build_book_structure :
      (sort : (Event F → Event F → Bool) → List (Event F) → List (Event F))
      (events : List (Event F)) (max_depth : ℤ)
      → preorder (build_book_structure lib sort events max_depth)
        ≡ content_nodes (sort content_less events)
  unfolding build_book_structure
  preorder-build_book_structure sort events max_depth =
      let s =
        place_all lib max_depth (sort content_less events)
          (record { root = leaf; open_nodes = [] }) in
      preorder-closed s
      ∙ preorder_spine-place_all max_depth (sort content_less events)
          (record { root = leaf; open_nodes = [] })
