-- ===== src/Rest/Structure.antt =====
-- `buildBookStructure` of internal/api/rest.go: the tree of a book's contents.
use Prim.Native.Nat.{Ordering}
use Prim.Native.Char.{code}
use Prim.Native.String
use mercury_relay.Prelude.{
  ℕ, zero, suc, ◌+◌, String, str_eq, Bool, true, false, Option, none, some, List, [], ◌∷◌, ℤ, pos,
  ltb, ltb_ℤ, length, ◌==◌, if◌then◌else◌,
}
use mercury_relay.Prelude.Json
use mercury_relay.Prelude.Json.{Json, Fields, Stdlib, get, as_array}
use mercury_relay.Models.Event.{Event}
use mercury_relay.Cache.Redis.{d_tag}

-- A content node without its children.
pub record ContentNode (F : Type 0) : Type 0 where
  pub id : String
  pub title : Option (Json F)
  pub type : Option (Json F)
  pub content : Option (Json F)
  pub format : Option (Json F)
  pub created_at : ℤ
  pub images : Option (List (Json F))

mutual
  pub data Tree (N : Type 0) : Type 0 where
    node : N → Forest N → Tree N

  pub data Forest (N : Type 0) : Type 0 where
    leaf : Forest N
    grow : Forest N → Tree N → Forest N

-- The stack of nodes. The root is at its bottom; above it stand nodes that each are the last child
-- of the one below, the innermost first here, with the children that they have so far and without
-- the one above.
pub record Spine (N : Type 0) : Type 0 where
  pub root : Forest N
  pub open_nodes : List (N × Forest N)

-- `strings.Count(s, "-")`
unfoldable pub count_dashes : String → ℕ
count_dashes String.[] = 0
count_dashes (String.◌∷◌ c s) = let rest = count_dashes s in if code c == 45 then suc rest else rest

-- `a < b` on texts.
abbrev pub text_less : String → String → Bool
text_less a b = elim (String.compare a b) [ Ordering.lt ↦ true | _ ↦ false ]

module _ {N : Type 0} where
  -- The top of the stack is left: it stays the last child of the node below.
  unfoldable pub pop : Spine N → Spine N
  pop s = elim s.open_nodes [
    | [] ↦ s
    | (n, children) ∷ [] ↦ record { root = grow s.root (node n children); open_nodes = [] }
    | (n, children) ∷ (below, siblings) ∷ rest ↦ record s {
      open_nodes = (below, grow siblings (node n children)) ∷ rest;
    }
  ]

  -- `for len(stack) > depth+1 { stack = stack[:len(stack)-1] }`, on fuel for which the length of the
  -- stack is enough.
  unfoldable pub pop_to : ℕ → ℕ → Spine N → Spine N
  unfolding pop
  pop_to zero depth s = s
  pop_to (suc fuel) depth s =
      let rest = pop_to fuel depth (pop s) in
      if ltb (depth + 1) (length s.open_nodes + 1) then rest else s

  -- The node becomes the last child of the top of the stack.
  unfoldable pub add_child : N → Spine N → Spine N
  add_child n s = elim s.open_nodes [
    | [] ↦ record s { root = grow s.root (node n leaf) }
    | (top, children) ∷ rest ↦ record s { open_nodes = (top, grow children (node n leaf)) ∷ rest }
  ]

  -- The same, and it is pushed.
  unfoldable pub push_child : N → Spine N → Spine N
  push_child n s = record s { open_nodes = (n, leaf) ∷ s.open_nodes }

  unfoldable pub place : ℤ → ℕ → N → Spine N → Spine N
  unfolding pop_to add_child push_child
  place max_depth depth n s =
      let s' = pop_to (length s.open_nodes) depth s in
      if ltb_ℤ (pos depth) max_depth then push_child n s' else add_child n s'

  -- What the root holds in the end.
  unfoldable pub closed : Spine N → Forest N
  unfolding pop_to
  closed s = (pop_to (length s.open_nodes) 0 s).root

-- The order of `sortContentEvents`.
unfoldable pub content_less : {F : Type 0} → Event F → Event F → Bool
content_less a b = text_less (d_tag a.tags) (d_tag b.tags)

module _ {F : Type 0} (lib : Stdlib F) where
  -- The object that the content of an event holds; `null` decodes into the nil map.
  unfoldable pub decoded_object : String → Option (Fields F)
  decoded_object text = elim (lib.decode text) [
    | some (Json.obj fs) ↦ some fs
    | some Json.null ↦ some Json.end
    | _ ↦ none
  ]

  unfoldable pub content_node : Event F → Fields F → ContentNode F
  content_node e content = record {
    id = e.id;
    title = get "title" content;
    type = get "type" content;
    content = get "content" content;
    format = get "format" content;
    created_at = e.created_at;
    images = elim (get "images" content) [ none ↦ none | some j ↦ as_array j ];
  }

  -- The loop over the sorted events; one without a "d" tag or an object is passed over.
  unfoldable pub place_all : ℤ → List (Event F) → Spine (ContentNode F) → Spine (ContentNode F)
  unfolding place content_node decoded_object count_dashes
  place_all max_depth [] s = s
  place_all max_depth (e ∷ events) s =
      if str_eq (d_tag e.tags) ""
      then place_all max_depth events s
      else elim (decoded_object e.content) [
        | none ↦ place_all max_depth events s
        | some content ↦
            place_all max_depth events
              (place max_depth (count_dashes (d_tag e.tags)) (content_node e content) s)
      ]

  -- `sort` is `sort.Slice`.
  unfoldable pub build_book_structure :
      ((Event F → Event F → Bool) → List (Event F) → List (Event F))
      → List (Event F)
      → ℤ
      → Forest (ContentNode F)
  unfolding place_all closed content_less
  build_book_structure sort events max_depth =
      closed
        (place_all max_depth (sort content_less events) (record { root = leaf; open_nodes = [] }))
