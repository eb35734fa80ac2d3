-- ===== src/Quality/Controller/Blocking.antt =====
-- The blocked authors of internal/quality/controller.go.
use mercury_relay.Prelude.{
  String, str_eq, ◌≡◌, Bool, true, false, none, some, List, [], ◌∷◌, arith, elem, lookup,
  lookup-nil, lookup-insert, lookup-erase, elem-keys, if◌then◌else◌,
}
use mercury_relay.Quality.Controller.{
  Controller, block_npub, unblock_npub, is_npub_blocked, get_blocked_npubs,
}

-- What reaches the list of blocked authors.
pub data BlockOp : Type 0 where
  block unblock : String → BlockOp

-- The last operation on an author decides; before any, nobody is blocked. The last one stands first.
abbrev pub last_on : String → List BlockOp → Bool
last_on npub [] = false
last_on npub (block j ∷ ops) = if str_eq j npub then true else last_on npub ops
last_on npub (unblock j ∷ ops) = if str_eq j npub then false else last_on npub ops

module _ {F : Type 0} where
  abbrev pub apply : BlockOp → Controller F → Controller F
  apply (block npub) c = block_npub npub c
  apply (unblock npub) c = unblock_npub npub c

  abbrev pub apply_all : List BlockOp → Controller F → Controller F
  apply_all [] c = c
  apply_all (op ∷ ops) c = apply op (apply_all ops c)

  -- The table after the operations: an author has an entry, which is true, or none.
  pub lookup-apply_all :
      (npub : String) (ops : List BlockOp) (c : Controller F)
      → c.blocked_npubs ≡ []
      → lookup npub (apply_all ops c).blocked_npubs ≡ (if last_on npub ops then some true else none)
  unfolding block_npub unblock_npub
  lookup-apply_all npub [] c h = rw (h, lookup-nil)
  lookup-apply_all npub (block j ∷ ops) c h =
      rw (lookup-insert, lookup-apply_all npub ops c h) (ground arith)
  lookup-apply_all npub (unblock j ∷ ops) c h =
      rw (lookup-erase, lookup-apply_all npub ops c h) (ground arith)

  -- From a controller that blocks nobody, after any blocks and unblocks: an author is blocked
  -- exactly if the last operation on that author is a block, and the list of blocked authors has
  -- exactly these.
  pub is_npub_blocked-apply_all :
      (npub : String) (ops : List BlockOp) (c : Controller F)
      → c.blocked_npubs ≡ []
      → (is_npub_blocked npub (apply_all ops c) ≡ last_on npub ops)
        × (elem npub (get_blocked_npubs (apply_all ops c)) ≡ last_on npub ops)
  unfolding is_npub_blocked get_blocked_npubs
  is_npub_blocked-apply_all npub ops c h = (
    ground (arith, lookup-apply_all npub ops c h),
    rw elem-keys (ground (arith, lookup-apply_all npub ops c h)),
  )
