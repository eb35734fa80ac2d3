-- ===== src/Access/Follows.antt =====
-- Who may write after the follow list was loaded (internal/access/controller.go).
use mercury_relay.Prelude.{
  ℕ, String, str_eq, ◌≡◌, refl, ◌↔◌, ◌⊎◌, inl, inr, Bool, true, false, Option, none, some, List, [],
  ◌∷◌, arith, Any, any, eq_refl, Dict, lookup, lookup-nil, lookup-insert, if◌then◌else◌, eq_iff,
  Option-cases,
}
use mercury_relay.Prelude.Json
use mercury_relay.Prelude.Json.{Json, Fields, Stdlib, get, as_array, as_object, as_string}
use mercury_relay.Access.{
  Controller, Response, response, LoadError, can_write, load_tag, load_tags, tags_of_event,
  load_events, decode_events, load_follow_list,
}

module _ {F : Type 0} where
  -- `["p", npub, ...]`
  pub record IsPTag (npub : String) (tag : Json F) : Type 0 where
    pub more : List (Json F)
    pub shape : as_array tag ≡ some (Json.str "p" ∷ Json.str npub ∷ more)

  -- `["EVENT", subscription, {"tags": tags, ...}, ...]` with a tag that names the author.
  pub record EventNames (npub : String) (event : Json F) : Type 0 where
    pub subscription : Json F
    pub fields : Fields F
    pub more : List (Json F)
    pub tag_list : Json F
    pub tags : List (Json F)
    pub shape : as_array event ≡ some (Json.str "EVENT" ∷ subscription ∷ Json.obj fields ∷ more)
    pub has_tags : get "tags" fields ≡ some tag_list
    pub is_list : as_array tag_list ≡ some tags
    pub named : Any (IsPTag npub) tags

  -- The same as a test of the two first elements.
  abbrev pair_names : String → Option (List (Json F)) → Bool
  pair_names npub (some (t ∷ v ∷ more)) = elim (as_string t) [
    | none ↦ false
    | some tag_type ↦
        if str_eq tag_type "p"
        then elim (as_string v) [ none ↦ false | some name ↦ str_eq name npub ]
        else false
  ]
  pair_names npub _ = false

  abbrev names : String → Json F → Bool
  names npub tag = pair_names npub (as_array tag)

  names_only : (npub : String) (tag : Json F) → names npub tag ≡ true → IsPTag npub tag
  names_only npub (Json.arr (Json.cons (Json.str t) (Json.cons (Json.str v) js))) h = record {
    more = Json.to_list js;
    shape = ground (arith, eq_iff t "p", eq_iff v npub);
  }
  names_only npub tag h = ground arith

  names_all : (npub : String) (tag : Json F) → IsPTag npub tag → names npub tag ≡ true
  names_all npub tag h = rw h.shape (eq_refl npub)

  lookup-load_tag :
      (npub : String) (tag : Json F) (m : Dict Bool)
      → lookup npub (load_tag tag m) ≡ (if names npub tag then some true else lookup npub m)
  unfolding load_tag
  lookup-load_tag npub (Json.arr (Json.cons (Json.str t) (Json.cons (Json.str v) js))) m =
      ground (arith, lookup-insert v npub true m)
  lookup-load_tag npub tag m = ground arith

  lookup-load_tags :
      (npub : String) (tags : List (Json F)) (m : Dict Bool)
      → lookup npub (load_tags tags m)
        ≡ (if any (names npub) tags then some true else lookup npub m)
  unfolding load_tags
  lookup-load_tags npub [] m = refl
  lookup-load_tags npub (tag ∷ tags) m =
      rw (lookup-load_tags npub tags (load_tag tag m), lookup-load_tag npub tag m) (ground arith)

  lookup-load_events :
      (npub : String) (events : List (Json F)) (m : Dict Bool)
      → lookup npub (load_events events m) ≡ (
          if any (λ e. any (names npub) (tags_of_event e)) events then some true else lookup npub m)
  unfolding load_events
  lookup-load_events npub [] m = refl
  lookup-load_events npub (e ∷ events) m =
      rw
        (
          lookup-load_events npub events (load_tags (tags_of_event e) m),
          lookup-load_tags npub (tags_of_event e) m,
        )
        (ground arith)

  any-names :
      (npub : String) (tags : List (Json F))
      → (any (names npub) tags ≡ true) ↔ Any (IsPTag npub) tags
  any-names npub [] = ground arith
  any-names npub (tag ∷ tags) =
      ground (arith, any-names npub tags, names_only npub tag, names_all npub tag)

  -- The list under "tags", or none.
  abbrev tags_field : Fields F → List (Json F)
  tags_field fs = elim (get "tags" fs) [
    | none ↦ []
    | some tags ↦ elim (as_array tags) [ none ↦ [] | some ts ↦ ts ]
  ]

  tags_found :
      (npub : String) (fs : Fields F)
      → any (names npub) (tags_field fs) ≡ true
      → (list : Json F) × (get "tags" fs ≡ some list)
        × (tags : List (Json F)) × (as_array list ≡ some tags)
        × (any (names npub) tags ≡ true)
  tags_found npub fs h = elim (Option-cases (get "tags" fs)) [
    | inl e ↦ ground arith
    | inr (list, e) ↦ elim (Option-cases (as_array list)) [
      | inl f ↦ ground arith
      | inr (tags, f) ↦ (list, e, tags, f, ground arith)
    ]
  ]

  test_true :
      (b : Bool) (npub : String) (ts : List (Json F))
      → any (names npub) (if b then ts else []) ≡ true
      → (b ≡ true) × (any (names npub) ts ≡ true)
  test_true true npub ts h = (refl, h)
  test_true false npub ts h = cc

  EventNames-only :
      (npub : String) (e : Json F) → any (names npub) (tags_of_event e) ≡ true → EventNames npub e
  unfolding tags_of_event
  EventNames-only npub
        (Json.arr (Json.cons (Json.str t) (Json.cons sub (Json.cons (Json.obj fs) js)))) h =
      let (at, rest) = test_true (str_eq t "EVENT") npub (tags_field fs) h in
      let (list, get_tags, tags, as_tags, named) = tags_found npub fs rest in
      record {
        subscription = sub;
        fields = fs;
        more = Json.to_list js;
        tag_list = list;
        tags = tags;
        shape = ground (arith, eq_iff t "EVENT");
        has_tags = get_tags;
        is_list = as_tags;
        named = (any-names npub tags).0 named;
      }
  EventNames-only npub e h = ground arith

  EventNames-all :
      (npub : String) (e : Json F) → EventNames npub e → any (names npub) (tags_of_event e) ≡ true
  unfolding tags_of_event
  EventNames-all npub e h =
      ground (arith, h.shape, h.has_tags, h.is_list, (any-names npub h.tags).1 h.named)

  any_events :
      (npub : String) (events : List (Json F))
      → (any (λ e. any (names npub) (tags_of_event e)) events ≡ true) ↔ Any (EventNames npub) events
  any_events npub [] = ground arith
  any_events npub (e ∷ events) =
      ground (arith, any_events npub events, EventNames-only npub e, EventNames-all npub e)

  loaded :
      (lib : Stdlib F) (body : String) (now : ℕ) (a : Controller) (events : List (Json F))
      → decode_events lib body ≡ some events
      → (load_follow_list lib (response 200 body) now a).0
        ≡ record a { allowed_npubs = load_events events []; last_update = some now }
  unfolding load_follow_list
  loaded lib body now a events h = ground arith

  -- After a load that went well, an author may write exactly if public writing is allowed, the
  -- author is the owner, or an event of the answer has a "p" tag with the author's key; whatever
  -- the list was before.
  pub can_write-load_follow_list :
      (lib : Stdlib F) (body : String) (now : ℕ) (a : Controller) (npub : String)
      (events : List (Json F))
      → decode_events lib body ≡ some events
      → (can_write (load_follow_list lib (response 200 body) now a).0 npub ≡ true) ↔ (
          (npub ≡ a.owner_npub)
          ⊎ (a.config.allow_public_write ≡ true)
          ⊎ Any (EventNames npub) events)
  unfolding can_write
  can_write-load_follow_list lib body now a npub events h = rw (loaded lib body now a events h) (
      ground (
        arith,
        lookup-load_events npub events [],
        lookup-nil {V = Bool} npub,
        any_events npub events,
        eq_iff npub a.owner_npub,
      ))

  -- A load that fails leaves the controller as it was, so the old list stays in force.
  pub load_follow_list_failed :
      (lib : Stdlib F) (r : Response) (now : ℕ) (a : Controller) {err : LoadError}
      → (load_follow_list lib r now a).1 ≡ some err
      → (load_follow_list lib r now a).0 ≡ a
  unfolding load_follow_list
  load_follow_list_failed lib r now a h = ground arith
