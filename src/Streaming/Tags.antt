-- ===== src/Streaming/Tags.antt =====
-- What is read back of an event that another relay sends (internal/streaming/upstream.go).
use mercury_relay.Prelude.{String, ◌≡◌, refl, List, [], ◌∷◌}
use mercury_relay.Prelude.Float.{Float}
use mercury_relay.Prelude.Json
use mercury_relay.Prelude.Json.{Json, Fields, Items, get, as_string, as_array}
use mercury_relay.Models.Event.{NostrEvent, Tags, to_nostr_event}
use mercury_relay.Streaming.Messages.{parse_tag, parse_tags, parse_upstream_event}

-- The first two texts of every tag that has two.
abbrev pub pairs : Tags → Tags
pairs [] = []
pairs ((name ∷ value ∷ rest) ∷ tags) = (name ∷ value ∷ []) ∷ pairs tags
pairs (_ ∷ tags) = pairs tags

module _ (R : Float) where
  open R use {F, of_int, trunc}

  abbrev pub texts : List String → Items F
  texts [] = Json.nil
  texts (t ∷ ts) = Json.cons (Json.str t) (texts ts)

  abbrev pub tag_items : Tags → Items F
  tag_items [] = Json.nil
  tag_items (tag ∷ tags) = Json.cons (Json.arr (texts tag)) (tag_items tags)

  -- The JSON object of an event, as NIP-01 has it.
  pub object_of_event : NostrEvent → Fields F
  object_of_event e = Json.entry "id" (Json.str e.id) (
      Json.entry "pubkey" (Json.str e.pub_key) (
        Json.entry "created_at" (Json.num (of_int e.created_at)) (
          Json.entry "kind" (Json.num (of_int e.kind)) (
            Json.entry "tags" (Json.arr (tag_items e.tags)) (
              Json.entry "content" (Json.str e.content)
                (Json.entry "sig" (Json.str e.sig) Json.end))))))

  parse_tags-tag_items : (tags : Tags) → parse_tags (Json.to_list (tag_items tags)) ≡ pairs tags
  unfolding parse_tags parse_tag
  parse_tags-tag_items [] = refl
  parse_tags-tag_items ([] ∷ tags) = parse_tags-tag_items tags
  parse_tags-tag_items ((name ∷ []) ∷ tags) = parse_tags-tag_items tags
  parse_tags-tag_items ((name ∷ value ∷ rest) ∷ tags) = rw (parse_tags-tag_items tags) refl

  -- An event that another relay sends as NIP-01 has it is read back as it was, but of every tag
  -- only the first two texts are kept, and no tag of fewer; the time and the kind must be integers
  -- that a float holds.
  pub parse_upstream_event-object_of_event :
      (e : NostrEvent)
      → trunc (of_int e.created_at) ≡ e.created_at
      → trunc (of_int e.kind) ≡ e.kind
      → to_nostr_event (parse_upstream_event R (object_of_event e))
        ≡ record e { tags = pairs e.tags }
  unfolding parse_upstream_event object_of_event to_nostr_event get
  parse_upstream_event-object_of_event e t k = rw (t, k, parse_tags-tag_items e.tags) refl
